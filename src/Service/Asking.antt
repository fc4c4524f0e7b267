-- ===== src/Service/Asking.antt =====
-- Actions that may send queries, and no request that changes what another service holds.
use edx_enterprise_subsidy.Common.{
  ◌≡◌, refl, ◌∙◌, Bool, true, false, not, List, filter, if◌then◌else◌, arith,
}
use edx_enterprise_subsidy.Schema.Remote.{Request}
use edx_enterprise_subsidy.Service.{
  World, Result, ok, err, Exec, Exception, pure, raise, lift, gets, proceed, rescue, catch, ◌>>=◌,
  call,
}

abbrev pub is_query : Request → Bool
is_query (Request.fetch_unenrollments since) = true
is_query (Request.customer_data customer) = true
is_query (Request.content_metadata id) = true
is_query (Request.customer_content_metadata customer id) = true
is_query (Request.user_data user) = true
is_query (Request.bulk_enroll customer enrollments) = false
is_query (Request.cancel_fulfillment id) = false
is_query (Request.create_allocation payload) = false
is_query (Request.cancel_allocation id) = false

-- the requests that enroll, allocate or cancel
abbrev pub commands : World → List Request
commands w = filter (λ r. not (is_query r)) w.requests

abbrev pub SameCommands : World → World → Type 0
SameCommands w w' = commands w' ≡ commands w

pub record Asking {A : Type 0} (m : Exec A) : Type 0 where
  pub at : (w : World) → SameCommands w (m w).1

module _ {A : Type 0} where
  pub Asking-pure : (a : A) → Asking (pure a)
  Asking-pure a = record { at = λ w. refl }

  pub Asking-raise : (e : Exception) → Asking (raise {A = A} e)
  Asking-raise e = record { at = λ w. refl }

  pub Asking-lift : (r : Result A) → Asking (lift r)
  Asking-lift r = record { at = λ w. refl }

  pub Asking-gets : (f : World → A) → Asking (gets f)
  Asking-gets f = record { at = λ w. refl }

  pub Asking-call :
      (request : Request) (answer : World → Result A)
      → is_query request ≡ true
      → Asking (call request answer)
  Asking-call request answer h = record { at = λ w. ground (arith, h) }

  pub Asking-if : (b : Bool) (m n : Exec A) → Asking m → Asking n → Asking (if b then m else n)
  Asking-if true m n hm hn = hm
  Asking-if false m n hm hn = hn

  proceed-Asking :
      {B : Type 0} (r : Result A) (f : A → Exec B) (w : World)
      → ((a : A) → Asking (f a))
      → SameCommands w (proceed r f w).1
  proceed-Asking (ok a) f w h = (h a).at w
  proceed-Asking (err e) f w h = refl

  pub Asking-bind :
      {B : Type 0} (m : Exec A) (f : A → Exec B)
      → Asking m
      → ((a : A) → Asking (f a))
      → Asking (m >>= f)
  Asking-bind m f hm hf = record {
    at = λ w. let (r, w') = m w in proceed-Asking r f w' hf ∙ hm.at w;
  }

  rescue-Asking :
      (r : Result A) (handler : Exception → Exec A) (w : World)
      → ((e : Exception) → Asking (handler e))
      → SameCommands w (rescue r handler w).1
  rescue-Asking (ok a) handler w h = refl
  rescue-Asking (err e) handler w h = (h e).at w

  pub Asking-catch :
      (m : Exec A) (handler : Exception → Exec A)
      → Asking m
      → ((e : Exception) → Asking (handler e))
      → Asking (catch m handler)
  Asking-catch m handler hm hh = record {
    at = λ w. let (r, w') = m w in rescue-Asking r handler w' hh ∙ hm.at w;
  }

pub ruleset asking_rules =
    (Asking-pure, Asking-raise, Asking-lift, Asking-if, Asking-bind, Asking-catch, Asking-gets)
