-- ===== src/Service/Quiet.antt =====
-- Actions that only send requests and fill caches: all tables and the event bus stay as they are.
use edx_enterprise_subsidy.Common.{◌≡◌, refl, ◌∙◌, Bool, true, false, if◌then◌else◌}
use edx_enterprise_subsidy.Service.{
  World, Result, ok, err, Exec, Exception, pure, raise, lift, gets, proceed, rescue, catch, swallow,
  ◌>>=◌, call,
}
use edx_enterprise_subsidy.Schema.Remote.{Request}

pub record SameTables (w w' : World) : Type 0 where
  pub transactions : w'.transactions ≡ w.transactions
  pub reversals : w'.reversals ≡ w.reversals
  pub references : w'.references ≡ w.references
  pub deposits : w'.deposits ≡ w.deposits
  pub subsidies : w'.subsidies ≡ w.subsidies
  pub events : w'.events ≡ w.events

pub SameTables-refl : (w : World) → SameTables w w
SameTables-refl w = record {
  transactions = refl;
  reversals = refl;
  references = refl;
  deposits = refl;
  subsidies = refl;
  events = refl;
}

pub SameTables-trans : (u v w : World) → SameTables u v → SameTables v w → SameTables u w
SameTables-trans u v w h k = record {
  transactions = k.transactions ∙ h.transactions;
  reversals = k.reversals ∙ h.reversals;
  references = k.references ∙ h.references;
  deposits = k.deposits ∙ h.deposits;
  subsidies = k.subsidies ∙ h.subsidies;
  events = k.events ∙ h.events;
}

pub record Quiet {A : Type 0} (m : Exec A) : Type 0 where
  pub at : (w : World) → SameTables w (m w).1

module _ {A : Type 0} where
  pub Quiet-pure : (a : A) → Quiet (pure a)
  Quiet-pure a = record { at = SameTables-refl }

  pub Quiet-raise : (e : Exception) → Quiet (raise {A = A} e)
  Quiet-raise e = record { at = SameTables-refl }

  pub Quiet-lift : (r : Result A) → Quiet (lift r)
  Quiet-lift r = record { at = SameTables-refl }

  pub Quiet-gets : (f : World → A) → Quiet (gets f)
  Quiet-gets f = record { at = SameTables-refl }

  pub Quiet-call : (request : Request) (answer : World → Result A) → Quiet (call request answer)
  Quiet-call request answer = record {
    at = λ w. record {
      transactions = refl;
      reversals = refl;
      references = refl;
      deposits = refl;
      subsidies = refl;
      events = refl;
    };
  }

  pub Quiet-if : (b : Bool) (m n : Exec A) → Quiet m → Quiet n → Quiet (if b then m else n)
  Quiet-if true m n hm hn = hm
  Quiet-if false m n hm hn = hn

  proceed-Quiet :
      {B : Type 0} (r : Result A) (f : A → Exec B) (w : World)
      → ((a : A) → Quiet (f a))
      → SameTables w (proceed r f w).1
  proceed-Quiet (ok a) f w h = (h a).at w
  proceed-Quiet (err e) f w h = SameTables-refl w

  pub Quiet-bind :
      {B : Type 0} (m : Exec A) (f : A → Exec B)
      → Quiet m
      → ((a : A) → Quiet (f a))
      → Quiet (m >>= f)
  Quiet-bind m f hm hf = record {
    at = λ w.
        let (r, w') = m w in
        SameTables-trans w w' (proceed r f w').1 (hm.at w) (proceed-Quiet r f w' hf);
  }

  rescue-Quiet :
      (r : Result A) (handler : Exception → Exec A) (w : World)
      → ((e : Exception) → Quiet (handler e))
      → SameTables w (rescue r handler w).1
  rescue-Quiet (ok a) handler w h = SameTables-refl w
  rescue-Quiet (err e) handler w h = (h e).at w

  pub Quiet-catch :
      (m : Exec A) (handler : Exception → Exec A)
      → Quiet m
      → ((e : Exception) → Quiet (handler e))
      → Quiet (catch m handler)
  Quiet-catch m handler hm hh = record {
    at = λ w.
        let (r, w') = m w in
        SameTables-trans w w' (rescue r handler w').1 (hm.at w) (rescue-Quiet r handler w' hh);
  }

pub Quiet-swallow : {A : Type 0} (m : Exec A) → Quiet m → Quiet (swallow m)
Quiet-swallow m h = record { at = λ w. h.at w }

pub ruleset quiet_rules = (
  Quiet-pure, Quiet-raise, Quiet-lift, Quiet-call, Quiet-if, Quiet-bind, Quiet-catch, Quiet-swallow,
  Quiet-gets,
)
