-- ===== src/Service/KeepsLedger.antt =====
-- Actions that may write references of external fulfillments, and leave transactions, reversals and
-- the event bus as they are.
use edx_enterprise_subsidy.Common.{◌≡◌, refl, ◌∙◌, Bool, true, false, if◌then◌else◌}
use edx_enterprise_subsidy.Service.{World, Result, ok, err, Exec, proceed, ◌>>=◌}
use edx_enterprise_subsidy.Service.Quiet.{Quiet}

pub record SameLedger (w w' : World) : Type 0 where
  pub transactions : w'.transactions ≡ w.transactions
  pub reversals : w'.reversals ≡ w.reversals
  pub events : w'.events ≡ w.events

SameLedger-trans : (u v w : World) → SameLedger u v → SameLedger v w → SameLedger u w
SameLedger-trans u v w h k = record {
  transactions = k.transactions ∙ h.transactions;
  reversals = k.reversals ∙ h.reversals;
  events = k.events ∙ h.events;
}

pub record KeepsLedger {A : Type 0} (m : Exec A) : Type 0 where
  pub at : (w : World) → SameLedger w (m w).1

module _ {A : Type 0} where
  pub Quiet-KeepsLedger : (m : Exec A) → Quiet m → KeepsLedger m
  Quiet-KeepsLedger m quiet = record {
    at = λ w.
        let q = quiet.at w in
        record { transactions = q.transactions; reversals = q.reversals; events = q.events };
  }

  pub KeepsLedger-if :
      (b : Bool) (m n : Exec A) → KeepsLedger m → KeepsLedger n → KeepsLedger (if b then m else n)
  KeepsLedger-if true m n hm hn = hm
  KeepsLedger-if false m n hm hn = hn

  proceed-KeepsLedger :
      {B : Type 0} (r : Result A) (f : A → Exec B) (w : World)
      → ((a : A) → KeepsLedger (f a))
      → SameLedger w (proceed r f w).1
  proceed-KeepsLedger (ok a) f w h = (h a).at w
  proceed-KeepsLedger (err e) f w h = record {
    transactions = refl;
    reversals = refl;
    events = refl;
  }

  pub KeepsLedger-bind :
      {B : Type 0} (m : Exec A) (f : A → Exec B)
      → KeepsLedger m
      → ((a : A) → KeepsLedger (f a))
      → KeepsLedger (m >>= f)
  KeepsLedger-bind m f hm hf = record {
    at = λ w.
        let (r, w') = m w in
        SameLedger-trans w w' (proceed r f w').1 (hm.at w) (proceed-KeepsLedger r f w' hf);
  }
