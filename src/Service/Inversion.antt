-- ===== src/Service/Inversion.antt =====
-- What a block that returned has gone through.
use edx_enterprise_subsidy.Common.{◌≡◌, refl}
use edx_enterprise_subsidy.Service.{World, Result, ok, err, Exec, proceed, ◌>>=◌}

module _ {A B : Type 0} where
  proceed-ok :
      (r : Result A) (v : World) (f : A → Exec B) {b : B} {w' : World}
      → proceed r f v ≡ (ok b, w')
      → (a : A) × (r ≡ ok a) × (f a v ≡ (ok b, w'))
  proceed-ok (ok a) v f h = (a, refl, h)
  proceed-ok (err e) v f h = cc

  -- a step that returned, and the rest of the block from there
  pub bind-ok :
      (m : Exec A) (f : A → Exec B) (w : World) {b : B} {w' : World}
      → (m >>= f) w ≡ (ok b, w')
      → (a : A) × (v : World) × (m w ≡ (ok a, v)) × (f a v ≡ (ok b, w'))
  bind-ok m f w h =
      let (r, v) = m w in let (a, e, k) = proceed-ok r v f h in (a, v, (λ i. (e i, v)), k)
