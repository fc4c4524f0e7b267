-- ===== src/Backpopulate/Process.antt =====
-- `process_transaction` of the two commands: it raises nothing, and saves the row with null fields
-- filled in.
use edx_enterprise_subsidy.Common.{◌≡◌, refl, ◌∙◌, ap, inl, inr, String, Bool, Option, none, some}
use mathlib.Core.Path.{subst}
use edx_enterprise_subsidy.Schema.Ledger.{Transaction}
use edx_enterprise_subsidy.Schema.Subsidy.{Subsidy}
use edx_enterprise_subsidy.Service.{
  Env, World, Result, ok, err, Exec, pure, lift, proceed, rescue, catch, ◌>>=◌,
}
use edx_enterprise_subsidy.Service.Quiet.{Quiet, SameTables, SameTables-trans, quiet_rules}
use edx_enterprise_subsidy.Service.Inversion.{bind-ok}
use edx_enterprise_subsidy.ContentMetadata.{get_content_metadata}
use edx_enterprise_subsidy.ContentMetadata.Caching.{get_content_metadata-Quiet}
use edx_enterprise_subsidy.Subsidy.{email_for_learner, title_for_content}
use edx_enterprise_subsidy.Subsidy.Quiet.{email_for_learner-Quiet, title_for_content-Quiet}
use edx_enterprise_subsidy.Unenrollment.{content_or_raise}
use edx_enterprise_subsidy.Backpopulate.{
  if_missing, fill_email, fill_title, fill_parent_content_key, _get_parent_content_key, save_unless,
  process_email_and_title, process_parent_content_key,
}
use edx_enterprise_subsidy.Backpopulate.Fills.{Fills, Fills-refl, Fills-trans}

-- `process` ends as the save of a filled row does, or as nothing does in a dry run
pub record Saves (process : Bool → Transaction → Exec (Unit {0})) (dry_run : Bool) (t : Transaction)
    (w : World) : Type 0 where
  pub filled : Transaction
  pub v : World
  pub fills : Fills t filled
  pub quiet : SameTables w v
  pub saved : process dry_run t w ≡ save_unless dry_run filled v

-- a `try` block that answers with a filled row, and keeps the row where it raises
record Attempted (m : Exec Transaction) (t : Transaction) (w : World) : Type 0 where
  filled : Transaction
  v : World
  fills : Fills t filled
  quiet : SameTables w v
  done : catch m (λ e. pure t) w ≡ (ok filled, v)

ended-Attempted :
    (m : Exec Transaction) (t : Transaction) (w v : World) (r : Result Transaction)
    → m w ≡ (r, v)
    → SameTables w v
    → ((u : Transaction) → r ≡ ok u → Fills t u)
    → Attempted m t w
ended-Attempted m t w v (ok u) e q fills = record {
  filled = u;
  v = v;
  fills = fills u refl;
  quiet = q;
  done = ap (λ x. rescue x.0 (λ e. pure t) x.1) e;
}
ended-Attempted m t w v (err x) e q fills = record {
  filled = t;
  v = v;
  fills = Fills-refl t;
  quiet = q;
  done = ap (λ x. rescue x.0 (λ e. pure t) x.1) e;
}

catch-Attempted :
    (m : Exec Transaction) (t : Transaction) (w : World)
    → Quiet m
    → ((u : Transaction) (v : World) → m w ≡ (ok u, v) → Fills t u)
    → Attempted m t w
catch-Attempted m t w quiet fills =
    let (r, v) = m w in
    ended-Attempted m t w v r refl (quiet.at w) (λ u e. fills u v (λ i. (e i, v)))

abbrev row_of : Transaction → Result Transaction → Transaction
row_of default (ok t) = t
row_of default (err e) = default

kept_same : (t u : Transaction) (w v : World) → pure t w ≡ (ok u, v) → Fills t u
kept_same t u w v e = subst (Fills t) (ap (λ x. row_of t x.0) e) (Fills-refl t)

if_missing-Quiet :
    {A B : Type 0} (a : Option A) (b : Option B) (t : Transaction) (fill : B → Exec Transaction)
    → ((x : B) → Quiet (fill x))
    → Quiet (if_missing a b t fill)
if_missing-Quiet none none t fill h = search quiet_rules
if_missing-Quiet none (some b) t fill h = h b
if_missing-Quiet (some a) b t fill h = search quiet_rules

if_missing-Fills :
    {B : Type 0} (a : Option String) (b : Option B) (t u : Transaction)
    (fill : B → Exec Transaction) (w v : World)
    → (a ≡ none → (x : B) → fill x w ≡ (ok u, v) → Fills t u)
    → if_missing a b t fill w ≡ (ok u, v)
    → Fills t u
if_missing-Fills none none t u fill w v h e = kept_same t u w v e
if_missing-Fills none (some b) t u fill w v h e = h refl b e
if_missing-Fills (some a) b t u fill w v h e = kept_same t u w v e

module _ (env : Env) (subsidy : Subsidy) where
  fill_email-Attempted : (t : Transaction) (w : World) → Attempted (fill_email env subsidy t) t w
  fill_email-Attempted t w =
      catch-Attempted (fill_email env subsidy t) t w
        (if_missing-Quiet t.lms_user_email t.lms_user_id t _
          (λ user. search (quiet_rules, email_for_learner-Quiet)))
        λ u v. if_missing-Fills t.lms_user_email t.lms_user_id t u _ w v λ missing user e.
          let (email, v', _, k) = bind-ok (email_for_learner env subsidy user) _ w e in
          subst (Fills t) (ap (λ x. row_of t x.0) k)
            (record { email = inl missing; title = inr refl; parent = inr refl; rest = refl })

  fill_title-Attempted : (t : Transaction) (w : World) → Attempted (fill_title env subsidy t) t w
  fill_title-Attempted t w =
      catch-Attempted (fill_title env subsidy t) t w
        (if_missing-Quiet t.content_title t.content_key t _
          (λ key. search (quiet_rules, title_for_content-Quiet)))
        λ u v. if_missing-Fills t.content_title t.content_key t u _ w v λ missing key e.
          let (title, v', _, k) = bind-ok (title_for_content env subsidy key) _ w e in
          subst (Fills t) (ap (λ x. row_of t x.0) k)
            (record { email = inr refl; title = inl missing; parent = inr refl; rest = refl })

  fill_parent_content_key-Attempted :
      (t : Transaction) (w : World) → Attempted (fill_parent_content_key env t) t w
  fill_parent_content_key-Attempted t w =
      catch-Attempted (fill_parent_content_key env t) t w
        (if_missing-Quiet t.parent_content_key t.content_key t _
          (λ key. search (quiet_rules, get_content_metadata-Quiet)))
        λ u v. if_missing-Fills t.parent_content_key t.content_key t u _ w v λ missing key e.
          let (found, v1, _, k1) = bind-ok (get_content_metadata env key) _ w e in
          let (content, v2, _, k2) = bind-ok (lift (content_or_raise found)) _ v1 k1 in
          let (parent, v3, _, k) = bind-ok (lift (_get_parent_content_key content)) _ v2 k2 in
          subst (Fills t) (ap (λ x. row_of t x.0) k)
            (record { email = inr refl; title = inr refl; parent = inl missing; rest = refl })

  pub process_email_and_title-Saves :
      (dry_run : Bool) (t : Transaction) (w : World)
      → Saves (λ dry. process_email_and_title env dry subsidy) dry_run t w
  unfolding process_email_and_title
  process_email_and_title-Saves dry_run t w =
      let a = fill_email-Attempted t w in
      let b = fill_title-Attempted a.filled a.v in
      record {
        filled = b.filled;
        v = b.v;
        fills = Fills-trans t a.filled b.filled a.fills b.fills;
        quiet = SameTables-trans w a.v b.v a.quiet b.quiet;
        saved =
            ap
              (λ x.
                proceed x.0
                  (λ u. catch (fill_title env subsidy u) (λ e. pure u) >>= save_unless dry_run) x.1)
              a.done
            ∙ ap (λ x. proceed x.0 (save_unless dry_run) x.1) b.done;
      }

  pub process_parent_content_key-Saves :
      (dry_run : Bool) (t : Transaction) (w : World)
      → Saves (λ dry. process_parent_content_key env dry subsidy) dry_run t w
  unfolding process_parent_content_key
  process_parent_content_key-Saves dry_run t w =
      let a = fill_parent_content_key-Attempted t w in
      record {
        filled = a.filled;
        v = a.v;
        fills = a.fills;
        quiet = a.quiet;
        saved = ap (λ x. proceed x.0 (save_unless dry_run) x.1) a.done;
      }
