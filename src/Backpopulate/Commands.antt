-- ===== src/Backpopulate/Commands.antt =====
-- The two commands as a whole: what they may write, and a dry run.
use edx_enterprise_subsidy.Common.{
  ℕ, ◌≤◌, ◌≡◌, refl, ◌∙◌, sym, ap, Bool, true, false, not, ◌||◌, Option, some, List, filter,
}
use mathlib.Core.Path.{subst}
use edx_enterprise_subsidy.Schema.Ledger.{Transaction}
use edx_enterprise_subsidy.Schema.Subsidy.{Subsidy}
use edx_enterprise_subsidy.Service.{Env, World, Exec}
use edx_enterprise_subsidy.Service.Asking.{Asking, SameCommands}
use edx_enterprise_subsidy.Backpopulate.Queries.{
  process_email_and_title-Asking, process_parent_content_key-Asking,
}
use edx_enterprise_subsidy.Service.Quiet.{SameTables, SameTables-refl, SameTables-trans}
use edx_enterprise_subsidy.Batches.{order_by_pk, past, selected, default_batch_size}
use edx_enterprise_subsidy.Batches.Relates.{for_batches-R}
use edx_enterprise_subsidy.Subsidy.{active_subsidies}
use edx_enterprise_subsidy.Backpopulate.{
  save_unless, txn_filter, process_subsidy, handle_subsidies, process_email_and_title,
  process_parent_content_key, incomplete_email_or_title, incomplete_parent_content_key,
  backpopulate_transaction_email_and_title, backpopulate_transaction_parent_content_key,
}
use edx_enterprise_subsidy.Batches.Rows.{filter-past-save_row}
use edx_enterprise_subsidy.Backpopulate.Process.{
  Saves, process_email_and_title-Saves, process_parent_content_key-Saves,
}

abbrev pub uuid_of : Transaction → ℕ
uuid_of t = t.uuid

abbrev pub transactions_of : World → List Transaction
transactions_of w = w.transactions

module _ (process : Bool → Transaction → Exec (Unit {0}))
    (saves : (dry_run : Bool) (t : Transaction) (w : World) → Saves process dry_run t w) where
  unless_keeps_later :
      (dry_run : Bool) (t : Transaction) (w : World) (k : ℕ)
      → t.uuid ≤ k
      → filter (past uuid_of (some k)) (save_unless dry_run t w).1.transactions
        ≡ filter (past uuid_of (some k)) w.transactions
  unless_keeps_later true t w k le = refl
  unless_keeps_later false t w k le = filter-past-save_row uuid_of k t w.transactions le

  pub step_keeps_later :
      (dry_run : Bool) (extra : Transaction → Bool) (t : Transaction) (w : World) (k : ℕ)
      → t.uuid ≤ k
      → selected uuid_of transactions_of extra (some k) (process dry_run t w).1
        ≡ selected uuid_of transactions_of extra (some k) w
  step_keeps_later dry_run extra t w k le =
      let s = saves dry_run t w in
      ap (filter extra) (
        ap (λ r. filter (past uuid_of (some k)) r.1.transactions) s.saved
        ∙ unless_keeps_later dry_run s.filled s.v k
            (subst (λ j. j ≤ k) (sym (ap uuid_of s.fills.rest)) le)
        ∙ ap (filter (past uuid_of (some k))) s.quiet.transactions)

module _ (incomplete : Transaction → Bool)
    (process : Bool → Subsidy → Transaction → Exec (Unit {0}))
    (saves : (subsidy : Subsidy) (dry_run : Bool) (t : Transaction) (w : World)
      → Saves (λ dry. process dry subsidy) dry_run t w) where
  -- the rows of one subsidy that a query selects, in the order of the keys
  abbrev rows_of : Subsidy → World → List Transaction
  rows_of subsidy w =
      order_by_pk uuid_of
        (selected uuid_of transactions_of (txn_filter incomplete subsidy) Option.none w)

  step-dry_run :
      (subsidy : Subsidy) (t : Transaction) (w : World) → SameTables w (process true subsidy t w).1
  step-dry_run subsidy t w =
      let s = saves subsidy true t w in subst (λ r. SameTables w r.1) (sym s.saved) s.quiet

  subsidy-dry_run :
      (subsidy : Subsidy) (w : World)
      → SameTables w (process_subsidy incomplete (process true) subsidy w).1
  unfolding process_subsidy
  subsidy-dry_run subsidy w =
      for_batches-R SameTables SameTables-refl SameTables-trans (process true subsidy)
        (step-dry_run subsidy) uuid_of transactions_of (txn_filter incomplete subsidy)
        default_batch_size w

  handle-dry_run :
      (include_internal : Bool) (w : World)
      → SameTables w (handle_subsidies incomplete (process true) include_internal w).1
  unfolding handle_subsidies
  handle-dry_run include_internal w =
      for_batches-R SameTables SameTables-refl SameTables-trans
        (process_subsidy incomplete (process true)) subsidy-dry_run (λ (s : Subsidy). s.uuid)
        active_subsidies (λ s. include_internal || not s.internal_only) default_batch_size w

-- a dry run sends only queries
module _ (incomplete : Transaction → Bool)
    (process : Bool → Subsidy → Transaction → Exec (Unit {0}))
    (asks : (subsidy : Subsidy) (t : Transaction) → Asking (process true subsidy t)) where
  subsidy-Asking :
      (subsidy : Subsidy) (w : World)
      → SameCommands w (process_subsidy incomplete (process true) subsidy w).1
  unfolding process_subsidy
  subsidy-Asking subsidy w =
      for_batches-R SameCommands (λ w. refl) (λ u v w h k. k ∙ h) (process true subsidy)
        (λ t. (asks subsidy t).at) uuid_of transactions_of (txn_filter incomplete subsidy)
        default_batch_size w

  handle-Asking :
      (include_internal : Bool) (w : World)
      → SameCommands w (handle_subsidies incomplete (process true) include_internal w).1
  unfolding handle_subsidies
  handle-Asking include_internal w =
      for_batches-R SameCommands (λ w. refl) (λ u v w h k. k ∙ h)
        (process_subsidy incomplete (process true)) subsidy-Asking (λ (s : Subsidy). s.uuid)
        active_subsidies (λ s. include_internal || not s.internal_only) default_batch_size w

module _ (env : Env) (include_internal : Bool) (w : World) where
  -- A dry run of either command leaves all tables and the event bus as they are, however it ends, and
  -- sends no request but queries.
  pub backpopulate-dry_run :
      let emails = (backpopulate_transaction_email_and_title env true include_internal w).1 in
      let parents = (backpopulate_transaction_parent_content_key env true include_internal w).1 in
      SameTables w emails × SameCommands w emails × SameTables w parents × SameCommands w parents
  unfolding backpopulate_transaction_email_and_title backpopulate_transaction_parent_content_key
  backpopulate-dry_run = (
    handle-dry_run incomplete_email_or_title (process_email_and_title env)
        (process_email_and_title-Saves env) include_internal w,
    handle-Asking incomplete_email_or_title (process_email_and_title env)
        (process_email_and_title-Asking env) include_internal w,
    handle-dry_run incomplete_parent_content_key (process_parent_content_key env)
        (process_parent_content_key-Saves env) include_internal w,
    handle-Asking incomplete_parent_content_key (process_parent_content_key env)
        (process_parent_content_key-Asking env) include_internal w,
  )
