-- ===== src/Redemption/Machine.antt =====
-- `redeem` as a step of the abstract machine of the redemptions that stand.
use edx_enterprise_subsidy.Common.{
  ℕ, ◌≡◌, ◌≢◌, refl, ◌∙◌, sym, ap, inl, inr, ◌⊎◌, arith, String, false, Option, none, some, List,
  find_row, find_row-save_row_self, find_row-save_row_ne,
}
use mathlib.Core.Path.{subst}
use edx_enterprise_subsidy.Batches.Sorted.{IsDistinct}
use edx_enterprise_subsidy.Schema.Ledger.{Transaction, NewTransaction, TransactionState}
use edx_enterprise_subsidy.Service.{Env, World, Result, ok, err, Result-cases}
use edx_enterprise_subsidy.Service.Quiet.{SameTables}
use edx_enterprise_subsidy.Subsidy.{is_reversed}
use edx_enterprise_subsidy.Redemption.{create_redemption, attempt_redemption, with_key}
use edx_enterprise_subsidy.Redemption.Settled.{row, create_redemption_refused}
use edx_enterprise_subsidy.Redemption.Success.{after_created, create_redemption-eq-attempt}
use edx_enterprise_subsidy.Redemption.Linked.{IsCommitted, attempt_redemption-IsCommitted}
use edx_enterprise_subsidy.Redemption.Keys.{Made, Got, GetsOrCreates, OwnKey, AsAsked, Made-or_Got}
use edx_enterprise_subsidy.Redemption.Standing.{
  IsFor-of, Standing, Grants, Refuses, Refines, carried, carried_back, another_row,
  pending_committed, attempt_redemption-Refines,
}

pub Refuses-refl : (w : World) → Refuses w w
Refuses-refl w ledger learner content = (λ s. s, λ s. s)

pub Refuses-trans : (u v w : World) → Refuses u v → Refuses v w → Refuses u w
Refuses-trans u v w h k ledger learner content =
    let (to_u, to_v) = h ledger learner content in
    let (to_v', to_w) = k ledger learner content in (λ s. to_u (to_v' s), λ s. to_w (to_v s))

pub Refuses-Grants : (t : Transaction) (u v w : World) → Refuses u v → Grants t v w → Grants t u w
Refuses-Grants t u v w h k ledger learner content =
    let (to_u, to_v) = h ledger learner content in
    let (cases, to_w) = k ledger learner content in
    (
      λ s. elim (cases s) [ inl old ↦ inl (to_u old) | inr new ↦ inr new ],
      λ either. elim either [ inl old ↦ to_w (inl (to_v old)) | inr new ↦ to_w (inr new) ],
    )

pub SameTables-Refuses : (w v : World) → SameTables w v → Refuses w v
SameTables-Refuses w v h ledger learner content = (
  λ s. record {
    transaction = s.transaction;
    stored =
        sym (ap (find_row (λ (r : Transaction). r.uuid) s.transaction.uuid) h.transactions)
        ∙ s.stored;
    committed = s.committed;
    unreversed = subst (λ rs. is_reversed rs s.transaction ≡ false) h.reversals s.unreversed;
    entry = s.entry;
  },
  λ s. record {
    transaction = s.transaction;
    stored =
        ap (find_row (λ (r : Transaction). r.uuid) s.transaction.uuid) h.transactions ∙ s.stored;
    committed = s.committed;
    unreversed = subst (λ rs. is_reversed rs s.transaction ≡ false) (sym h.reversals) s.unreversed;
    entry = s.entry;
  },
)

-- the same step, said of another transaction of the same entry
Grants-of :
    (s t : Transaction) (w v : World)
    → s.ledger_uuid ≡ t.ledger_uuid
    → s.lms_user_id ≡ t.lms_user_id
    → s.content_key ≡ t.content_key
    → Grants t w v
    → Grants s w v
Grants-of s t w v a b c h ledger learner content =
    let (cases, to_v) = h ledger learner content in
    let (to_t, to_s) = IsFor-of s t ledger learner content a b c in
    (
      λ st. elim (cases st) [ inl old ↦ inl old | inr new ↦ inr (to_s new) ],
      λ either. elim either [ inl old ↦ to_v (inl old) | inr new ↦ to_v (inr (to_t new)) ],
    )

abbrev pub Redeemed : NewTransaction → World → Result Transaction × World → Type 0
Redeemed new w (ok s, v) = Grants s w v × AsAsked new s
Redeemed new w (err e, v) = Refuses w v

no_row : (w : World) (u : ℕ) (t : Transaction) → row u w ≡ none → row u w ≡ some t → ⊥
no_row w u t h k = cc

same_row_stored :
    (w : World) (u : ℕ) (x t : Transaction) → row u w ≡ some x → row u w ≡ some t → x ≡ t
same_row_stored w u x t h k = ground (h, k, arith)

-- a transaction made or found for an entry that does not stand is no row that stands, and the ledger
-- leaves the other rows as they are
module _ (n : NewTransaction) (user : ℕ) (key : String) (w : World) (t : Transaction)
    (rows : List Transaction) (for_user : n.lms_user_id ≡ some user)
    (for_key : n.content_key ≡ some key) (own : OwnKey n w)
    (unstood : ¬ Standing w n.ledger_uuid user key) where
  others_kept :
      Made n w t rows ⊎ Got n w t rows
      → (x : ℕ) → x ≢ t.uuid
      → find_row (λ (r : Transaction). r.uuid) x rows ≡ row x w
  others_kept (inl made) x ne = made.others x ne
  others_kept (inr got) x ne = ap (find_row (λ (r : Transaction). r.uuid) x) got.unchanged

  Standing-apart :
      Made n w t rows ⊎ Got n w t rows
      → (ledger learner : ℕ) (content : String) (s : Standing w ledger learner content)
      → s.transaction.uuid ≢ t.uuid
  Standing-apart (inl made) ledger learner content s e =
      no_row w t.uuid s.transaction made.fresh (ap (λ u. row u w) (sym e) ∙ s.stored)
  Standing-apart (inr got) ledger learner content s e =
      let same =
        same_row_stored w t.uuid s.transaction t (ap (λ u. row u w) (sym e) ∙ s.stored)
          got.stored in
      let (user_same, key_same, unreversed) = own t got.stored got.ledger_same got.key_same in
      unstood (record {
        transaction = s.transaction;
        stored = s.stored;
        committed = s.committed;
        unreversed = s.unreversed;
        entry = record {
          ledger_is = ap (λ (x : Transaction). x.ledger_uuid) same ∙ got.ledger_same;
          learner_is = ap (λ (x : Transaction). x.lms_user_id) same ∙ user_same ∙ for_user;
          content_is = ap (λ (x : Transaction). x.content_key) same ∙ key_same ∙ for_key;
        };
      })

module _ (env : Env) (user : ℕ) (key : String) (new : NewTransaction)
    (idempotency_key : Option String) (w : World) (promise : GetsOrCreates env)
    (distinct : IsDistinct (λ (x : Transaction). x.uuid) w.transactions)
    (for_user : new.lms_user_id ≡ some user) (for_key : new.content_key ≡ some key)
    (own : OwnKey (with_key env new idempotency_key w) w)
    (unstood : ¬ Standing w new.ledger_uuid user key) where
  -- a pending row, new or in the place of one that does not stand, which stands for nothing
  created-Refuses :
      (t : Transaction) (rows : List Transaction)
      → env.create_transaction (with_key env new idempotency_key w) w ≡ ok (t, rows)
      → Refuses w (after_created env user key new idempotency_key t rows w)
  created-Refuses t rows h ledger learner content =
      let n = with_key env new idempotency_key w in
      let pending = record t { state = TransactionState.pending } in
      let v = after_created env user key new idempotency_key t rows w in
      let answered = promise.answers n w t rows distinct h in
      let others = λ (x : ℕ) (ne : x ≢ t.uuid).
        find_row-save_row_ne (λ (r : Transaction). r.uuid) x pending rows ne
        ∙ others_kept n user key w t rows for_user for_key own unstood answered x ne in
      let stored = find_row-save_row_self (λ (r : Transaction). r.uuid) pending rows in
      (
        λ s. carried_back w v t.uuid refl others ledger learner content s (
            another_row v pending ledger learner content s stored (pending_committed pending refl)),
        λ s. carried w v t.uuid refl others ledger learner content s (
            Standing-apart n user key w t rows for_user for_key own unstood answered ledger learner
              content s),
      )

  composed :
      (t : Transaction) (v : World) (r : Result Transaction × World)
      → Refuses w v
      → AsAsked new t
      → Refines t v r
      → ((s : Transaction) → r.0 ≡ ok s → IsCommitted env user key t s r.1)
      → Redeemed new w r
  composed t v (ok s, v') before as_asked refines committed =
      let is = (committed s refl).result in
      let (a, b, c) = as_asked in
      (
        Refuses-Grants s w v v' before (
            Grants-of s t v v' (ap (λ x. x.ledger_uuid) is) (ap (λ x. x.lms_user_id) is)
              (ap (λ x. x.content_key) is) refines),
        (
          ap (λ x. x.ledger_uuid) is ∙ a,
          ap (λ x. x.lms_user_id) is ∙ b,
          ap (λ x. x.content_key) is ∙ c,
        ),
      )
  composed t v (err e, v') before as_asked refines committed = Refuses-trans w v v' before refines

  pub create_redemption-Redeemed :
      Redeemed new w (create_redemption env user key new idempotency_key w)
  create_redemption-Redeemed =
      let n = with_key env new idempotency_key w in
      elim (Result-cases (env.create_transaction n w)) [
        | inl ((t, rows), h) ↦
            let (as_asked, unreversed) =
              Made-or_Got n w t rows own (promise.answers n w t rows distinct h) in
            let pending = record t { state = TransactionState.pending } in
            let v = after_created env user key new idempotency_key t rows w in
            subst (Redeemed new w)
              (sym (create_redemption-eq-attempt env user key new idempotency_key t rows w h))
              (composed pending v (attempt_redemption env user key pending v)
                (created-Refuses t rows h) as_asked
                (attempt_redemption-Refines pending v
                  (find_row-save_row_self (λ r. r.uuid) pending rows) refl unreversed env user key)
                (λ s e. attempt_redemption-IsCommitted env user key pending v s e))
        | inr (e, h) ↦
            subst (Redeemed new w)
              (sym (create_redemption_refused env user key new idempotency_key e w h))
              (Refuses-refl w)
      ]
