-- ===== src/Api/BadRequest.antt =====
-- The answers 400 of the creation endpoint of v1.
use edx_enterprise_subsidy.Common.{
  ℕ, ◌≡◌, ◌≢◌, ◌⊎◌, inl, inr, refl, String, Bool, true, false, Option, none, some, arith,
  if◌then◌else◌,
}
use edx_enterprise_subsidy.Schema.Ledger.{Transaction}
use edx_enterprise_subsidy.Schema.Subsidy.{Subsidy}
use edx_enterprise_subsidy.Service.{Env, World, Result, ok, err, Exception, proceed, rescue, pure}
use edx_enterprise_subsidy.Redemption.{redeem}
use edx_enterprise_subsidy.Api.{
  Response, status, RequestData, active_subsidy, create_v1, create_parsed, redeem_v1,
  on_redeem_error, has_required_fields, response_of, or_zero, or_no_text,
}

-- the answer 400 comes with the state `w`
abbrev pub BadOnlyAt : World → Result Response × World → Type 0
BadOnlyAt w (ok response, v) = (status response ≢ 400) ⊎ (v ≡ w)
BadOnlyAt w (err e, v) = Unit

answered :
    (w : World) (r : Result (Option Transaction × Bool)) (v : World)
    → BadOnlyAt w (
        let (q, u) = proceed r (λ redeemed. pure (response_of redeemed)) v in
        rescue q on_redeem_error u)
answered w (ok (none, is_new)) v = inl (ground arith)
answered w (ok (some t, true)) v = inl (ground arith)
answered w (ok (some t, false)) v = inl (ground arith)
answered w (err Exception.ledger_lock_attempt_failed) v = inl (ground arith)
answered w (err Exception.content_not_found) v = inl (ground arith)
answered w (err _) v = tt

module _ (env : Env) (w : World) (body : RequestData) where
  redeem_v1-BadOnlyAt :
      (policy : ℕ) (subsidy : Option Subsidy) → BadOnlyAt w (redeem_v1 env body policy subsidy w)
  redeem_v1-BadOnlyAt policy none = inr refl
  redeem_v1-BadOnlyAt policy (some subsidy) =
      let (r, v) =
        redeem env subsidy (or_zero body.lms_user_id) (or_no_text body.content_key) policy none none
          body.metadata w in
      answered w r v

  create_parsed-BadOnlyAt :
      (subsidy_uuid policy : Option ℕ) → BadOnlyAt w (create_parsed env body subsidy_uuid policy w)
  create_parsed-BadOnlyAt (some subsidy_uuid) (some policy) =
      redeem_v1-BadOnlyAt policy (active_subsidy subsidy_uuid w)
  create_parsed-BadOnlyAt (some subsidy_uuid) none = inr refl
  create_parsed-BadOnlyAt none policy = inr refl

  -- An answer 400 of the creation endpoint of v1 means that nothing was done: no row was written, no
  -- event emitted and no request sent.
  pub create_v1_bad_request :
      (parse_uuid : String → Option ℕ) → BadOnlyAt w (create_v1 env parse_uuid body w)
  unfolding create_v1
  create_v1_bad_request parse_uuid =
      elim (has_required_fields body)
        as (λ b. BadOnlyAt w (
          (if b
              then create_parsed env body (parse_uuid (or_no_text body.subsidy_uuid))
                  (parse_uuid (or_no_text body.subsidy_access_policy_uuid))
              else pure (Response.error 400 none))
            w)) [
              | true ↦
                  create_parsed-BadOnlyAt (parse_uuid (or_no_text body.subsidy_uuid))
                    (parse_uuid (or_no_text body.subsidy_access_policy_uuid))
              | false ↦ inr refl
            ]
