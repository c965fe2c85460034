-- ===== src/To0/Scheduler/Backoff.antt =====
-- A pass leaves alone what lies ahead.
use go_fdo_server.Prelude.{
  ℕ, ◌<◌, ◌≡◌, ◌∙◌, ◌⊎◌, inl, inr, true, Option, none, some, List, [], ◌∷◌, Bytes, Text, =ᵇ_iff,
  arith, refl, Result-cases, Option-cases, Bool-cases,
}
use go_fdo_server.Prelude.Hex
use go_fdo_server.Prelude.Table.{Table}
use go_fdo_server.To0.Register.{To0Client, register_rv_blob}
use go_fdo_server.To0.Scheduler.{
  DeviceOnboarding, OwnerVoucher, set_next_try, is_to2_completed, Scheduler, scheduler, attempt,
  is_before, schedule_voucher, scheduler_pass,
}
use go_fdo_server.To0.Scheduler.Steps.{
  attempts, schedule, is_other, at_most_once, pass, step, step_failed, step_parsed, step_other,
  pass_other,
}

module _ {W E Url Addr : Type 0} (client : To0Client W E Url Addr)
    (unmarshal : Bytes → Option (OwnerVoucher Url)) (onboarding : Table W DeviceOnboarding) where
  -- A GUID that lies ahead is not attempted, and lies ahead or is forgotten after the step.
  schedule_ahead :
      (now : ℕ) (v : OwnerVoucher Url) (s : Scheduler W) (g : Text) {t : ℕ}
      → s.next_try g ≡ some t
      → now < t
      → (attempts g (schedule client unmarshal onboarding now v s).log ≡ attempts g s.log)
        × (((schedule client unmarshal onboarding now v s).next_try g ≡ some t)
            ⊎ ((schedule client unmarshal onboarding now v s).next_try g ≡ none))
  unfolding schedule schedule_voucher attempt scheduler set_next_try is_before
  schedule_ahead now v s g h ahead =
      let key = Hex.encode v.guid in
      let check = is_to2_completed onboarding v.guid s.world in
      let tried = register_rv_blob client v.owner_rv_info key check.1 in
      elim (Result-cases check.0) [
        | inl (e, failed) ↦ ground arith
        | inr (d, checked) ↦ elim (Result-cases tried.0) [
          | inl (e, failed) ↦ ground (arith, =ᵇ_iff key g)
          | inr (refresh, done) ↦ ground (arith, =ᵇ_iff key g)
        ]
      ]

  step_ahead :
      (now : ℕ) (cbor : Bytes) (s : Scheduler W) (g : Text) {t : ℕ}
      → s.next_try g ≡ some t
      → now < t
      → attempts g (step client unmarshal onboarding now cbor s).log ≡ attempts g s.log
  unfolding scheduler
  step_ahead now cbor s g h ahead = elim (Option-cases (unmarshal cbor)) [
    | inl bad ↦ rw (step_failed client unmarshal onboarding now cbor s bad)
    | inr (v, good) ↦
        rw (step_parsed client unmarshal onboarding now cbor s good)
          (schedule_ahead now v s g h ahead).0
  ]

  -- A pass does not attempt a GUID whose next try still lies ahead of it, when at most one of the
  -- pending vouchers has the GUID, which is the vouchers' primary key.
  pub scheduler_pass-ahead :
      (now : ℕ) (vs : List Bytes) (s : Scheduler W) (g : Text) {t : ℕ}
      → at_most_once client unmarshal onboarding g vs ≡ true
      → s.next_try g ≡ some t
      → now < t
      → attempts g (scheduler_pass client unmarshal onboarding now vs s).log ≡ attempts g s.log
  unfolding pass scheduler_pass step at_most_once
  scheduler_pass-ahead now [] s g once h ahead = refl
  scheduler_pass-ahead now (cbor ∷ vs) s g once h ahead =
      elim (Bool-cases (is_other client unmarshal onboarding g cbor)) [
        | inl other ↦
            let (same, count, _) = step_other client unmarshal onboarding now cbor s g other in
            scheduler_pass-ahead now vs (step client unmarshal onboarding now cbor s) g
              (rw other at once) (same ∙ h) ahead
            ∙ count
        | inr own ↦
            (pass_other client unmarshal onboarding now vs
              (step client unmarshal onboarding now cbor s) g (rw own at once)).1
            ∙ step_ahead now cbor s g h ahead
      ]
