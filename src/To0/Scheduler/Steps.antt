-- ===== src/To0/Scheduler/Steps.antt =====
-- The steps of a pass, and what they leave of the GUIDs that they are not about.
use go_fdo_server.Prelude.{
  ℕ, suc, ◌≡◌, inl, inr, Bool, true, false, ◌&&◌, not, Option, none, some, List, [], ◌∷◌, Bytes,
  Text, ◌=ᵇ◌, if◌then◌else◌, arith, refl, Result-cases, Option-cases,
}
use go_fdo_server.Prelude.Hex
use go_fdo_server.Prelude.Table.{Table}
use go_fdo_server.To0.Register.{To0Client, register_rv_blob}
use go_fdo_server.To0.Scheduler.{
  DeviceOnboarding, OwnerVoucher, set_next_try, SchedulerLog, unmarshal_failed,
  completion_check_failed, register_failed, register_completed, is_to2_completed, Scheduler,
  scheduler, attempt, is_before, schedule_voucher, schedule_cbor, scheduler_pass,
}

-- The attempts for a GUID in a log.
abbrev pub attempts : Text → List SchedulerLog → ℕ
attempts g [] = 0
attempts g (register_failed h ∷ l) = if h =ᵇ g then suc (attempts g l) else attempts g l
attempts g (register_completed h refresh ∷ l) = if h =ᵇ g then suc (attempts g l) else attempts g l
attempts g (unmarshal_failed ∷ l) = attempts g l
attempts g (completion_check_failed h ∷ l) = attempts g l

-- The entries of a log that are about a GUID.
unfoldable pub entries : Text → List SchedulerLog → List SchedulerLog
entries g [] = []
entries g (unmarshal_failed ∷ l) = entries g l
entries g (completion_check_failed h ∷ l) =
    let rest = entries g l in if h =ᵇ g then completion_check_failed h ∷ rest else rest
entries g (register_failed h ∷ l) =
    let rest = entries g l in if h =ᵇ g then register_failed h ∷ rest else rest
entries g (register_completed h refresh ∷ l) =
    let rest = entries g l in if h =ᵇ g then register_completed h refresh ∷ rest else rest

module _ {W E Url Addr : Type 0} (client : To0Client W E Url Addr)
    (unmarshal : Bytes → Option (OwnerVoucher Url)) (onboarding : Table W DeviceOnboarding) where
  unfoldable pub schedule : ℕ → OwnerVoucher Url → Scheduler W → Scheduler W
  schedule = schedule_voucher client unmarshal onboarding

  -- A voucher's step leaves the next try, the attempts and the log of every other GUID as they are.
  pub schedule_other :
      (now : ℕ) (v : OwnerVoucher Url) (s : Scheduler W) (g : Text)
      → (Hex.encode v.guid =ᵇ g) ≡ false
      → ((schedule now v s).next_try g ≡ s.next_try g)
        × (attempts g (schedule now v s).log ≡ attempts g s.log)
        × (entries g (schedule now v s).log ≡ entries g s.log)
  unfolding schedule schedule_voucher attempt scheduler set_next_try is_before entries
  schedule_other now v s g other =
      let check = is_to2_completed onboarding v.guid s.world in
      let tried = register_rv_blob client v.owner_rv_info (Hex.encode v.guid) check.1 in
      elim (Result-cases check.0) [
        | inl (e, failed) ↦ ground arith
        | inr (d, checked) ↦ elim (Result-cases tried.0) [
          | inl (e, failed) ↦ ground arith
          | inr (refresh, done) ↦ ground arith
        ]
      ]

  -- The GUID of a stored voucher is not g.
  unfoldable pub is_other : Text → Bytes → Bool
  is_other g cbor = elim (unmarshal cbor) [ none ↦ true | some v ↦ not (Hex.encode v.guid =ᵇ g) ]

  unfoldable pub all_other : Text → List Bytes → Bool
  all_other g [] = true
  all_other g (cbor ∷ vs) = is_other g cbor && all_other g vs

  -- At most one of the vouchers has the GUID: it is the primary key of their table.
  unfoldable pub at_most_once : Text → List Bytes → Bool
  unfolding is_other all_other
  at_most_once g [] = true
  at_most_once g (cbor ∷ vs) = if is_other g cbor then at_most_once g vs else all_other g vs

  unfoldable pub pass : ℕ → List Bytes → Scheduler W → Scheduler W
  pass = scheduler_pass client unmarshal onboarding

  unfoldable pub step : ℕ → Bytes → Scheduler W → Scheduler W
  step = schedule_cbor client unmarshal onboarding

  pub step_failed :
      (now : ℕ) (cbor : Bytes) (s : Scheduler W)
      → unmarshal cbor ≡ none
      → step now cbor s
        ≡ scheduler client unmarshal onboarding s.next_try (unmarshal_failed ∷ s.log) s.world
  unfolding step schedule_cbor
  step_failed now cbor s bad = rw (bad, schedule_cbor)

  pub step_parsed :
      (now : ℕ) (cbor : Bytes) (s : Scheduler W) {v : OwnerVoucher Url}
      → unmarshal cbor ≡ some v
      → step now cbor s ≡ schedule now v s
  unfolding step schedule schedule_cbor
  step_parsed now cbor s good = rw (good, schedule_cbor)

  pub step_other :
      (now : ℕ) (cbor : Bytes) (s : Scheduler W) (g : Text)
      → is_other g cbor ≡ true
      → ((step now cbor s).next_try g ≡ s.next_try g)
        × (attempts g (step now cbor s).log ≡ attempts g s.log)
        × (entries g (step now cbor s).log ≡ entries g s.log)
  unfolding is_other scheduler entries
  step_other now cbor s g h = elim (Option-cases (unmarshal cbor)) [
    | inl bad ↦ rw (step_failed now cbor s bad) (refl, refl, refl)
    | inr (v, good) ↦
        let other : (Hex.encode v.guid =ᵇ g) ≡ false =
          (let h' = rw (good, is_other) at h in ground arith) in
        rw (step_parsed now cbor s good) (schedule_other now v s g other)
  ]

  pub pass_other :
      (now : ℕ) (vs : List Bytes) (s : Scheduler W) (g : Text)
      → all_other g vs ≡ true
      → ((pass now vs s).next_try g ≡ s.next_try g)
        × (attempts g (pass now vs s).log ≡ attempts g s.log)
        × (entries g (pass now vs s).log ≡ entries g s.log)
  unfolding pass scheduler_pass step all_other
  pass_other now [] s g h = (refl, refl, refl)
  pass_other now (cbor ∷ vs) s g h =
      ground (arith, pass_other now vs (step now cbor s) g, step_other now cbor s g)
