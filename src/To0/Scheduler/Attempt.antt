-- ===== src/To0/Scheduler/Attempt.antt =====
-- What the step of a voucher does with its own GUID.
use go_fdo_server.Prelude.{
  ℕ, ◌<◌, ◌≤◌, ◌≡◌, ◌⊎◌, inl, inr, true, false, ◌==◌, ◌+◌, Option, none, some, List, ◌∷◌, Bytes,
  Text, Result, ok, err, ltb, =ᵇ_iff, if◌then◌else◌, arith, refl, Result-cases, Bool-cases,
}
use go_fdo_server.Prelude.Hex
use go_fdo_server.Prelude.Table.{DbError, Table}
use go_fdo_server.To0.Register.{To0Client, RegisterError, register_rv_blob}
use go_fdo_server.To0.Scheduler.{
  DeviceOnboarding, OwnerVoucher, set_next_try, SchedulerLog, completion_check_failed,
  register_failed, register_completed, is_to2_completed, Scheduler, scheduler, attempt, is_before,
  default_to0_ttl, schedule_voucher,
}
use go_fdo_server.To0.Scheduler.Steps.{entries, schedule}

-- A time that is not set or has come.
abbrev pub IsDue : ℕ → Option ℕ → Type 0
IsDue now none = Unit
IsDue now (some t) = t ≤ now

-- What a scheduler has on a GUID: the entries of its log, and its next try.
abbrev pub Seen : Type 0
Seen = List SchedulerLog × Option ℕ

abbrev pub seen : {W : Type 0} → Text → Scheduler W → Seen
seen g s = (entries g s.log, s.next_try g)

module _ {W E Url Addr : Type 0} (client : To0Client W E Url Addr)
    (unmarshal : Bytes → Option (OwnerVoucher Url)) (onboarding : Table W DeviceOnboarding) where
  -- What is had on a GUID after an attempt, by its result: a new entry, and a next try after a delay.
  abbrev pub IsTried : ℕ → Text → List SchedulerLog → Result (RegisterError E) ℕ → Seen → Type 0
  IsTried now g old (err e) after =
      (after.0 ≡ register_failed g ∷ old) × (after.1 ≡ some (now + 10))
  IsTried now g old (ok refresh) after =
      (r : ℕ) × (0 < r)
      × ((r ≡ refresh) ⊎ ((refresh ≡ 0) × (r ≡ 300)))
      × (after.0 ≡ register_completed g r ∷ old)
      × (after.1 ≡ some (now + r))

  -- What becomes of a voucher that is reached in the world `w`: from `before` to `after`, its check of
  -- completion fails, or it is completed, or its next try lies ahead, or it is due and is tried.
  abbrev pub IsSettled : ℕ → OwnerVoucher Url → W → Seen → Seen → Type 0
  IsSettled now v w before after =
      let g = Hex.encode v.guid in
      let check = is_to2_completed onboarding v.guid w in
      let tried = register_rv_blob client v.owner_rv_info g check.1 in
      (((e : DbError) × (check.0 ≡ err e))
        × (after.0 ≡ completion_check_failed g ∷ before.0)
        × (after.1 ≡ before.1))
      ⊎ ((check.0 ≡ ok true) × (after.0 ≡ before.0) × (after.1 ≡ none))
      ⊎ ((check.0 ≡ ok false)
          × ((t : ℕ) × (before.1 ≡ some t) × (now < t))
          × (after.0 ≡ before.0)
          × (after.1 ≡ before.1))
      ⊎ ((check.0 ≡ ok false) × IsDue now before.1 × IsTried now g before.0 tried.0 after)

  -- When nothing lies ahead, a time is due.
  due :
      (now : ℕ) (o : Option ℕ)
      → ((t : ℕ) × (o ≡ some t) × (now < t))
        ⊎ (IsDue now o × (is_before client unmarshal onboarding now o ≡ false))
  unfolding is_before
  due now none = inr (tt, refl)
  due now (some t) = elim (Bool-cases (ltb now t)) [
    | inl h ↦ inl (t, refl, ground arith)
    | inr h ↦ inr (ground arith, h)
  ]

  -- An attempt is the new entry of the log and the next try.
  attempt-IsTried :
      (now : ℕ) (v : OwnerVoucher Url) (s : Scheduler W)
      → let g = Hex.encode v.guid in
        IsTried now g
          (entries g s.log)
          (register_rv_blob client v.owner_rv_info g s.world).0
          (seen g (attempt client unmarshal onboarding now v g s))
  unfolding attempt scheduler set_next_try entries
  attempt-IsTried now v s =
      let g = Hex.encode v.guid in
      let tried = register_rv_blob client v.owner_rv_info g s.world in
      elim (Result-cases tried.0) [
        | inl (e, failed) ↦
            rw failed (ground (arith, failed, =ᵇ_iff g g), ground (arith, failed, =ᵇ_iff g g))
        | inr (refresh, done) ↦ rw done (
          if refresh == 0 then default_to0_ttl else refresh,
          ground arith,
          ground arith,
          ground (arith, done, =ᵇ_iff g g),
          ground (arith, done, =ᵇ_iff g g),
        )
      ]

  schedule_due :
      (now : ℕ) (v : OwnerVoucher Url) (s : Scheduler W)
      → let check = is_to2_completed onboarding v.guid s.world in
        check.0 ≡ ok false
        → is_before client unmarshal onboarding now (s.next_try (Hex.encode v.guid)) ≡ false
        → schedule client unmarshal onboarding now v s
          ≡ attempt client unmarshal onboarding now v
              (Hex.encode v.guid)
              (scheduler client unmarshal onboarding s.next_try s.log check.1)
  unfolding schedule schedule_voucher
  schedule_due now v s checked now_due = ground (arith, checked, now_due)

  schedule_due-IsTried :
      (now : ℕ) (v : OwnerVoucher Url) (s : Scheduler W)
      → let g = Hex.encode v.guid in
        let check = is_to2_completed onboarding v.guid s.world in
        check.0 ≡ ok false
        → is_before client unmarshal onboarding now (s.next_try g) ≡ false
        → IsTried now g
            (entries g s.log)
            (register_rv_blob client v.owner_rv_info g check.1).0
            (seen g (schedule client unmarshal onboarding now v s))
  unfolding scheduler
  schedule_due-IsTried now v s checked now_due =
      let check = is_to2_completed onboarding v.guid s.world in
      rw (schedule_due now v s checked now_due)
        (attempt-IsTried now v (scheduler client unmarshal onboarding s.next_try s.log check.1))

  -- What becomes of a voucher in its own step.
  pub schedule_own :
      (now : ℕ) (v : OwnerVoucher Url) (s : Scheduler W)
      → let g = Hex.encode v.guid in
        IsSettled now v s.world (seen g s) (seen g (schedule client unmarshal onboarding now v s))
  unfolding schedule schedule_voucher scheduler set_next_try entries is_before
  schedule_own now v s =
      let g = Hex.encode v.guid in
      let check = is_to2_completed onboarding v.guid s.world in
      elim (Result-cases check.0) [
        | inl (e, failed) ↦
            inl
              ((e, failed), ground (arith, failed, =ᵇ_iff g g), ground (arith, failed, =ᵇ_iff g g))
        | inr (true, checked) ↦ inr (
            inl (checked, ground (arith, checked, =ᵇ_iff g g), ground (arith, checked, =ᵇ_iff g g)))
        | inr (false, checked) ↦ elim (due now (s.next_try g)) [
          | inl (t, there, ahead) ↦ inr (
              inr (
                inl (
                  checked,
                  (t, there, ahead),
                  ground (arith, checked, there),
                  ground (arith, checked, there),
                )))
          | inr (is_due, now_due) ↦
              inr (inr (inr (checked, is_due, schedule_due-IsTried now v s checked now_due)))
        ]
      ]
