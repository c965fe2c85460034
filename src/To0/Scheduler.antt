-- ===== src/To0/Scheduler.antt =====
-- The background TO0 scheduler of `serveOwner` in cmd/owner.go, with `IsTO2Completed` of
-- internal/db/db.go. Times are seconds.
pub mod Attempt
pub mod Backoff
pub mod Settled
pub mod Steps
use go_fdo_server.Prelude.{
  ℕ, ◌+◌, Bool, true, false, Option, none, some, List, [], ◌∷◌, Bytes, Text, Result, ok, err, ltb,
  ◌==◌, ◌=ᵇ◌, if◌then◌else◌,
}
use go_fdo_server.Prelude.Hex
use go_fdo_server.Prelude.Action.{Action, handle, continue, lift, pure}
use go_fdo_server.Prelude.Table.{DbError, record_not_found, Table}
use go_fdo_server.To0.Register.{OwnerDirective, RegisterError, To0Client, register_rv_blob}

-- A row of device_onboarding, under the device's GUID. An unset GUID or time is `none`.
pub record DeviceOnboarding : Type 0 where
  pub new_guid : Option Bytes
  pub to2_completed : Bool
  pub to2_completed_at : Option ℕ

-- The part of a voucher's header that the scheduler reads, with the instructions as
-- `protocol.ParseOwnerRvInfo` makes them.
pub record OwnerVoucher (Url : Type 0) : Type 0 where
  pub guid : Bytes
  pub owner_rv_info : List (OwnerDirective Url)

-- `map[string]time.Time`
abbrev pub NextTry : Type 0
NextTry = Text → Option ℕ

set_next_try : NextTry → Text → Option ℕ → NextTry
set_next_try next g t j = if g =ᵇ j then t else next j

-- What the loop logs of a voucher that it does not skip.
pub data SchedulerLog : Type 0 where
  unmarshal_failed : SchedulerLog
  completion_check_failed : Text → SchedulerLog
  register_failed : Text → SchedulerLog
  register_completed : Text → ℕ → SchedulerLog

-- `defaultTo0TTL`
abbrev pub default_to0_ttl : ℕ
default_to0_ttl = 300

-- The delay after a failure.
abbrev pub retry_delay : ℕ
retry_delay = 10

module _ {W : Type 0} (onboarding : Table W DeviceOnboarding) where
  completed : Result DbError DeviceOnboarding → Result DbError Bool
  completed (ok rec) = ok rec.to2_completed
  completed (err record_not_found) = ok false
  completed (err e) = err e

  pub is_to2_completed : Bytes → Action W DbError Bool
  unfolding completed
  is_to2_completed guid = handle (onboarding.first guid) (λ r. lift (completed r))

-- The scheduler's own state, its log, and the world.
pub record Scheduler (W : Type 0) : Type 0 where
  pub next_try : NextTry
  pub log : List SchedulerLog
  pub world : W

module _ {W E Url Addr : Type 0} (client : To0Client W E Url Addr)
    (unmarshal : Bytes → Option (OwnerVoucher Url)) (onboarding : Table W DeviceOnboarding) where
  pub scheduler : NextTry → List SchedulerLog → W → Scheduler W
  scheduler next entries w = record { next_try = next; log = entries; world = w }

  -- The attempt for one GUID, and the schedule of the next.
  attempt : ℕ → OwnerVoucher Url → Text → Scheduler W → Scheduler W
  unfolding scheduler
  attempt now v g s =
      let tried = register_rv_blob client v.owner_rv_info g s.world in
      elim tried.0 [
        | err e ↦
            scheduler (set_next_try s.next_try g (some (now + retry_delay)))
              (register_failed g ∷ s.log) tried.1
        | ok refresh ↦
            let refresh' = if refresh == 0 then default_to0_ttl else refresh in
            scheduler (set_next_try s.next_try g (some (now + refresh')))
              (register_completed g refresh' ∷ s.log) tried.1
      ]

  -- `now.Before(t)`
  is_before : ℕ → Option ℕ → Bool
  is_before now none = false
  is_before now (some t) = ltb now t

  -- What follows in the loop once the voucher is parsed.
  pub schedule_voucher : ℕ → OwnerVoucher Url → Scheduler W → Scheduler W
  unfolding attempt is_before scheduler
  schedule_voucher now v s =
      let g = Hex.encode v.guid in
      let check = is_to2_completed onboarding v.guid s.world in
      elim check.0 [
        | err e ↦ scheduler s.next_try (completion_check_failed g ∷ s.log) check.1
        | ok done ↦
            let s' = scheduler s.next_try s.log check.1 in
            if done
            then scheduler (set_next_try s.next_try g none) s.log check.1
            else if is_before now (s.next_try g)
            then s'
            else attempt now v g s'
      ]

  -- The body of the loop.
  pub schedule_cbor : ℕ → Bytes → Scheduler W → Scheduler W
  unfolding scheduler
  schedule_cbor now cbor s = elim (unmarshal cbor) [
    | none ↦ scheduler s.next_try (unmarshal_failed ∷ s.log) s.world
    | some v ↦ schedule_voucher now v s
  ]

  -- One pass over the CBOR of the pending vouchers; `now` is read once, before it.
  pub scheduler_pass : ℕ → List Bytes → Scheduler W → Scheduler W
  unfolding schedule_cbor
  scheduler_pass now [] s = s
  scheduler_pass now (cbor ∷ vs) s = scheduler_pass now vs (schedule_cbor now cbor s)
