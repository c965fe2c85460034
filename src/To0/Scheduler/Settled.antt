-- ===== src/To0/Scheduler/Settled.antt =====
-- What a pass does with each of the pending vouchers.
use mathlib.Core.Path.{subst}
use go_fdo_server.Prelude.{
  ℕ, ◌≡◌, ◌∙◌, sym, ap, inl, inr, true, false, Option, some, List, [], ◌∷◌, ◌++◌, Bytes, Text,
  =ᵇ_iff, arith, refl, Bool-cases,
}
use go_fdo_server.Prelude.Hex
use go_fdo_server.Prelude.Table.{Table}
use go_fdo_server.To0.Register.{To0Client}
use go_fdo_server.To0.Scheduler.{DeviceOnboarding, OwnerVoucher, Scheduler, scheduler_pass}
use go_fdo_server.To0.Scheduler.Steps.{
  schedule, is_other, all_other, at_most_once, pass, step, step_parsed, pass_other,
}
use go_fdo_server.To0.Scheduler.Attempt.{seen, IsSettled, schedule_own}

module _ {W E Url Addr : Type 0} (client : To0Client W E Url Addr)
    (unmarshal : Bytes → Option (OwnerVoucher Url)) (onboarding : Table W DeviceOnboarding) where
  -- A pass over a joined list.
  pass_append :
      (now : ℕ) (us vs : List Bytes) (s : Scheduler W)
      → scheduler_pass client unmarshal onboarding now (us ++ vs) s
        ≡ scheduler_pass client unmarshal onboarding now vs
            (scheduler_pass client unmarshal onboarding now us s)
  unfolding scheduler_pass step
  pass_append now [] vs s = refl
  pass_append now (u ∷ us) vs s = pass_append now us vs (step client unmarshal onboarding now u s)

  all_other-own :
      (us vs : List Bytes) (cbor : Bytes) (g : Text)
      → all_other client unmarshal onboarding g (us ++ cbor ∷ vs) ≡ true
      → is_other client unmarshal onboarding g cbor ≡ true
  unfolding all_other
  all_other-own [] vs cbor g h = ground arith
  all_other-own (u ∷ us) vs cbor g h = ground (arith, all_other-own us vs cbor g)

  -- The one voucher of a GUID splits the pending ones into others.
  at_most_once-append :
      (us vs : List Bytes) (cbor : Bytes) (g : Text)
      → is_other client unmarshal onboarding g cbor ≡ false
      → at_most_once client unmarshal onboarding g (us ++ cbor ∷ vs) ≡ true
      → (all_other client unmarshal onboarding g us ≡ true)
        × (all_other client unmarshal onboarding g vs ≡ true)
  unfolding at_most_once all_other
  at_most_once-append [] vs cbor g own once = (refl, rw own at once)
  at_most_once-append (u ∷ us) vs cbor g own once =
      elim (Bool-cases (is_other client unmarshal onboarding g u)) [
        | inl other ↦
            let (left, right) = at_most_once-append us vs cbor g own (rw other at once) in
            (ground arith, right)
        | inr same ↦ ground (arith, all_other-own us vs cbor g (rw same at once))
      ]

  -- What is seen of a GUID is the same after a pass over others.
  seen-pass :
      (now : ℕ) (vs : List Bytes) (s : Scheduler W) (g : Text)
      → all_other client unmarshal onboarding g vs ≡ true
      → seen g (scheduler_pass client unmarshal onboarding now vs s) ≡ seen g s
  unfolding pass
  seen-pass now vs s g h =
      let (next, _, log) = pass_other client unmarshal onboarding now vs s g h in
      λ i. (log i, next i)

  own_voucher :
      (cbor : Bytes) {v : OwnerVoucher Url}
      → unmarshal cbor ≡ some v
      → is_other client unmarshal onboarding (Hex.encode v.guid) cbor ≡ false
  unfolding is_other
  own_voucher cbor {v} h =
      rw (h, is_other) (ground (arith, =ᵇ_iff (Hex.encode v.guid) (Hex.encode v.guid)))

  -- What is seen of a GUID after a pass is what its voucher leaves, when the later ones are others.
  seen-pass_around :
      (now : ℕ) (before after : List Bytes) (cbor : Bytes) (s : Scheduler W) {v : OwnerVoucher Url}
      → unmarshal cbor ≡ some v
      → all_other client unmarshal onboarding (Hex.encode v.guid) after ≡ true
      → let g = Hex.encode v.guid in
        seen g (scheduler_pass client unmarshal onboarding now (before ++ cbor ∷ after) s)
        ≡ seen g (
            schedule client unmarshal onboarding now v
              (scheduler_pass client unmarshal onboarding now before s))
  unfolding scheduler_pass step
  seen-pass_around now before after cbor s {v} h rest =
      let g = Hex.encode v.guid in
      let reached = scheduler_pass client unmarshal onboarding now before s in
      let there = step client unmarshal onboarding now cbor reached in
      ap (seen g) (pass_append now before (cbor ∷ after) s)
      ∙ seen-pass now after there g rest
      ∙ ap (seen g) (step_parsed client unmarshal onboarding now cbor reached h)

  -- When at most one of the pending vouchers has the GUID of a voucher that parses, a pass logs and
  -- schedules of this GUID exactly: a failed check of its completion, and no change of its next try;
  -- nothing, and no next try, when it is completed; nothing and no change when its next try lies
  -- ahead; otherwise, also when it has no next try, one attempt, with the next try 10 seconds ahead
  -- when it fails and as many seconds as were granted, or 300 for 0, when it succeeds.
  pub scheduler_pass-IsSettled :
      (now : ℕ) (before after : List Bytes) (cbor : Bytes) (s : Scheduler W) {v : OwnerVoucher Url}
      → unmarshal cbor ≡ some v
      → at_most_once client unmarshal onboarding (Hex.encode v.guid) (before ++ cbor ∷ after) ≡ true
      → let g = Hex.encode v.guid in
        let done = scheduler_pass client unmarshal onboarding now (before ++ cbor ∷ after) s in
        IsSettled client unmarshal onboarding now v
          (scheduler_pass client unmarshal onboarding now before s).world
          (seen g s)
          (seen g done)
  unfolding pass
  scheduler_pass-IsSettled now before after cbor s {v} h once =
      let g = Hex.encode v.guid in
      let own = own_voucher cbor h in
      let (others, rest) = at_most_once-append before after cbor g own once in
      let reached = scheduler_pass client unmarshal onboarding now before s in
      let due = seen g (schedule client unmarshal onboarding now v reached) in
      let first : seen g reached ≡ seen g s = seen-pass now before s g others in
      let last : seen g (scheduler_pass client unmarshal onboarding now (before ++ cbor ∷ after) s)
          ≡ due =
        seen-pass_around now before after cbor s h rest in
      subst (λ a. IsSettled client unmarshal onboarding now v reached.world (seen g s) a) (sym last)
        (subst (λ b. IsSettled client unmarshal onboarding now v reached.world b due) first
          (schedule_own client unmarshal onboarding now v reached))
