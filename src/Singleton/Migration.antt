-- ===== src/Singleton/Migration.antt =====
-- `migrateRvInfoToCBOR` of internal/db/state.go: a row that is V1 JSON becomes CBOR.
use go_fdo_server.Prelude.{
  ◌≡◌, ◌⊎◌, inl, inr, refl, Option, none, some, List, Bytes, Result, ok, err, or_err, map_err,
  Result-cases, Option-cases, =ᵇ_iff, arith,
}
use go_fdo_server.Prelude.Action.{Action, lift, pure, handle, ◌>>=◌, ◌>>◌}
use go_fdo_server.Prelude.Codec.{Codec}
use go_fdo_server.Prelude.Table.{
  DbError, record_not_found, duplicated_key, failed, Table, Answers-some, Answers-none,
}
use go_fdo_server.Rv.{RvInstruction}
use go_fdo_server.Singleton.{RowError, invalid, db, cannot_marshal, row_key}
use go_fdo_server.Singleton.Documents.{answer_of}

-- `infos` is cbor for [][]protocol.RvInstruction, `parse` is ParseHumanReadableRvJSON.
module _ {S E : Type 0} (infos : Codec (List (List RvInstruction)))
    (parse : Bytes → Result E (List (List RvInstruction))) (t : Table S Bytes) where
  -- From the second attempt on: the row is not CBOR. How many rows the update finds is only logged.
  unfoldable pub migrate_json : Bytes → Action S (RowError E) (Unit {0})
  migrate_json value = do
    directives ← lift (map_err invalid (parse value))
    cbor ← lift (or_err (infos.marshal directives) cannot_marshal)
    handle (t.update row_key (λ old. cbor)) (λ r. lift (map_err db r))
    pure tt

  unfoldable pub migrate_row : Result DbError Bytes → Action S (RowError E) (Unit {0})
  migrate_row (err record_not_found) s = (ok tt, s)
  migrate_row (err e) s = (err (db e), s)
  migrate_row (ok value) s = elim (infos.unmarshal value) [
    | some directives ↦ (ok tt, s)
    | none ↦ migrate_json value s
  ]

  unfoldable pub migrate_rv_info_to_cbor : Action S (RowError E) (Unit {0})
  migrate_rv_info_to_cbor = handle (t.first row_key) migrate_row

  -- The instructions that a row stands for before the migration: CBOR, or else V1 JSON.
  abbrev pub meaning : Bytes → Option (List (List RvInstruction))
  meaning value = elim (infos.unmarshal value) [
    | some directives ↦ some directives
    | none ↦ answer_of (parse value)
  ]

  migrate_json_inv :
      (value : Bytes) (s : S)
      → t.rows s row_key ≡ some value
      → (migrate_json value s).0 ≡ ok tt
      → (directives : List (List RvInstruction)) × (cbor : Bytes) × (parse value ≡ ok directives)
        × (infos.unmarshal cbor ≡ some directives)
        × (t.rows (migrate_json value s).1 row_key ≡ some cbor)
  unfolding migrate_json
  migrate_json_inv value s there h = elim (Result-cases (parse value)) [
    | inl (e, bad) ↦ cc (rw bad at h)
    | inr (directives, parsed) ↦ elim (Option-cases (infos.marshal directives)) [
      | inl bad ↦ cc (rw (parsed, bad) at h)
      | inr (cbor, marshalled) ↦ elim (Result-cases (t.update row_key (λ old. cbor) s).0) [
        | inl (e, bad) ↦ cc (rw (parsed, marshalled, bad) at h)
        | inr (n, done) ↦ (
          directives,
          cbor,
          parsed,
          infos.unmarshal-marshal directives marshalled,
          rw (parsed, marshalled, done)
              (ground
                (arith, t.rows-update s row_key (λ old. cbor) row_key, =ᵇ_iff row_key row_key)),
        )
      ]
    ]
  ]

  -- What a migration leaves of a row: no row, or CBOR of what the row stood for.
  abbrev pub Migrates : Option Bytes → Option Bytes → Type 0
  Migrates before after =
      ((before ≡ none) × (after ≡ none))
      ⊎ ((value : Bytes) × (cbor : Bytes) × (directives : List (List RvInstruction)) × (before
            ≡ some value)
          × (after ≡ some cbor)
          × (meaning value ≡ some directives)
          × (infos.unmarshal cbor ≡ some directives))

  migrate_row_json :
      (value : Bytes) (s : S)
      → infos.unmarshal value ≡ none
      → migrate_row (ok value) s ≡ migrate_json value s
  unfolding migrate_row
  migrate_row_json value s no_cbor = rw (no_cbor, migrate_row)

  meaning_json :
      (value : Bytes) {directives : List (List RvInstruction)}
      → infos.unmarshal value ≡ none
      → parse value ≡ ok directives
      → meaning value ≡ some directives
  meaning_json value no_cbor parsed = rw (no_cbor, meaning, parsed)

  migrate_row-Migrates :
      (a : Result DbError Bytes) (s : S)
      → ((v : Bytes) → a ≡ ok v → t.rows s row_key ≡ some v)
      → (a ≡ err record_not_found → t.rows s row_key ≡ none)
      → (migrate_row a s).0 ≡ ok tt
      → Migrates (t.rows s row_key) (t.rows (migrate_row a s).1 row_key)
  unfolding migrate_row
  migrate_row-Migrates (err record_not_found) s found missing h = inl (missing refl, missing refl)
  migrate_row-Migrates (err duplicated_key) s found missing h = cc h
  migrate_row-Migrates (err (failed n)) s found missing h = cc h
  migrate_row-Migrates (ok value) s found missing h = elim (Option-cases (infos.unmarshal value)) [
    | inr (directives, is_cbor) ↦ inr (
      value,
      value,
      directives,
      found value refl,
      rw (is_cbor, migrate_row) (found value refl),
      rw (is_cbor, meaning),
      is_cbor,
    )
    | inl no_cbor ↦
        let same = migrate_row_json value s no_cbor in
        let (directives, cbor, parsed, back, row) =
          migrate_json_inv value s (found value refl) (rw same at h) in
        inr (
          value,
          cbor,
          directives,
          found value refl,
          rw same row,
          meaning_json value no_cbor parsed,
          back,
        )
  ]

  -- A migration that succeeds leaves no row when there was none, and else CBOR of the instructions that
  -- the row stood for, as CBOR or as V1 JSON. (What is marshalled unmarshals to itself.)
  pub migrate_rv_info_to_cbor-Migrates :
      (s : S)
      → (migrate_rv_info_to_cbor s).0 ≡ ok tt
      → Migrates (t.rows s row_key) (t.rows (migrate_rv_info_to_cbor s).1 row_key)
  unfolding migrate_rv_info_to_cbor
  migrate_rv_info_to_cbor-Migrates s h =
      let a = (t.first row_key s).0 in
      let after = (t.first row_key s).1 in
      let same = t.rows-first s row_key row_key in
      let law = t.first_law s row_key in
      rw (← same) (
        migrate_row-Migrates a after
          (λ v good. rw same (Answers-some (t.rows s row_key) a law good))
          (λ missing. rw same (Answers-none (t.rows s row_key) a law missing)) h)
