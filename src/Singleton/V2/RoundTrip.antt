-- ===== src/Singleton/V2/RoundTrip.antt =====
-- Rendezvous instructions that are updated and read again through the V2 handlers.
use go_fdo_server.Prelude.{
  ℕ, ◌≡◌, ◌⊎◌, inl, inr, refl, none, some, List, Bytes, Result, ok, err, or_err, ◌>>=◌,
  Result-cases, Option-cases, arith, ap,
}
use go_fdo_server.Prelude.Codec.{Codec}
use go_fdo_server.Prelude.Table.{Table}
use go_fdo_server.Rv.{RvInstruction}
use go_fdo_server.Rv.Json.{Object}
use go_fdo_server.Rv.Cbor.{Platform}
use go_fdo_server.V2.Directives.{parse_v2_json, ParseError}
use go_fdo_server.V2.Converter.{convert_to_v2_json}
use go_fdo_server.V2.RoundTrip.{parse_v2_json-convert_to_v2_json}
use go_fdo_server.Singleton.{RowError, cannot_unmarshal, row_key, fetch_value}
use go_fdo_server.Singleton.Laws.{fetch_value-Does, upsert_value-Does}
use go_fdo_server.Singleton.V2.{
  RvInfoDocuments, Reply, NoError, refusal, accepted, fetch_rv_info, upsert_rv_info, show_rv_info,
  get_reply, get_rendezvous_info, update_reply, update_objects, update_rendezvous_info,
}

module _ {S D : Type 0} (p : Platform) (infos : Codec (List (List RvInstruction)))
    (docs : RvInfoDocuments D) (t : Table S Bytes) where
  -- The document stands for the instructions.
  abbrev pub StandsFor : List (List RvInstruction) → D → Type 0
  StandsFor directives d =
      (objects : List (List Object)) × (docs.to_objects d ≡ some objects)
      × (parse_v2_json p objects ≡ ok directives)

  pub refused_accepted : (n : ℕ) (d : D) → (n ≡ 200 → ⊥) → refusal n ≡ accepted d → ⊥
  refused_accepted n d k h = k (ap (λ r. r.status) h)

  upsert_rv_info_inv :
      (directives : List (List RvInstruction)) (s : S)
      → (upsert_rv_info p infos docs t directives s).0 ≡ ok tt
      → (cbor : Bytes) × (infos.unmarshal cbor ≡ some directives)
        × (t.rows (upsert_rv_info p infos docs t directives s).1 row_key ≡ some cbor)
  unfolding upsert_rv_info
  upsert_rv_info_inv directives s h = elim (Option-cases (infos.marshal directives)) [
    | inl bad ↦ cc (rw bad at h)
    | inr (cbor, marshalled) ↦
        let done = rw marshalled at h in
        elim (upsert_value-Does {E = NoError} t cbor s) [
          | inr (e, any, failed_with, same) ↦ cc (rw failed_with at done)
          | inl (good, row) ↦
              (cbor, infos.unmarshal-marshal directives marshalled, rw marshalled row)
        ]
  ]

  pub update_reply_inv :
      (d e : D) (r : Result (RowError NoError) (Unit {0}))
      → update_reply p infos docs t d r ≡ accepted e
      → r ≡ ok tt
  unfolding update_reply
  update_reply_inv d e (ok u) h = refl
  update_reply_inv d e (err x) h = absurd (refused_accepted 500 e (λ q. omega arith) h)

  update_unmarshalled :
      (d : D) (s : S)
      → docs.to_objects d ≡ none
      → (update_rendezvous_info p infos docs t (some d) s).0 ≡ refusal 400
  unfolding update_rendezvous_info
  update_unmarshalled d s bad = rw (bad, update_rendezvous_info)

  update_parsed :
      (d : D) (objects : List (List Object)) (s : S)
      → docs.to_objects d ≡ some objects
      → update_rendezvous_info p infos docs t (some d) s ≡ update_objects p infos docs t d objects s
  unfolding update_rendezvous_info
  update_parsed d objects s good = rw (good, update_rendezvous_info)

  update_objects_ok :
      (d : D) (objects : List (List Object)) (directives : List (List RvInstruction)) (s : S)
      → parse_v2_json p objects ≡ ok directives
      → update_objects p infos docs t d objects s ≡ (
        update_reply p infos docs t d (upsert_rv_info p infos docs t directives s).0,
        (upsert_rv_info p infos docs t directives s).1,
      )
  unfolding update_objects
  update_objects_ok d objects directives s good = rw (good, update_objects)

  update_objects_refused :
      (d : D) (objects : List (List Object)) (s : S) {e : ParseError}
      → parse_v2_json p objects ≡ err e
      → (update_objects p infos docs t d objects s).0 ≡ refusal 400
  unfolding update_objects
  update_objects_refused d objects s bad = rw (bad, update_objects)

  update_rendezvous_info_inv :
      (d : D) (s : S)
      → (update_rendezvous_info p infos docs t (some d) s).0 ≡ accepted d
      → (directives : List (List RvInstruction)) × (cbor : Bytes) × StandsFor directives d
        × (infos.unmarshal cbor ≡ some directives)
        × (t.rows (update_rendezvous_info p infos docs t (some d) s).1 row_key ≡ some cbor)
  update_rendezvous_info_inv d s h = elim (Option-cases (docs.to_objects d)) [
    | inl bad ↦
        absurd (refused_accepted 400 d (λ q. omega arith) (rw (update_unmarshalled d s bad) at h))
    | inr (objects, marshalled) ↦ elim (Result-cases (parse_v2_json p objects)) [
      | inl (e, bad) ↦ absurd (
          refused_accepted 400 d (λ q. omega arith)
            (rw (update_parsed d objects s marshalled, update_objects_refused d objects s bad) at
              h))
      | inr (directives, parsed) ↦
          let same = update_parsed d objects s marshalled in
          let same' = update_objects_ok d objects directives s parsed in
          let done =
            update_reply_inv d d (upsert_rv_info p infos docs t directives s).0
              (rw (same, same') at h) in
          let (cbor, back, row) = upsert_rv_info_inv directives s done in
          (directives, cbor, (objects, marshalled, parsed), back, rw (same, same') row)
    ]
  ]

  pub fetch_rv_info_lem :
      (s : S)
      → (fetch_rv_info p infos docs t s).0 ≡ (
          (fetch_value {E = NoError} t s).0 >>= λ value.
          or_err (infos.unmarshal value) cannot_unmarshal)
  unfolding fetch_rv_info
  fetch_rv_info_lem s = refl

  -- A document that stands for the instructions, or an error of the server.
  abbrev pub Replies : List (List RvInstruction) → Reply D → Type 0
  Replies directives r = (r ≡ refusal 500) ⊎ ((d : D) × (r ≡ accepted d) × StandsFor directives d)

  show_rv_info_lem :
      (directives : List (List RvInstruction)) {written : List (List Object)}
      → convert_to_v2_json p directives ≡ ok written
      → show_rv_info p infos docs t directives ≡ docs.of_objects written
  unfolding show_rv_info
  show_rv_info_lem directives converted = rw (converted, show_rv_info)

  get_reply_unshown :
      (directives : List (List RvInstruction))
      → show_rv_info p infos docs t directives ≡ none
      → get_reply p infos docs t (ok directives) ≡ refusal 500
  unfolding get_reply
  get_reply_unshown directives bad = rw (bad, get_reply)

  get_reply_shown :
      (directives : List (List RvInstruction)) (d : D)
      → show_rv_info p infos docs t directives ≡ some d
      → get_reply p infos docs t (ok directives) ≡ accepted d
  unfolding get_reply
  get_reply_shown directives d good = rw (good, get_reply)

  get_reply-Replies :
      (directives : List (List RvInstruction)) (d : D)
      → StandsFor directives d
      → Replies directives (get_reply p infos docs t (ok directives))
  get_reply-Replies directives d (objects, _, parsed) =
      let (written, converted, parsed') = parse_v2_json-convert_to_v2_json p objects parsed in
      let shown = show_rv_info_lem directives converted in
      elim (Option-cases (docs.of_objects written)) [
        | inl bad ↦ inl (get_reply_unshown directives (rw shown bad))
        | inr (d', good) ↦ inr (
          d',
          get_reply_shown directives d' (rw shown good),
          (written, docs.to_objects-of_objects written good, parsed'),
        )
      ]

  get_rendezvous_info-Replies :
      (directives : List (List RvInstruction)) (d : D) (cbor : Bytes) (s : S)
      → StandsFor directives d
      → infos.unmarshal cbor ≡ some directives
      → t.rows s row_key ≡ some cbor
      → Replies directives (get_rendezvous_info p infos docs t s).0
  unfolding get_rendezvous_info get_reply
  get_rendezvous_info-Replies directives d cbor s stands back row =
      elim (rw row at (fetch_value-Does {E = NoError} t s)) [
        | inl (good, same) ↦
            rw (fetch_rv_info_lem s, good, back) (get_reply-Replies directives d stands)
        | inr (e, (n, plain), bad, same) ↦ inl (rw (fetch_rv_info_lem s, bad, plain))
      ]

  -- When an update of the document is accepted, the next query answers a document that is parsed to the
  -- same instructions, or an error of the server.
  pub get_rendezvous_info-update_rendezvous_info :
      (d : D) (s : S)
      → (update_rendezvous_info p infos docs t (some d) s).0 ≡ accepted d
      → let after = (update_rendezvous_info p infos docs t (some d) s).1 in
        (directives : List (List RvInstruction)) × StandsFor directives d
        × Replies directives (get_rendezvous_info p infos docs t after).0
  get_rendezvous_info-update_rendezvous_info d s h =
      let (directives, cbor, stands, back, row) = update_rendezvous_info_inv d s h in
      let after = (update_rendezvous_info p infos docs t (some d) s).1 in
      (directives, stands, get_rendezvous_info-Replies directives d cbor after stands back row)
