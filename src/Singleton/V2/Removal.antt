-- ===== src/Singleton/V2/Removal.antt =====
-- Rendezvous instructions that are deleted through the V2 handler.
use go_fdo_server.Prelude.{
  ◌≡◌, ◌⊎◌, inl, inr, refl, Option, none, some, List, Bytes, Result, ok, err, or_err, ◌>>=◌,
  Option-cases, arith,
}
use go_fdo_server.Prelude.Codec.{Codec}
use go_fdo_server.Prelude.Table.{Table, record_not_found, duplicated_key, failed}
use go_fdo_server.Rv.{RvInstruction}
use go_fdo_server.Rv.Cbor.{Platform}
use go_fdo_server.Singleton.{
  RowError, db, invalid, unparsed, cannot_unmarshal, cannot_marshal, row_key, fetch_value,
}
use go_fdo_server.Singleton.Laws.{
  Does, IsPlain, deleted, fetched, fetch_value-Does, delete_value-Does,
}
use go_fdo_server.Singleton.V2.{
  RvInfoDocuments, NoError, refusal, accepted, fetch_rv_info, show_rv_info, get_reply,
  get_rendezvous_info, delete_rv_info, delete_fetched, delete_shown, delete_rendezvous_info,
}
use go_fdo_server.Singleton.V2.RoundTrip.{refused_accepted, update_reply_inv, fetch_rv_info_lem}

deleted_gone : (o : Option Bytes) → (deleted {E = NoError} o).1 ≡ none
deleted_gone none = refl
deleted_gone (some old) = refl

-- A column that is found is not reported as missing.
decoded_found :
    {A : Type 0} (o : Option A)
    → or_err {E = RowError NoError} o cannot_unmarshal ≡ err (db record_not_found)
    → ⊥
decoded_found none h = cc h
decoded_found (some a) h = cc h

module _ {S D : Type 0} (p : Platform) (infos : Codec (List (List RvInstruction)))
    (docs : RvInfoDocuments D) (t : Table S Bytes) where
  fetch_rv_info_state :
      (s : S) → (fetch_rv_info p infos docs t s).1 ≡ (fetch_value {E = NoError} t s).1
  unfolding fetch_rv_info
  fetch_rv_info_state s = refl

  delete_shown_inv :
      (shown d : D) (s : S)
      → (delete_shown p infos docs t shown s).0 ≡ accepted d
      → t.rows (delete_shown p infos docs t shown s).1 row_key ≡ none
  unfolding delete_shown
  delete_shown_inv shown d s h =
      let done = update_reply_inv p infos docs t shown d (delete_rv_info p infos docs t s).0 h in
      elim (delete_value-Does {E = NoError} t s) [
        | inl (good, row) ↦ rw (deleted_gone (t.rows s row_key)) at row
        | inr (e, any, bad, same) ↦ cc (rw bad at done)
      ]

  delete_fetched_unshown :
      (directives : List (List RvInstruction)) (s : S)
      → show_rv_info p infos docs t directives ≡ none
      → (delete_fetched p infos docs t (ok directives) s).0 ≡ refusal 500
  unfolding delete_fetched
  delete_fetched_unshown directives s bad = rw (bad, delete_fetched)

  delete_fetched_shown :
      (directives : List (List RvInstruction)) (shown : D) (s : S)
      → show_rv_info p infos docs t directives ≡ some shown
      → delete_fetched p infos docs t (ok directives) s ≡ delete_shown p infos docs t shown s
  unfolding delete_fetched
  delete_fetched_shown directives shown s good = rw (good, delete_fetched)

  delete_fetched_inv :
      (r : Result (RowError NoError) (List (List RvInstruction))) (d : D) (s : S)
      → (r ≡ err (db record_not_found) → t.rows s row_key ≡ none)
      → (delete_fetched p infos docs t r s).0 ≡ accepted d
      → t.rows (delete_fetched p infos docs t r s).1 row_key ≡ none
  unfolding delete_fetched
  delete_fetched_inv (err (db record_not_found)) d s missing h = missing refl
  delete_fetched_inv (err (db duplicated_key)) d s missing h =
      absurd (refused_accepted p infos docs t 500 d (λ q. omega arith) h)
  delete_fetched_inv (err (db (failed n))) d s missing h =
      absurd (refused_accepted p infos docs t 500 d (λ q. omega arith) h)
  delete_fetched_inv (err cannot_marshal) d s missing h =
      absurd (refused_accepted p infos docs t 500 d (λ q. omega arith) h)
  delete_fetched_inv (err cannot_unmarshal) d s missing h =
      absurd (refused_accepted p infos docs t 500 d (λ q. omega arith) h)
  delete_fetched_inv (err (invalid e)) d s missing h = absurd e
  delete_fetched_inv (err (unparsed e)) d s missing h = absurd e
  delete_fetched_inv (ok directives) d s missing h =
      elim (Option-cases (show_rv_info p infos docs t directives)) [
        | inl bad ↦ absurd (
            refused_accepted p infos docs t 500 d (λ q. omega arith)
              (rw (delete_fetched_unshown directives s bad) at h))
        | inr (shown, good) ↦
            let same = delete_fetched_shown directives shown s good in
            rw same (delete_shown_inv shown d s (rw same at h))
      ]

  fetched_missing :
      (o : Option Bytes) (a : Result (RowError NoError) Bytes) (after : Option Bytes)
      → Does IsPlain (fetched o) o a after
      → (a >>= λ value. or_err (infos.unmarshal value) cannot_unmarshal) ≡ err (db record_not_found)
      → after ≡ none
  fetched_missing none a after (inl (good, same)) h = same
  fetched_missing (some v) a after (inl (good, same)) h =
      absurd (decoded_found (infos.unmarshal v) (rw good at h))
  fetched_missing o a after (inr (e, (n, plain), bad, same)) h = cc (rw (bad, plain) at h)

  delete_rendezvous_info_inv :
      (d : D) (s : S)
      → (delete_rendezvous_info p infos docs t s).0 ≡ accepted d
      → t.rows (delete_rendezvous_info p infos docs t s).1 row_key ≡ none
  unfolding delete_rendezvous_info
  delete_rendezvous_info_inv d s h =
      delete_fetched_inv (fetch_rv_info p infos docs t s).0 d (fetch_rv_info p infos docs t s).1
        (λ missing. rw (fetch_rv_info_state s) (
          fetched_missing (t.rows s row_key) (fetch_value {E = NoError} t s).0
            (t.rows (fetch_value {E = NoError} t s).1 row_key) (fetch_value-Does t s)
            (rw (fetch_rv_info_lem p infos docs t s) at missing)))
        h

  -- When a deletion is accepted, also of a missing row, the next query answers the empty document, or an
  -- error of the server.
  pub get_rendezvous_info-delete_rendezvous_info :
      (d : D) (s : S)
      → (delete_rendezvous_info p infos docs t s).0 ≡ accepted d
      → let r =
          (get_rendezvous_info p infos docs t (delete_rendezvous_info p infos docs t s).1).0 in
        (r ≡ accepted docs.empty) ⊎ (r ≡ refusal 500)
  unfolding get_rendezvous_info get_reply
  get_rendezvous_info-delete_rendezvous_info d s h =
      let after = (delete_rendezvous_info p infos docs t s).1 in
      let row = delete_rendezvous_info_inv d s h in
      elim (rw row at (fetch_value-Does {E = NoError} t after)) [
        | inl (good, same) ↦ inl (rw (fetch_rv_info_lem p infos docs t after, good))
        | inr (e, (n, plain), bad, same) ↦
            inr (rw (fetch_rv_info_lem p infos docs t after, bad, plain))
      ]
