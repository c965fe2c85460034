-- ===== src/Tests/Singleton.antt =====
-- A sample table with one row, and the theorems on the rows of rvinfo and owner_info applied to it.
use go_fdo_server.Prelude.{
  ◌=ᵇ◌, =ᵇ_iff, if◌then◌else◌, arith, ℕ, ◌≡◌, ◌⊎◌, inl, inr, refl, Option, none, some, List, [],
  ◌∷◌, Bytes, Text, codes, Result, ok, err, sym,
}
use mathlib.Core.Option
use go_fdo_server.Prelude.Codec.{Codec}
use go_fdo_server.Prelude.Table.{Table}
use go_fdo_server.Rv.{RvVar, dns, RvInstruction}
use go_fdo_server.Rv.Json.{str, Object}
use go_fdo_server.V1.To2Addr.{To2Human}
use go_fdo_server.Singleton.{row_key}
use go_fdo_server.Singleton.Http.{Request}
use go_fdo_server.Singleton.Http
use go_fdo_server.Singleton.Migration.{
  migrate_rv_info_to_cbor, Migrates, migrate_rv_info_to_cbor-Migrates,
}
use go_fdo_server.Singleton.V2.{
  RvInfoDocuments, accepted, refusal, update_rendezvous_info, get_rendezvous_info,
  delete_rendezvous_info,
}
use go_fdo_server.Singleton.V2.RoundTrip.{
  StandsFor, Replies, get_rendezvous_info-update_rendezvous_info,
}
use go_fdo_server.Singleton.V2.Removal.{get_rendezvous_info-delete_rendezvous_info}
use go_fdo_server.Tests.Libraries.{sample_platform, untag, untag_law}
use go_fdo_server.Tests.Database.{Rows, table}
use go_fdo_server.Tests.Database

abbrev rows : Table (Rows Bytes) Bytes
rows = table (λ f. f) (λ f g. f) (λ f g. refl)

abbrev no_row : Rows Bytes
no_row k = none

abbrev with_row : Bytes → Rows Bytes
with_row value = Database.put no_row row_key (some value)

-- A single instruction that names a host.
abbrev encode_host : RvVar → Bytes → Option Bytes
encode_host dns b = some (7 ∷ b)
encode_host v b = none

abbrev host : Bytes → List (List RvInstruction)
host b = (record { variable = dns; value = b } ∷ []) ∷ []

abbrev encode_infos : List (List RvInstruction) → Option Bytes
encode_infos [] = none
encode_infos ([] ∷ ds) = none
encode_infos ((i ∷ []) ∷ []) = encode_host i.variable i.value
encode_infos ((i ∷ []) ∷ d ∷ ds) = none
encode_infos ((i ∷ j ∷ is) ∷ ds) = none

abbrev decode_infos : Bytes → Option (List (List RvInstruction))
decode_infos b = Option.map host (untag 7 b)

host_law :
    (v : RvVar) (x : Bytes) {b : Bytes}
    → encode_host v x ≡ some b
    → decode_infos b ≡ some ((record { variable = v; value = x } ∷ []) ∷ [])
host_law dns x {b} h = rw (untag_law 7 x b h refl) refl
host_law v x h = cc h

infos_law :
    (ds : List (List RvInstruction)) {b : Bytes}
    → encode_infos ds ≡ some b
    → decode_infos b ≡ some ds
infos_law [] h = cc h
infos_law ([] ∷ ds) h = cc h
infos_law ((i ∷ []) ∷ []) h = host_law i.variable i.value h
infos_law ((i ∷ []) ∷ d ∷ ds) h = cc h
infos_law ((i ∷ j ∷ is) ∷ ds) h = cc h

abbrev infos : Codec (List (List RvInstruction))
infos = record { marshal = encode_infos; unmarshal = decode_infos; unmarshal-marshal = infos_law }

-- Documents that are their own JSON.
abbrev docs : RvInfoDocuments (List (List Object))
docs = record {
  empty = [];
  to_objects = λ d. some d;
  of_objects = λ o. some o;
  to_objects-of_objects = λ o h. sym h;
}

-- `[[{"dns": "rv"}]]`
abbrev document : List (List Object)
document = (((codes "dns", str (codes "rv")) ∷ []) ∷ []) ∷ []

update-ok :
    (update_rendezvous_info sample_platform infos docs rows (some document) no_row).0
    ≡ accepted document
unfolding update_rendezvous_info go_fdo_server.Singleton.V2.update_objects
    go_fdo_server.V2.Directives.parse_v2_json go_fdo_server.V2.Directives.parse_group
    go_fdo_server.V2.Parser.parse_rv_instruction go_fdo_server.V2.Parser.key_variable
    go_fdo_server.Prelude.◌=ᵇ◌ go_fdo_server.V2.Parser.parse_variable
    go_fdo_server.V2.Parser.parse_text go_fdo_server.Rv.Json.as_string
    go_fdo_server.Rv.Cbor.encode_rv_value go_fdo_server.Singleton.V2.update_reply
    go_fdo_server.Singleton.V2.upsert_rv_info go_fdo_server.Singleton.upsert_value
update-ok = refl

get_rendezvous_info-update_rendezvous_info_example :
    let after = (update_rendezvous_info sample_platform infos docs rows (some document) no_row).1 in
    (directives : List (List RvInstruction)) × StandsFor sample_platform infos docs rows directives
      document
    × Replies sample_platform infos docs rows directives
        (get_rendezvous_info sample_platform infos docs rows after).0
get_rendezvous_info-update_rendezvous_info_example =
    get_rendezvous_info-update_rendezvous_info sample_platform infos docs rows document no_row
      update-ok

abbrev stored : Rows Bytes
stored = with_row (7 ∷ 3 ∷ codes "rv")

delete-ok : (delete_rendezvous_info sample_platform infos docs rows stored).0 ≡ accepted document
unfolding delete_rendezvous_info go_fdo_server.Singleton.V2.delete_fetched
    go_fdo_server.Singleton.V2.fetch_rv_info go_fdo_server.Singleton.fetch_value
    go_fdo_server.Prelude.◌=ᵇ◌ go_fdo_server.Singleton.V2.show_rv_info
    go_fdo_server.V2.Converter.convert_to_v2_json go_fdo_server.V2.Converter.convert_group
    go_fdo_server.V2.Converter.convert_instruction go_fdo_server.V2.Converter.item_value
    go_fdo_server.Singleton.V2.delete_shown go_fdo_server.Singleton.V2.update_reply
    go_fdo_server.Singleton.delete_value
delete-ok = refl

get_rendezvous_info-delete_rendezvous_info_example :
    let r =
      (get_rendezvous_info sample_platform infos docs rows
        (delete_rendezvous_info sample_platform infos docs rows stored).1).0 in
    (r ≡ accepted []) ⊎ (r ≡ refusal 500)
get_rendezvous_info-delete_rendezvous_info_example =
    get_rendezvous_info-delete_rendezvous_info sample_platform infos docs rows document stored
      delete-ok

-- A text that is no CBOR, and a parser that takes it for a host.
abbrev old_row : Rows Bytes
old_row = with_row (codes "rv")

abbrev parse_host : Bytes → Result ℕ (List (List RvInstruction))
parse_host text_in = ok (host text_in)

migrate-ok : (migrate_rv_info_to_cbor infos parse_host rows old_row).0 ≡ ok tt
unfolding migrate_rv_info_to_cbor go_fdo_server.Singleton.Migration.migrate_row
    go_fdo_server.Prelude.◌=ᵇ◌ go_fdo_server.Singleton.Migration.migrate_json
migrate-ok = refl

migrate_rv_info_to_cbor-Migrates_example :
    Migrates infos parse_host rows
      (rows.rows old_row row_key)
      (rows.rows (migrate_rv_info_to_cbor infos parse_host rows old_row).1 row_key)
migrate_rv_info_to_cbor-Migrates_example =
    migrate_rv_info_to_cbor-Migrates infos parse_host rows old_row migrate-ok

-- JSON of the empty list only.
abbrev encode_none : List To2Human → Option Bytes
encode_none [] = some (codes "[]")
encode_none (item ∷ items) = none

abbrev decode_none : Bytes → Option (List To2Human)
decode_none b = if b =ᵇ codes "[]" then some [] else none

decode_none-encode_none :
    (items : List To2Human) {b : Bytes} → encode_none items ≡ some b → decode_none b ≡ some items
decode_none-encode_none [] {b} h =
    let same : codes "[]" ≡ b = cc h in ground (arith, =ᵇ_iff b (codes "[]"))
decode_none-encode_none (item ∷ items) h = cc h

abbrev addresses : Codec (List To2Human)
addresses = record {
  marshal = encode_none;
  unmarshal = decode_none;
  unmarshal-marshal = decode_none-encode_none;
}

abbrev request : Request
request = record { method = Http.put; body = some (codes "[]") }
