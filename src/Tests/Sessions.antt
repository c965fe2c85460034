-- ===== src/Tests/Sessions.antt =====
-- A sample database of the owner, and the theorems on the state of TO2 applied to it.
use go_fdo_server.Prelude.{
  ◌≡◌, refl, true, false, Option, none, some, List, [], ◌∷◌, Bytes, Text, ok, length, ◌=ᵇ◌, sym,
  arith,
}
use go_fdo_server.Prelude.Codec.{Codec}
use go_fdo_server.Prelude.Table.{Table, Apart}
use go_fdo_server.Rendezvous.Session.{Base64, Shows}
use go_fdo_server.Rendezvous.Token.{decode_token}
use go_fdo_server.Rendezvous.Token.Lifetime.{known}
use go_fdo_server.Owner.Di.{Session}
use go_fdo_server.Owner.Rows.{To2Session, ReplacementVoucher, KeyExchange, KeyExchangeLibrary}
use go_fdo_server.Owner.To2.{
  set_replacement_guid, replacement_guid, get_replacement_guid, set_x_session, x_session,
}
use go_fdo_server.Owner.To2.Promise.{To2Write, promised_all}
use go_fdo_server.Owner.To2.Refines.{perform_all, Seen, perform_all-Seen}
use go_fdo_server.Owner.Stored.{get_replacement_guid-set_replacement_guid, x_session-set_x_session}
use go_fdo_server.Tests.Database.{Rows, put, table}

record OwnerDatabase : Type 0 where
  session_rows : Rows Session
  to2_rows : Rows To2Session
  replacement_rows : Rows ReplacementVoucher
  key_rows : Rows KeyExchange

abbrev sessions : Table OwnerDatabase Session
sessions = table (λ d. d.session_rows) (λ f d. record d { session_rows = f }) (λ f d. refl)

abbrev to2_sessions : Table OwnerDatabase To2Session
to2_sessions = table (λ d. d.to2_rows) (λ f d. record d { to2_rows = f }) (λ f d. refl)

abbrev replacements : Table OwnerDatabase ReplacementVoucher
replacements =
    table (λ d. d.replacement_rows) (λ f d. record d { replacement_rows = f }) (λ f d. refl)

abbrev key_exchanges : Table OwnerDatabase KeyExchange
key_exchanges = table (λ d. d.key_rows) (λ f d. record d { key_rows = f }) (λ f d. refl)

sessions-to2_sessions : Apart sessions to2_sessions
sessions-to2_sessions = record {
  rows_after_first = λ s k j. refl;
  rows_after_save = λ s k r j. refl;
  rows_after_update = λ s k f j. refl;
  rows_after_first_or_create = λ s k r f j. refl;
}

to2_sessions-sessions : Apart to2_sessions sessions
to2_sessions-sessions = record {
  rows_after_first = λ s k j. refl;
  rows_after_save = λ s k r j. refl;
  rows_after_update = λ s k f j. refl;
  rows_after_first_or_create = λ s k r f j. refl;
}

sessions-replacements : Apart sessions replacements
sessions-replacements = record {
  rows_after_first = λ s k j. refl;
  rows_after_save = λ s k r j. refl;
  rows_after_update = λ s k f j. refl;
  rows_after_first_or_create = λ s k r f j. refl;
}

replacements-sessions : Apart replacements sessions
replacements-sessions = record {
  rows_after_first = λ s k j. refl;
  rows_after_save = λ s k r j. refl;
  rows_after_update = λ s k f j. refl;
  rows_after_first_or_create = λ s k r f j. refl;
}

sessions-key_exchanges : Apart sessions key_exchanges
sessions-key_exchanges = record {
  rows_after_first = λ s k j. refl;
  rows_after_save = λ s k r j. refl;
  rows_after_update = λ s k f j. refl;
  rows_after_first_or_create = λ s k r f j. refl;
}

key_exchanges-sessions : Apart key_exchanges sessions
key_exchanges-sessions = record {
  rows_after_first = λ s k j. refl;
  rows_after_save = λ s k r j. refl;
  rows_after_update = λ s k f j. refl;
  rows_after_first_or_create = λ s k r f j. refl;
}

abbrev base64 : Base64
base64 = record { encode = λ b. b; decode = λ s. some s; decode-encode = λ b h. refl }

-- Values that are their own encodings.
abbrev same_bytes : Codec Bytes
same_bytes = record {
  marshal = λ x. some x;
  unmarshal = λ b. some b;
  unmarshal-marshal = λ x h. sym h;
}

-- Lists that are never encoded but when they are empty.
abbrev encode_names : List Text → Option Bytes
encode_names [] = some []
encode_names (name ∷ names) = none

abbrev decode_names : Bytes → Option (List Text)
decode_names [] = some []
decode_names (x ∷ xs) = none

decode_names-encode_names :
    (names : List Text) {b : Bytes} → encode_names names ≡ some b → decode_names b ≡ some names
decode_names-encode_names [] {b} h = let same : [] ≡ b = cc h in rw (← same) refl
decode_names-encode_names (name ∷ names) h = cc h

abbrev no_names : Codec (List Text)
no_names = record {
  marshal = encode_names;
  unmarshal = decode_names;
  unmarshal-marshal = λ names h. decode_names-encode_names names h;
}

abbrev token : Bytes
token = 9 ∷ []

abbrev guid : Bytes
guid = 1 ∷ 2 ∷ 3 ∷ 4 ∷ 5 ∷ 6 ∷ 7 ∷ 8 ∷ 9 ∷ 10 ∷ 11 ∷ 12 ∷ 13 ∷ 14 ∷ 15 ∷ 16 ∷ []

guid-length : length guid ≡ 16
unfolding length
guid-length = refl

abbrev signed_in : OwnerDatabase
signed_in = record {
  session_rows = put (λ k. none) token (some (record { protocol = 3 }));
  to2_rows = λ k. none;
  replacement_rows = λ k. none;
  key_rows = λ k. none;
}

abbrev writes : List (To2Write Bytes Bytes)
writes =
    To2Write.guid guid
    ∷ To2Write.mtu 1300
    ∷ To2Write.rv_info (5 ∷ [])
    ∷ To2Write.devmod (6 ∷ []) [] true
    ∷ To2Write.mtu 1400
    ∷ []

decode_token-token : decode_token base64 sessions (some token) ≡ ok token
unfolding decode_token
decode_token-token = refl

live : known token (sessions.rows signed_in token) ≡ ok token
unfolding ◌=ᵇ◌
live = refl

writes-ok :
    (perform_all base64 sessions to2_sessions same_bytes same_bytes no_names []
      sessions-to2_sessions to2_sessions-sessions writes
      (some token)
      signed_in).0
    ≡ ok tt
unfolding perform_all go_fdo_server.Owner.To2.Refines.perform go_fdo_server.Owner.To2.set_guid
    go_fdo_server.Owner.Columns.store_row go_fdo_server.Rendezvous.Token.get_session_id decode_token
    ◌=ᵇ◌ go_fdo_server.Owner.To2.set_mtu go_fdo_server.Owner.To2.set_rv_info
    go_fdo_server.Owner.To2.set_devmod go_fdo_server.Owner.Rows.encode_devmod
writes-ok = refl

set_replacement_guid-ok :
    (set_replacement_guid base64 sessions replacements (some token) guid signed_in).0 ≡ ok tt
unfolding set_replacement_guid go_fdo_server.Owner.Columns.store_row
    go_fdo_server.Rendezvous.Token.get_session_id decode_token ◌=ᵇ◌
set_replacement_guid-ok = refl

get_replacement_guid-set_replacement_guid_example :
    let after = (set_replacement_guid base64 sessions replacements (some token) guid signed_in).1 in
    Shows (ok guid) (replacement_guid base64 sessions replacements (some token) after).0
    × Shows (ok guid) (get_replacement_guid base64 sessions replacements (some token) after).0
get_replacement_guid-set_replacement_guid_example =
    get_replacement_guid-set_replacement_guid base64 sessions replacements sessions-replacements
      replacements-sessions (some token) token guid signed_in guid-length decode_token-token
      set_replacement_guid-ok

-- A key exchange that is its own encoding.
abbrev exchanges : KeyExchangeLibrary Bytes
exchanges = record {
  is_marshaler = λ x. true;
  is_unmarshaler = λ x. true;
  marshal_binary = λ x. some x;
  unmarshal_binary = λ x b. some b;
  new = λ suite. [];
}

abbrev suite : Text
suite = 69 ∷ []

set_x_session-ok :
    (set_x_session base64 sessions key_exchanges exchanges (some token) suite guid signed_in).0
    ≡ ok tt
unfolding set_x_session go_fdo_server.Owner.Columns.store_row
    go_fdo_server.Rendezvous.Token.get_session_id decode_token ◌=ᵇ◌
    go_fdo_server.Owner.Rows.encode_x_session
set_x_session-ok = refl

x_session-set_x_session_example :
    Shows
      (ok (suite, guid))
      (x_session base64 sessions key_exchanges exchanges
        (some token)
        (set_x_session base64 sessions key_exchanges exchanges
          (some token)
          suite
          guid
          signed_in).1).0
x_session-set_x_session_example =
    x_session-set_x_session base64 sessions key_exchanges exchanges sessions-key_exchanges
      key_exchanges-sessions (some token) token suite guid signed_in refl (λ e h. sym h)
      decode_token-token set_x_session-ok

perform_all-Seen_example :
    let after =
      (perform_all base64 sessions to2_sessions same_bytes same_bytes no_names []
        sessions-to2_sessions to2_sessions-sessions writes
        (some token)
        signed_in).1 in
    Seen base64 sessions to2_sessions same_bytes same_bytes no_names [] sessions-to2_sessions
      to2_sessions-sessions
      (promised_all writes none)
      (some token)
      after
    × ((j : Bytes)
        → (token =ᵇ j) ≡ false
        → to2_sessions.rows after j ≡ to2_sessions.rows signed_in j)
perform_all-Seen_example =
    perform_all-Seen base64 sessions to2_sessions same_bytes same_bytes no_names []
      sessions-to2_sessions to2_sessions-sessions writes (some token) token signed_in none
      (guid-length, (omega arith, (tt, (tt, (omega arith, tt))))) decode_token-token live tt
      writes-ok
