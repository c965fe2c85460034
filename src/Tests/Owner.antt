-- ===== src/Tests/Owner.antt =====
-- The owner's side: a sample TO0 client and machine, and the theorems applied to them.
use go_fdo_server.Prelude.{
  ℕ, ◌≡◌, ◌≢◌, ◌<◌, ◌↔◌, refl, true, false, Option, none, some, List, [], ◌∷◌, ◌++◌, Bytes, Text,
  codes, Result, ok, err, ◌=ᵇ◌, length, if◌then◌else◌, arith, ltb,
}
use go_fdo_server.Prelude.Hex
use go_fdo_server.Prelude.Table.{Table}
use go_fdo_server.To0.Register.{OwnerDirective, To0Client, register_urls, register_directives}
use go_fdo_server.To0.Candidates.{answer, register_directives-candidates}
use go_fdo_server.To0.Scheduler.{DeviceOnboarding, OwnerVoucher, Scheduler, scheduler_pass}
use go_fdo_server.To0.Scheduler.Steps.{attempts, at_most_once}
use go_fdo_server.To0.Scheduler.Backoff.{scheduler_pass-ahead}
use go_fdo_server.To0.Scheduler.Attempt.{seen, IsSettled}
use go_fdo_server.To0.Scheduler.Settled.{scheduler_pass-IsSettled}
use go_fdo_server.Config.Http.{HttpConfig, validate as validate_http, use_tls, validate-use_tls}
use go_fdo_server.Config.ServiceInfo.{
  FsimWgetParams, System, ServiceInfoOperation, ServiceInfoConfig, fdo_wget,
}
use go_fdo_server.Config.ServiceInfo.Validate.{validate}
use go_fdo_server.Config.ServiceInfo.Modules.{Machine, wget_modules, owner_modules}
use go_fdo_server.Config.ServiceInfo.Ready.{validate-owner_modules, validate-wget_modules}
use go_fdo_server.Machines.{States, next_module}
use go_fdo_server.Machines.Order.{visited, as_shown, next_module-visits, next_module-other}
use go_fdo_server.Tests.Database.{Rows, table}

-- Two URLs, of which the second takes blobs, for 120 seconds. The world is the table of devices.
abbrev Devices : Type 0
Devices = Rows DeviceOnboarding

abbrev register_sample : ℕ → Result ℕ ℕ
register_sample url = if ltb url 2 then err 404 else ok 120

abbrev client : To0Client Devices ℕ ℕ ℕ
client = record {
  fetch_owner_info = λ w. (ok [], w);
  register_blob = λ url guid addrs w. (register_sample url, w);
}

abbrev devices : Table Devices DeviceOnboarding
devices = table (λ d. d) (λ f d. f) (λ f d. refl)

abbrev directives : List (OwnerDirective ℕ)
directives =
    record { bypass = true; urls = 5 ∷ [] } ∷ record { bypass = false; urls = 1 ∷ 2 ∷ [] } ∷ []

abbrev no_devices : Devices
no_devices = λ k. none

register_directives-candidates_example :
    register_directives client (7 ∷ []) [] true directives no_devices
    ≡ answer client false (register_urls client (7 ∷ []) [] (1 ∷ 2 ∷ []) no_devices)
register_directives-candidates_example =
    register_directives-candidates client (7 ∷ []) [] directives no_devices

-- A stored voucher is its GUID.
abbrev unmarshal : Bytes → Option (OwnerVoucher ℕ)
unmarshal cbor = some (record { guid = cbor; owner_rv_info = directives })

abbrev guid : Bytes
guid = 1 ∷ 2 ∷ 3 ∷ 4 ∷ 5 ∷ 6 ∷ 7 ∷ 8 ∷ 9 ∷ 10 ∷ 11 ∷ 12 ∷ 13 ∷ 14 ∷ 15 ∷ 16 ∷ []

abbrev waiting : Scheduler Devices
waiting = record { next_try = λ g. some 120; log = []; world = no_devices }

once : at_most_once client unmarshal devices (Hex.encode guid) (guid ∷ []) ≡ true
unfolding at_most_once ◌=ᵇ◌ Hex.encode
once = refl

due_at : waiting.next_try (Hex.encode guid) ≡ some 120
due_at = refl

scheduler_pass-ahead_example :
    attempts (Hex.encode guid) (scheduler_pass client unmarshal devices 50 (guid ∷ []) waiting).log
    ≡ 0
scheduler_pass-ahead_example =
    scheduler_pass-ahead client unmarshal devices 50 (guid ∷ []) waiting (Hex.encode guid) once
      due_at (omega arith)

abbrev sample_voucher : OwnerVoucher ℕ
sample_voucher = record { guid = guid; owner_rv_info = directives }

guid-unmarshal : unmarshal guid ≡ some sample_voucher
guid-unmarshal = refl

scheduler_pass-IsSettled_example :
    IsSettled client unmarshal devices 150 sample_voucher
      (scheduler_pass client unmarshal devices 150 [] waiting).world
      (seen (Hex.encode guid) waiting)
      (seen (Hex.encode guid) (scheduler_pass client unmarshal devices 150 (guid ∷ []) waiting))
scheduler_pass-IsSettled_example =
    scheduler_pass-IsSettled client unmarshal devices 150 [] [] guid waiting guid-unmarshal once

abbrev http : HttpConfig
http = record { cert_path = []; key_path = []; ip = codes "127.0.0.1"; port = codes "8043" }

http-valid : validate_http http ≡ ok tt
unfolding validate_http ◌=ᵇ◌
http-valid = refl

validated_use_tls :
    (codes "127.0.0.1" ≢ [])
    × (codes "8043" ≢ [])
    × ((use_tls http ≡ false) ↔ ((http.cert_path ≡ []) × (http.key_path ≡ [])))
validated_use_tls = validate-use_tls http http-valid

-- Undecoded parameters are wget parameters.
abbrev system : System FsimWgetParams
system = record {
  decode_command = λ raw. none;
  decode_upload = λ raw. none;
  decode_download = λ raw. none;
  decode_wget = λ raw. some raw;
  is_abs = λ s. s =ᵇ codes "/";
  join = λ a b. a ++ codes "/" ++ b;
  base = λ s. s;
  path_base = λ s. s;
  dir_of = λ s. s;
  stat = λ s. some true;
  parse_url = λ s. some (record { scheme = codes "https"; host = s; path = s });
}

abbrev machine : Machine
machine = record { opens = λ s. true; mkdir_all = λ s. true; replacement_guid = λ f. some guid }

abbrev wget : FsimWgetParams
wget = record {
  dir = [];
  files = record { url = codes "host"; dst = codes "f"; length = 0; checksum = [] } ∷ [];
}

abbrev operation :
    Option FsimWgetParams → Option FsimWgetParams → ServiceInfoOperation FsimWgetParams
operation raw params = record {
  fsim = fdo_wget;
  raw_params = raw;
  command_params = none;
  upload_params = none;
  download_params = none;
  wget_params = params;
}

abbrev config : ServiceInfoConfig FsimWgetParams
config = record { defaults = []; fsims = operation (some wget) none ∷ [] }

abbrev valid_config : ServiceInfoConfig FsimWgetParams
valid_config = record { defaults = []; fsims = operation none (some wget) ∷ [] }

config-valid : validate system config ≡ ok valid_config
unfolding validate ◌=ᵇ◌
config-valid = refl

validate-owner_modules_example :
    owner_modules system machine (fdo_wget ∷ []) (operation none (some wget) ∷ []) ≢ none
validate-owner_modules_example =
    validate-owner_modules system machine config (fdo_wget ∷ []) config-valid

validate-wget_modules_example :
    length (wget_modules system machine wget.dir wget.files) ≡ length wget.files
validate-wget_modules_example =
    validate-wget_modules system machine config [] [] (operation none (some wget)) config-valid refl
      refl refl

abbrev two_modules : List (Text × ℕ)
two_modules = (fdo_wget, 1) ∷ (fdo_wget, 2) ∷ []

abbrev no_states : States ℕ
no_states = λ token. none

enough_calls : length two_modules < 5
unfolding length
enough_calls = omega arith

next_module-visits_example :
    visited 5 (some two_modules) (7 ∷ []) no_states ≡ (as_shown two_modules, some (ok false))
next_module-visits_example = next_module-visits 5 (7 ∷ []) two_modules no_states refl enough_calls

next_module-other_example :
    (next_module (some two_modules) (some (7 ∷ [])) no_states).1 (8 ∷ []) ≡ none
next_module-other_example =
    next_module-other (some two_modules) (7 ∷ []) (8 ∷ []) no_states (λ h. cc h)
