-- ===== src/Config/ServiceInfo/Modules.antt =====
-- `ownerModules` of cmd/owner.go: the modules that a device is sent, as the list that the consumer
-- sees when it takes them all. `none` is the panic of reading parameters through a nil pointer.
use go_fdo_server.Prelude.{
  ℕ, Bool, true, false, ◌||◌, not, Option, none, some, List, [], ◌∷◌, ◌++◌, Bytes, Text, codes,
  ◌=ᵇ◌, if◌then◌else◌,
}
use go_fdo_server.Prelude.Hex
use go_fdo_server.Config.ServiceInfo.{
  FsimUploadFileSpec, FsimDownloadFileSpec, FsimWgetFileSpec, Url, System, ServiceInfoOperation,
  fdo_command, fdo_upload, fdo_download, fdo_wget,
}
use go_fdo_server.Config.ServiceInfo.Validate.{source_path}

pub data OwnerModule : Type 0 where
  -- The name on the device, the file that is opened, and whether it must be downloaded.
  download_contents : Text → Text → Bool → OwnerModule
  -- The directory, the name on the device, and the new name.
  upload_request : Text → Text → Text → OwnerModule
  wget_command : Text → Url → ℕ → Bytes → OwnerModule
  -- The command, its arguments, and its flags: may fail, stdout, stderr.
  run_command : Text → List Text → Bool → Bool → Bool → OwnerModule

-- What the loop asks of the machine and of the database: os.Open and os.MkdirAll, and
-- GetReplacementGUID at each file.
pub record Machine : Type 0 where
  pub opens : Text → Bool
  pub mkdir_all : Text → Bool
  pub replacement_guid : FsimUploadFileSpec → Option Bytes

-- `slices.Contains`
pub contains : List Text → Text → Bool
contains [] x = false
contains (y ∷ ys) x = (y =ᵇ x) || contains ys x

module _ {Raw : Type 0} (sys : System Raw) (m : Machine) where
  download_modules : Text → List FsimDownloadFileSpec → List OwnerModule
  download_modules dir [] = []
  download_modules dir (f ∷ fs) =
      let rest = download_modules dir fs in
      let path = source_path sys dir f in
      if m.opens path then download_contents f.dst path (not f.may_fail) ∷ rest else rest

  -- The upload directory of a file: the per-device directory, with the subdirectory of `dst`.
  upload_dir : Text → Bytes → Text → Text
  upload_dir dir guid dst =
      let device_dir = sys.join (if dir =ᵇ [] then codes "." else dir) (Hex.encode guid) in
      if dst =ᵇ []
      then device_dir
      else if sys.dir_of dst =ᵇ codes "."
      then device_dir
      else sys.join device_dir (sys.dir_of dst)

  -- The flag says whether the sequence goes on: a GUID that is not found ends it.
  upload_modules : Text → List FsimUploadFileSpec → List OwnerModule × Bool
  unfolding upload_dir
  upload_modules dir [] = ([], true)
  upload_modules dir (f ∷ fs) =
      let rest = upload_modules dir fs in
      elim (m.replacement_guid f) [
        | none ↦ ([], false)
        | some guid ↦
            let path = upload_dir dir guid f.dst in
            if m.mkdir_all path
            then (
              upload_request path f.src (if f.dst =ᵇ [] then [] else sys.base f.dst) ∷ rest.0,
              rest.1,
            )
            else rest
      ]

  pub wget_name : Text → FsimWgetFileSpec → Url → Text
  wget_name dir f url =
      if not (f.dst =ᵇ [])
      then (if sys.is_abs f.dst
          then f.dst
          else if not (dir =ᵇ [])
          then sys.join dir f.dst
          else f.dst)
      else if not (dir =ᵇ [])
      then sys.join dir (sys.path_base url.path)
      else sys.path_base url.path

  -- The checksum of a command: none is a decoding error.
  unfoldable pub wget_checksum : Text → Option Bytes
  wget_checksum s = if s =ᵇ [] then some [] else Hex.decode s

  unfoldable pub wget_modules : Text → List FsimWgetFileSpec → List OwnerModule
  unfolding wget_name wget_checksum
  wget_modules dir [] = []
  wget_modules dir (f ∷ fs) =
      let rest = wget_modules dir fs in
      elim (sys.parse_url f.url) [
        | none ↦ rest
        | some url ↦ elim (wget_checksum f.checksum) [
          | none ↦ rest
          | some sum ↦ wget_command (wget_name dir f url) url f.length sum ∷ rest
        ]
      ]

  unfoldable pub operation_modules : ServiceInfoOperation Raw → Option (List OwnerModule × Bool)
  unfolding download_modules upload_modules wget_modules
  operation_modules op =
      if op.fsim =ᵇ fdo_download
      then elim op.download_params [
        | none ↦ none
        | some p ↦ some (download_modules p.dir p.files, true)
      ]
      else if op.fsim =ᵇ fdo_upload
      then elim op.upload_params [ none ↦ none | some p ↦ some (upload_modules p.dir p.files) ]
      else if op.fsim =ᵇ fdo_wget
      then elim op.wget_params [ none ↦ none | some p ↦ some (wget_modules p.dir p.files, true) ]
      else if op.fsim =ᵇ fdo_command
      then elim op.command_params [
        | none ↦ none
        | some p ↦
            some (run_command p.command p.args p.may_fail p.ret_stdout p.ret_stderr ∷ [], true)
      ]
      else some ([], true)

  unfoldable pub owner_modules :
      List Text → List (ServiceInfoOperation Raw) → Option (List OwnerModule)
  unfolding operation_modules contains
  owner_modules modules [] = some []
  owner_modules modules (op ∷ ops) =
      let rest = owner_modules modules ops in
      if not (contains modules op.fsim) then rest else elim (operation_modules op) [
        | none ↦ none
        | some found ↦
            if found.1
            then elim rest [ none ↦ none | some more ↦ some (found.0 ++ more) ]
            else some found.0
      ]
