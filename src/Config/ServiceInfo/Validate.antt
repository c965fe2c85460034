-- ===== src/Config/ServiceInfo/Validate.antt =====
-- `(s *ServiceInfoConfig) validate` of cmd/config.go. The code changes the operations in place; here
-- the changed configuration is the result. After an error the caller drops the configuration.
use go_fdo_server.Prelude.{
  ℕ, suc, Bool, false, ◌&&◌, ◌||◌, not, none, some, List, [], ◌∷◌, Text, codes, Result, ok, err,
  or_err, map_err, ◌>>=◌, length, ◌==◌, ◌=ᵇ◌, if◌then◌else◌,
}
use go_fdo_server.Prelude.Hex
use go_fdo_server.Config.ServiceInfo.{
  FsimUploadFileSpec, FsimDownloadFileSpec, FsimWgetFileSpec, DefaultEntry, System,
  ServiceInfoOperation, ServiceInfoConfig, OperationError, unsupported_fsim, no_params,
  command_required, no_files, fdo_command, fdo_upload, fdo_download, fdo_wget, get_default_dir,
  with_upload, with_download, with_wget, unmarshal_params,
}

pub data DefaultError : Type 0 where
  fsim_required no_such_fsim duplicate_fsim relative_dir no_access not_directory : DefaultError

pub data FileError : Type 0 where
  src_required dst_required absolute_dst no_file url_required invalid_url no_http no_host :
      FileError
  bad_checksum checksum_length : FileError

pub data ValidateError : Type 0 where
  in_default : ℕ → DefaultError → ValidateError
  in_operation : ℕ → OperationError → ValidateError
  in_file : ℕ → ℕ → FileError → ValidateError

abbrev pub expected_checksum_length : ℕ
expected_checksum_length = 48

-- `seenFsims[name]`
has_seen : List Text → Text → Bool
has_seen [] name = false
has_seen (x ∷ xs) name = (x =ᵇ name) || has_seen xs name

module _ {Raw : Type 0} (sys : System Raw) where
  check_base : DefaultEntry → Result DefaultError (Unit {0})
  check_base d =
      if (d.fsim =ᵇ fdo_download) || (d.fsim =ᵇ fdo_upload)
      then (do
        is_dir ← or_err (sys.stat d.dir) no_access
        if is_dir then ok tt else err not_directory)
      else ok tt

  validate_default : List Text → DefaultEntry → Result DefaultError (Unit {0})
  unfolding check_base has_seen
  validate_default seen d =
      if d.fsim =ᵇ []
      then err fsim_required
      else if not (d.fsim =ᵇ fdo_download) && not (d.fsim =ᵇ fdo_upload) && not (d.fsim =ᵇ fdo_wget)
      then err no_such_fsim
      else if has_seen seen d.fsim
      then err duplicate_fsim
      else if not (d.dir =ᵇ []) && not (sys.is_abs d.dir)
      then err relative_dir
      else check_base d

  validate_defaults : ℕ → List Text → List DefaultEntry → Result ValidateError (Unit {0})
  unfolding validate_default
  validate_defaults i seen [] = ok tt
  validate_defaults i seen (d ∷ ds) = do
    _ ← map_err (in_default i) (validate_default seen d)
    validate_defaults (suc i) (d.fsim ∷ seen) ds

  -- The default directory, where the parameters name none.
  unfoldable pub apply_defaults :
      List DefaultEntry → ServiceInfoOperation Raw → ServiceInfoOperation Raw
  unfolding get_default_dir
  apply_defaults ds op =
      if op.fsim =ᵇ fdo_download
      then elim op.download_params [
        | none ↦ op
        | some p ↦
            if p.dir =ᵇ []
            then with_download sys op
                (record { dir = get_default_dir ds fdo_download; files = p.files })
            else op
      ]
      else if op.fsim =ᵇ fdo_upload
      then elim op.upload_params [
        | none ↦ op
        | some p ↦
            if p.dir =ᵇ []
            then with_upload sys op
                (record { dir = get_default_dir ds fdo_upload; files = p.files })
            else op
      ]
      else if op.fsim =ᵇ fdo_wget
      then elim op.wget_params [
        | none ↦ op
        | some p ↦
            if p.dir =ᵇ []
            then with_wget sys op (record { dir = get_default_dir ds fdo_wget; files = p.files })
            else op
      ]
      else op

  -- The loops over the files, with the checks of each.
  unfoldable pub each_file :
      {A : Type 0}
      → (A → Result FileError (Unit {0}))
      → ℕ
      → ℕ
      → List A
      → Result ValidateError (Unit {0})
  each_file check i j [] = ok tt
  each_file check i j (f ∷ fs) = do
    _ ← map_err (in_file i j) (check f)
    each_file check i (suc j) fs

  check_upload : FsimUploadFileSpec → Result FileError (Unit {0})
  check_upload f =
      if f.src =ᵇ []
      then err src_required
      else if not (f.dst =ᵇ []) && sys.is_abs f.dst
      then err absolute_dst
      else ok tt

  pub source_path : Text → FsimDownloadFileSpec → Text
  source_path dir f = if sys.is_abs f.src then f.src else sys.join dir f.src

  check_download : Text → FsimDownloadFileSpec → Result FileError (Unit {0})
  unfolding source_path
  check_download dir f =
      if f.src =ᵇ []
      then err src_required
      else if f.dst =ᵇ []
      then err dst_required
      else elim (sys.stat (source_path dir f)) [ none ↦ err no_file | some is_dir ↦ ok tt ]

  unfoldable pub check_checksum : Text → Result FileError (Unit {0})
  check_checksum s = if s =ᵇ [] then ok tt else (do
    decoded ← or_err (Hex.decode s) bad_checksum
    if length decoded == expected_checksum_length then ok tt else err checksum_length)

  unfoldable pub check_wget : FsimWgetFileSpec → Result FileError (Unit {0})
  unfolding check_checksum
  check_wget f = if f.url =ᵇ [] then err url_required else (do
    url ← or_err (sys.parse_url f.url) invalid_url
    if not (url.scheme =ᵇ codes "http") && not (url.scheme =ᵇ codes "https")
        then err no_http
        else if url.host =ᵇ []
        then err no_host
        else check_checksum f.checksum)

  unfoldable pub check_files :
      {A : Type 0}
      → (A → Result FileError (Unit {0}))
      → ℕ
      → List A
      → Result ValidateError (Unit {0})
  unfolding each_file
  check_files check i [] = err (in_operation i no_files)
  check_files check i (f ∷ fs) = each_file check i 0 (f ∷ fs)

  unfoldable pub check_params : ℕ → ServiceInfoOperation Raw → Result ValidateError (Unit {0})
  unfolding check_files check_upload check_download check_wget
  check_params i op =
      if op.fsim =ᵇ fdo_command
      then elim op.command_params [
        | none ↦ err (in_operation i no_params)
        | some p ↦ if p.command =ᵇ [] then err (in_operation i command_required) else ok tt
      ]
      else if op.fsim =ᵇ fdo_upload
      then elim op.upload_params [
        | none ↦ err (in_operation i no_params)
        | some p ↦ check_files check_upload i p.files
      ]
      else if op.fsim =ᵇ fdo_download
      then elim op.download_params [
        | none ↦ err (in_operation i no_params)
        | some p ↦ check_files (check_download p.dir) i p.files
      ]
      else if op.fsim =ᵇ fdo_wget
      then elim op.wget_params [
        | none ↦ err (in_operation i no_params)
        | some p ↦ check_files check_wget i p.files
      ]
      else err (in_operation i unsupported_fsim)

  unfoldable pub validate_operation :
      ℕ
      → List DefaultEntry
      → ServiceInfoOperation Raw
      → Result ValidateError (ServiceInfoOperation Raw)
  unfolding apply_defaults check_params unmarshal_params
  validate_operation i ds op = do
    op' ← map_err (in_operation i) (unmarshal_params sys op)
    if op'.fsim =ᵇ []
        then err (in_operation i OperationError.fsim_required)
        else do _ ← check_params i (apply_defaults ds op'); ok (apply_defaults ds op')

  unfoldable pub validate_operations :
      ℕ
      → List DefaultEntry
      → List (ServiceInfoOperation Raw)
      → Result ValidateError (List (ServiceInfoOperation Raw))
  unfolding validate_operation
  validate_operations i ds [] = ok []
  validate_operations i ds (op ∷ ops) = do
    op' ← validate_operation i ds op
    rest ← validate_operations (suc i) ds ops
    ok (op' ∷ rest)

  unfoldable pub validate : ServiceInfoConfig Raw → Result ValidateError (ServiceInfoConfig Raw)
  unfolding validate_defaults validate_operations
  validate s = do
    _ ← validate_defaults 0 [] s.defaults
    ops ← validate_operations 0 s.defaults s.fsims
    ok (record { defaults = s.defaults; fsims = ops })
