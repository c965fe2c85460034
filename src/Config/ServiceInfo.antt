-- ===== src/Config/ServiceInfo.antt =====
-- The service-info configuration of cmd/config.go: its types, the decoding of an operation's
-- parameters, and the default directories. mapstructure, the file system and net/url are outside.
pub mod Validate
pub mod Modules
pub mod Ready
use go_fdo_server.Prelude.{
  ℕ, Bool, Option, none, some, List, [], ◌∷◌, Bytes, Text, codes, Result, ok, err, or_err, ◌>>=◌,
  ◌=ᵇ◌, if◌then◌else◌,
}

pub record FsimCommandParams : Type 0 where
  pub command : Text
  pub args : List Text
  pub may_fail : Bool
  pub ret_stdout : Bool
  pub ret_stderr : Bool

pub record FsimUploadFileSpec : Type 0 where
  pub src : Text
  pub dst : Text

pub record FsimUploadParams : Type 0 where
  pub dir : Text
  pub files : List FsimUploadFileSpec

pub record FsimDownloadFileSpec : Type 0 where
  pub src : Text
  pub dst : Text
  pub may_fail : Bool

pub record FsimDownloadParams : Type 0 where
  pub dir : Text
  pub files : List FsimDownloadFileSpec

pub record FsimWgetFileSpec : Type 0 where
  pub url : Text
  pub dst : Text
  pub length : ℕ
  pub checksum : Text

pub record FsimWgetParams : Type 0 where
  pub dir : Text
  pub files : List FsimWgetFileSpec

pub record DefaultEntry : Type 0 where
  pub fsim : Text
  pub dir : Text

-- A parsed URL: what the code reads of it.
pub record Url : Type 0 where
  pub scheme : Text
  pub host : Text
  pub path : Text

-- mapstructure.Decode at each type of parameters, the functions of path/filepath, path.Base, os.Stat (whether a
-- path that can be reached is a directory), and url.Parse. `Raw` is the type of undecoded maps.
pub record System (Raw : Type 0) : Type 0 where
  pub decode_command : Raw → Option FsimCommandParams
  pub decode_upload : Raw → Option FsimUploadParams
  pub decode_download : Raw → Option FsimDownloadParams
  pub decode_wget : Raw → Option FsimWgetParams
  pub is_abs : Text → Bool
  pub join : Text → Text → Text
  pub base : Text → Text
  pub path_base : Text → Text
  pub dir_of : Text → Text
  pub stat : Text → Option Bool
  pub parse_url : Text → Option Url

-- The pointers of the Go struct are options.
pub record ServiceInfoOperation (Raw : Type 0) : Type 0 where
  pub fsim : Text
  pub raw_params : Option Raw
  pub command_params : Option FsimCommandParams
  pub upload_params : Option FsimUploadParams
  pub download_params : Option FsimDownloadParams
  pub wget_params : Option FsimWgetParams

pub record ServiceInfoConfig (Raw : Type 0) : Type 0 where
  pub defaults : List DefaultEntry
  pub fsims : List (ServiceInfoOperation Raw)

pub data OperationError : Type 0 where
  params_required params_not_decoded unsupported_fsim fsim_required no_params : OperationError
  command_required no_files : OperationError

abbrev pub fdo_command : Text
fdo_command = codes "fdo.command"

abbrev pub fdo_upload : Text
fdo_upload = codes "fdo.upload"

abbrev pub fdo_download : Text
fdo_download = codes "fdo.download"

abbrev pub fdo_wget : Text
fdo_wget = codes "fdo.wget"

-- `getDefaultDir`
pub get_default_dir : List DefaultEntry → Text → Text
get_default_dir [] name = []
get_default_dir (d ∷ ds) name = if d.fsim =ᵇ name then d.dir else get_default_dir ds name

module _ {Raw : Type 0} (sys : System Raw) where
  -- The operation with the decoded parameters in the field of its module, and no raw ones.
  abbrev with_command : ServiceInfoOperation Raw → FsimCommandParams → ServiceInfoOperation Raw
  with_command op p = record {
    fsim = op.fsim;
    raw_params = none;
    command_params = some p;
    upload_params = op.upload_params;
    download_params = op.download_params;
    wget_params = op.wget_params;
  }

  abbrev with_upload : ServiceInfoOperation Raw → FsimUploadParams → ServiceInfoOperation Raw
  with_upload op p = record {
    fsim = op.fsim;
    raw_params = none;
    command_params = op.command_params;
    upload_params = some p;
    download_params = op.download_params;
    wget_params = op.wget_params;
  }

  abbrev with_download : ServiceInfoOperation Raw → FsimDownloadParams → ServiceInfoOperation Raw
  with_download op p = record {
    fsim = op.fsim;
    raw_params = none;
    command_params = op.command_params;
    upload_params = op.upload_params;
    download_params = some p;
    wget_params = op.wget_params;
  }

  abbrev with_wget : ServiceInfoOperation Raw → FsimWgetParams → ServiceInfoOperation Raw
  with_wget op p = record {
    fsim = op.fsim;
    raw_params = none;
    command_params = op.command_params;
    upload_params = op.upload_params;
    download_params = op.download_params;
    wget_params = some p;
  }

  decode_params : ServiceInfoOperation Raw → Raw → Result OperationError (ServiceInfoOperation Raw)
  decode_params op raw =
      if op.fsim =ᵇ fdo_command
      then (do p ← or_err (sys.decode_command raw) params_not_decoded; ok (with_command op p))
      else if op.fsim =ᵇ fdo_upload
      then (do p ← or_err (sys.decode_upload raw) params_not_decoded; ok (with_upload op p))
      else if op.fsim =ᵇ fdo_download
      then (do p ← or_err (sys.decode_download raw) params_not_decoded; ok (with_download op p))
      else if op.fsim =ᵇ fdo_wget
      then (do p ← or_err (sys.decode_wget raw) params_not_decoded; ok (with_wget op p))
      else err unsupported_fsim

  pub unmarshal_params : ServiceInfoOperation Raw → Result OperationError (ServiceInfoOperation Raw)
  unfolding decode_params
  unmarshal_params op = do raw ← or_err op.raw_params params_required; decode_params op raw
