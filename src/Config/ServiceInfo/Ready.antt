-- ===== src/Config/ServiceInfo/Ready.antt =====
-- What validation guarantees to `ownerModules`.
use go_fdo_server.Prelude.{
  ℕ, suc, ◌≡◌, ◌≢◌, ◌∙◌, inl, inr, none, some, List, [], ◌∷◌, ◌++◌, Bytes, Text, ok, map_err,
  >>=-eq-ok, map_err-eq-ok, length, ◌=ᵇ◌, =ᵇ_iff, arith, refl, ap, sym, Option-cases, Result-cases,
}
use go_fdo_server.Prelude.Action.{Holds}
use go_fdo_server.Config.ServiceInfo.{
  FsimWgetFileSpec, FsimWgetParams, DefaultEntry, Url, System, ServiceInfoOperation,
  ServiceInfoConfig, fdo_command, fdo_upload, fdo_download, fdo_wget, unmarshal_params,
}
use go_fdo_server.Config.ServiceInfo.Validate.{
  ValidateError, each_file, check_wget, check_checksum, check_files, check_params, apply_defaults,
  validate_operation, validate_operations, validate,
}
use go_fdo_server.Config.ServiceInfo.Modules.{
  Machine, wget_checksum, wget_modules, operation_modules, owner_modules,
}

module _ {Raw : Type 0} (sys : System Raw) (m : Machine) where
  -- Parameters that pass the checks are there when the modules are made.
  check_params-operation_modules :
      (i : ℕ) (op : ServiceInfoOperation Raw)
      → check_params sys i op ≡ ok tt
      → operation_modules sys m op ≢ none
  unfolding check_params operation_modules
  check_params-operation_modules i op h bad = ground (
    arith,
    =ᵇ_iff op.fsim fdo_command,
    =ᵇ_iff op.fsim fdo_upload,
    =ᵇ_iff op.fsim fdo_download,
    =ᵇ_iff op.fsim fdo_wget,
  )

  validate_operation-check_params :
      (i : ℕ) (ds : List DefaultEntry) (op : ServiceInfoOperation Raw)
      {op' : ServiceInfoOperation Raw}
      → validate_operation sys i ds op ≡ ok op'
      → check_params sys i op' ≡ ok tt
  unfolding validate_operation
  validate_operation-check_params i ds op h = elim (Result-cases (unmarshal_params sys op)) [
    | inl (e, bad) ↦ ground arith
    | inr (op1, good) ↦ elim (Result-cases (check_params sys i (apply_defaults sys ds op1))) [
      | inl (e, bad) ↦ ground arith
      | inr (u, checked) ↦ ground arith
    ]
  ]

  -- A file whose checks pass parses again when its command is made.
  check_wget-parse_url :
      (f : FsimWgetFileSpec)
      → check_wget sys f ≡ ok tt
      → ((url : Url) × (sys.parse_url f.url ≡ some url))
        × ((sum : Bytes) × (wget_checksum sys m f.checksum ≡ some sum))
  unfolding check_wget check_checksum wget_checksum
  check_wget-parse_url f h = (
    elim (Option-cases (sys.parse_url f.url)) [ inl bad ↦ ground arith | inr found ↦ found ],
    elim (Option-cases (wget_checksum sys m f.checksum)) [
      | inl bad ↦ ground arith
      | inr found ↦ found
    ],
  )

  wget_modules-cons :
      (dir : Text) (f : FsimWgetFileSpec) (fs : List FsimWgetFileSpec) {url : Url} {sum : Bytes}
      → sys.parse_url f.url ≡ some url
      → wget_checksum sys m f.checksum ≡ some sum
      → length (wget_modules sys m dir (f ∷ fs)) ≡ suc (length (wget_modules sys m dir fs))
  unfolding wget_modules length
  wget_modules-cons dir f fs parsed decoded = ground arith

  each_file-wget_modules :
      (i j : ℕ) (dir : Text) (fs : List FsimWgetFileSpec)
      → each_file sys (check_wget sys) i j fs ≡ ok tt
      → length (wget_modules sys m dir fs) ≡ length fs
  unfolding each_file wget_modules length
  each_file-wget_modules i j dir [] h = refl
  each_file-wget_modules i j dir (f ∷ fs) h =
      let (u, checked, rest) =
        >>=-eq-ok (map_err (ValidateError.in_file i j) (check_wget sys f))
          (λ _. each_file sys (check_wget sys) i (suc j) fs) h in
      let ((url, parsed), (sum, decoded)) =
        check_wget-parse_url f
          (map_err-eq-ok (ValidateError.in_file i j) (check_wget sys f) checked) in
      wget_modules-cons dir f fs parsed decoded
      ∙ ap suc (each_file-wget_modules i (suc j) dir fs rest)

  validate-inv :
      (s : ServiceInfoConfig Raw) {s' : ServiceInfoConfig Raw}
      → validate sys s ≡ ok s'
      → validate_operations sys 0 s.defaults s.fsims ≡ ok s'.fsims
  unfolding validate
  validate-inv s h = elim (Result-cases (validate_operations sys 0 s.defaults s.fsims)) [
    | inl (e, bad) ↦ ground arith
    | inr (ops, good) ↦ ground arith
  ]

  -- Every operation of a list passes the checks, at some index.
  AllChecked : List (ServiceInfoOperation Raw) → Type 0
  AllChecked [] = Unit
  AllChecked (op ∷ ops) = ((i : ℕ) × (check_params sys i op ≡ ok tt)) × AllChecked ops

  validate_operations-AllChecked :
      (i : ℕ) (ds : List DefaultEntry) (ops : List (ServiceInfoOperation Raw))
      → Holds AllChecked (validate_operations sys i ds ops)
  unfolding validate_operations AllChecked
  validate_operations-AllChecked i ds [] = tt
  validate_operations-AllChecked i ds (op ∷ ops) =
      let rest = validate_operations-AllChecked (suc i) ds ops in
      elim (Result-cases (validate_operation sys i ds op)) [
        | inl (e, bad) ↦ rw bad tt
        | inr (op', good) ↦ elim (Result-cases (validate_operations sys (suc i) ds ops)) [
          | inl (e, bad) ↦ rw (good, bad) tt
          | inr (ops', goods) ↦
              rw (good, goods)
                ((i, validate_operation-check_params i ds op good), (rw goods at rest))
        ]
      ]

  owner_modules-AllChecked :
      (modules : List Text) (ops : List (ServiceInfoOperation Raw))
      → AllChecked ops
      → owner_modules sys m modules ops ≢ none
  unfolding owner_modules AllChecked
  owner_modules-AllChecked modules [] h bad = ground arith
  owner_modules-AllChecked modules (op ∷ ops) ((i, h), hs) bad =
      ground (arith, check_params-operation_modules i op h, owner_modules-AllChecked modules ops hs)

  validate-AllChecked :
      (s : ServiceInfoConfig Raw) {s' : ServiceInfoConfig Raw}
      → validate sys s ≡ ok s'
      → AllChecked s'.fsims
  validate-AllChecked s h =
      let all = validate_operations-AllChecked 0 s.defaults s.fsims in
      let same = validate-inv s h in (rw same at all)

  -- After a validation that succeeds, the modules of a device are made without reading parameters
  -- through a nil pointer, whatever modules the device supports.
  pub validate-owner_modules :
      (s : ServiceInfoConfig Raw) (modules : List Text) {s' : ServiceInfoConfig Raw}
      → validate sys s ≡ ok s'
      → owner_modules sys m modules s'.fsims ≢ none
  validate-owner_modules s modules {s'} h =
      owner_modules-AllChecked modules s'.fsims (validate-AllChecked s h)

  check_files-wget_modules :
      (i : ℕ) (dir : Text) (fs : List FsimWgetFileSpec)
      → check_files sys (check_wget sys) i fs ≡ ok tt
      → length (wget_modules sys m dir fs) ≡ length fs
  unfolding check_files
  check_files-wget_modules i dir [] h = cc
  check_files-wget_modules i dir (f ∷ fs) h = each_file-wget_modules i 0 dir (f ∷ fs) h

  check_params_wget :
      (i : ℕ) (op : ServiceInfoOperation Raw) {p : FsimWgetParams}
      → op.fsim ≡ fdo_wget
      → op.wget_params ≡ some p
      → check_params sys i op ≡ check_files sys (check_wget sys) i p.files
  unfolding check_params ◌=ᵇ◌
  check_params_wget i op name params = rw (name, params, check_params)

  check_params-wget :
      (i : ℕ) (op : ServiceInfoOperation Raw) {p : FsimWgetParams}
      → check_params sys i op ≡ ok tt
      → op.fsim ≡ fdo_wget
      → op.wget_params ≡ some p
      → length (wget_modules sys m p.dir p.files) ≡ length p.files
  check_params-wget i op {p} h name params =
      check_files-wget_modules i p.dir p.files (sym (check_params_wget i op name params) ∙ h)

  AllChecked-append :
      (before after : List (ServiceInfoOperation Raw)) (op : ServiceInfoOperation Raw)
      → AllChecked (before ++ op ∷ after)
      → (i : ℕ) × (check_params sys i op ≡ ok tt)
  unfolding AllChecked
  AllChecked-append [] after op (h, hs) = h
  AllChecked-append (b ∷ before) after op (h, hs) = AllChecked-append before after op hs

  -- After a validation that succeeds, every file of a wget operation becomes a command: no URL and
  -- no checksum fails to parse again.
  pub validate-wget_modules :
      (s : ServiceInfoConfig Raw) (before after : List (ServiceInfoOperation Raw))
      (op : ServiceInfoOperation Raw) {s' : ServiceInfoConfig Raw} {p : FsimWgetParams}
      → validate sys s ≡ ok s'
      → s'.fsims ≡ before ++ op ∷ after
      → op.fsim ≡ fdo_wget
      → op.wget_params ≡ some p
      → length (wget_modules sys m p.dir p.files) ≡ length p.files
  validate-wget_modules s before after op h split name params =
      let all = validate-AllChecked s h in
      let (i, checked) = AllChecked-append before after op (rw split at all) in
      check_params-wget i op checked name params
