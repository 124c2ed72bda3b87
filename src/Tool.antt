-- ===== src/Tool.antt =====
-- persistent_reserve/qdisktool.c: the command line tool.
pub mod Status
pub mod Keys
use corosync_qdisk.Prelude.{
  ℕ, ℤ, pos, negsuc, Bool, true, false, not, ◌&&◌, ◌||◌, Option, none, some, List, [], ◌∷◌, ◌++◌,
  Text, codes, ◌==◌, if◌then◌else◌, is_zero, is_positive, leb,
}
use corosync_qdisk.Libc.{Scan, eof, mismatch, matched, scan_key, hex_fixed}
use corosync_qdisk.Corosync.{Env, Request, St, ◌>>=◌, ◌>>◌, pure}
use corosync_qdisk.Cmap.{text_eq}
use corosync_qdisk.Reserve.{Device, pr_err_ok}
use corosync_qdisk.Reserve.Errors.{pr_strerr}
use corosync_qdisk.Reserve.Scsi.Open.{
  Opened, opened, null, abort, is_scsi_device, is_scsi_device_usable,
}
use corosync_qdisk.Reserve.Nvme.{is_nvme_device}
use corosync_qdisk.Reserve.Nvme.Open.{is_nvme_device_usable}
use corosync_qdisk.Reserve.KeyFile.{
  persistent_reserve_device_new, persistent_reserve_device_new_key,
}

-- The actions that take a handle, by their names.
pub data Action : Type 0 where
  register unregister reserve release abort_action status : Action

unfoldable pub action_of : Text → Option Action
action_of name =
    if text_eq name (codes "register")
    then some register
    else if text_eq name (codes "unregister")
    then some unregister
    else if text_eq name (codes "reserve")
    then some reserve
    else if text_eq name (codes "release")
    then some release
    else if text_eq name (codes "abort")
    then some abort_action
    else if text_eq name (codes "status")
    then some status
    else none

-- The zeros at the head, without the last digit.
unfoldable pub strip_zeros : Text → Text
strip_zeros [] = []
strip_zeros (c ∷ []) = c ∷ []
strip_zeros (c ∷ d ∷ t) = if c == 48 then strip_zeros (d ∷ t) else c ∷ d ∷ t

-- `"%" PRIx64` of a uint64_t.
unfoldable pub print_plain : ℕ → Text
print_plain k = strip_zeros (hex_fixed 16 k)

-- The line of a registered key; the key of the holder is marked.
unfoldable pub key_line : ℕ → ℕ → Text
key_line holder key =
    codes "    " ++ print_plain key ++ (if key == holder then codes " *" else []) ++ codes "\n"

-- The lines of `print_usage`.
unfoldable pub usage : Text → List Text
usage exe =
    codes "Usage:\n"
    ∷ (codes "\t"
        ++ exe
        ++ codes " <register|unregister|reserve|release|abort|status> <device> [keyfile]\n")
    ∷ (codes "\t" ++ exe ++ codes " <check> <device>\n")
    ∷ codes "\n"
    ∷ codes "All commands except check expect a keyfile to exist for the\n"
    ∷ codes "registration key. They can alternatively read the key from the\n"
    ∷ codes "environment variable DISK_RESERVE_KEY\n"
    ∷ codes "If the environment variable is not present and no key file is\n"
    ∷ codes "given the key will be read from /etc/corosync/pr_reserve_key\n"
    ∷ []

module _ {W : Type 0} (env : Env W) where
  -- The log of the library in the tool: warnings and what is worse go to the errors. `text` is what the
  -- format and its arguments make, and LOG_WARNING is 4.
  unfoldable pub pr_log : ℕ → Text → St W (Unit {0})
  pr_log level text = if leb level 4 then env.call (Request.print_err text) else pure tt

  unfoldable pub print_usage : List Text → St W (Unit {0})
  print_usage [] = pure tt
  print_usage (l ∷ ls) = do env.call (Request.print_err l); print_usage ls

  -- The loop over the registered keys.
  unfoldable pub print_keys : ℕ → List ℕ → St W (Unit {0})
  print_keys holder [] = pure tt
  print_keys holder (k ∷ ks) = do env.call (Request.print (key_line holder k)); print_keys holder ks

  -- What is said of the reservation, and the key of the holder, which is 0 if there is none.
  unfoldable pub show_reservation : Device W → St W ℕ
  show_reservation handle = do
    is_reserved ← handle.is_reserved
    if not (is_positive is_reserved)
        then (env.call (Request.print (codes "Device is not reserved.\n\n")) >> pure 0)
        else (do
          (err, holder) ← handle.get_reservation_owner_key
          if is_zero err
              then (env.call
                    (Request.print (codes "Device is reserved, holder will be marked with a *\n"))
                  >> pure holder)
              else (env.call (
                    Request.print_err
                      (codes "Device is reserved, but there was an error fetching the holder.\n"))
                  >> pure holder))

  -- An error in fetching the keys is not looked at.
  unfoldable pub show_status : Device W → St W (Unit {0})
  show_status handle = do
    holder ← show_reservation handle
    (_, keys) ← handle.get_registered_keys
    env.call (Request.print (codes "Registered keys:\n"))
    print_keys holder keys
    env.call (Request.print (codes "\n"))
    pure tt

  -- The error of an action.
  unfoldable pub perform : Device W → Action → St W ℤ
  perform handle register = handle.register_key
  perform handle unregister = handle.unregister_key
  perform handle reserve = handle.reserve
  perform handle release = handle.release
  perform handle abort_action = handle.abort
  perform handle status = show_status handle >> pure pr_err_ok

  -- From the handle on, with the exit code.
  unfoldable pub run_action : Text → Text → Device W → St W ℕ
  run_action exe name handle = elim (action_of name) [
    | none ↦ do
      env.call (Request.print_err (codes "Invalid action: '" ++ name ++ codes "'\n\n"))
      print_usage (usage exe)
      pure 1
    | some action ↦ do
      err ← perform handle action
      if is_zero err
          then pure 0
          else (env.call (Request.print_err (pr_strerr err ++ codes "\n")) >> pure 1)
  ]

  -- `none` is a call of `abort`.
  unfoldable pub run_opened : Text → Text → Text → Opened W → St W (Option ℕ)
  run_opened exe name device (opened handle) = do
    code ← run_action exe name handle
    pure (some code)
  run_opened exe name device null = do
    env.call (
        Request.print_err
          (codes "Failed to open device " ++ device ++ codes ". Aborting command.\n\n"))
    pure (some 1)
  run_opened exe name device Opened.abort = pure none

  -- With what the scan of the environment's key gives: a text that is no number leaves key 0.
  unfoldable pub run_key : Text → Text → Text → Text → Scan → St W (Option ℕ)
  run_key exe name device key_str eof = do
    env.call (
        Request.print_err (
          codes "Bad key string '"
          ++ key_str
          ++ codes "' in environment variable PR_KEY_ENV_VAR\n"))
    pure (some 1)
  run_key exe name device key_str mismatch = do
    handle ← persistent_reserve_device_new_key env device 0
    run_opened exe name device handle
  run_key exe name device key_str (matched ikey) = do
    handle ← persistent_reserve_device_new_key env device ikey
    run_opened exe name device handle

  -- The key of the environment, or else that of the default key file.
  unfoldable pub run_default_key : Text → Text → Text → St W (Option ℕ)
  run_default_key exe name device = do
    var ← env.call (Request.getenv (codes "DISK_RESERVE_KEY"))
    elim var [
      | none ↦ do
        handle ← persistent_reserve_device_new env device (codes "/etc/corosync/pr_reserve_key")
        run_opened exe name device handle
      | some key_str ↦ run_key exe name device key_str (scan_key key_str)
    ]

  -- `none` is a call of `abort`; the test of a class is made only for a device of that class, and
  -- that for NVMe only if SCSI cannot be used.
  unfoldable pub is_usable : Text → St W (Option Bool)
  is_usable device = do
    is_scsi ← is_scsi_device env device
    is_nvme ← is_nvme_device env device
    scsi ← (if is_scsi then is_scsi_device_usable env device else pure (some false))
    elim scsi [
      | none ↦ pure none
      | some true ↦ pure (some true)
      | some false ↦
          if is_nvme
          then (do nvme ← is_nvme_device_usable env device; pure (some nvme))
          else pure (some false)
    ]

  -- With two or three arguments.
  unfoldable pub run_command : Text → Text → Text → Option Text → St W (Option ℕ)
  run_command exe name device key_path = do
    usable ← is_usable device
    elim usable [
      | none ↦ pure none
      | some false ↦ do
        env.call (
            Request.print_err (
              codes "The device "
              ++ device
              ++ codes " is not a usable SCSI or NVME disk.  Aborting command.\n"))
        if text_eq name (codes "check")
            then pure tt
            else (env.call (Request.print_err (codes "\n")) >> print_usage (usage exe))
        pure (some 1)
      | some true ↦
          if text_eq name (codes "check")
          then (env.call (Request.print (codes "Device " ++ device ++ codes " is usable\n"))
              >> pure (some 0))
          else elim key_path [
            | none ↦ run_default_key exe name device
            | some path ↦ do
              handle ← persistent_reserve_device_new env device path
              run_opened exe name device handle
          ]
    ]

  -- `main`, with the arguments behind the name of the program.
  unfoldable pub main : Text → List Text → St W (Option ℕ)
  main exe (name ∷ device ∷ []) = run_command exe name device none
  main exe (name ∷ device ∷ key_path ∷ []) = run_command exe name device (some key_path)
  main exe _ = do
    env.call (Request.print_err (codes "Invalid command syntax\n\n"))
    print_usage (usage exe)
    pure (some 1)
