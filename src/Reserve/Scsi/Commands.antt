-- ===== src/Reserve/Scsi/Commands.antt =====
-- persistent_reserve/scsi_device.c: the commands of an opened device are not cut off by their buffer.
use corosync_qdisk.Prelude.{
  ℕ, zero, suc, ◌+◌, ◌-◌, ◌<◌, ◌≤◌, ◌≡◌, refl, ap, Option, none, some, List, [], ◌∷◌, ◌++◌, Text,
  codes, length, length-append, arith, Bool-cases, inl, inr, ltb, is_zero,
}
use corosync_qdisk.Libc.{print_key}
use corosync_qdisk.Libc.Keys.{length-hex_fixed}
use corosync_qdisk.Corosync.{Env, St, pure}
use corosync_qdisk.Reserve.Exec.{take, snprintf}
use corosync_qdisk.Reserve.Scsi.{
  DevicePriv, register_cmd, unregister_cmd, reserve_cmd, release_cmd, read_reservation_cmd,
  holder_cmd, preempt_cmd, read_keys_cmd, map_device_path, scsi_device_vtable,
}
use corosync_qdisk.Reserve.Scsi.Open.{
  Opened, opened, null, scsi_pr_device_init, persist_cmd_for, detect_persist_cmd, find_device_id,
}

pub take-all : (n : ℕ) (t : Text) → length t ≤ n → take n t ≡ t
unfolding take
take-all zero [] h = refl
take-all zero (c ∷ t) h = ground (arith, h)
take-all (suc n) [] h = refl
take-all (suc n) (c ∷ t) h = ap (λ u. c ∷ u) (take-all n t (omega (arith, h)))

pub length-take : (n : ℕ) (t : Text) → length (take n t) ≤ n
unfolding take
length-take zero t = omega arith
length-take (suc n) [] = omega arith
length-take (suc n) (c ∷ t) = omega (arith, length-take n t)

-- A text that fits with its final zero is printed whole.
snprintf_whole : (n : ℕ) (t : Text) → length t < n → snprintf n t ≡ t
unfolding snprintf
snprintf_whole n t h = take-all (n - 1) t (omega (arith, h))

pub length-print_key : (k : ℕ) → length (print_key k) ≡ 16
unfolding print_key
length-print_key k = length-hex_fixed 16 k

-- The words of a command behind its beginning.
abbrev pub joined : Text → List Text → Text
joined t [] = t
joined t (u ∷ ts) = joined (t ++ u) ts

abbrev pub total : List Text → ℕ
total [] = 0
total (t ∷ ts) = length t + total ts

pub length-joined : (t : Text) (ts : List Text) → length (joined t ts) ≡ length t + total ts
length-joined t [] = omega arith
length-joined t (u ∷ ts) = omega (arith, length-append t u, length-joined (t ++ u) ts)

-- A command that fits in the buffer reaches the shell whole.
joined_whole :
    (t : Text) (ts : List Text)
    → length t + total ts < 768
    → snprintf 768 (joined t ts) ≡ joined t ts
joined_whole t ts h = snprintf_whole 768 (joined t ts) (omega (arith, h, length-joined t ts))

-- The names of the device and of the command leave room for the rest of each command.
abbrev IsShort : DevicePriv → Type 0
IsShort d = (length d.persist_cmd ≤ 14) × (length d.device_name ≤ 300)

-- A command with our key, a word behind it, and the name of the device.
key_command_whole :
    (d : DevicePriv) (before between behind : Text)
    → IsShort d
    → length before + length between + length behind < 200
    → snprintf 768
        (d.persist_cmd ++ before ++ print_key d.ikey ++ between ++ d.device_name ++ behind)
      ≡ d.persist_cmd ++ before ++ print_key d.ikey ++ between ++ d.device_name ++ behind
key_command_whole d before between behind h room =
    joined_whole d.persist_cmd (before ∷ print_key d.ikey ∷ between ∷ d.device_name ∷ behind ∷ [])
      (omega (arith, h, room, length-print_key d.ikey))

read_command_whole :
    (d : DevicePriv) (before behind : Text)
    → IsShort d
    → length before + length behind < 200
    → snprintf 768 (d.persist_cmd ++ before ++ d.device_name ++ behind)
      ≡ d.persist_cmd ++ before ++ d.device_name ++ behind
read_command_whole d before behind h room =
    joined_whole d.persist_cmd (before ∷ d.device_name ∷ behind ∷ []) (omega (arith, h, room))

-- Each command of the device is the whole text that the source prints.
pub record IsUncut (d : DevicePriv) : Type 0 where
  pub register_uncut :
      register_cmd d
      ≡ d.persist_cmd
        ++ codes " --out --register-ignore --param-sark=0x"
        ++ print_key d.ikey
        ++ codes " "
        ++ d.device_name
        ++ codes " 2>&1"
  pub unregister_uncut :
      unregister_cmd d
      ≡ d.persist_cmd
        ++ codes " --out --register --param-rk=0x"
        ++ print_key d.ikey
        ++ codes " --param-sark=0x0 "
        ++ d.device_name
        ++ codes " 2>&1"
  pub reserve_uncut :
      reserve_cmd d
      ≡ d.persist_cmd
        ++ codes " --out --reserve --param-rk=0x"
        ++ print_key d.ikey
        ++ codes " --prout-type=5 "
        ++ d.device_name
        ++ codes " 2>&1"
  pub release_uncut :
      release_cmd d
      ≡ d.persist_cmd
        ++ codes " --out --release --param-rk=0x"
        ++ print_key d.ikey
        ++ codes " --prout-type=5 "
        ++ d.device_name
        ++ codes " 2>&1"
  pub preempt_uncut :
      (cur : ℕ)
      → preempt_cmd d cur
        ≡ d.persist_cmd
          ++ codes " --out --preempt-abort --param-rk=0x"
          ++ print_key d.ikey
          ++ codes " --param-sark=0x"
          ++ print_key cur
          ++ codes " --prout-type=5 "
          ++ d.device_name
          ++ codes " 2>&1"
  pub read_reservation_uncut :
      read_reservation_cmd d
      ≡ d.persist_cmd ++ codes " --in --read-reservation " ++ d.device_name ++ codes " 2>&1"
  pub read_keys_uncut :
      read_keys_cmd d
      ≡ d.persist_cmd ++ codes " --in --read-keys " ++ d.device_name ++ codes " 2>&1"
  pub holder_uncut :
      holder_cmd d
      ≡ d.persist_cmd
        ++ codes " --in --read-reservation "
        ++ d.device_name
        ++ codes "  2>&1 | grep Key | awk -F= '{print$2}'"

IsShort-IsUncut : (d : DevicePriv) → IsShort d → IsUncut d
unfolding register_cmd unregister_cmd reserve_cmd release_cmd preempt_cmd read_reservation_cmd
    read_keys_cmd holder_cmd
IsShort-IsUncut d h = record {
  register_uncut =
      key_command_whole d (codes " --out --register-ignore --param-sark=0x") (codes " ")
        (codes " 2>&1") h (omega arith);
  unregister_uncut =
      key_command_whole d (codes " --out --register --param-rk=0x") (codes " --param-sark=0x0 ")
        (codes " 2>&1") h (omega arith);
  reserve_uncut =
      key_command_whole d (codes " --out --reserve --param-rk=0x") (codes " --prout-type=5 ")
        (codes " 2>&1") h (omega arith);
  release_uncut =
      key_command_whole d (codes " --out --release --param-rk=0x") (codes " --prout-type=5 ")
        (codes " 2>&1") h (omega arith);
  preempt_uncut = λ cur.
      joined_whole d.persist_cmd
        (codes " --out --preempt-abort --param-rk=0x"
          ∷ print_key d.ikey
          ∷ codes " --param-sark=0x"
          ∷ print_key cur
          ∷ codes " --prout-type=5 "
          ∷ d.device_name
          ∷ codes " 2>&1"
          ∷ [])
        (omega (arith, h, length-print_key d.ikey, length-print_key cur));
  read_reservation_uncut =
      read_command_whole d (codes " --in --read-reservation ") (codes " 2>&1") h (omega arith);
  read_keys_uncut =
      read_command_whole d (codes " --in --read-keys ") (codes " 2>&1") h (omega arith);
  holder_uncut =
      read_command_whole d (codes " --in --read-reservation ")
        (codes "  2>&1 | grep Key | awk -F= '{print$2}'") h (omega arith);
}

-- A device of the class whose commands are whole.
abbrev pub IsClear : {W : Type 0} → Env W → Opened W → Type 0
IsClear env (opened dev) = (d : DevicePriv) × ((dev ≡ scsi_device_vtable env d) × IsUncut d)
IsClear env null = Unit
IsClear env Opened.abort = Unit

module _ {W : Type 0} (env : Env W) where
  persist_cmd_for-short :
      (path : Text) (w : W) (cmd : Text)
      → (persist_cmd_for env path w).0 ≡ some cmd
      → length cmd ≤ 14
  unfolding persist_cmd_for detect_persist_cmd
  persist_cmd_for-short path w cmd h = ground (arith, h)

  -- The end of `scsi_pr_device_init`, once the command is known.
  named-IsClear :
      (path id : Text) (ikey : ℕ) (found : Option Text) (w : W)
      → length path ≤ 300
      → ((cmd : Text) → found ≡ some cmd → length cmd ≤ 14)
      → IsClear env
          ((elim found as (λ _. St W (Opened W)) [
            | none ↦ pure Opened.abort
            | some cmd ↦ pure (
                opened (
                  scsi_device_vtable env (record {
                    ikey = ikey;
                    key = print_key ikey;
                    device_name = path;
                    id = id;
                    persist_cmd = cmd;
                  })))
          ])
            w).0
  named-IsClear path id ikey none w short known = tt
  named-IsClear path id ikey (some cmd) w short known =
      let d : DevicePriv = record {
        ikey = ikey;
        key = print_key ikey;
        device_name = path;
        id = id;
        persist_cmd = cmd;
      } in
      (d, (refl, IsShort-IsUncut d (known cmd refl, short)))

  -- A handle that `scsi_pr_device_init` gives runs commands that are whole: none is cut off by the
  -- buffer that it is printed into, whatever the name of the device and the output of the tools are.
  pub device_init-IsClear :
      (name : Text) (ikey : ℕ) (w : W) → IsClear env (scsi_pr_device_init env name ikey w).0
  unfolding scsi_pr_device_init
  device_init-IsClear name ikey w =
      let path = take 300 (map_device_path name) in
      let found = find_device_id env path 301 w in
      let command = persist_cmd_for env path found.1 in
      elim (Bool-cases (ltb (length name) 300)) [
        | inr e ↦ rw e tt
        | inl e ↦ elim (Bool-cases (is_zero found.0.0)) [
          | inr f ↦ rw (e, f) tt
          | inl f ↦
              rw (e, f)
                (named-IsClear path found.0.1 ikey command.0 command.1
                  (length-take 300 (map_device_path name))
                  (λ cmd g. persist_cmd_for-short path found.1 cmd g))
        ]
      ]
