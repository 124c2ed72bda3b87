-- ===== src/Reserve/KeyFile.antt =====
-- persistent_reserve/device.c: the key of a host, its file, and the choice of the device's class.
pub mod Restart
use corosync_qdisk.Prelude.{
  ℕ, ◌+◌, ◌*◌, ◌/◌, ◌%◌, Bool, true, false, Option, none, some, List, [], ◌∷◌, Text, if◌then◌else◌,
  u32, u64,
}
use Prim.Native.Nat.{bit_and, bit_or, bit_xor}
use corosync_qdisk.Libc.{Scan, eof, mismatch, matched, print_key, scan_key}
use corosync_qdisk.Corosync.{Env, Request, St, ◌>>=◌, pure}
use corosync_qdisk.Reserve.Exec.{take}
use corosync_qdisk.Reserve.Scsi.Open.{
  Opened, opened, null, abort, is_scsi_device_usable, scsi_pr_device_init,
}
use corosync_qdisk.Reserve.Nvme.Open.{is_nvme_device_usable, nvme_pr_device_init}

-- One round of the loop of `jenkins_one_at_a_time_hash`.
unfoldable pub mix : ℕ → ℕ → ℕ
mix hash c =
    let added = u32 (hash + c) in
    let spread = u32 (added + u32 (added * 1024)) in bit_xor spread (spread / 64)

unfoldable pub hash_from : ℕ → Text → ℕ
hash_from hash [] = hash
hash_from hash (c ∷ t) = hash_from (mix hash c) t

unfoldable pub jenkins_one_at_a_time_hash : Text → ℕ → ℕ
jenkins_one_at_a_time_hash key init =
    let hash = hash_from init key in
    let spread = u32 (hash + u32 (hash * 8)) in
    let folded = bit_xor spread (spread / 2048) in u32 (folded + u32 (folded * 32768))

-- The key that is generated for a host name: `hash2` has the upper 32 bits.
unfoldable pub generated_key : Text → ℕ
generated_key hostname =
    let hash1 = jenkins_one_at_a_time_hash hostname 0 in
    let hash2 = u32 (bit_or 3228565504 (bit_and 65535 (jenkins_one_at_a_time_hash hostname 1))) in
    u64 (bit_or (u64 (hash2 * 4294967296)) hash1)

module _ {W : Type 0} (env : Env W) where
  -- `*ikey` as it is left; the error is not returned, since the caller does not look at it.
  -- `_POSIX_HOST_NAME_MAX` is 255, and `write_file` is to open, write and close the file.
  unfoldable pub generate_reserve_key : Text → ℕ → St W ℕ
  generate_reserve_key key_path ikey = do
    host ← env.call Request.gethostname
    let key = generated_key (take 255 host)
    written ← env.call (Request.write_file key_path (print_key key))
    pure (if written then key else ikey)

  -- The handle for a key, by the class that can use the device; `abort` is the one of
  -- `is_scsi_device_usable`.
  unfoldable pub persistent_reserve_device_new_key : Text → ℕ → St W (Opened W)
  persistent_reserve_device_new_key device_path ikey = do
    scsi ← is_scsi_device_usable env device_path
    elim scsi [
      | none ↦ pure abort
      | some true ↦ scsi_pr_device_init env device_path ikey
      | some false ↦ do
        nvme ← is_nvme_device_usable env device_path
        elim nvme [ true ↦ nvme_pr_device_init env device_path ikey | false ↦ pure null ]
    ]

  -- The key of the key file, which is made if it is not there. Only the end of the file counts as an
  -- error: a text that is no number leaves key 0.
  unfoldable pub persistent_reserve_device_new : Text → Text → St W (Opened W)
  persistent_reserve_device_new device_path key_path = do
    there ← env.call (Request.file_exists key_path)
    elim there [
      | false ↦ do
        ikey ← generate_reserve_key key_path 0
        persistent_reserve_device_new_key device_path ikey
      | true ↦ do
        keyfile ← env.call (Request.read_file key_path)
        elim keyfile [
          | none ↦ pure null
          | some text ↦ elim (scan_key text) [
            | eof ↦ pure null
            | mismatch ↦ persistent_reserve_device_new_key device_path 0
            | matched ikey ↦ persistent_reserve_device_new_key device_path ikey
          ]
        ]
    ]
