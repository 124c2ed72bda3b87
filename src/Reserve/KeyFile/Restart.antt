-- ===== src/Reserve/KeyFile/Restart.antt =====
-- persistent_reserve/device.c: a host keeps its key over a restart.
use corosync_qdisk.Prelude.{ℕ, ◌^◌, ◌<◌, ◌≡◌, true, false, some, Text, ◌++◌, arith}
use corosync_qdisk.Libc.{print_key}
use corosync_qdisk.Libc.Keys.{scan_key-print_key}
use corosync_qdisk.Corosync.{Env, Request}
use corosync_qdisk.Reserve.Exec.{take}
use corosync_qdisk.Reserve.KeyFile.{
  generated_key, generate_reserve_key, persistent_reserve_device_new_key,
  persistent_reserve_device_new,
}

generated_key-lt : (host : Text) → generated_key host < 2 ^ 64
unfolding generated_key
generated_key-lt host = omega arith

module _ {W : Type 0} (env : Env W) (device_path key_path : Text) where
  -- There is no key file, and one can be written.
  abbrev pub CanGenerate : W → Type 0
  CanGenerate w =
      let r = env.call (Request.file_exists key_path) w in
      let h = env.call Request.gethostname r.1 in
      (r.0 ≡ false)
      × ((env.call (Request.write_file key_path (print_key (generated_key (take 255 h.0)))) h.1).0
          ≡ true)

  -- The key that a host generates in a state of the world.
  abbrev pub key_of : W → ℕ
  key_of w =
      generated_key
        (take 255 (env.call Request.gethostname (env.call (Request.file_exists key_path) w).1).0)

  -- The key file has the key `k` and some text behind it.
  abbrev pub Stores : ℕ → Text → W → Type 0
  Stores k rest w =
      let r = env.call (Request.file_exists key_path) w in
      (r.0 ≡ true) × ((env.call (Request.read_file key_path) r.1).0 ≡ some (print_key k ++ rest))

  -- Without a key file, if one can be written, `persistent_reserve_device_new` opens the device with
  -- a generated key, and in any later world in which the file has that key it opens the device with
  -- the same key.
  pub device_new-restart :
      (v w : W) (rest : Text)
      → CanGenerate v
      → Stores (key_of v) rest w
      → ((z : W) × (persistent_reserve_device_new env device_path key_path v
            ≡ persistent_reserve_device_new_key env device_path (key_of v) z))
        × ((z : W) × (persistent_reserve_device_new env device_path key_path w
              ≡ persistent_reserve_device_new_key env device_path (key_of v) z))
  unfolding persistent_reserve_device_new generate_reserve_key
  device_new-restart v w rest (absent, written) (there, stored) =
      let host = env.call Request.gethostname (env.call (Request.file_exists key_path) v).1 in
      let key = key_of v in
      let read = scan_key-print_key key rest (generated_key-lt (take 255 host.0)) in
      (
        (
          (env.call (Request.write_file key_path (print_key key)) host.1).1,
          ground (arith, absent, written),
        ),
        (
          (env.call (Request.read_file key_path) (env.call (Request.file_exists key_path) w).1).1,
          ground (arith, there, stored, read),
        ),
      )
