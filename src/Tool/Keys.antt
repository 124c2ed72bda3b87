-- ===== src/Tool/Keys.antt =====
-- persistent_reserve/qdisktool.c: the key that the tool uses.
use corosync_qdisk.Prelude.{ℕ, ◌^◌, ◌<◌, ◌≡◌, true, false, some, [], ◌∷◌, ◌++◌, Text, codes, arith}
use corosync_qdisk.Libc.{print_key}
use corosync_qdisk.Libc.Keys.{scan_key-print_key}
use corosync_qdisk.Corosync.{Env, Request}
use corosync_qdisk.Cmap.{text_eq}
use corosync_qdisk.Reserve.KeyFile.{persistent_reserve_device_new_key}
use corosync_qdisk.Tool.{run_opened, run_key, run_default_key, is_usable, run_command, main}

module _ {W : Type 0} (env : Env W) where
  -- Without a key file among its arguments, and with a uint64_t key in sixteen digits in the
  -- environment, whatever follows them, the tool performs an action on a usable device through the
  -- handle that is opened with that key.
  pub main-environment :
      (exe name device rest : Text) (k : ℕ) (w : W)
      → k < 2 ^ 64
      → text_eq name (codes "check") ≡ false
      → (is_usable env device w).0 ≡ some true
      → (env.call (Request.getenv (codes "DISK_RESERVE_KEY")) (is_usable env device w).1).0
        ≡ some (print_key k ++ rest)
      → main env exe (name ∷ device ∷ []) w ≡ (
          let var =
            env.call (Request.getenv (codes "DISK_RESERVE_KEY")) (is_usable env device w).1 in
          let handle = persistent_reserve_device_new_key env device k var.1 in
          run_opened env exe name device handle.0 handle.1)
  unfolding main run_command run_default_key run_key
  main-environment exe name device rest k w fits other usable set =
      ground (arith, other, usable, set, scan_key-print_key k rest fits)
