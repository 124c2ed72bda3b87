-- ===== src/Examples/Disks.antt =====
-- Daemons on a SCSI disk and on an NVMe disk, from their commands up to HAVE_QDISK.
use corosync_qdisk.Prelude.{
  ◌⊎◌, false, is_zero, ℕ, suc, ◌<◌, ◌^◌, sym, ◌≡◌, refl, ap, pos, Option, none, some, List, [], ◌∷◌,
  ◌++◌, codes, Text, arith, map,
}
use mathlib.Core.Path.{subst}
use mathlib.Core.Option.{get_or}
use corosync_qdisk.Corosync.{Env, Output}
use corosync_qdisk.Cmap.{text_eq}
use corosync_qdisk.Libc.{
  print_key, hex_fixed, hex_digit, hex_value, read_hex, scan_digits, scan_signed, scan_hex,
  scan_literal, skip_spaces, has_text,
}
use corosync_qdisk.Reserve.Exec.Lines.{concat}
use corosync_qdisk.Reserve.{pr_err_ok}
use corosync_qdisk.Reserve.Exec.{exec_cmd, lines, lines_from, snprintf, take}
use corosync_qdisk.Reserve.Scsi.{
  DevicePriv, scan_generation, scan_any, scsi_device_vtable, device_reserve, device_is_reserved,
  device_get_reservation_owner_key, device_get_registered_keys, read_reservation, find_status,
  find_key_line, scan_key_line, keys_of_lines, register_cmd, reserve_cmd, unregister_cmd,
  release_cmd, read_reservation_cmd, read_keys_cmd,
}
use corosync_qdisk.Reserve.Scsi.Parse.{holder_line, key_line}
use corosync_qdisk.Reserve.Scsi.Parse.{shown}
use corosync_qdisk.Reserve.Scsi.{holder_cmd, preempt_cmd, device_abort, device_release}
use corosync_qdisk.Reserve.Scsi.Abort.{Preempts, device_abort-releases}
use corosync_qdisk.Reserve.Exec.{exec_cmd_output}
use corosync_qdisk.Examples.Drive.{told, text_eq_refl}
use corosync_qdisk.Prelude.{ltb, if◌then◌else◌, true}
use corosync_qdisk.Reserve.Scsi.Shown.{ShowsHolder, read_reservation-ShowsHolder}
use corosync_qdisk.Daemon.{start, idle, reserve_disk, have_qdisk, Sys, done}
use corosync_qdisk.Algorithm.{algorithm_run}
use corosync_qdisk.Algorithm.Lost.{NoAbort}
use corosync_qdisk.Cluster.{Node, Cluster, sys, node_of, put, Reach, here, later, beat, IsInitial}
use corosync_qdisk.Cluster.Lock.{LockReach, Represents}
use corosync_qdisk.Cluster.Target.{Target}
use corosync_qdisk.Cluster.Scsi.{commands, ShowsHolders, scsi, scsi-Reach}
use corosync_qdisk.Examples.Lab.{Lab, lab_env, free_disk, heartbeat_computes}
use corosync_qdisk.Examples.Heartbeats.{booted, race_at}
use corosync_qdisk.Examples.Drive.{drive, drive_env, drive-Target, drive-shows}

-- What sg_persist writes.
abbrev status_line : Text
status_line = codes "  PR generation=0x5, Reservation follows:" ++ 10 ∷ []

abbrev sg_reservation : Option ℕ → Text
sg_reservation none = codes "  PR generation=0x5, there is NO reservation held" ++ 10 ∷ []
sg_reservation (some k) = concat (status_line ∷ holder_line 16 k ∷ [])

abbrev sg_keys : List ℕ → Text
sg_keys ks = concat (map (key_line 16) ks)

abbrev sg_host : ℕ → DevicePriv
sg_host i = record {
  ikey = suc i;
  key = [];
  device_name = codes "/dev/sda";
  id = [];
  persist_cmd = codes "sg_persist";
}

abbrev sg_env : ℕ → Env Lab
sg_env = drive_env sg_reservation sg_keys (λ i. commands (sg_host i))

sg_Target : Target sg_env (λ i. commands (sg_host i)) (λ w. w.holder)
sg_Target = drive-Target sg_reservation sg_keys (λ i. commands (sg_host i)) (λ i j h. omega arith)

sg_ShowsHolder : (k : ℕ) → k < 2 ^ 64 → ShowsHolder (sg_reservation (some k)) k
unfolding scan_generation scan_literal scan_any scan_hex skip_spaces scan_signed scan_digits
    hex_value read_hex has_text
sg_ShowsHolder k small = record {
  digits = 16;
  generation = 5;
  before = [];
  status = status_line;
  between = [];
  behind = [];
  is_text = refl;
  fits = (omega (arith, small), small);
  is_short = omega arith;
  before_whole = tt;
  status_whole = ground arith;
  between_whole = tt;
  behind_whole = tt;
  before_silent = tt;
  is_generation = refl;
  follows = refl;
  between_silent = tt;
}

sg_ShowsHolders : ShowsHolders sg_env sg_host (λ w. w.holder)
sg_ShowsHolders i k o w h ran ok =
    let (shown, small) =
      drive-shows sg_reservation sg_keys (λ i. commands (sg_host i)) i k o w h ran ok in
    subst (λ t. ShowsHolder t k) (sym shown) (sg_ShowsHolder k small)

-- A world in which every command writes that key 1 holds the disk.
abbrev sg_told : Env Lab
sg_told = record lab_env {
  popen = λ cmd w. (some (record { text = sg_reservation (some 1); status = pos 0 }), w);
}

read_reservation-ShowsHolder_example :
    ((device_is_reserved sg_told (sg_host 0) free_disk).0 ≡ pos 1)
    × ((device_get_reservation_owner_key sg_told (sg_host 0) free_disk).0 ≡ (pr_err_ok, 1))
read_reservation-ShowsHolder_example =
    read_reservation-ShowsHolder sg_told (sg_host 0) 1
      (record { text = sg_reservation (some 1); status = pos 0 }) free_disk refl refl
      (sg_ShowsHolder 1 (omega arith))

abbrev sg_node : ℕ → Node Lab
sg_node i = booted (scsi sg_env sg_host (λ w. w.holder) sg_Target i) i

-- Hosts that have just started.
abbrev sg_hosts : Cluster Lab
sg_hosts = record { world = free_disk; node = λ i. some (sg_node i) }

sg_hosts-IsInitial :
    IsInitial sg_env (scsi sg_env sg_host (λ w. w.holder) sg_Target) (λ w. w.holder) sg_hosts
sg_hosts-IsInitial i n h =
    subst
      (λ m.
        (m.alg.pr_device ≡ some (scsi sg_env sg_host (λ w. w.holder) sg_Target i))
        × (m.alg.state ≡ start))
      (ap (λ o. get_or o (sg_node i)) h) (refl, refl)

-- To unfold this is to unfold all that an operation of the SCSI class computes with.
unfoldable scsi_computes : Unit {0}
unfolding scsi_device_vtable device_reserve device_is_reserved device_get_reservation_owner_key
    device_get_registered_keys read_reservation find_status find_key_line scan_key_line
    keys_of_lines scan_generation scan_any scan_hex scan_literal skip_spaces scan_signed scan_digits
    hex_value read_hex has_text exec_cmd lines lines_from snprintf take register_cmd reserve_cmd
    unregister_cmd release_cmd read_reservation_cmd read_keys_cmd print_key hex_fixed hex_digit
    text_eq drive
scsi_computes = tt

abbrev g1 : Sys Lab
g1 =
    race_at (scsi sg_env sg_host (λ w. w.holder) sg_Target 0) idle 0 0
      (record free_disk { sent = 0 ∷ [] })

abbrev g2 : Sys Lab
g2 =
    race_at (scsi sg_env sg_host (λ w. w.holder) sg_Target 0) reserve_disk 17000 1
      (record free_disk { sent = 1 ∷ 0 ∷ [] })

abbrev g3 : Sys Lab
g3 =
    race_at (scsi sg_env sg_host (λ w. w.holder) sg_Target 0) have_qdisk 17000 1
      (record free_disk { holder = some 1; sent = 1 ∷ 1 ∷ 0 ∷ [] })

gbeat_1 : algorithm_run (sg_env 0) (sys (sg_node 0) free_disk) ≡ done tt g1
unfolding heartbeat_computes scsi_computes
gbeat_1 = refl

gbeat_2 : algorithm_run (sg_env 0) g1 ≡ done tt g2
unfolding heartbeat_computes scsi_computes
gbeat_2 = refl

gbeat_3 : algorithm_run (sg_env 0) g2 ≡ done tt g3
unfolding heartbeat_computes scsi_computes
gbeat_3 = refl

abbrev sg_raced : Cluster Lab
sg_raced =
    put (put (put sg_hosts 0 (some (node_of g1)) g1.world) 0 (some (node_of g2)) g2.world) 0
      (some (node_of g3)) g3.world

sg_race :
    Reach sg_env (scsi sg_env sg_host (λ w. w.holder) sg_Target) (λ w. w.holder) sg_hosts sg_raced
sg_race =
    later (later (later here (beat 0 (sg_node 0) refl gbeat_1)) (beat 0 (node_of g1) refl gbeat_2))
      (beat 0 (node_of g2) refl gbeat_3)

scsi-Reach_example :
    (o : Option ℕ) × (LockReach o
      × (Represents sg_raced o × NoAbort (algorithm_run (sg_env 0) (sys (node_of g3) g3.world))))
scsi-Reach_example =
    scsi-Reach sg_env sg_host (λ w. w.holder) sg_Target sg_ShowsHolders sg_hosts-IsInitial sg_race 0
      (node_of g3) refl

-- A disk whose reservation can be taken: the key of the holder is cut out by the shell, and every other
-- command takes the reservation or gives it back.
preempting : Text → Lab → Option Output × Lab
preempting cmd w =
    if text_eq cmd (holder_cmd (sg_host 0))
    then (
      some (elim w.holder [
        | none ↦ record { text = []; status = pos 0 }
        | some k ↦ told (ltb k (2 ^ 64)) (shown 16 k ++ 10 ∷ [])
      ]),
      w,
    )
    else if text_eq cmd (release_cmd (sg_host 0))
    then (some (told true []), record w { holder = none })
    else (some (told true []), record w { holder = some 1 })

abbrev preempting_env : Env Lab
preempting_env = record lab_env { popen = preempting }

preempting-shows :
    (k : ℕ) (o : Output) (w : Lab)
    → w.holder ≡ some k
    → (preempting (holder_cmd (sg_host 0)) w).0 ≡ some o
    → o.status ≡ pos 0
    → (o.text ≡ shown 16 k ++ 10 ∷ []) × (k < 2 ^ 64)
unfolding preempting
preempting-shows k o w h ran ok = ground (arith, text_eq_refl (holder_cmd (sg_host 0)), h, ran, ok)

preempting-Preempts : Preempts preempting_env (sg_host 0) (λ w. w.holder)
unfolding preempting text_eq holder_cmd release_cmd preempt_cmd snprintf take print_key hex_fixed
    hex_digit
preempting-Preempts = record {
  look_keeps = λ k w h. h;
  shows = λ k o w h ran ok.
      let (text, small) = preempting-shows k o w h ran ok in
      record {
        digits = 16;
        is_text = text;
        fits = (omega (arith, small), small);
        is_short = omega arith;
      };
  preempt_takes = λ k o w h ran ok. refl;
  release_frees = λ o w h ran ok. refl;
}

device_abort-releases_example :
    (t : Lab) × ((t.holder ≡ some 1)
      × (((device_abort preempting_env (sg_host 0) (record free_disk { holder = some 7 })).1
            ≡ (device_release preempting_env (sg_host 0) t).1)
          × ((is_zero (device_release preempting_env (sg_host 0) t).0 ≡ false)
              ⊎ ((device_abort preempting_env
                    (sg_host 0)
                    (record free_disk { holder = some 7 })).1.holder
                  ≡ none))))
unfolding preempting text_eq holder_cmd release_cmd preempt_cmd snprintf take print_key hex_fixed
    hex_digit device_abort scan_any scan_hex skip_spaces scan_signed scan_digits hex_value read_hex
    exec_cmd exec_cmd_output
device_abort-releases_example =
    device_abort-releases preempting_env (sg_host 0) (λ w. w.holder) preempting-Preempts 7
      (record free_disk { holder = some 7 }) refl refl
