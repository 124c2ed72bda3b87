-- ===== src/Examples/Programs.antt =====
-- The theorems on the table of keys, on the view of the holder, and on the daemon's program, each at
-- one concrete input.
use corosync_qdisk.Prelude.{
  All, ltb, ◌⊎◌, some, arith, ℕ, ◌≡◌, ◌≢◌, ◌↔◌, refl, true, none, List, [], ◌∷◌, IsIn,
}
use corosync_qdisk.Corosync.{Notification, quorum_notify, extra_info_notify}
use corosync_qdisk.Vquorum.{print_extra_info, notify_all, find_key}
use corosync_qdisk.Vquorum.Table.{keys_of, replay, notify_all_refines}
use corosync_qdisk.Vquorum.{Vquorum}
use corosync_qdisk.Vquorum.Service.{vquorum_get_node_key_list}
use corosync_qdisk.Daemon.{Sys}
use corosync_qdisk.Algorithm.{algorithm_run, holder_visible, key_registered}
use corosync_qdisk.Algorithm.Visible.{holder_visible-get_node_key_list}
use corosync_qdisk.Main.{Event, timer, cmap_ready, vquorum_ready, please_exit, main, serve}
use corosync_qdisk.Main.Exit.{Runs, IsEnding, main-Runs}
use corosync_qdisk.Main.Life.{Closes, serve-Closes}
use corosync_qdisk.Algorithm.Init.{init_opened}
use corosync_qdisk.Algorithm.Init.Registered.{Registry, Registers, init_opened-Registers}
use corosync_qdisk.Algorithm.Exits.{ExitsFor, IsUnregistered, IsUnowned, run-ExitsFor}
use corosync_qdisk.Reserve.Scsi.Open.{opened}
use corosync_qdisk.Algorithm.Progress.{IsHealthy, Completes, IsArmed, run-Completes}
use corosync_qdisk.Examples.Lab.{lab_dev, Lab, lab_env, lab_Disk, half_vq, free_disk}
use corosync_qdisk.Examples.Heartbeats.{s0, hosts, fresh_node}

-- The key of node 7 arrives, and then the list of the nodes, with the quorum device at the end.
abbrev told : List Notification
told =
    extra_info_notify 7 22 (print_extra_info 255)
    ∷ quorum_notify 1 (
        record { nodeid = 7; state = 1 }
        ∷ record { nodeid = 0; state = 1 }
        ∷ record { nodeid = 99; state = 1 }
        ∷ [])
    ∷ []

notify_all_refines_example :
    keys_of (notify_all lab_env told (half_vq 0, free_disk)).1.0
    ≡ replay 0 told (keys_of (half_vq 0))
notify_all_refines_example = notify_all_refines lab_env told (half_vq 0) free_disk

-- A node that sees itself and node 7, whose keys it knows.
abbrev seeing : Vquorum
seeing = record (half_vq 0) {
  visible_node_list = 0 ∷ 7 ∷ [];
  node_list =
      record { nodeid = 0; state = 1; disk_key = 1 }
      ∷ record { nodeid = 7; state = 1; disk_key = 255 }
      ∷ [];
}

seeing_listed : All (λ n. find_key n seeing.node_list ≢ none) seeing.visible_node_list
unfolding find_key
seeing_listed = ((λ e. ground arith), ((λ e. ground arith), tt))

holder_visible-get_node_key_list_example :
    (holder_visible 255 (vquorum_get_node_key_list lab_env (seeing, free_disk)).0.1 ≡ true) ↔ (
      (◌≢◌ {A = ℕ} 255 0)
      × ((n : ℕ) × (IsIn n (0 ∷ 7 ∷ []) × (find_key n seeing.node_list ≡ some 255))))
holder_visible-get_node_key_list_example =
    holder_visible-get_node_key_list lab_env 255 seeing free_disk seeing_listed

-- A daemon that has not opened its device; its votes and its timer are those of the small world.
abbrev closed : Sys Lab
closed = record s0 { alg = record s0.alg { pr_device = none } }

abbrev events : List Event
events = timer ∷ cmap_ready ∷ vquorum_ready ∷ timer ∷ please_exit ∷ []

main-Runs_example : Runs (IsEnding lab_env events) (main lab_env events closed)
main-Runs_example = main-Runs lab_env events closed refl

serve-Closes_example : Closes lab_Disk hosts 0 (serve lab_env events s0)
serve-Closes_example = serve-Closes lab_Disk hosts 0 (fresh_node 0) events refl refl

-- The disk is held by the other host.
abbrev beaten : Sys Lab
beaten = record s0 { world = record free_disk { holder = some 2 } }

-- Nobody holds the disk, and both keys are registered.
abbrev IsQuiet : Lab → Type 0
IsQuiet w = (w.holder ≡ none) × (w.keys ≡ 1 ∷ 2 ∷ [])

healthy : IsHealthy lab_env (lab_dev 0) IsQuiet
unfolding key_registered
healthy = record {
  call_keeps = λ r e w h. h;
  is_reserved_keeps = λ w h. h;
  free = λ w h. rw h.0 refl;
  read = λ w h. refl;
  registered = λ w h. rw h.1 refl;
}

run-Completes_example : Completes (IsArmed lab_env (lab_dev 0) 12000) (algorithm_run lab_env s0)
unfolding find_key
run-Completes_example =
    run-Completes lab_env (lab_dev 0) IsQuiet healthy s0 (refl, refl) refl (λ e. ground arith) refl
      ((λ e. ground arith), tt)

lab-Registry : Registry lab_env (lab_dev 0)
unfolding key_registered
lab-Registry = record { register_gains = λ w h. refl; call_keeps = λ r w h. h }

init_opened-Registers_example :
    Registers lab_env (lab_dev 0) (init_opened lab_env (opened (lab_dev 0)) closed)
init_opened-Registers_example = init_opened-Registers lab_env (lab_dev 0) lab-Registry closed

run-ExitsFor_example :
    ExitsFor lab_env
      (lab_dev 0)
      (λ w. w.holder ≡ some 2)
      (lab_Disk.keeps 0 2)
      ((ltb 18446744073709551615 5000 ≡ true)
        ⊎ (IsUnregistered lab_env (lab_dev 0) (λ w. w.holder ≡ some 2) (lab_Disk.keeps 0 2)
            ⊎ IsUnowned lab_env (lab_dev 0) (λ w. w.holder ≡ some 2) (lab_Disk.keeps 0 2)))
      (algorithm_run lab_env beaten)
run-ExitsFor_example =
    run-ExitsFor lab_env (lab_dev 0) (λ w. w.holder ≡ some 2) (lab_Disk.keeps 0 2) beaten refl refl
