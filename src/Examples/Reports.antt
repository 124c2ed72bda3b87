-- ===== src/Examples/Reports.antt =====
-- Daemons on an NVMe disk, from the output of their commands up to HAVE_QDISK.
use corosync_qdisk.Prelude.{
  ℕ, suc, ◌<◌, ◌^◌, ◌≡◌, sym, refl, ap, pos, Option, none, some, List, [], ◌∷◌, ◌++◌, codes, Text,
  arith, All, inl, inr,
}
use mathlib.Core.Path.{subst}
use mathlib.Core.Option.{get_or}
use corosync_qdisk.Corosync.{Env}
use corosync_qdisk.Cmap.{text_eq}
use corosync_qdisk.Libc.{
  print_key, hex_fixed, hex_digit, hex_value, read_hex, scan_digits, scan_signed, scan_hex,
  scan_literal, skip_spaces, has_text, read_dec, dec_value,
}
use corosync_qdisk.Reserve.{Device, pr_err_ok}
use corosync_qdisk.Reserve.Exec.{exec_cmd, lines, lines_from}
use corosync_qdisk.Reserve.Exec.Lines.{concat, IsWhole}
use corosync_qdisk.Reserve.Scsi.Shown.{shown-IsWhole, IsWhole-newline}
use corosync_qdisk.Reserve.Nvme.{
  DevicePriv, split_colon, strtoumax_10, strtoumax_16, header_line, read_header, controller_line,
  read_controller, read_controllers, parse_report, any_reserved, owner_of, get_reservation_report,
  device_get_registered_keys, device_is_reserved, device_get_reservation_owner_key, device_reserve,
  nvme_device_vtable,
}
use corosync_qdisk.Reserve.Nvme.Entries.{Entry, entry_lines}
use corosync_qdisk.Reserve.Nvme.Shown.{
  ShowsControllers, report_lines, SomeHolds, Holds, report-ShowsControllers,
}
use corosync_qdisk.Daemon.{start, idle, reserve_disk, have_qdisk, Sys, done}
use corosync_qdisk.Algorithm.{algorithm_run}
use corosync_qdisk.Algorithm.Lost.{NoAbort}
use corosync_qdisk.Cluster.{Node, Cluster, sys, node_of, put, Reach, here, later, beat, IsInitial}
use corosync_qdisk.Cluster.Lock.{LockReach, Represents}
use corosync_qdisk.Cluster.Target.{Target}
use corosync_qdisk.Cluster.Nvme.{commands, ReportsHolder, ShowsHolders, nvme, nvme-Reach}
use corosync_qdisk.Examples.Lab.{Lab, lab_env, free_disk, heartbeat_computes}
use corosync_qdisk.Examples.Heartbeats.{booted, race_at}
use corosync_qdisk.Examples.Drive.{drive, drive_env, drive-Target, drive-shows}

-- A controller with a key, and whether it holds the reservation.
abbrev controller : ℕ → ℕ → Entry
controller status key = record {
  cntlid = (0, 1);
  rcsts = (0, status);
  rkey = (15, key);
  hostid = (1, 2);
}

abbrev header : ℕ → List Text
header status = (codes "gen       : 1" ++ 10 ∷ []) ∷ (codes "rtype     : 3" ++ 10 ∷ []) ∷ []

abbrev head_line : Text
head_line = codes "regctlext[0] :" ++ 10 ∷ []

abbrev next_line : Text
next_line = codes "regctlext[1] :" ++ 10 ∷ []

-- What the command writes of two controllers, of which the second holds the reservation.
abbrev two_lines : ℕ → List Text
two_lines key =
    report_lines (header 3) (codes "2") [] head_line (controller 0 7)
      ((next_line, controller 1 key) ∷ []) ((10 ∷ []) ∷ [])

controller-IsWhole :
    (status key : ℕ) (rest : List Text)
    → All (IsWhole 8191) rest
    → All (IsWhole 8191) (entry_lines (controller status key) rest)
controller-IsWhole status key rest h = (
  shown-IsWhole 8191 1 1 (codes "  cntlid     : ") (ground arith) (omega arith),
  (
    shown-IsWhole 8191 1 status (codes "  rcsts      : ") (ground arith) (omega arith),
    (
      shown-IsWhole 8191 16 key (codes "  rkey       : ") (ground arith) (omega arith),
      (shown-IsWhole 8191 2 2 (codes "  hostid     : ") (ground arith) (omega arith), h),
    ),
  ),
)

two_lines-IsWhole : (key : ℕ) → All (IsWhole 8191) (two_lines key)
two_lines-IsWhole key = (
  IsWhole-newline 8191 (codes "gen       : 1") (ground arith) (omega arith),
  (
    IsWhole-newline 8191 (codes "rtype     : 3") (ground arith) (omega arith),
    (
      IsWhole-newline 8191 (codes "regctl    : 2") (ground arith) (omega arith),
      (
        IsWhole-newline 8191 (codes "regctlext[0] :") (ground arith) (omega arith),
        controller-IsWhole 0 7 (next_line ∷ entry_lines (controller 1 key) ((10 ∷ []) ∷ [])) (
          IsWhole-newline 8191 (codes "regctlext[1] :") (ground arith) (omega arith),
          controller-IsWhole 1 key ((10 ∷ []) ∷ []) (IsWhole-newline 8191 [] tt (omega arith), tt),
        ),
      ),
    ),
  ),
)

abbrev two_controllers : ℕ → List Entry
two_controllers key = controller 0 7 ∷ controller 1 key ∷ []

two_lines-ShowsControllers :
    (key : ℕ) → key < 2 ^ 64 → ShowsControllers (concat (two_lines key)) (two_controllers key)
unfolding has_text scan_literal split_colon strtoumax_10 read_dec dec_value skip_spaces
two_lines-ShowsControllers key small = record {
  before = header 3;
  value = codes "2";
  after = [];
  head = head_line;
  first = controller 0 7;
  more = (next_line, controller 1 key) ∷ [];
  behind = (10 ∷ []) ∷ [];
  is_text = refl;
  whole = two_lines-IsWhole key;
  are_entries = refl;
  digits = ((omega arith, omega arith), tt);
  is_count = refl;
  few = omega arith;
  before_other = (refl, (refl, tt));
  after_other = tt;
  is_head = (λ e. ground arith, refl);
  first_fits =
      ((omega arith, omega arith), ((omega arith, omega arith), (omega arith, omega arith)));
  more_fit = (
    (
      refl,
      ((omega arith, omega arith), ((omega arith, omega arith), (omega (arith, small), small))),
    ),
    tt,
  );
  behind_silent = ((refl, refl), tt);
}

second_holds : (key : ℕ) → SomeHolds (two_controllers key)
second_holds key = inr (inl (λ e. ground (arith, e)))

only_second : (key : ℕ) → All (λ e. Holds e → e.rkey.1 ≡ key) (two_controllers key)
only_second key = ((λ h. absurd (h refl)), ((λ h. refl), tt))

two_lines-ReportsHolder : (key : ℕ) → key < 2 ^ 64 → ReportsHolder (concat (two_lines key)) key
two_lines-ReportsHolder key small = record {
  entries = two_controllers key;
  is_report = two_lines-ShowsControllers key small;
  some_holds = second_holds key;
  all_hold = only_second key;
}

abbrev nv_host : ℕ → DevicePriv
nv_host i = record { ikey = suc i; key = []; device_name = codes "/dev/nvme0n1"; id = [] }

-- A world in which every command writes that report.
abbrev reporting : Env Lab
reporting = record lab_env {
  popen = λ cmd w. (some (record { text = concat (two_lines 9); status = pos 0 }), w);
}

report-ShowsControllers_example :
    ((device_get_registered_keys reporting (nv_host 0) free_disk).0 ≡ (pr_err_ok, 7 ∷ 9 ∷ []))
    × (((device_is_reserved reporting (nv_host 0) free_disk).0 ≡ pos 1)
        × ((device_get_reservation_owner_key reporting (nv_host 0) free_disk).0 ≡ (pr_err_ok, 9)))
report-ShowsControllers_example =
    report-ShowsControllers reporting (nv_host 0) (two_controllers 9) 9
      (record { text = concat (two_lines 9); status = pos 0 }) free_disk refl refl
      (two_lines-ShowsControllers 9 (omega arith)) (second_holds 9) (only_second 9)

abbrev nv_report : Option ℕ → Text
nv_report none = concat (
    report_lines (header 0) (codes "2") [] head_line (controller 0 1)
      ((next_line, controller 0 2) ∷ []) ((10 ∷ []) ∷ []))
nv_report (some k) = concat (two_lines k)

abbrev nv_env : ℕ → Env Lab
nv_env = drive_env nv_report (λ ks. []) (λ i. commands (nv_host i))

nv_Target : Target nv_env (λ i. commands (nv_host i)) (λ w. w.holder)
nv_Target = drive-Target nv_report (λ ks. []) (λ i. commands (nv_host i)) (λ i j h. omega arith)

nv_ShowsHolders : ShowsHolders nv_env nv_host (λ w. w.holder)
nv_ShowsHolders i k o w h ran ok =
    let (shown, small) =
      drive-shows nv_report (λ ks. []) (λ i. commands (nv_host i)) i k o w h ran ok in
    subst (λ t. ReportsHolder t k) (sym shown) (two_lines-ReportsHolder k small)

abbrev nv_device : ℕ → Device Lab
nv_device = nvme nv_env nv_host (λ w. w.holder) nv_Target

abbrev nv_node : ℕ → Node Lab
nv_node i = booted (nv_device i) i

-- Hosts that have just started.
abbrev nv_hosts : Cluster Lab
nv_hosts = record { world = free_disk; node = λ i. some (nv_node i) }

nv_hosts-IsInitial : IsInitial nv_env nv_device (λ w. w.holder) nv_hosts
nv_hosts-IsInitial i n h =
    subst (λ m. (m.alg.pr_device ≡ some (nv_device i)) × (m.alg.state ≡ start))
      (ap (λ o. get_or o (nv_node i)) h) (refl, refl)

-- To unfold this is to unfold all that an operation of the NVMe class computes with.
unfoldable nvme_computes : Unit {0}
unfolding nvme_device_vtable device_reserve device_is_reserved device_get_reservation_owner_key
    device_get_registered_keys get_reservation_report parse_report read_header header_line
    read_controllers read_controller controller_line split_colon strtoumax_10 strtoumax_16
    any_reserved owner_of read_dec dec_value scan_hex scan_literal skip_spaces scan_signed
    scan_digits hex_value read_hex has_text exec_cmd lines lines_from print_key hex_fixed hex_digit
    text_eq drive
nvme_computes = tt

abbrev n1 : Sys Lab
n1 = race_at (nv_device 0) idle 0 0 (record free_disk { sent = 0 ∷ [] })

abbrev n2 : Sys Lab
n2 = race_at (nv_device 0) reserve_disk 17000 1 (record free_disk { sent = 1 ∷ 0 ∷ [] })

abbrev n3 : Sys Lab
n3 =
    race_at (nv_device 0) have_qdisk 17000 1
      (record free_disk { holder = some 1; sent = 1 ∷ 1 ∷ 0 ∷ [] })

nbeat_1 : algorithm_run (nv_env 0) (sys (nv_node 0) free_disk) ≡ done tt n1
unfolding heartbeat_computes nvme_computes
nbeat_1 = refl

nbeat_2 : algorithm_run (nv_env 0) n1 ≡ done tt n2
unfolding heartbeat_computes nvme_computes
nbeat_2 = refl

nbeat_3 : algorithm_run (nv_env 0) n2 ≡ done tt n3
unfolding heartbeat_computes nvme_computes
nbeat_3 = refl

abbrev nv_raced : Cluster Lab
nv_raced =
    put (put (put nv_hosts 0 (some (node_of n1)) n1.world) 0 (some (node_of n2)) n2.world) 0
      (some (node_of n3)) n3.world

nv_race : Reach nv_env nv_device (λ w. w.holder) nv_hosts nv_raced
nv_race =
    later (later (later here (beat 0 (nv_node 0) refl nbeat_1)) (beat 0 (node_of n1) refl nbeat_2))
      (beat 0 (node_of n2) refl nbeat_3)

nvme-Reach_example :
    (o : Option ℕ) × (LockReach o
      × (Represents nv_raced o × NoAbort (algorithm_run (nv_env 0) (sys (node_of n3) n3.world))))
nvme-Reach_example =
    nvme-Reach nv_env nv_host (λ w. w.holder) nv_Target nv_ShowsHolders nv_hosts-IsInitial nv_race 0
      (node_of n3) refl
