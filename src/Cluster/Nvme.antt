-- ===== src/Cluster/Nvme.antt =====
-- persistent_reserve/nvme_device.c under qdiskd/algorithm.c: daemons on one NVMe disk, from the
-- commands that they run up to HAVE_QDISK.
use corosync_qdisk.Prelude.{
  ℕ, ◌≡◌, Option, some, List, All, Text, ap, refl, Bool-cases, true, false, pos, arith, is_zero,
  Option-cases, inl, inr,
}
use corosync_qdisk.Corosync.{Env, Output}
use corosync_qdisk.Reserve.{Device, pr_err_ok}
use corosync_qdisk.Reserve.Exec.{exec_cmd}
use corosync_qdisk.Reserve.Nvme.{
  DevicePriv, resv_report_cmd, resv_register_cmd, resv_unregister_cmd, resv_acquire_cmd,
  resv_release_cmd, get_reservation_report, device_register_key, device_unregister_key,
  device_reserve, device_release, device_is_reserved, device_get_reservation_owner_key,
  device_get_registered_keys, nvme_device_vtable,
}
use corosync_qdisk.Reserve.Nvme.Entries.{Entry}
use corosync_qdisk.Reserve.Nvme.Shown.{ShowsControllers, SomeHolds, Holds, report-ShowsControllers}
use corosync_qdisk.Algorithm.{algorithm_run}
use corosync_qdisk.Algorithm.Lost.{TellsHolder, NoAbort}
use corosync_qdisk.Cluster.{Node, Cluster, sys, Disk, Reach, IsInitial}
use corosync_qdisk.Cluster.Lock.{LockReach, Represents}
use corosync_qdisk.Cluster.Target.{Commands, Target, Runs, Target-Disk, exec_cmd-world}
use corosync_qdisk.Cluster.Lost.{Reach-lock}

-- The commands of a host; the report shows the holder and the keys.
abbrev pub commands : DevicePriv → Commands
commands d = record {
  ikey = d.ikey;
  register = resv_register_cmd d;
  unregister = resv_unregister_cmd d;
  reserve = resv_acquire_cmd d;
  release = resv_release_cmd d;
  read_reservation = resv_report_cmd d;
  read_keys = resv_report_cmd d;
}

-- A report whose only holder is `k`.
pub record ReportsHolder (text : Text) (k : ℕ) : Type 0 where
  pub entries : List Entry
  pub is_report : ShowsControllers text entries
  pub some_holds : SomeHolds entries
  pub all_hold : All (λ e. Holds e → e.rkey.1 ≡ k) entries

-- What the command of the report writes: when it succeeds on a reserved disk, it shows the holder.
abbrev pub ShowsHolders : {W : Type 0} → (ℕ → Env W) → (ℕ → DevicePriv) → (W → Option ℕ) → Type 0
ShowsHolders {W} env priv holder =
    (i k : ℕ) (o : Output) (w : W)
    → holder w ≡ some k
    → ((env i).popen (resv_report_cmd (priv i)) w).0 ≡ some o
    → o.status ≡ pos 0
    → ReportsHolder o.text k

module _ {W : Type 0} (env : Env W) (d : DevicePriv) where
  -- The world after an operation is the one after its command.
  report-world : (w : W) → (get_reservation_report env d w).1 ≡ (env.popen (resv_report_cmd d) w).1
  unfolding get_reservation_report
  report-world w = ground arith

  reserve-succeeds :
      (w : W)
      → is_zero (device_reserve env d w).0 ≡ true
      → (o : Output) × (((env.popen (resv_acquire_cmd d) w).0 ≡ some o) × (o.status ≡ pos 0))
  unfolding device_reserve exec_cmd
  reserve-succeeds w h = elim (Option-cases (env.popen (resv_acquire_cmd d) w).0) [
    | inl e ↦ absurd ground (arith, e, h)
    | inr (o, e) ↦ (o, (e, ground (arith, e, h)))
  ]

  -- What the command ran to, when the report is read without an error.
  report-succeeds :
      (w : W)
      → is_zero (get_reservation_report env d w).0.0 ≡ true
      → (o : Output) × (((env.popen (resv_report_cmd d) w).0 ≡ some o) × (o.status ≡ pos 0))
  unfolding get_reservation_report
  report-succeeds w h = elim (Option-cases (env.popen (resv_report_cmd d) w).0) [
    | inl e ↦ absurd ground (arith, e, h)
    | inr (o, e) ↦ (o, (e, ground (arith, e, h)))
  ]

  -- The command, if it succeeds, shows the holder `k`.
  abbrev NamesHolder : ℕ → W → Type 0
  NamesHolder k w =
      (o : Output)
      → (env.popen (resv_report_cmd d) w).0 ≡ some o
      → o.status ≡ pos 0
      → ReportsHolder o.text k

  report-NamesHolder :
      (k : ℕ) (w : W)
      → NamesHolder k w
      → is_zero (get_reservation_report env d w).0.0 ≡ true
      → ((device_is_reserved env d w).0 ≡ pos 1)
        × ((device_get_reservation_owner_key env d w).0 ≡ (pr_err_ok, k))
  report-NamesHolder k w names h =
      let (o, (ran, ok)) = report-succeeds w h in
      let s = names o ran ok in
      (report-ShowsControllers env d s.entries k o w ran ok s.is_report s.some_holds s.all_hold).1

  is_reserved-NamesHolder :
      (k : ℕ) (w : W) → NamesHolder k w → is_zero (device_is_reserved env d w).0 ≡ false
  unfolding device_is_reserved
  is_reserved-NamesHolder k w names =
      elim (Bool-cases (is_zero (get_reservation_report env d w).0.0)) [
        | inl e ↦ ap is_zero (report-NamesHolder k w names e).0
        | inr e ↦ rw (e, e) refl
      ]

  owner-NamesHolder :
      (k : ℕ) (w : W)
      → NamesHolder k w
      → is_zero (device_get_reservation_owner_key env d w).0.0 ≡ true
      → (device_get_reservation_owner_key env d w).0.1 ≡ k
  unfolding device_get_reservation_owner_key
  owner-NamesHolder k w names h = elim (Bool-cases (is_zero (get_reservation_report env d w).0.0)) [
    | inl e ↦ ap (λ r. r.1) (report-NamesHolder k w names e).1
    | inr e ↦ absurd ground (arith, e, h)
  ]

  -- Each operation of the class runs its command.
  nvme_device_vtable-Runs : Runs env (commands d) (nvme_device_vtable env d)
  unfolding nvme_device_vtable device_register_key device_unregister_key device_reserve
      device_release device_is_reserved device_get_reservation_owner_key device_get_registered_keys
  nvme_device_vtable-Runs = record {
    same_key = refl;
    register_runs = λ w. exec_cmd-world env (resv_register_cmd d) w;
    unregister_runs = λ w. exec_cmd-world env (resv_unregister_cmd d) w;
    reserve_runs = λ w. exec_cmd-world env (resv_acquire_cmd d) w;
    release_runs = λ w. exec_cmd-world env (resv_release_cmd d) w;
    is_reserved_runs = report-world;
    owner_runs = report-world;
    keys_run = report-world;
    reserve_succeeds = reserve-succeeds;
  }

module _ {W : Type 0} (env : ℕ → Env W) (priv : ℕ → DevicePriv) (holder : W → Option ℕ)
    (target : Target env (λ i. commands (priv i)) holder) where
  -- The device that each host opens.
  abbrev pub nvme : ℕ → Device W
  nvme i = nvme_device_vtable (env i) (priv i)

  -- The operations of the NVMe class, on a target that keeps its promises, are those of a disk as the
  -- daemons need it.
  pub nvme_device_vtable-Disk : Disk env nvme holder
  nvme_device_vtable-Disk =
      Target-Disk env (λ i. commands (priv i)) holder target nvme
        (λ i. nvme_device_vtable-Runs (env i) (priv i))

  -- What is read of the holder is the holder, or an error.
  nvme-TellsHolder : ShowsHolders env priv holder → (i : ℕ) → TellsHolder (nvme i) holder
  unfolding nvme_device_vtable
  nvme-TellsHolder shows i = record {
    is_reserved_true = λ k w h. is_reserved-NamesHolder (env i) (priv i) k w (λ o. shows i k o w h);
    owner_true = λ k w h. owner-NamesHolder (env i) (priv i) k w (λ o. shows i k o w h);
  }

  -- Of daemons on one NVMe disk, in every state that heartbeats, starts, ends and news reach, in any
  -- order, from daemons in START with their devices open, those in HAVE_QDISK are the owner of a lock
  -- with one owner at most, in a state of the lock that can be reached from a free one, and no
  -- heartbeat aborts, provided that the target keeps its promises and that the command of the report
  -- shows the holder when it succeeds on a reserved disk.
  pub nvme-Reach :
      {c t : Cluster W}
      → ShowsHolders env priv holder
      → IsInitial env nvme holder c
      → Reach env nvme holder c t
      → (i : ℕ) (n : Node W) → t.node i ≡ some n
      → (o : Option ℕ) × (LockReach o
          × (Represents t o × NoAbort (algorithm_run (env i) (sys n t.world))))
  nvme-Reach shows init r i n e =
      Reach-lock env nvme holder nvme_device_vtable-Disk init (nvme-TellsHolder shows) r i n e
