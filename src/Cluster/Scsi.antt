-- ===== src/Cluster/Scsi.antt =====
-- persistent_reserve/scsi_device.c under qdiskd/algorithm.c: daemons on one SCSI disk, from the
-- commands that they run up to HAVE_QDISK.
use corosync_qdisk.Prelude.{
  ℕ, ◌≡◌, Option, some, ap, refl, Bool-cases, true, false, pos, arith, is_zero, Option-cases, inl,
  inr,
}
use corosync_qdisk.Corosync.{Env, Output}
use corosync_qdisk.Reserve.{Device}
use corosync_qdisk.Reserve.Exec.{exec_cmd, lines}
use corosync_qdisk.Reserve.Scsi.{
  DevicePriv, register_cmd, unregister_cmd, reserve_cmd, release_cmd, read_reservation_cmd,
  read_keys_cmd, find_status, read_reservation, device_register_key, device_unregister_key,
  device_reserve, device_release, device_is_reserved, device_get_reservation_owner_key,
  device_get_registered_keys, scsi_device_vtable,
}
use corosync_qdisk.Reserve.Scsi.Shown.{ShowsHolder, read_reservation-ShowsHolder}
use corosync_qdisk.Algorithm.{algorithm_run}
use corosync_qdisk.Algorithm.Lost.{TellsHolder, NoAbort}
use corosync_qdisk.Cluster.{Node, Cluster, sys, Disk, Reach, IsInitial}
use corosync_qdisk.Cluster.Lock.{LockReach, Represents}
use corosync_qdisk.Cluster.Target.{Commands, Target, Runs, Target-Disk, exec_cmd-world}
use corosync_qdisk.Cluster.Lost.{Reach-lock}

-- The commands of a host.
abbrev pub commands : DevicePriv → Commands
commands d = record {
  ikey = d.ikey;
  register = register_cmd d;
  unregister = unregister_cmd d;
  reserve = reserve_cmd d;
  release = release_cmd d;
  read_reservation = read_reservation_cmd d;
  read_keys = read_keys_cmd d;
}

-- What the command that reads the reservation writes: when it succeeds on a reserved disk, it names the
-- holder.
abbrev pub ShowsHolders : {W : Type 0} → (ℕ → Env W) → (ℕ → DevicePriv) → (W → Option ℕ) → Type 0
ShowsHolders {W} env priv holder =
    (i k : ℕ) (o : Output) (w : W)
    → holder w ≡ some k
    → ((env i).popen (read_reservation_cmd (priv i)) w).0 ≡ some o
    → o.status ≡ pos 0
    → ShowsHolder o.text k

module _ {W : Type 0} (env : Env W) (d : DevicePriv) where
  -- The world after an operation is the one after its command.
  read_reservation-world :
      (w : W) → (read_reservation env d w).1 ≡ (env.popen (read_reservation_cmd d) w).1
  unfolding read_reservation
  read_reservation-world w = ground arith

  registered_keys-world :
      (w : W) → (device_get_registered_keys env d w).1 ≡ (env.popen (read_keys_cmd d) w).1
  unfolding device_get_registered_keys
  registered_keys-world w = ground arith

  reserve-succeeds :
      (w : W)
      → is_zero (device_reserve env d w).0 ≡ true
      → (o : Output) × (((env.popen (reserve_cmd d) w).0 ≡ some o) × (o.status ≡ pos 0))
  unfolding device_reserve exec_cmd
  reserve-succeeds w h = elim (Option-cases (env.popen (reserve_cmd d) w).0) [
    | inl e ↦ absurd ground (arith, e, h)
    | inr (o, e) ↦ (o, (e, ground (arith, e, h)))
  ]

  -- What the command ran to, when the reservation is read without an error.
  read_reservation-succeeds :
      (w : W)
      → is_zero (read_reservation env d w).0.0 ≡ true
      → (o : Output) × (((env.popen (read_reservation_cmd d) w).0 ≡ some o) × (o.status ≡ pos 0))
  unfolding read_reservation
  read_reservation-succeeds w h = elim (Option-cases (env.popen (read_reservation_cmd d) w).0) [
    | inl e ↦ absurd ground (arith, e, h)
    | inr (o, e) ↦ (
      o,
      (
        e,
        elim (Option-cases (find_status (lines 8193 o.text))) [
          | inl f ↦ absurd ground (arith, e, f, h)
          | inr (res, f) ↦ ground (arith, e, f, h)
        ],
      ),
    )
  ]

  -- The command, if it succeeds, names the holder `k`.
  abbrev NamesHolder : ℕ → W → Type 0
  NamesHolder k w =
      (o : Output)
      → (env.popen (read_reservation_cmd d) w).0 ≡ some o
      → o.status ≡ pos 0
      → ShowsHolder o.text k

  is_reserved-NamesHolder :
      (k : ℕ) (w : W) → NamesHolder k w → is_zero (device_is_reserved env d w).0 ≡ false
  unfolding device_is_reserved
  is_reserved-NamesHolder k w names = elim (Bool-cases (is_zero (read_reservation env d w).0.0)) [
    | inl e ↦
        let (o, (ran, ok)) = read_reservation-succeeds w e in
        ap is_zero (read_reservation-ShowsHolder env d k o w ran ok (names o ran ok)).0
    | inr e ↦ rw (e, e) refl
  ]

  owner-NamesHolder :
      (k : ℕ) (w : W)
      → NamesHolder k w
      → is_zero (device_get_reservation_owner_key env d w).0.0 ≡ true
      → (device_get_reservation_owner_key env d w).0.1 ≡ k
  unfolding device_get_reservation_owner_key
  owner-NamesHolder k w names h = elim (Bool-cases (is_zero (read_reservation env d w).0.0)) [
    | inl e ↦
        let (o, (ran, ok)) = read_reservation-succeeds w e in
        ap (λ r. r.1) (read_reservation-ShowsHolder env d k o w ran ok (names o ran ok)).1
    | inr e ↦ absurd ground (arith, e, h)
  ]

  -- Each operation of the class runs its command.
  scsi_device_vtable-Runs : Runs env (commands d) (scsi_device_vtable env d)
  unfolding scsi_device_vtable device_register_key device_unregister_key device_reserve
      device_release device_is_reserved device_get_reservation_owner_key
  scsi_device_vtable-Runs = record {
    same_key = refl;
    register_runs = λ w. exec_cmd-world env (register_cmd d) w;
    unregister_runs = λ w. exec_cmd-world env (unregister_cmd d) w;
    reserve_runs = λ w. exec_cmd-world env (reserve_cmd d) w;
    release_runs = λ w. exec_cmd-world env (release_cmd d) w;
    is_reserved_runs = read_reservation-world;
    owner_runs = read_reservation-world;
    keys_run = registered_keys-world;
    reserve_succeeds = reserve-succeeds;
  }

module _ {W : Type 0} (env : ℕ → Env W) (priv : ℕ → DevicePriv) (holder : W → Option ℕ)
    (target : Target env (λ i. commands (priv i)) holder) where
  -- The device that each host opens.
  abbrev pub scsi : ℕ → Device W
  scsi i = scsi_device_vtable (env i) (priv i)

  -- The operations of the SCSI class, on a target that keeps its promises, are those of a disk as the
  -- daemons need it.
  pub scsi_device_vtable-Disk : Disk env scsi holder
  scsi_device_vtable-Disk =
      Target-Disk env (λ i. commands (priv i)) holder target scsi
        (λ i. scsi_device_vtable-Runs (env i) (priv i))

  -- What is read of the holder is the holder, or an error.
  scsi-TellsHolder : ShowsHolders env priv holder → (i : ℕ) → TellsHolder (scsi i) holder
  unfolding scsi_device_vtable
  scsi-TellsHolder shows i = record {
    is_reserved_true = λ k w h. is_reserved-NamesHolder (env i) (priv i) k w (λ o. shows i k o w h);
    owner_true = λ k w h. owner-NamesHolder (env i) (priv i) k w (λ o. shows i k o w h);
  }

  -- Of daemons on one SCSI disk, in every state that heartbeats, starts, ends and news reach, in any
  -- order, from daemons in START with their devices open, those in HAVE_QDISK are the owner of a lock
  -- with one owner at most, in a state of the lock that can be reached from a free one, and no
  -- heartbeat aborts, provided that the target keeps its promises and that the command that reads the
  -- reservation names the holder when it succeeds on a reserved disk.
  pub scsi-Reach :
      {c t : Cluster W}
      → ShowsHolders env priv holder
      → IsInitial env scsi holder c
      → Reach env scsi holder c t
      → (i : ℕ) (n : Node W) → t.node i ≡ some n
      → (o : Option ℕ) × (LockReach o
          × (Represents t o × NoAbort (algorithm_run (env i) (sys n t.world))))
  scsi-Reach shows init r i n e =
      Reach-lock env scsi holder scsi_device_vtable-Disk init (scsi-TellsHolder shows) r i n e
