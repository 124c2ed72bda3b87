-- ===== src/Cluster/Target.antt =====
-- A disk with persistent reservations, as the commands of persistent_reserve/ reach it.
use corosync_qdisk.Prelude.{ℕ, true, is_zero, sym, ◌∙◌, ◌≡◌, ◌≢◌, Option, some, pos, Text, arith}
use corosync_qdisk.Corosync.{Env, Output, Request}
use corosync_qdisk.Reserve.{Device}
use corosync_qdisk.Reserve.Exec.{exec_cmd}
use corosync_qdisk.Algorithm.Keeps.{Keeps}
use corosync_qdisk.Cluster.{Disk}

-- The commands of one host, and its key.
pub record Commands : Type 0 where
  pub ikey : ℕ
  pub register : Text
  pub unregister : Text
  pub reserve : Text
  pub release : Text
  pub read_reservation : Text
  pub read_keys : Text

-- What the operations of a device do: each runs its command once, and the world is as the command
-- leaves it; the disk counts as reserved only when its command has succeeded.
pub record Runs {W : Type 0} (env : Env W) (c : Commands) (d : Device W) : Type 0 where
  pub same_key : d.get_ikey ≡ c.ikey
  pub register_runs : (w : W) → (d.register_key w).1 ≡ (env.popen c.register w).1
  pub unregister_runs : (w : W) → (d.unregister_key w).1 ≡ (env.popen c.unregister w).1
  pub reserve_runs : (w : W) → (d.reserve w).1 ≡ (env.popen c.reserve w).1
  pub release_runs : (w : W) → (d.release w).1 ≡ (env.popen c.release w).1
  pub is_reserved_runs : (w : W) → (d.is_reserved w).1 ≡ (env.popen c.read_reservation w).1
  pub owner_runs : (w : W) → (d.get_reservation_owner_key w).1 ≡ (env.popen c.read_reservation w).1
  pub keys_run : (w : W) → (d.get_registered_keys w).1 ≡ (env.popen c.read_keys w).1
  pub reserve_succeeds :
      (w : W)
      → is_zero (d.reserve w).0 ≡ true
      → (o : Output) × (((env.popen c.reserve w).0 ≡ some o) × (o.status ≡ pos 0))

-- What a disk with persistent reservations promises of the commands by which each host reaches it.
-- `holder w` is the key that holds the reservation.
pub record Target {W : Type 0} (env : ℕ → Env W) (host : ℕ → Commands) (holder : W → Option ℕ)
    : Type 0 where
  -- A reservation stays, whatever service is called, and whatever host reads the disk, registers or
  -- tries to reserve it.
  pub call_keeps :
      (i k : ℕ) (r : Request) (w : W) → holder w ≡ some k → holder ((env i).call r w).1 ≡ some k
  pub read_keeps :
      (i k : ℕ) (w : W)
      → holder w ≡ some k
      → holder ((env i).popen (host i).read_reservation w).1 ≡ some k
  pub keys_keep :
      (i k : ℕ) (w : W) → holder w ≡ some k → holder ((env i).popen (host i).read_keys w).1 ≡ some k
  pub register_keeps :
      (i k : ℕ) (w : W) → holder w ≡ some k → holder ((env i).popen (host i).register w).1 ≡ some k
  pub reserve_keeps :
      (i k : ℕ) (w : W) → holder w ≡ some k → holder ((env i).popen (host i).reserve w).1 ≡ some k
  -- The command that reserves succeeds only for the holder.
  pub reserve_gains :
      (i : ℕ) (o : Output) (w : W)
      → ((env i).popen (host i).reserve w).0 ≡ some o
      → o.status ≡ pos 0
      → holder ((env i).popen (host i).reserve w).1 ≡ some (host i).ikey
  -- A host that releases or unregisters touches no reservation of another key.
  pub release_keeps :
      (i k : ℕ)
      → k ≢ (host i).ikey
      → (w : W) → holder w ≡ some k
      → holder ((env i).popen (host i).release w).1 ≡ some k
  pub unregister_keeps :
      (i k : ℕ)
      → k ≢ (host i).ikey
      → (w : W) → holder w ≡ some k
      → holder ((env i).popen (host i).unregister w).1 ≡ some k
  pub distinct_keys : (i j : ℕ) → (host i).ikey ≡ (host j).ikey → i ≡ j

-- The world after a command whose output is not looked at.
pub exec_cmd-world :
    {W : Type 0} (env : Env W) (cmd : Text) (w : W) → (exec_cmd env cmd w).1 ≡ (env.popen cmd w).1
unfolding exec_cmd
exec_cmd-world env cmd w = ground arith

module _ {W : Type 0} (env : ℕ → Env W) (host : ℕ → Commands) (holder : W → Option ℕ)
    (target : Target env host holder) (dev : ℕ → Device W)
    (runs : (i : ℕ) → Runs (env i) (host i) (dev i)) where
  Target-Keeps : (i k : ℕ) → Keeps (env i) (dev i) (λ w. holder w ≡ some k)
  Target-Keeps i k = record {
    call_keeps = target.call_keeps i k;
    is_reserved_keeps = λ w h. rw ((runs i).is_reserved_runs w) (target.read_keeps i k w h);
    owner_keeps = λ w h. rw ((runs i).owner_runs w) (target.read_keeps i k w h);
    keys_keep = λ w h. rw ((runs i).keys_run w) (target.keys_keep i k w h);
    reserve_keeps = λ w h. rw ((runs i).reserve_runs w) (target.reserve_keeps i k w h);
  }

  -- A device whose operations run the commands of a disk that keeps its promises is a disk as the
  -- daemons need it.
  pub Target-Disk : Disk env dev holder
  Target-Disk = record {
    keeps = Target-Keeps;
    reserve_gains = λ i w h.
        let (o, (ran, ok)) = (runs i).reserve_succeeds w h in
        rw ((runs i).reserve_runs w, (runs i).same_key) (target.reserve_gains i o w ran ok);
    release_keeps = λ i k ne w h.
        rw ((runs i).release_runs w)
          (target.release_keeps i k (λ e. ne (e ∙ sym (runs i).same_key)) w h);
    unregister_keeps = λ i k ne w h.
        rw ((runs i).unregister_runs w)
          (target.unregister_keeps i k (λ e. ne (e ∙ sym (runs i).same_key)) w h);
    register_keeps = λ i k w h. rw ((runs i).register_runs w) (target.register_keeps i k w h);
    distinct_keys =
        λ i j e. target.distinct_keys i j (sym (runs i).same_key ∙ e ∙ (runs j).same_key);
  }
