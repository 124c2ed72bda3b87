-- ===== src/Cluster.antt =====
-- Several daemons on one disk: heartbeats of qdiskd/algorithm.c on different hosts in any order, and
-- what Design.md says of HAVE_QDISK ("only the node holding the disk reservation").
pub mod Safety
pub mod Lock
pub mod Lost
pub mod Split
pub mod Target
pub mod Scsi
pub mod Nvme
use corosync_qdisk.Prelude.{ℤ, ℕ, ◌≡◌, ◌≢◌, true, Option, none, some, ◌==◌, if◌then◌else◌, is_zero}
use corosync_qdisk.Corosync.{Env}
use corosync_qdisk.Reserve.{Device}
use corosync_qdisk.Cmap.{Cmap}
use corosync_qdisk.Vquorum.{Vquorum}
use corosync_qdisk.Log.{Log}
use corosync_qdisk.Daemon.{State, start, have_qdisk, Algorithm, Sys, done, exited, aborted}
use corosync_qdisk.Algorithm.{algorithm_run, algorithm_stop}
use corosync_qdisk.Algorithm.Init.{init_opened}
use corosync_qdisk.Reserve.Scsi.Open.{opened}
use corosync_qdisk.Algorithm.Keeps.{Keeps}

-- The memory of one daemon.
pub record Node (W : Type 0) : Type 0 where
  pub alg : Algorithm W
  pub cmap : Cmap
  pub vq : Vquorum
  pub log : Log

-- A node is `none` when its daemon does not run.
pub record Cluster (W : Type 0) : Type 0 where
  pub world : W
  pub node : ℕ → Option (Node W)

abbrev pub sys : {W : Type 0} → Node W → W → Sys W
sys n w = record { alg = n.alg; cmap = n.cmap; vq = n.vq; log = n.log; world = w }

abbrev pub node_of : {W : Type 0} → Sys W → Node W
node_of s = record { alg = s.alg; cmap = s.cmap; vq = s.vq; log = s.log }

abbrev pub put : {W : Type 0} → Cluster W → ℕ → Option (Node W) → W → Cluster W
put c i n w = record { world = w; node = λ j. if j == i then n else c.node j }

-- What a disk with persistent reservations promises, and the keys that the administrator sets.
-- `holder w` is the key that holds the reservation.
pub record Disk {W : Type 0} (env : ℕ → Env W) (dev : ℕ → Device W) (holder : W → Option ℕ)
    : Type 0 where
  -- A reservation stays, whatever host reads the disk or tries to reserve it.
  pub keeps : (i k : ℕ) → Keeps (env i) (dev i) (λ w. holder w ≡ some k)
  -- A host that is told that it has reserved the disk is the holder.
  pub reserve_gains :
      (i : ℕ) (w : W)
      → is_zero ((dev i).reserve w).0 ≡ true
      → holder ((dev i).reserve w).1 ≡ some (dev i).get_ikey
  -- A host that releases or unregisters touches no reservation of another key.
  pub release_keeps :
      (i k : ℕ)
      → k ≢ (dev i).get_ikey
      → (w : W) → holder w ≡ some k
      → holder ((dev i).release w).1 ≡ some k
  pub unregister_keeps :
      (i k : ℕ)
      → k ≢ (dev i).get_ikey
      → (w : W) → holder w ≡ some k
      → holder ((dev i).unregister_key w).1 ≡ some k
  -- A host that registers its key takes no reservation away.
  pub register_keeps :
      (i k : ℕ) (w : W) → holder w ≡ some k → holder ((dev i).register_key w).1 ≡ some k
  pub distinct_keys : (i j : ℕ) → (dev i).get_ikey ≡ (dev j).get_ikey → i ≡ j

module _ {W : Type 0} (env : ℕ → Env W) (dev : ℕ → Device W) (holder : W → Option ℕ) where
  -- A heartbeat of one daemon, which may end it; its end by a signal, or by the loss of its host; a
  -- daemon that starts, from the open handle on; news: between heartbeats the callbacks may change what
  -- a daemon knows of the cluster, and the world may change, but no reservation is taken away; or the
  -- world changes in this way by itself.
  pub data Step (c : Cluster W) : Cluster W → Type 0 where
    beat :
        (i : ℕ) (n : Node W) {t : Sys W}
        → c.node i ≡ some n
        → algorithm_run (env i) (sys n c.world) ≡ done tt t
        → Step c (put c i (some (node_of t)) t.world)
    exit :
        (i code : ℕ) (n : Node W) {t : Sys W}
        → c.node i ≡ some n
        → algorithm_run (env i) (sys n c.world) ≡ exited code t
        → Step c (put c i none t.world)
    abort :
        (i : ℕ) (n : Node W) {t : Sys W}
        → c.node i ≡ some n
        → algorithm_run (env i) (sys n c.world) ≡ aborted t
        → Step c (put c i none t.world)
    stop :
        (i : ℕ) (n : Node W) {t : Sys W}
        → c.node i ≡ some n
        → algorithm_stop (env i) (sys n c.world) ≡ done tt t
        → Step c (put c i none t.world)
    crash : (i : ℕ) → Step c (put c i none c.world)
    boot :
        (i : ℕ) (n : Node W) {err : ℤ} {t : Sys W}
        → n.alg.state ≡ start
        → n.alg.pr_device ≡ none
        → init_opened (env i) (opened (dev i)) (sys n c.world) ≡ done err t
        → Step c (put c i (if is_zero err then some (node_of t) else none) t.world)
    news :
        (i : ℕ) (n : Node W) (cmap : Cmap) (vq : Vquorum) (log : Log) (w : W)
        → c.node i ≡ some n
        → ((k : ℕ) → holder c.world ≡ some k → holder w ≡ some k)
        → Step c (put c i (some (record { alg = n.alg; cmap = cmap; vq = vq; log = log })) w)
    outside :
        (w : W)
        → ((k : ℕ) → holder c.world ≡ some k → holder w ≡ some k)
        → Step c (record c { world = w })

  pub data Reach (c : Cluster W) : Cluster W → Type 0 where
    here : Reach c c
    later : {t u : Cluster W} → Reach c t → Step t u → Reach c u

  -- Every daemon that runs has opened its device and is in START.
  abbrev pub IsInitial : Cluster W → Type 0
  IsInitial c =
      (i : ℕ) (n : Node W)
      → c.node i ≡ some n
      → (n.alg.pr_device ≡ some (dev i)) × (n.alg.state ≡ start)
