-- ===== src/Cluster/Lost.antt =====
-- "Lost disk reservation" of qdiskd/algorithm.c, over every interleaving of the steps of the cluster.
use corosync_qdisk.Prelude.{ℕ, ◌≡◌, Option, some}
use corosync_qdisk.Corosync.{Env}
use corosync_qdisk.Reserve.{Device}
use corosync_qdisk.Algorithm.{algorithm_run}
use corosync_qdisk.Algorithm.Lost.{TellsHolder, NoAbort, run-NoAbort}
use corosync_qdisk.Cluster.{Node, Cluster, sys, Disk, Reach, IsInitial}
use corosync_qdisk.Cluster.Lock.{LockReach, Represents, Reach-refines}
use corosync_qdisk.Cluster.Safety.{Reach-AllSafe}

module _ {W : Type 0} (env : ℕ → Env W) (dev : ℕ → Device W) (holder : W → Option ℕ)
    (disk : Disk env dev holder) where
  -- On a disk that tells the truth of its holder, no heartbeat aborts in any state that heartbeats,
  -- starts, ends and news reach, in any order, from daemons in START with their devices open.
  pub Reach-NoAbort :
      {c t : Cluster W}
      → IsInitial env dev holder c
      → ((j : ℕ) → TellsHolder (dev j) holder)
      → Reach env dev holder c t
      → (i : ℕ) (n : Node W) → t.node i ≡ some n
      → NoAbort (algorithm_run (env i) (sys n t.world))
  Reach-NoAbort {c} {t} init tells r i n e =
      let (has_device, mine) = Reach-AllSafe env dev holder disk init r i n e in
      run-NoAbort (env i) (dev i) holder (tells i) (disk.keeps i (dev i).get_ikey) (sys n t.world)
        has_device mine

  -- The same, with the lock that the daemons implement.
  pub Reach-lock :
      {c t : Cluster W}
      → IsInitial env dev holder c
      → ((j : ℕ) → TellsHolder (dev j) holder)
      → Reach env dev holder c t
      → (i : ℕ) (n : Node W) → t.node i ≡ some n
      → (o : Option ℕ) × (LockReach o
          × (Represents t o × NoAbort (algorithm_run (env i) (sys n t.world))))
  Reach-lock init tells r i n e =
      let (o, (reached, rep)) = Reach-refines env dev holder disk init r in
      (o, (reached, (rep, Reach-NoAbort init tells r i n e)))
