-- ===== src/Algorithm/Back.antt =====
-- qdiskd/algorithm.c: the heartbeats of a daemon that holds the disk, when the cluster is whole again.
use corosync_qdisk.Prelude.{List, ◌∷◌, ℕ, zero, suc, ◌<◌, ◌*◌, ◌^◌, ◌≢◌, none, All, length}
use corosync_qdisk.Corosync.{Env}
use corosync_qdisk.Reserve.{Device}
use corosync_qdisk.Vquorum.{Vquorum, find_key}
use corosync_qdisk.Daemon.{idle, release_qdisk, Sys}
use corosync_qdisk.Algorithm.Progress.{Completes, IsHealthy}
use corosync_qdisk.Algorithm.Beats.{Voted, IsCalm, IsPoised}
use corosync_qdisk.Algorithm.{algorithm_run}

module _ {W : Type 0} (env : Env W) (d : Device W) (sent : W → List ℕ) where
  -- Each of `n` heartbeats in a row ends in IDLE and sends the vote 1; the votes before them are `l`.
  abbrev pub StaysIdle : ℕ → List ℕ → Sys W → Type 0
  StaysIdle zero l s = Unit
  StaysIdle (suc n) l s =
      Completes (λ t. Voted sent idle (1 ∷ l) t × StaysIdle n (1 ∷ l) t) (algorithm_run env s)

  -- Two heartbeats in a row, and then `n` more: the state and the votes at the end of each. After the
  -- second one the world is in `F`.
  abbrev pub GoesBack : (List ℕ → W → Type 0) → ℕ → List ℕ → Sys W → Type 0
  GoesBack F n l s =
      Completes
        (λ t.
          Voted sent release_qdisk (1 ∷ l) t
          × Completes
              (λ u.
                F (1 ∷ 1 ∷ l) u.world × (Voted sent idle (1 ∷ 1 ∷ l) u × StaysIdle n (1 ∷ 1 ∷ l) u))
              (algorithm_run env t))
        (algorithm_run env s)

  module _ (F : List ℕ → W → Type 0) (lo timeout : ℕ) (v : Vquorum) (count : ℕ)
      (free : (l : List ℕ) → IsHealthy env d (F l))
      (keys_keep : (l : List ℕ) (w : W) → F l w → F l (d.get_registered_keys w).1)
      (freed : IsCalm env d sent lo timeout F)
      (listed : All (λ n. find_key n v.node_list ≢ none) v.visible_node_list)
      (small : length v.visible_node_list < 2 ^ 31)
      (above : count < length v.visible_node_list * 2) where
    abbrev Stands : List ℕ → Sys W → Type 0
    Stands l s = IsPoised env d sent lo timeout v count (F l) idle s
