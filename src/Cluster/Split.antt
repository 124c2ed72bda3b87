-- ===== src/Cluster/Split.antt =====
-- Two daemons of qdiskd/algorithm.c on one disk, in two halves of a cluster that do not see one
-- another.
use corosync_qdisk.Prelude.{List, ◌∷◌, ℕ, ◌≡◌, ◌≢◌, none, All, IsIn, map, false, is_zero}
use corosync_qdisk.Corosync.{Env}
use corosync_qdisk.Reserve.{Device}
use corosync_qdisk.Vquorum.{Vquorum, find_key}
use corosync_qdisk.Vquorum.Exchange.{known}
use corosync_qdisk.Daemon.{State, reserve_disk, have_qdisk, resigned, Sys}
use corosync_qdisk.Algorithm.{algorithm_run}
use corosync_qdisk.Algorithm.Progress.{Completes, IsHealthy}
use corosync_qdisk.Algorithm.Held.{IsHeld}
use corosync_qdisk.Algorithm.Beats.{Voted, IsCalm, IsPoised}
use corosync_qdisk.Algorithm.Race.Won.{IsWinnable}

module _ {W : Type 0} (env rival_env : Env W) (d rival : Device W) (sent : W → List ℕ) where
  -- The first daemon has the disk and sends the vote 1, and then the second one resigns and sends 0;
  -- the votes before are `l`.
  abbrev Splits : List ℕ → Sys W → Sys W → Type 0
  Splits l s t =
      Completes
        (λ u.
          Voted sent have_qdisk (1 ∷ l) u
          × Completes (Voted sent resigned (0 ∷ 1 ∷ l))
              (algorithm_run rival_env (record t { world = u.world })))
        (algorithm_run env s)

  -- Four heartbeats, by turns: both daemons go to RESERVE_DISK and send 1, and then the first one has
  -- the disk and the second one resigns.
  abbrev pub Divides : List ℕ → Sys W → Sys W → Type 0
  Divides l s t =
      Completes
        (λ u.
          Voted sent reserve_disk (1 ∷ l) u
          × Completes
              (λ x.
                Voted sent reserve_disk (1 ∷ 1 ∷ l) x
                × Splits (1 ∷ 1 ∷ l) (record u { world = x.world }) x)
              (algorithm_run rival_env (record t { world = u.world })))
        (algorithm_run env s)

  -- Two hosts with different keys at one disk. In the worlds of `Q` it is free, and a reservation by
  -- the first host succeeds and leads to a world of `R`; in those its key holds the disk, and a
  -- reservation by the other host is refused. The services and looks at the disk of both hosts keep
  -- `Q` and `R`, and there is no news while the clocks of both stand in the `timeout` milliseconds
  -- from `lo` on.
  pub record IsContest (Q R : List ℕ → W → Type 0) (lo timeout : ℕ) : Type 0 where
    pub winnable : IsWinnable env d sent Q R
    pub calm : IsCalm env d sent lo timeout Q
    pub calm_held : IsCalm env d sent lo timeout R
    pub rival_healthy : (l : List ℕ) → IsHealthy rival_env rival (Q l)
    pub rival_keys_keep : (l : List ℕ) (w : W) → Q l w → Q l (rival.get_registered_keys w).1
    pub rival_calm : IsCalm rival_env rival sent lo timeout Q
    pub rival_held : (l : List ℕ) → IsHeld rival_env rival (R l) d.get_ikey
    pub rival_calm_held : IsCalm rival_env rival sent lo timeout R
    pub refused : (l : List ℕ) (w : W) → R l w → is_zero (rival.reserve w).0 ≡ false
    pub refused_keeps : (l : List ℕ) (w : W) → R l w → R l (rival.reserve w).1
    pub differ : d.get_ikey ≢ rival.get_ikey

  module _ (Q R : List ℕ → W → Type 0) (lo timeout : ℕ) (contest : IsContest Q R lo timeout)
      (v rival_v : Vquorum) (count rival_count : ℕ)
      (listed : All (λ n. find_key n v.node_list ≢ none) v.visible_node_list)
      (rival_listed : All (λ n. find_key n rival_v.node_list ≢ none) rival_v.visible_node_list)
      (hidden : ¬ IsIn d.get_ikey (map (known rival_env rival_v) rival_v.visible_node_list)) where
    abbrev Stands : List ℕ → State → Sys W → Type 0
    Stands l st s = IsPoised env d sent lo timeout v count (Q l) st s

    abbrev Rivals : List ℕ → State → Sys W → Type 0
    Rivals l st t = IsPoised rival_env rival sent lo timeout rival_v rival_count (Q l) st t
