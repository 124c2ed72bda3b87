-- ===== src/Main/Steps.antt =====
-- qdiskd/main.c in the cluster: pieces of the program of one daemon as steps of the cluster.
use corosync_qdisk.Prelude.{ℕ, ◌≡◌, ◌≢◌, refl, Option, some, none, arith}
use corosync_qdisk.Corosync.{Env}
use corosync_qdisk.Reserve.{Device}
use corosync_qdisk.Cmap.{Cmap}
use corosync_qdisk.Vquorum.{Vquorum}
use corosync_qdisk.Log.{Log}
use corosync_qdisk.Daemon.{Sys, Prog, Outcome, done, exited, aborted, crashed, bind}
use corosync_qdisk.Ends.{Ends}
use corosync_qdisk.Algorithm.{Seen, algorithm_run, algorithm_stop}
use corosync_qdisk.Algorithm.Heartbeat.{Follows}
use corosync_qdisk.Cluster.{
  Node, Cluster, sys, node_of, put, Disk, beat, exit, abort, crash, news, outside, stop, Reach,
  later,
}

module _ {W : Type 0} {env : ℕ → Env W} {dev : ℕ → Device W} {holder : W → Option ℕ}
    (disk : Disk env dev holder) where
  -- Steps of the cluster lead to a state with this daemon of host `i` and this world, and the other
  -- daemons as they were.
  abbrev pub Reaches : Cluster W → ℕ → Option (Node W) → W → Type 0
  Reaches c i n w =
      (u : Cluster W) × (Reach env dev holder c u
        × ((u.node i ≡ n) × ((u.world ≡ w) × ((j : ℕ) → j ≢ i → u.node j ≡ c.node j))))

  -- A piece of the program on host `i` is accounted for by steps of the cluster. It follows no null
  -- pointer.
  abbrev pub Accounts : {A : Type 0} → Cluster W → ℕ → Outcome W A → Type 0
  Accounts c i (done a t) =
      (t.alg.pr_device ≡ some (dev i)) × Reaches c i (some (node_of t)) t.world
  Accounts c i (exited code t) = Reaches c i none t.world
  Accounts c i (aborted t) = Reaches c i none t.world
  Accounts c i (crashed t) = ⊥

  pub bind-Accounts :
      {A B : Type 0} (c : Cluster W) (i : ℕ) (o : Outcome W A) (f : A → Prog W B)
      → Accounts c i o
      → ((a : A) (t : Sys W)
          → t.alg.pr_device ≡ some (dev i)
          → Reaches c i (some (node_of t)) t.world
          → Accounts c i (f a t))
      → Accounts c i (bind o f)
  bind-Accounts c i (done a t) f h k = k a t h.0 h.1
  bind-Accounts c i (exited n t) f h k = h
  bind-Accounts c i (aborted t) f h k = h
  bind-Accounts c i (crashed t) f h k = absurd h

  -- What one more step does.
  put_here : (c : Cluster W) (i : ℕ) (n : Option (Node W)) (w : W) → (put c i n w).node i ≡ n
  put_here c i n w = ground arith

  put_other :
      (c u : Cluster W) (i : ℕ) (n : Option (Node W)) (w : W)
      → ((j : ℕ) → j ≢ i → u.node j ≡ c.node j)
      → (j : ℕ) → j ≢ i
      → (put u i n w).node j ≡ c.node j
  put_other c u i n w same j ne = ground (arith, same j, ne)

  pub news_Reaches :
      (c : Cluster W) (i : ℕ) (n : Node W) (w : W) (cmap : Cmap) (vq : Vquorum) (log : Log) (x : W)
      → Reaches c i (some n) w
      → ((k : ℕ) → holder w ≡ some k → holder x ≡ some k)
      → Reaches c i (some (record { alg = n.alg; cmap = cmap; vq = vq; log = log })) x
  news_Reaches c i n w cmap vq log x (u, (r, (e, (q, same)))) keeps =
      let m = some (record { alg = n.alg; cmap = cmap; vq = vq; log = log }) in
      (
        put u i m x,
        (
          later r (news i n cmap vq log x e (λ k held. keeps k (rw q at held))),
          (put_here u i m x, (refl, put_other c u i m x same)),
        ),
      )

  pub crash_Reaches :
      (c : Cluster W) (i : ℕ) (n : Node W) (w : W) → Reaches c i (some n) w → Reaches c i none w
  crash_Reaches c i n w (u, (r, (e, (q, same)))) = (
    put u i none u.world,
    (later r (crash i), (put_here u i none u.world, (q, put_other c u i none u.world same))),
  )

  pub outside_Reaches :
      (c : Cluster W) (i : ℕ) (n : Option (Node W)) (w x : W)
      → Reaches c i n w
      → ((k : ℕ) → holder w ≡ some k → holder x ≡ some k)
      → Reaches c i n x
  outside_Reaches c i n w x (u, (r, (e, (q, same)))) keeps = (
    record u { world = x },
    (later r (outside x (λ k held. keeps k (rw q at held))), (e, (refl, same))),
  )

  pub stop_Reaches :
      (c : Cluster W) (i : ℕ) (n : Node W) (w : W) (t : Sys W)
      → Reaches c i (some n) w
      → algorithm_stop (env i) (sys n w) ≡ done tt t
      → Reaches c i none t.world
  stop_Reaches c i n w t (u, (r, (e, (q, same)))) ran = (
    put u i none t.world,
    (
      later r (stop i n {t = t} e (rw q ran)),
      (put_here u i none t.world, (refl, put_other c u i none t.world same)),
    ),
  )

  pub beat_Accounts :
      (c : Cluster W) (i : ℕ) (n : Node W) (w : W) (o : Outcome W (Unit {0}))
      → Reaches c i (some n) w
      → algorithm_run (env i) (sys n w) ≡ o
      → Ends (λ t. (t.alg.pr_device ≡ some (dev i)) × Unit {0}) (λ v. Unit {0}) o
      → (sight : Seen × Sys W) → Follows (env i) (dev i) n.alg sight o
      → Accounts c i o
  beat_Accounts c i n w (done _ t) (u, (r, (e, (q, same)))) ran kept sight follows = (
    kept.0,
    (
      put u i (some (node_of t)) t.world,
      (
        later r (beat i n {t = t} e (rw q ran)),
        (
          put_here u i (some (node_of t)) t.world,
          (refl, put_other c u i (some (node_of t)) t.world same),
        ),
      ),
    ),
  )
  beat_Accounts c i n w (exited code t) (u, (r, (e, (q, same)))) ran kept sight follows = (
    put u i none t.world,
    (
      later r (exit i code n {t = t} e (rw q ran)),
      (put_here u i none t.world, (refl, put_other c u i none t.world same)),
    ),
  )
  beat_Accounts c i n w (aborted t) (u, (r, (e, (q, same)))) ran kept sight follows = (
    put u i none t.world,
    (
      later r (abort i n {t = t} e (rw q ran)),
      (put_here u i none t.world, (refl, put_other c u i none t.world same)),
    ),
  )
  beat_Accounts c i n w (crashed t) h ran kept sight follows = follows
