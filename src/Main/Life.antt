-- ===== src/Main/Life.antt =====
-- qdiskd/main.c in the cluster: a daemon from the end of `algorithm_init` to its own end.
use corosync_qdisk.Prelude.{
  ℕ, ◌≡◌, Bool, true, false, Option, some, none, List, codes, is_negative, Bool-cases, inl, inr,
  refl, if◌then◌else◌,
}
use corosync_qdisk.Corosync.{CsError, is_cs_ok, Env, Request}
use corosync_qdisk.Reserve.{Device}
use corosync_qdisk.Cmap.{qdisk_cmap_get_fd, qdisk_cmap_shutdown}
use corosync_qdisk.Vquorum.Service.{vquorum_get_fd, vquorum_qdevice_unregister}
use corosync_qdisk.Daemon.{Sys, Prog, Outcome, done, exited, aborted, crashed, bind}
use corosync_qdisk.Algorithm.{algorithm_stop}
use corosync_qdisk.Cluster.{Node, Cluster, sys, node_of, Disk, here}
use corosync_qdisk.Main.{
  Event, Ending, returned, waiting, add_timer, run_loop, add_poll, finish, serve,
}
use corosync_qdisk.Main.Steps.{
  Reaches, Accounts, news_Reaches, crash_Reaches, outside_Reaches, stop_Reaches,
}
use corosync_qdisk.Main.Loop.{add_timer-Accounts, loop-Accounts}

module _ {W : Type 0} {env : ℕ → Env W} {dev : ℕ → Device W} {holder : W → Option ℕ}
    (disk : Disk env dev holder) where
  -- Steps of the cluster lead to what `main` leaves: this daemon with its device, if it waits for
  -- events, or a host without a daemon, if it has ended.
  abbrev pub Closes : Cluster W → ℕ → Outcome W Ending → Type 0
  Closes c i (done (returned n) t) = Reaches disk c i none t.world
  Closes c i (done waiting t) =
      (t.alg.pr_device ≡ some (dev i)) × Reaches disk c i (some (node_of t)) t.world
  Closes c i (exited code t) = Reaches disk c i none t.world
  Closes c i (aborted t) = Reaches disk c i none t.world
  Closes c i (crashed t) = ⊥

  bind-Closes :
      {A : Type 0} (c : Cluster W) (i : ℕ) (o : Outcome W A) (f : A → Prog W Ending)
      → Accounts disk c i o
      → ((a : A) (t : Sys W)
          → t.alg.pr_device ≡ some (dev i)
          → Reaches disk c i (some (node_of t)) t.world
          → Closes c i (f a t))
      → Closes c i (bind o f)
  bind-Closes c i (done a t) f h k = k a t h.0 h.1
  bind-Closes c i (exited n t) f h k = h
  bind-Closes c i (aborted t) f h k = h
  bind-Closes c i (crashed t) f h k = absurd h

  -- The state that `algorithm_stop` leaves.
  stop_done :
      (i : ℕ) (s : Sys W)
      → s.alg.pr_device ≡ some (dev i)
      → (t : Sys W) × (algorithm_stop (env i) s ≡ done tt t)
  unfolding algorithm_stop
  stop_done i s h =
      let gone = ((dev i).unregister_key ((dev i).release s.world).1).1 in
      let r = vquorum_qdevice_unregister (env i) (s.vq, gone) in
      (record s { vq = r.1.0; world = r.1.1 }, rw h refl)

  finish-Closes :
      (c : Cluster W) (i : ℕ) (stopped : Bool) (s : Sys W)
      → s.alg.pr_device ≡ some (dev i)
      → Reaches disk c i (some (node_of s)) s.world
      → Closes c i (finish (env i) stopped s)
  unfolding finish qdisk_cmap_shutdown
  finish-Closes c i false s h r = (h, r)
  finish-Closes c i true s h r =
      let told = ((env i).call (Request.sd_notify (codes "STOPPING=1")) s.world).1 in
      let (t, e) = stop_done i (record s { world = told }) h in
      let ended =
        stop_Reaches disk c i (node_of s) told t
          (news_Reaches disk c i (node_of s) s.world s.cmap s.vq s.log told r
            (λ k. (disk.keeps i k).call_keeps _ s.world))
          e in
      rw e
        (outside_Reaches disk c i none t.world _ ended (λ k. (disk.keeps i k).call_keeps _ t.world))

  add_poll-Accounts :
      (c : Cluster W) (i : ℕ) (fd : CsError × ℕ) (s : Sys W)
      → s.alg.pr_device ≡ some (dev i)
      → Reaches disk c i (some (node_of s)) s.world
      → Accounts disk c i (add_poll (env i) fd s)
  unfolding add_poll
  add_poll-Accounts c i (cs_err, fd) s h r =
      let number = if is_cs_ok cs_err then fd else 0 in
      let t = (env i).call (Request.qb_loop_poll_add number) s.world in
      let added =
        news_Reaches disk c i (node_of s) s.world s.cmap s.vq s.log t.1 r
          (λ k. (disk.keeps i k).call_keeps _ s.world) in
      elim (Bool-cases (is_negative t.0)) [
        | inl e ↦ rw e (crash_Reaches disk c i (node_of s) t.1 added)
        | inr e ↦ rw e (h, added)
      ]

  run-Closes :
      (c : Cluster W) (i : ℕ) (es : List Event) (s : Sys W)
      → s.alg.pr_device ≡ some (dev i)
      → Reaches disk c i (some (node_of s)) s.world
      → Closes c i (serve (env i) es s)
  unfolding serve qdisk_cmap_get_fd vquorum_get_fd
  run-Closes c i es s h r =
      bind-Closes c i (add_timer (env i) s) _ (add_timer-Accounts disk c i s h r) (λ _ t ht rt.
        let kept = λ (k : ℕ). (disk.keeps i k).call_keeps in
        let ready =
          ((env i).call (Request.sd_notify (codes "READY=1\nSTATUS=Running")) t.world).1 in
        let fd = (env i).call (Request.cmap_fd_get t.cmap.cmap_handle) ready in
        let polled = record t { world = fd.1 } in
        bind-Closes c i (add_poll (env i) fd.0 polled) _
          (add_poll-Accounts c i fd.0 polled ht (
            news_Reaches disk c i (node_of t) t.world t.cmap t.vq t.log fd.1 rt
              (λ k held. kept k _ ready (kept k _ t.world held))))
          (λ _ u hu ru.
            let vfd = (env i).call (Request.votequorum_fd_get u.vq.v_handle) u.world in
            let both = record u { world = vfd.1 } in
            bind-Closes c i (add_poll (env i) vfd.0 both) _
              (add_poll-Accounts c i vfd.0 both hu (
                news_Reaches disk c i (node_of u) u.world u.cmap u.vq u.log vfd.1 ru
                  (λ k held. kept k _ u.world held)))
              (λ _ x hx rx.
                bind-Closes c i (run_loop (env i) false es x) _
                  (loop-Accounts disk c i false es x hx rx)
                  (λ stopped y hy ry. finish-Closes c i stopped y hy ry))))

  -- When the daemon of host `i` runs in the cluster and has its device open, what `main` does behind
  -- `algorithm_init`, over every sequence of events, is steps of the cluster: they lead to the daemon
  -- and the world that `main` leaves, or to a host whose daemon has ended, with every other daemon as
  -- it was. It follows no null pointer.
  pub serve-Closes :
      (c : Cluster W) (i : ℕ) (n : Node W) (es : List Event)
      → c.node i ≡ some n
      → n.alg.pr_device ≡ some (dev i)
      → Closes c i (serve (env i) es (sys n c.world))
  serve-Closes c i n es e h =
      run-Closes c i es (sys n c.world) h (c, (here, (e, (refl, λ j ne. refl))))
