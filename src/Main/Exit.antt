-- ===== src/Main/Exit.antt =====
-- qdiskd/main.c: how the daemon ends, over every sequence of events.
use corosync_qdisk.Prelude.{
  ℕ, ◌≡◌, ◌⊎◌, inl, inr, refl, Bool, true, false, ◌||◌, some, none, List, [], ◌∷◌, arith, is_zero,
  not, Bool-cases, ℤ, codes, if◌then◌else◌,
}
use corosync_qdisk.Corosync.{CsError, is_cs_ok, Env, Request}
use corosync_qdisk.Reserve.{Device}
use corosync_qdisk.Cmap.{qdisk_cmap_init, qdisk_cmap_get_corosync_logfile, qdisk_cmap_get_fd}
use corosync_qdisk.Vquorum.Service.{vquorum_init, vquorum_get_fd}
use corosync_qdisk.Daemon.{
  State, Algorithm, Sys, Prog, Outcome, done, exited, aborted, crashed, bind, pure, in_log,
}
use corosync_qdisk.Ends.{Ends}
use corosync_qdisk.Algorithm.{Seen, algorithm_run, algorithm_stop}
use corosync_qdisk.Algorithm.Keeps.{run-IsKept}
use corosync_qdisk.Algorithm.Heartbeat.{Follows, run-Follows}
use corosync_qdisk.Algorithm.Init.{algorithm_init}
use corosync_qdisk.Algorithm.Init.Ready.{IsReady, algorithm_init-IsReady}
use corosync_qdisk.Main.{
  log_level, Event, timer, cmap_ready, vquorum_ready, please_exit, dump, Ending, returned, waiting,
  is_exit, add_timer, refresh_blackbox, open_logfile, notify_state, timer_cb,
  cmap_loop_poll_dispatch_fn, vquorum_loop_poll_dispatch_fn, handle, run_loop, add_poll, finish,
  serve, connect, main,
}

-- A signal that stops the loop is among the events.
abbrev pub has_exit : List Event → Bool
has_exit [] = false
has_exit (e ∷ es) = is_exit e || has_exit es

or_assoc : (a b c : Bool) → ((a || b) || c) ≡ (a || (b || c))
or_assoc true b c = refl
or_assoc false b c = refl

module _ {W : Type 0} where
  -- A piece of the program returns with `P`, or ends the process by `exit(1)` or `abort`. It follows no
  -- null pointer.
  abbrev pub Runs : {A : Type 0} → (A → Sys W → Type 0) → Outcome W A → Type 0
  Runs P (done a s) = P a s
  Runs P (exited n s) = n ≡ 1
  Runs P (aborted s) = Unit
  Runs P (crashed s) = ⊥

  bind-Runs :
      {A B : Type 0} (P : A → Sys W → Type 0) (R : B → Sys W → Type 0) (o : Outcome W A)
      (f : A → Prog W B)
      → Runs P o
      → ((a : A) (s : Sys W) → P a s → Runs R (f a s))
      → Runs R (bind o f)
  bind-Runs P R (done a s) f h k = k a s h
  bind-Runs P R (exited n s) f h k = h
  bind-Runs P R (aborted s) f h k = h
  bind-Runs P R (crashed s) f h k = absurd h

  abbrev pub HasDevice : Sys W → Type 0
  HasDevice s = (d : Device W) × (s.alg.pr_device ≡ some d)

module _ {W : Type 0} (env : Env W) where
  Ends-Runs :
      (d : Device W) (a : Algorithm W) (o : Outcome W (Unit {0}))
      → Ends (λ t. (t.alg.pr_device ≡ some d) × Unit {0}) (λ w. Unit {0}) o
      → (sight : Seen × Sys W) → Follows env d a sight o
      → Runs (λ _ t. HasDevice t) o
  Ends-Runs d a (done u t) (e, _) r f = (d, e)
  Ends-Runs d a (exited n t) e r f = f.0
  Ends-Runs d a (aborted t) e r f = tt
  Ends-Runs d a (crashed t) e r f = f

  run-HasDevice : (s : Sys W) → HasDevice s → Runs (λ _ t. HasDevice t) (algorithm_run env s)
  run-HasDevice s (d, e) =
      Ends-Runs d s.alg (algorithm_run env s)
        (run-IsKept env d (λ _. Unit)
          (record {
            call_keeps = λ _ _ h. h;
            is_reserved_keeps = λ _ h. h;
            owner_keeps = λ _ h. h;
            keys_keep = λ _ h. h;
            reserve_keeps = λ _ h. h;
          })
          (λ _ h. h) (λ _ h. h) s (e, tt))
        _ (run-Follows env d s e)

  add_timer-HasDevice : (s : Sys W) → HasDevice s → Runs (λ _ t. HasDevice t) (add_timer env s)
  unfolding add_timer
  add_timer-HasDevice s h = ground (arith, h)

  timer-HasDevice : (s : Sys W) → HasDevice s → Runs (λ _ t. HasDevice t) (timer_cb env s)
  unfolding timer_cb notify_state
  timer-HasDevice s h =
      bind-Runs (λ _ t. HasDevice t) _
        (bind (bind (add_timer env s) (λ _. in_log (refresh_blackbox env)))
          (λ _. algorithm_run env))
        _
        (bind-Runs (λ _ t. HasDevice t) _
          (bind (add_timer env s) (λ _. in_log (refresh_blackbox env))) _
          (bind-Runs (λ _ t. HasDevice t) _ (add_timer env s) _ (add_timer-HasDevice s h)
            (λ _ t k. k))
          (λ _ t k. run-HasDevice t k))
        (λ _ t k. k)

  handle-HasDevice :
      (e : Event) (s : Sys W) → HasDevice s → Runs (λ _ t. HasDevice t) (handle env e s)
  unfolding handle cmap_loop_poll_dispatch_fn vquorum_loop_poll_dispatch_fn
  handle-HasDevice timer s h = timer-HasDevice s h
  handle-HasDevice cmap_ready s h = ground (arith, h)
  handle-HasDevice vquorum_ready s h = ground (arith, h)
  handle-HasDevice please_exit s h = h
  handle-HasDevice dump s h = h

  run_loop-Runs :
      (stop : Bool) (es : List Event) (s : Sys W)
      → HasDevice s
      → Runs (λ b t. HasDevice t × (b ≡ (stop || has_exit es))) (run_loop env stop es s)
  unfolding run_loop
  run_loop-Runs true [] s h = (h, refl)
  run_loop-Runs false [] s h = (h, refl)
  run_loop-Runs stop (e ∷ es) s h =
      bind-Runs (λ _ t. HasDevice t) _ (handle env e s) _ (handle-HasDevice e s h)
        (λ _ t k.
          rw (or_assoc stop (is_exit e) (has_exit es)) at
            (run_loop-Runs (stop || is_exit e) es t k))

  -- The daemon has returned 1, or it has returned 0 and a signal has stopped it, or it waits for events
  -- with its device open and no signal has stopped it.
  abbrev pub IsEnding : List Event → Ending → Sys W → Type 0
  IsEnding es (returned n) t = (n ≡ 1) ⊎ ((n ≡ 0) × (has_exit es ≡ true))
  IsEnding es waiting t = (has_exit es ≡ false) × HasDevice t

  finish-Runs :
      (b : Bool) (es : List Event) (s : Sys W)
      → HasDevice s × (b ≡ has_exit es)
      → Runs (IsEnding es) (finish env b s)
  unfolding finish algorithm_stop
  finish-Runs true es s h = ground (arith, h)
  finish-Runs false es s h = ground (arith, h)

  add_poll-HasDevice :
      (fd : CsError × ℕ) (s : Sys W) → HasDevice s → Runs (λ _ t. HasDevice t) (add_poll env fd s)
  unfolding add_poll
  add_poll-HasDevice fd s h = ground (arith, h)

  serve-Runs : (es : List Event) (s : Sys W) → HasDevice s → Runs (IsEnding es) (serve env es s)
  unfolding serve
  serve-Runs es s h =
      bind-Runs (λ _ t. HasDevice t) _ (add_timer env s) _ (add_timer-HasDevice s h)
        (λ _ t k.
          let ready = (env.call (Request.sd_notify (codes "READY=1\nSTATUS=Running")) t.world).1 in
          let fd = qdisk_cmap_get_fd env (t.cmap, ready) in
          let polled = record t { cmap = fd.1.0; world = fd.1.1 } in
          bind-Runs (λ _ t. HasDevice t) _ (add_poll env fd.0 polled) _
            (add_poll-HasDevice fd.0 polled k)
            (λ _ u m.
              let vfd = vquorum_get_fd env (u.vq, u.world) in
              let both = record u { vq = vfd.1.0; world = vfd.1.1 } in
              bind-Runs (λ _ t. HasDevice t) _ (add_poll env vfd.0 both) _
                (add_poll-HasDevice vfd.0 both m)
                (λ _ x l.
                  bind-Runs (λ b y. HasDevice y × (b ≡ has_exit es)) _ (run_loop env false es x) _
                    (run_loop-Runs false es x l) (λ b y f. finish-Runs b es y f))))

  ready-Runs :
      (st : State) (o : Outcome W ℤ)
      → IsReady env st o
      → Runs (λ err t. (is_zero err ≡ false) ⊎ HasDevice t) o
  ready-Runs st (done err t) (e, inl (z, (d, (p, q)))) = inr (d, p)
  ready-Runs st (done err t) (e, inr (z, p)) = inl z
  ready-Runs st (exited n t) h = absurd h
  ready-Runs st (aborted t) h = tt
  ready-Runs st (crashed t) h = h

  initialised-Runs :
      (es : List Event) (err : ℤ) (t : Sys W)
      → (is_zero err ≡ false) ⊎ HasDevice t
      → Runs (IsEnding es) ((if not (is_zero err) then pure (returned 1) else serve env es) t)
  initialised-Runs es err t (inl e) = rw e (inl refl)
  initialised-Runs es err t (inr h) = elim (Bool-cases (is_zero err)) [
    | inl e ↦ rw e (serve-Runs es t h)
    | inr e ↦ rw e (inl refl)
  ]

  connect-Runs :
      (es : List Event) (s : Sys W) → s.alg.pr_device ≡ none → Runs (IsEnding es) (connect env es s)
  unfolding connect
  connect-Runs es s h =
      let log = qdisk_cmap_get_corosync_logfile env (s.cmap, s.world) in
      let file = open_logfile env log.0 (s.log, log.1.1) in
      let loop = env.call Request.qb_loop_create file.1.1 in
      let told =
        (env.call (Request.sd_notify (codes "STATUS=Starting votequorum connection\n")) loop.1).1 in
      let vq = vquorum_init env (s.vq, told) in
      let last =
        (env.call (Request.sd_notify (codes "STATUS=Initializing algorithm\n")) vq.1.1).1 in
      let t = record s { cmap = log.1.0; log = file.1.0; vq = vq.1.0; world = last } in
      let begun : Runs (IsEnding es) (
          bind (algorithm_init env t)
            (λ err. if not (is_zero err) then pure (returned 1) else serve env es)) =
        bind-Runs (λ err u. (is_zero err ≡ false) ⊎ HasDevice u) _ (algorithm_init env t) _
          (ready-Runs s.alg.state (algorithm_init env t) (algorithm_init-IsReady env t h))
          (λ err u k. initialised-Runs es err u k) in
      elim (Bool-cases loop.0) [
        | inr e ↦ rw e tt
        | inl e ↦ elim (Bool-cases (is_cs_ok vq.0)) [
          | inl f ↦ rw (e, f) begun
          | inr f ↦ rw (e, f) (inl refl)
        ]
      ]

  -- Over every sequence of events, a daemon that starts without an open device follows no null pointer,
  -- calls `exit` with 1 only, and returns 1, or returns 0 when a signal has stopped it; while it waits
  -- for events its device is open, and no signal has stopped it.
  pub main-Runs :
      (es : List Event) (s : Sys W) → s.alg.pr_device ≡ none → Runs (IsEnding es) (main env es s)
  unfolding main
  main-Runs es s h =
      let told = (env.call (Request.sd_notify (codes "STATUS=Starting...\n")) s.world).1 in
      let level = env.call (Request.getenv (codes "QDISK_LOG_LEVEL")) told in
      let logged = (env.call (Request.qb_log_init (log_level level.0)) level.1).1 in
      let configured = (env.call Request.qb_log_configure logged).1 in
      let cmap = qdisk_cmap_init env (s.cmap, configured) in
      let t = record s { cmap = cmap.1.0; world = cmap.1.1 } in
      elim (Bool-cases (is_cs_ok cmap.0)) [
        | inl e ↦ rw e (connect-Runs es t h)
        | inr e ↦ rw e (inl refl)
      ]
