-- ===== src/Main.antt =====
-- qdiskd/main.c: the start of the daemon, its event loop and its end. The set-up of the log's filters
-- and formats is one request, and the handlers of the signals are events.
pub mod Exit
pub mod Steps
pub mod Loop
pub mod Life
pub mod Follow
use corosync_qdisk.Prelude.{
  ℕ, ◌*◌, Bool, true, false, not, ◌||◌, Option, none, some, List, [], ◌∷◌, ◌++◌, Text, codes,
  if◌then◌else◌, u64, is_zero, is_negative,
}
use corosync_qdisk.Corosync.{CsError, is_cs_ok, Env, Request, St}
use corosync_qdisk.Cmap.{
  text_eq, qdisk_cmap_init, qdisk_cmap_shutdown, qdisk_cmap_get_fd, qdisk_cmap_get_corosync_logfile,
  qdisk_cmap_dispatch_all,
}
use corosync_qdisk.Vquorum.Service.{vquorum_init, vquorum_get_fd, vquorum_dispatch_all}
use corosync_qdisk.Log.{Log, update_blackbox_path_with_timestamp, qdisk_dump_blackbox}
use corosync_qdisk.Daemon.{
  Algorithm, State, start, idle, reserve_disk, recv_vote, have_qdisk, release_qdisk, resigned, Prog,
  ◌>>=◌, ◌>>◌, pure, abort, algorithm, in_vquorum, in_cmap, in_log, in_world,
}
use corosync_qdisk.Algorithm.{algorithm_run, algorithm_stop}
use corosync_qdisk.Algorithm.Init.{algorithm_init}

-- What the loop of libqb calls: the timer, the two descriptors, and the signals.
pub data Event : Type 0 where
  timer cmap_ready vquorum_ready please_exit dump : Event

-- How far `main` has come when the events are over: it has returned a code, or waits in the loop.
pub data Ending : Type 0 where
  returned : ℕ → Ending
  waiting : Ending

-- `get_algorithm_state_name`
unfoldable pub state_name : State → Text
state_name start = codes "START"
state_name idle = codes "IDLE"
state_name reserve_disk = codes "RESERVE_DISK"
state_name recv_vote = codes "RECV_VOTE"
state_name have_qdisk = codes "HAVE_QDISK"
state_name release_qdisk = codes "RELEASE_QDISK"
state_name resigned = codes "RESIGNED"

abbrev algorithm_get_state_name : {W : Type 0} → Algorithm W → Text
algorithm_get_state_name a = state_name a.state

abbrev algorithm_get_heartbeat : {W : Type 0} → Algorithm W → ℕ
algorithm_get_heartbeat a = a.algorithm_heartbeat

-- The level of the log from QDISK_LOG_LEVEL, as syslog numbers it.
unfoldable pub log_level : Option Text → ℕ
log_level none = 6
log_level (some level) =
    if text_eq level (codes "emerg") || text_eq level (codes "emergency")
    then 0
    else if text_eq level (codes "alert")
    then 1
    else if text_eq level (codes "crit") || text_eq level (codes "critical")
    then 2
    else if text_eq level (codes "err") || text_eq level (codes "error")
    then 3
    else if text_eq level (codes "warn") || text_eq level (codes "warning")
    then 4
    else if text_eq level (codes "notice")
    then 5
    else if text_eq level (codes "info")
    then 6
    else if text_eq level (codes "debug")
    then 7
    else if text_eq level (codes "trace")
    then 8
    else 6

abbrev pub is_exit : Event → Bool
is_exit please_exit = true
is_exit _ = false

-- A value, or the `abort` that stands in its place.
abbrev pub or_abort : {W : Type 0} → Option CsError → Prog W (Unit {0})
or_abort none = abort
or_abort (some err) = pure tt

module _ {W : Type 0} (env : Env W) where
  -- The timer for the next heartbeat, in nanoseconds.
  unfoldable pub add_timer : Prog W (Unit {0})
  add_timer = do
    a ← algorithm
    err ←
        in_world (env.call (Request.qb_loop_timer_add (u64 (algorithm_get_heartbeat a * 1000000))))
    if is_negative err then abort else pure tt

  -- The file of the blackbox is put beside the log file of corosync, if that has a real path.
  unfoldable pub stamp_beside : Option Text → St (Log × W) (Unit {0})
  stamp_beside none s = (tt, s)
  stamp_beside (some path_buf) (l, w) =
      let (dir, v) = env.call (Request.dirname path_buf) w in
      update_blackbox_path_with_timestamp env dir (l, v)

  unfoldable pub stamp_blackbox : Text → St (Log × W) (Unit {0})
  stamp_blackbox path (l, w) =
      let (real, v) = env.call (Request.realpath path) w in stamp_beside real (l, v)

  unfoldable pub refresh_blackbox : St (Log × W) (Unit {0})
  refresh_blackbox (l, w) = stamp_blackbox l.corosync_logfile_path (l, w)

  unfoldable pub notify_state : Prog W (Unit {0})
  notify_state = do
    a ← algorithm
    in_world (env.call (Request.sd_notify (codes "STATUS=" ++ algorithm_get_state_name a)))

  unfoldable pub timer_cb : Prog W (Unit {0})
  timer_cb = add_timer >> in_log refresh_blackbox >> algorithm_run env >> notify_state

  unfoldable pub cmap_loop_poll_dispatch_fn : Prog W (Unit {0})
  cmap_loop_poll_dispatch_fn = in_cmap (qdisk_cmap_dispatch_all env) >>= or_abort

  unfoldable pub vquorum_loop_poll_dispatch_fn : Prog W (Unit {0})
  vquorum_loop_poll_dispatch_fn = in_vquorum (vquorum_dispatch_all env) >>= or_abort

  unfoldable pub handle : Event → Prog W (Unit {0})
  handle timer = timer_cb
  handle cmap_ready = cmap_loop_poll_dispatch_fn
  handle vquorum_ready = vquorum_loop_poll_dispatch_fn
  handle please_exit = in_world (env.call (Request.print (codes "Shutting down...\n")))
  handle dump = in_log (qdisk_dump_blackbox env)

  -- The events that `qb_loop_run` handles, and whether it was told to stop; some may still come behind
  -- the signal that stops it.
  unfoldable pub run_loop : Bool → List Event → Prog W Bool
  run_loop stop [] = pure stop
  run_loop stop (e ∷ es) = handle e >> run_loop (stop || is_exit e) es

  -- A descriptor is polled; an error in fetching it is only logged, and it is 0 then.
  unfoldable pub add_poll : CsError × ℕ → Prog W (Unit {0})
  add_poll (cs_err, fd) = do
    err ← in_world (env.call (Request.qb_loop_poll_add (if is_cs_ok cs_err then fd else 0)))
    if is_negative err then abort else pure tt

  -- Behind `qb_loop_run`.
  unfoldable pub finish : Bool → Prog W Ending
  finish false = pure waiting
  finish true = do
    in_world (env.call (Request.sd_notify (codes "STOPPING=1")))
    algorithm_stop env
    in_cmap (qdisk_cmap_shutdown env)
    pure (returned 0)

  -- Behind `algorithm_init`.
  unfoldable pub serve : List Event → Prog W Ending
  serve es = do
    add_timer
    in_world (env.call (Request.sd_notify (codes "READY=1\nSTATUS=Running")))
    cmap_fd ← in_cmap (qdisk_cmap_get_fd env)
    add_poll cmap_fd
    vquorum_fd ← in_vquorum (vquorum_get_fd env)
    add_poll vquorum_fd
    stopped ← run_loop false es
    finish stopped

  -- The log file of corosync, if cmap names one, is also that of the daemon.
  unfoldable pub open_logfile : CsError × Text → St (Log × W) (Unit {0})
  open_logfile (err, logfile_path) (l, w) =
      if not (is_cs_ok err)
      then (tt, (l, w))
      else (let (_, v) = env.call (Request.qb_log_file_open logfile_path) w in
          let (_, r) = stamp_blackbox logfile_path (l, v) in
          (tt, (record r.0 { corosync_logfile_path = logfile_path }, r.1)))

  -- Behind `qdisk_cmap_init`.
  unfoldable pub connect : List Event → Prog W Ending
  connect es = do
    logfile ← in_cmap (qdisk_cmap_get_corosync_logfile env)
    in_log (open_logfile logfile)
    created ← in_world (env.call Request.qb_loop_create)
    if not created then abort else (do
      in_world (env.call (Request.sd_notify (codes "STATUS=Starting votequorum connection\n")))
      vquorum ← in_vquorum (vquorum_init env)
      if not (is_cs_ok vquorum) then pure (returned 1) else (do
        in_world (env.call (Request.sd_notify (codes "STATUS=Initializing algorithm\n")))
        err ← algorithm_init env
        if not (is_zero err) then pure (returned 1) else serve es))

  unfoldable pub main : List Event → Prog W Ending
  main es = do
    in_world (env.call (Request.sd_notify (codes "STATUS=Starting...\n")))
    level ← in_world (env.call (Request.getenv (codes "QDISK_LOG_LEVEL")))
    in_world (env.call (Request.qb_log_init (log_level level)))
    in_world (env.call Request.qb_log_configure)
    cmap ← in_cmap (qdisk_cmap_init env)
    if not (is_cs_ok cmap) then pure (returned 1) else connect es
