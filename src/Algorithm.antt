-- ===== src/Algorithm.antt =====
-- qdiskd/algorithm.c: one heartbeat of the tiebreaker, `algorithm_run`, and `algorithm_stop`.
-- `algorithm_run` is cut at its early returns: `algorithm_run` itself up to the read of the node
-- count, `run_reserved` up to the check of the holder, `run_keys` up to the switch, and `run_switch`
-- with `switch` and `run_finish`.
pub mod Switch
pub mod Keeps
pub mod Progress
pub mod Beats
pub mod Race
pub mod Owner
pub mod Loser
pub mod Wait
pub mod Back
pub mod Held
pub mod Exits
pub mod Lost
pub mod Holding
pub mod Release
pub mod Visible
pub mod Init
pub mod Heartbeat
use corosync_qdisk.Prelude.{
  ℕ, ℤ, ◌+◌, ◌*◌, Bool, true, false, not, ◌&&◌, ◌||◌, none, some, List, [], ◌∷◌, ltb, ◌==◌,
  if◌then◌else◌, u32, u64, is_zero, is_negative, length,
}
use corosync_qdisk.Corosync.{is_cs_ok, Env}
use corosync_qdisk.Reserve.{Device}
use corosync_qdisk.Cmap.{qdisk_cmap_get_node_count}
use corosync_qdisk.Vquorum.{Vquorum}
use corosync_qdisk.Vquorum.Service.{
  vquorum_get_quorate, vquorum_get_expected_votes, vquorum_get_total_votes, vquorum_get_node_list,
  vquorum_get_node_key_list, vquorum_qdevice_poll, vquorum_qdevice_unregister,
}
use corosync_qdisk.Daemon.{
  State, start, idle, reserve_disk, recv_vote, have_qdisk, release_qdisk, resigned, Prog, ◌>>=◌,
  ◌>>◌, pure, exit, abort, algorithm, change, votequorum, in_vquorum, in_cmap, in_world, the_device,
  gettime_ms,
}

-- The local variables of a heartbeat that its later parts read.
pub record Seen : Type 0 where
  pub node_count : ℕ
  pub is_quorate : Bool
  pub expected_votes : ℕ
  pub votes : ℕ
  pub reserved : ℤ
  pub reservation_holder : ℕ
  pub num_nodes_visible : ℕ
  pub resv_node_visible : Bool

-- What the switch decides: the vote, and whether no vote is sent.
pub record Ballot : Type 0 where
  pub cast_vote : ℕ
  pub skip_poll : Bool

-- The local variables before the disk and the nodes' keys are read.
unfoldable pub first_look : Vquorum → ℕ → ℤ → Seen
first_look v node_count reserved = record {
  node_count = node_count;
  is_quorate = vquorum_get_quorate v;
  expected_votes = vquorum_get_expected_votes v;
  votes = vquorum_get_total_votes v;
  reserved = reserved;
  reservation_holder = 0;
  num_nodes_visible = 0;
  resv_node_visible = false;
}

-- The loop that looks for the holder among the keys of the visible nodes; key 0 is no key.
unfoldable pub holder_visible : ℕ → List ℕ → Bool
holder_visible holder [] = false
holder_visible holder (k ∷ ks) = not (k == 0) && k == holder || holder_visible holder ks

-- The loop that looks for our key among the registered ones.
unfoldable pub key_registered : ℕ → List ℕ → Bool
key_registered key [] = false
key_registered key (k ∷ ks) = key == k || key_registered key ks

unfoldable pub tiebreak_needed : Seen → Bool
tiebreak_needed seen = u32 (seen.num_nodes_visible * 2) == seen.node_count

-- Fewer than half of the nodes are visible.
unfoldable pub below_half : Seen → Bool
below_half seen = ltb (u32 (seen.num_nodes_visible * 2)) seen.node_count

-- The states in which the daemon may hold the reservation.
abbrev pub may_hold : State → Bool
may_hold have_qdisk = true
may_hold release_qdisk = true
may_hold reserve_disk = true
may_hold _ = false

abbrev vote : ℕ → Ballot
vote n = record { cast_vote = n; skip_poll = false }

abbrev no_poll : Ballot
no_poll = record { cast_vote = 1; skip_poll = true }

module _ {W : Type 0} (env : Env W) where
  unfoldable pub algorithm_stop : Prog W (Unit {0})
  algorithm_stop = do
    a ← algorithm
    elim a.pr_device [
      | none ↦ pure tt
      | some d ↦ do in_world d.release; in_world d.unregister_key; pure tt
    ]
    in_vquorum (vquorum_qdevice_unregister env)
    pure tt

  abbrev enter : State → Ballot → Prog W Ballot
  enter st b = change (λ a. record a { state = st }) >> pure b

  -- `timeout_time = gettime_ms() + algorithm_timeout`
  unfoldable pub restart_timeout : Prog W (Unit {0})
  unfolding gettime_ms
  restart_timeout = do
    now ← gettime_ms env
    change (λ a. record a { timeout_time = u64 (now + a.algorithm_timeout) })

  -- `gettime_ms() > timeout_time`
  unfoldable pub timed_out : Prog W Bool
  unfolding gettime_ms
  timed_out = do now ← gettime_ms env; a ← algorithm; pure (ltb a.timeout_time now)

  -- The switch over the state, with its assignments to `state` and `timeout_time`.
  unfoldable pub switch : Seen → Device W → State → Prog W Ballot
  unfolding tiebreak_needed below_half restart_timeout timed_out
  switch seen d start = if seen.is_quorate then enter idle (vote 0) else pure (vote 0)
  switch seen d idle =
      if tiebreak_needed seen
      then (if seen.resv_node_visible
          then restart_timeout >> enter recv_vote (vote 1)
          else if is_zero seen.reserved
          then restart_timeout >> enter reserve_disk (vote 1)
          else (do late ← timed_out; if late then enter resigned (vote 0) else pure no_poll))
      else if below_half seen
      then enter resigned (vote 0)
      else restart_timeout >> pure (vote 1)
  switch seen d reserve_disk = do
    err ← in_world d.reserve
    if is_zero err
        then enter have_qdisk (vote 1)
        else if seen.resv_node_visible
        then enter recv_vote (vote 1)
        else if not (is_zero seen.reserved)
        then enter resigned (vote 0)
        else (do late ← timed_out; if late then enter resigned (vote 0) else pure no_poll)
  switch seen d recv_vote =
      if seen.resv_node_visible && tiebreak_needed seen
      then restart_timeout >> pure (vote 1)
      else (do late ← timed_out; if late then enter idle (vote 1) else pure (vote 1))
  switch seen d have_qdisk =
      if is_zero seen.reserved || not (seen.reservation_holder == d.get_ikey)
      then abort
      else if not (tiebreak_needed seen)
      then enter release_qdisk (vote 1)
      else pure (vote 1)
  switch seen d release_qdisk = do
    err ← in_world d.release
    if is_zero err then enter idle (vote 1) else (do
      reserved ← in_world d.is_reserved
      if is_zero reserved then enter idle (vote 1) else pure (vote 1))
  switch seen d resigned = if seen.is_quorate then enter idle (vote 0) else pure (vote 0)

  -- The vote is sent, the heartbeat is remembered and the watchdog is set anew.
  unfoldable pub run_finish : Seen → Ballot → Prog W (Unit {0})
  run_finish seen b = do
    if b.skip_poll then pure tt else (in_vquorum (vquorum_qdevice_poll env b.cast_vote) >> pure tt)
    change (λ a. record a {
      last = record {
        old_skip_poll = b.skip_poll;
        old_quorate = seen.is_quorate;
        old_node_count = seen.node_count;
        old_votes = seen.votes;
        old_expected_votes = seen.expected_votes;
        old_num_nodes_visible = seen.num_nodes_visible;
        old_reserved = not (is_zero seen.reserved);
        old_resv_node_visible = seen.resv_node_visible;
        old_cast_vote = b.cast_vote;
      };
    })
    now ← gettime_ms env
    change (λ a. record a { good_heartbeat_timeout = u64 (now + a.algorithm_timeout) })

  -- The switch, and what follows it.
  unfoldable pub run_switch : Device W → Seen → Prog W (Unit {0})
  run_switch d seen = do a ← algorithm; b ← switch seen d a.state; run_finish seen b

  -- From the read of the nodes' keys on: our own key must be registered, or the process ends. `seen`
  -- has what was read before.
  unfoldable pub run_keys : Device W → Seen → Prog W (Unit {0})
  run_keys d seen = do
    (cs_err, node_keys) ← in_vquorum (vquorum_get_node_key_list env)
    if not (is_cs_ok cs_err) then pure tt else (do
      v ← votequorum
      (pr_err, registered_keys) ← in_world d.get_registered_keys
      if not (is_zero pr_err)
          then pure tt
          else if not (key_registered d.get_ikey registered_keys)
          then algorithm_stop >> exit 1
          else run_switch d (record seen {
            num_nodes_visible = u32 (length (vquorum_get_node_list v));
            resv_node_visible = holder_visible seen.reservation_holder node_keys;
          }))

  -- What is done about a reservation: who holds it, and whether we hold it when we should not.
  unfoldable pub run_reserved : Device W → Seen → Prog W (Unit {0})
  run_reserved d seen = if is_zero seen.reserved then run_keys d seen else (do
    (pr_err, holder) ← in_world d.get_reservation_owner_key
    a ← algorithm
    if not (is_zero pr_err)
        then pure tt
        else if holder == 0
        then algorithm_stop >> exit 1
        else if not (may_hold a.state) && holder == d.get_ikey
        then in_world d.release >> pure tt
        else run_keys d (record seen { reservation_holder = holder }))

  -- One heartbeat.
  unfoldable pub algorithm_run : Prog W (Unit {0})
  algorithm_run = do
    now ← gettime_ms env
    a ← algorithm
    if ltb a.good_heartbeat_timeout now then algorithm_stop >> exit 1 else (do
      (cs_err, node_count) ← in_cmap (qdisk_cmap_get_node_count env)
      if not (is_cs_ok cs_err) then pure tt else (do
        v ← votequorum
        d ← the_device a.pr_device
        reserved ← in_world d.is_reserved
        if is_negative reserved
            then pure tt
            else run_reserved d (first_look v node_count reserved)))
