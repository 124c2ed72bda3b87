-- ===== src/Algorithm/Switch.antt =====
-- qdiskd/algorithm.c, the switch of `algorithm_run`: the transition diagram of Design.md, and which
-- vote goes with which transition.
use corosync_qdisk.Prelude.{
  ◌/◌, ℕ, ◌≡◌, ◌⊎◌, ◌↔◌, true, false, ◌&&◌, ◌||◌, ◌==◌, ◌+◌, ◌*◌, Bool, ltb, u64, arith, is_zero,
}
use corosync_qdisk.Corosync.{Env, Request}
use corosync_qdisk.Reserve.{Device}
use corosync_qdisk.Daemon.{
  State, start, idle, reserve_disk, recv_vote, have_qdisk, release_qdisk, resigned, Sys, done,
  aborted, gettime_ms,
}
use corosync_qdisk.Algorithm.{Seen, Ballot, tiebreak_needed, below_half, switch}

-- What comes of a heartbeat's attempts in its switch: whether the disk can be reserved, whether it is
-- free behind a release, and whether the timeout is over.
pub record Tried : Type 0 where
  pub took : Bool
  pub freed : Bool
  pub late : Bool

-- The arrows of the state machine for a daemon with key `key`, each with what a heartbeat must have
-- seen, and what its attempts must have come to.
pub data Edge (key : ℕ) (seen : Seen) (tried : Tried) : State → State → Type 0 where
  wait_quorum : seen.is_quorate ≡ false → Edge key seen tried start start
  serve : seen.is_quorate ≡ true → Edge key seen tried start idle
  stay_idle : tiebreak_needed seen ≡ false → below_half seen ≡ false → Edge key seen tried idle idle
  wait_reservation :
      tiebreak_needed seen ≡ true
      → seen.resv_node_visible ≡ false
      → is_zero seen.reserved ≡ false
      → tried.late ≡ false
      → Edge key seen tried idle idle
  race :
      tiebreak_needed seen ≡ true
      → seen.resv_node_visible ≡ false
      → is_zero seen.reserved ≡ true
      → Edge key seen tried idle reserve_disk
  follow :
      tiebreak_needed seen ≡ true
      → seen.resv_node_visible ≡ true
      → Edge key seen tried idle recv_vote
  lose :
      tiebreak_needed seen ≡ true
      → seen.resv_node_visible ≡ false
      → is_zero seen.reserved ≡ false
      → tried.late ≡ true
      → Edge key seen tried idle resigned
  too_few :
      tiebreak_needed seen ≡ false → below_half seen ≡ true → Edge key seen tried idle resigned
  win : tried.took ≡ true → Edge key seen tried reserve_disk have_qdisk
  yield_vote :
      tried.took ≡ false
      → seen.resv_node_visible ≡ true
      → Edge key seen tried reserve_disk recv_vote
  retry :
      tried.took ≡ false
      → seen.resv_node_visible ≡ false
      → is_zero seen.reserved ≡ true
      → tried.late ≡ false
      → Edge key seen tried reserve_disk reserve_disk
  beaten :
      tried.took ≡ false
      → seen.resv_node_visible ≡ false
      → is_zero seen.reserved ≡ false
      → Edge key seen tried reserve_disk resigned
  give_up :
      tried.took ≡ false
      → seen.resv_node_visible ≡ false
      → is_zero seen.reserved ≡ true
      → tried.late ≡ true
      → Edge key seen tried reserve_disk resigned
  receive :
      seen.resv_node_visible && tiebreak_needed seen ≡ true
      → Edge key seen tried recv_vote recv_vote
  linger :
      seen.resv_node_visible && tiebreak_needed seen ≡ false
      → tried.late ≡ false
      → Edge key seen tried recv_vote recv_vote
  expire :
      seen.resv_node_visible && tiebreak_needed seen ≡ false
      → tried.late ≡ true
      → Edge key seen tried recv_vote idle
  hold :
      tiebreak_needed seen ≡ true
      → is_zero seen.reserved ≡ false
      → seen.reservation_holder ≡ key
      → Edge key seen tried have_qdisk have_qdisk
  let_go :
      tiebreak_needed seen ≡ false
      → is_zero seen.reserved ≡ false
      → seen.reservation_holder ≡ key
      → Edge key seen tried have_qdisk release_qdisk
  releasing : tried.freed ≡ false → Edge key seen tried release_qdisk release_qdisk
  released : tried.freed ≡ true → Edge key seen tried release_qdisk idle
  stay_out : seen.is_quorate ≡ false → Edge key seen tried resigned resigned
  rejoin : seen.is_quorate ≡ true → Edge key seen tried resigned idle

pub ruleset arrows = (
  wait_quorum, serve, stay_idle, wait_reservation, race, follow, lose, too_few, win, yield_vote,
  retry, beaten, give_up, receive, linger, expire, hold, let_go, releasing, released, stay_out,
  rejoin,
)

module _ {W : Type 0} (env : Env W) (seen : Seen) (d : Device W) where
  -- What the attempts come to when the switch begins with `s`: the clock is read behind a refused
  -- reservation in RESERVE_DISK, and at once elsewhere.
  unfoldable pub attempt : State → Sys W → Tried
  unfolding gettime_ms
  attempt st s =
      let took = d.reserve s.world in
      let freed = d.release s.world in
      let clock = elim st as (λ _. W) [ reserve_disk ↦ took.1 | _ ↦ s.world ] in
      let now = (env.call Request.clock_gettime clock).0 in
      record {
        took = is_zero took.0;
        freed = is_zero freed.0 || is_zero (d.is_reserved freed.1).0;
        late = ltb s.alg.timeout_time (u64 (u64 (now.0 * 1000) + now.1 / 1000000));
      }

  -- When the switch returns, the vote is 0 exactly if the heartbeat began in START, began in RESIGNED
  -- or ended in RESIGNED.
  pub switch-vote :
      (st : State) (s : Sys W) {b : Ballot} {t : Sys W}
      → s.alg.state ≡ st
      → switch env seen d st s ≡ done b t
      → (b.cast_vote ≡ 0) ↔ ((st ≡ start) ⊎ ((st ≡ resigned) ⊎ (t.alg.state ≡ resigned)))
  unfolding switch
  switch-vote start s e h = ground arith
  switch-vote _ s e h = ground arith

  -- The reservation is gone, or another key holds it.
  abbrev pub IsLost : Type 0
  IsLost = (is_zero seen.reserved ≡ true) ⊎ ((seen.reservation_holder == d.get_ikey) ≡ false)

  -- The switch calls `abort` exactly in HAVE_QDISK when the disk is not reserved or another key than
  -- ours holds it.
  pub switch-abort :
      (st : State) (s : Sys W)
      → ((t : Sys W) × (switch env seen d st s ≡ aborted t)) ↔ ((st ≡ have_qdisk) × IsLost)
  unfolding switch
  switch-abort start s = (λ (t, e). ground arith, λ h. ground arith)
  switch-abort have_qdisk s = (λ (t, e). ground arith, λ h. (s, ground arith))
  switch-abort _ s = (λ (t, e). ground arith, λ h. ground arith)
