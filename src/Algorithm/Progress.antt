-- ===== src/Algorithm/Progress.antt =====
-- The watchdog of qdiskd/algorithm.c: a heartbeat that finds its services in order sets it anew.
use corosync_qdisk.Prelude.{
  [], ℕ, ◌≡◌, ◌≢◌, refl, some, none, true, false, pos, ◌+◌, u64, u32, All, arith, ltb, length,
  Bool-cases, inl, inr,
}
use corosync_qdisk.Corosync.{cs_ok, Env, Request, votes_in}
use corosync_qdisk.Reserve.{Device, pr_err_ok}
use corosync_qdisk.Cmap.{qdisk_cmap_get_node_count}
use corosync_qdisk.Vquorum.{find_key}
use corosync_qdisk.Vquorum.Service.{
  vquorum_get_node_key_list, vquorum_get_node_list, vquorum_qdevice_poll,
}
use corosync_qdisk.Vquorum.Exchange.{vquorum_get_node_key_list-known, known_keys}
use corosync_qdisk.Daemon.{
  State, have_qdisk, Prog, Sys, Outcome, done, exited, aborted, crashed, bind, gettime_ms,
}
use corosync_qdisk.Algorithm.Release.{clock_of}
use corosync_qdisk.Algorithm.{
  Seen, Ballot, switch, run_finish, run_switch, run_keys, run_reserved, algorithm_run, first_look,
  holder_visible, key_registered,
}

-- A piece of the program that returns.
abbrev pub Completes : {W A : Type 0} → (Sys W → Type 0) → Outcome W A → Type 0
Completes P (done a s) = P s
Completes P (exited n s) = ⊥
Completes P (aborted s) = ⊥
Completes P (crashed s) = ⊥

pub Completes-map :
    {W A : Type 0} (P R : Sys W → Type 0) (o : Outcome W A)
    → Completes P o
    → ((s : Sys W) → P s → R s)
    → Completes R o
Completes-map P R (done a s) h f = f s h
Completes-map P R (exited n s) h f = absurd h
Completes-map P R (aborted s) h f = absurd h
Completes-map P R (crashed s) h f = absurd h

pub bind-Completes :
    {W A B : Type 0} (P R : Sys W → Type 0) (o : Outcome W A) (f : A → Prog W B)
    → Completes P o
    → ((a : A) (s : Sys W) → P s → Completes R (f a s))
    → Completes R (bind o f)
bind-Completes P R (done a s) f h k = k a s h
bind-Completes P R (exited n s) f h k = absurd h
bind-Completes P R (aborted s) f h k = absurd h
bind-Completes P R (crashed s) f h k = absurd h

module _ {W : Type 0} (env : Env W) (d : Device W) where
  -- The timeout is as it was, and the watchdog is set to it behind some reading of the clock.
  abbrev pub IsArmed : ℕ → Sys W → Type 0
  IsArmed timeout s = (w : W) × (s.alg.good_heartbeat_timeout ≡ u64 (clock_of env w + timeout))

  switch-Completes :
      (seen : Seen) (st : State) (timeout : ℕ) (s : Sys W)
      → st ≢ have_qdisk
      → s.alg.algorithm_timeout ≡ timeout
      → Completes (λ t. t.alg.algorithm_timeout ≡ timeout) (switch env seen d st s)
  unfolding switch
  switch-Completes seen have_qdisk timeout s ne h = absurd (ne refl)
  switch-Completes seen _ timeout s ne h = ground (arith, h)

  finish-Completes :
      (seen : Seen) (b : Ballot) (timeout : ℕ) (s : Sys W)
      → s.alg.algorithm_timeout ≡ timeout
      → Completes (IsArmed timeout) (run_finish env seen b s)
  unfolding run_finish gettime_ms
  finish-Completes seen b timeout s h =
      let polled = vquorum_qdevice_poll env b.cast_vote (s.vq, s.world) in
      elim (Bool-cases b.skip_poll) [
        | inl p ↦ rw p (s.world, rw h refl)
        | inr p ↦ rw p (polled.1.1, rw h refl)
      ]

  -- In the worlds of `Q` the disk is free and can be read, and our key is registered; requests
  -- without a vote and looks at the disk do not lead out of `Q`.
  pub record IsHealthy (Q : W → Type 0) : Type 0 where
    pub call_keeps : (r : Request) → votes_in r ≡ [] → (w : W) → Q w → Q (env.call r w).1
    pub is_reserved_keeps : (w : W) → Q w → Q (d.is_reserved w).1
    pub free : (w : W) → Q w → (d.is_reserved w).0 ≡ pos 0
    pub read : (w : W) → Q w → (d.get_registered_keys w).0.0 ≡ pr_err_ok
    pub registered : (w : W) → Q w → key_registered d.get_ikey (d.get_registered_keys w).0.1 ≡ true

  run_switch-Completes :
      (seen : Seen) (timeout : ℕ) (s : Sys W)
      → s.alg.state ≢ have_qdisk
      → s.alg.algorithm_timeout ≡ timeout
      → Completes (IsArmed timeout) (run_switch env d seen s)
  unfolding run_switch
  run_switch-Completes seen timeout s ne h =
      bind-Completes (λ t. t.alg.algorithm_timeout ≡ timeout) (IsArmed timeout)
        (switch env seen d s.alg.state s) (run_finish env seen)
        (switch-Completes seen s.alg.state timeout s ne h)
        (λ b t k. finish-Completes seen b timeout t k)

  -- What a heartbeat sees of a disk that nobody holds.
  abbrev pub seen_free : Sys W → Seen
  seen_free s = record (first_look s.vq s.cmap.node_count (pos 0)) {
    num_nodes_visible = u32 (length (vquorum_get_node_list s.vq));
    resv_node_visible = holder_visible 0 (known_keys env s.vq s.vq.visible_node_list);
  }

  -- The heartbeat comes to the switch with what it has seen, and unchanged statics.
  pub run_free-switches :
      (Q : W → Type 0)
      → IsHealthy Q
      → (s : Sys W) → Q s.world
      → s.alg.pr_device ≡ some d
      → ltb s.alg.good_heartbeat_timeout (clock_of env s.world) ≡ false
      → All (λ n. find_key n s.vq.node_list ≢ none) s.vq.visible_node_list
      → (w : W) × (Q w
          × (algorithm_run env s
              ≡ run_switch env d (seen_free s) (record s { world = (d.get_registered_keys w).1 })))
  unfolding algorithm_run run_reserved run_keys gettime_ms qdisk_cmap_get_node_count first_look
  run_free-switches Q healthy s q h alive listed =
      let now = env.call Request.clock_gettime s.world in
      let look = d.is_reserved now.1 in
      let asked = (env.call Request.malloc_keys look.1).1 in
      let ticked = healthy.call_keeps Request.clock_gettime refl s.world q in
      let reached =
        healthy.call_keeps Request.malloc_keys refl look.1
          (healthy.is_reserved_keeps now.1 ticked) in
      let known : vquorum_get_node_key_list env (s.vq, look.1)
          ≡ ((cs_ok, known_keys env s.vq s.vq.visible_node_list), (s.vq, asked)) =
        vquorum_get_node_key_list-known env s.vq look.1 listed in
      (
        asked,
        (
          reached,
          ground (
            arith,
            h,
            alive,
            known,
            healthy.free now.1 ticked,
            healthy.read asked reached,
            healthy.registered asked reached,
          ),
        ),
      )

  -- When in the worlds of `Q`, to which services and looks at the disk lead, the disk is free and can
  -- be read and our key is registered, every visible node has a key in the table and the watchdog has
  -- not run out, a heartbeat in any state but HAVE_QDISK runs to its end and sets the watchdog to the
  -- timeout behind a reading of the clock.
  pub run-Completes :
      (Q : W → Type 0)
      → IsHealthy Q
      → (s : Sys W) → Q s.world
      → s.alg.pr_device ≡ some d
      → s.alg.state ≢ have_qdisk
      → ltb s.alg.good_heartbeat_timeout (clock_of env s.world) ≡ false
      → All (λ n. find_key n s.vq.node_list ≢ none) s.vq.visible_node_list
      → Completes (IsArmed s.alg.algorithm_timeout) (algorithm_run env s)
  run-Completes Q healthy s q h ne alive listed =
      let (w, (reached, e)) = run_free-switches Q healthy s q h alive listed in
      rw e (
        run_switch-Completes (seen_free s) s.alg.algorithm_timeout
          (record s { world = (d.get_registered_keys w).1 }) ne refl)
