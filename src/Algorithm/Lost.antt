-- ===== src/Algorithm/Lost.antt =====
-- qdiskd/algorithm.c: "Lost disk reservation", the `abort` of a heartbeat.
use corosync_qdisk.Prelude.{
  ℕ, ◌≡◌, Option, some, true, false, arith, ltb, is_zero, is_negative, u32, length, Bool-cases,
  Option-cases, inl, inr, refl,
}
use corosync_qdisk.Corosync.{Env, Request}
use corosync_qdisk.Reserve.{Device}
use corosync_qdisk.Cmap.{qdisk_cmap_get_node_count}
use corosync_qdisk.Vquorum.Service.{vquorum_get_node_key_list, vquorum_get_node_list}
use corosync_qdisk.Daemon.{
  State, have_qdisk, Prog, Sys, Outcome, done, exited, aborted, crashed, bind, exit, ◌>>◌,
  gettime_ms,
}
use corosync_qdisk.Algorithm.{
  Seen, Ballot, switch, run_finish, run_switch, run_keys, run_reserved, algorithm_run,
  algorithm_stop, first_look, holder_visible,
}
use corosync_qdisk.Algorithm.Keeps.{Keeps}
use corosync_qdisk.Algorithm.Release.{clock_of}

-- What a disk tells of its holder is true: one that is held does not say that it is free, and a key of
-- the holder that it gives is the holder's.
pub record TellsHolder {W : Type 0} (d : Device W) (holder : W → Option ℕ) : Type 0 where
  pub is_reserved_true : (k : ℕ) (w : W) → holder w ≡ some k → is_zero (d.is_reserved w).0 ≡ false
  pub owner_true :
      (k : ℕ) (w : W)
      → holder w ≡ some k
      → is_zero (d.get_reservation_owner_key w).0.0 ≡ true
      → (d.get_reservation_owner_key w).0.1 ≡ k

-- A piece of the program that does not abort.
abbrev pub NoAbort : {W A : Type 0} → Outcome W A → Type 0
NoAbort (done a t) = Unit
NoAbort (exited n t) = Unit
NoAbort (aborted t) = ⊥
NoAbort (crashed t) = Unit

bind-NoAbort :
    {W A B : Type 0} (o : Outcome W A) (f : A → Prog W B)
    → NoAbort o
    → ((a : A) (s : Sys W) → NoAbort (f a s))
    → NoAbort (bind o f)
bind-NoAbort (done a s) f h k = k a s
bind-NoAbort (exited n s) f h k = tt
bind-NoAbort (aborted s) f h k = absurd h
bind-NoAbort (crashed s) f h k = tt

module _ {W : Type 0} (env : Env W) (d : Device W) where
  -- In HAVE_QDISK the disk was read as held by us.
  abbrev IsOurs : Seen → State → Type 0
  IsOurs seen st =
      st ≡ have_qdisk → (is_zero seen.reserved ≡ false) × (seen.reservation_holder ≡ d.get_ikey)

  switch-NoAbort :
      (seen : Seen) (st : State) (s : Sys W) → IsOurs seen st → NoAbort (switch env seen d st s)
  unfolding switch
  switch-NoAbort seen have_qdisk s h = ground (arith, h refl)
  switch-NoAbort seen _ s h = ground arith

  finish-NoAbort : (seen : Seen) (b : Ballot) (s : Sys W) → NoAbort (run_finish env seen b s)
  unfolding run_finish gettime_ms
  finish-NoAbort seen b s = ground arith

  run_switch-NoAbort :
      (seen : Seen) (s : Sys W) → IsOurs seen s.alg.state → NoAbort (run_switch env d seen s)
  unfolding run_switch
  run_switch-NoAbort seen s h =
      bind-NoAbort (switch env seen d s.alg.state s) _ (switch-NoAbort seen s.alg.state s h)
        (λ b t. finish-NoAbort seen b t)

  stop-NoAbort : (s : Sys W) → NoAbort ((algorithm_stop env >> exit {A = Unit {0}} 1) s)
  unfolding algorithm_stop
  stop-NoAbort s = elim (Option-cases s.alg.pr_device) [ inl e ↦ rw e tt | inr (h, e) ↦ rw e tt ]

  run_keys-NoAbort :
      (seen : Seen) (s : Sys W) → IsOurs seen s.alg.state → NoAbort (run_keys env d seen s)
  unfolding run_keys
  run_keys-NoAbort seen s h =
      let r = vquorum_get_node_key_list env (s.vq, s.world) in
      let read = d.get_registered_keys r.1.1 in
      let t = record s { vq = r.1.0; world = read.1 } in
      let last = record seen {
        num_nodes_visible = u32 (length (vquorum_get_node_list r.1.0));
        resv_node_visible = holder_visible seen.reservation_holder r.0.1;
      } in
      ground (arith, run_switch-NoAbort last t h, stop-NoAbort t)

  run_reserved-NoAbort :
      (seen : Seen) (s : Sys W)
      → (s.alg.state ≡ have_qdisk
          → (is_zero seen.reserved ≡ false)
            × (is_zero (d.get_reservation_owner_key s.world).0.0 ≡ true
                → (d.get_reservation_owner_key s.world).0.1 ≡ d.get_ikey))
      → NoAbort (run_reserved env d seen s)
  unfolding run_reserved
  run_reserved-NoAbort seen s h =
      let r = d.get_reservation_owner_key s.world in
      let t = record s { world = r.1 } in
      let known = record seen { reservation_holder = r.0.1 } in
      elim (Bool-cases (is_zero seen.reserved)) [
        | inl e ↦ rw e (run_keys-NoAbort seen s (λ q. absurd ground (arith, e, (h q).0)))
        | inr e ↦ elim (Bool-cases (is_zero r.0.0)) [
          | inr f ↦ rw (e, f) tt
          | inl f ↦
              let on = run_keys-NoAbort known t (λ q. (e, (h q).1 f)) in
              ground (arith, e, f, on, stop-NoAbort t)
        ]
      ]

  -- On a disk that tells the truth of its holder, a heartbeat of a daemon that, if it is in HAVE_QDISK,
  -- is the holder, does not abort, provided that services and looks at the disk keep the holder.
  pub run-NoAbort :
      (holder : W → Option ℕ)
      → TellsHolder d holder
      → Keeps env d (λ w. holder w ≡ some d.get_ikey)
      → (s : Sys W) → s.alg.pr_device ≡ some d
      → (s.alg.state ≡ have_qdisk → holder s.world ≡ some d.get_ikey)
      → NoAbort (algorithm_run env s)
  unfolding algorithm_run gettime_ms qdisk_cmap_get_node_count first_look
  run-NoAbort holder tells keeps s h mine =
      let now = env.call Request.clock_gettime s.world in
      let look = d.is_reserved now.1 in
      let t = record s { world = look.1 } in
      let seen = first_look s.vq s.cmap.node_count look.0 in
      let ticked : s.alg.state ≡ have_qdisk → holder now.1 ≡ some d.get_ikey =
        λ q. keeps.call_keeps Request.clock_gettime s.world (mine q) in
      let on = run_reserved-NoAbort seen t (λ q. (
        tells.is_reserved_true d.get_ikey now.1 (ticked q),
        tells.owner_true d.get_ikey look.1 (keeps.is_reserved_keeps now.1 (ticked q)),
      )) in
      elim (Bool-cases (ltb s.alg.good_heartbeat_timeout (clock_of env s.world))) [
        | inl e ↦ rw e (stop-NoAbort (record s { world = now.1 }))
        | inr e ↦ elim (Bool-cases (is_negative look.0)) [
          | inl f ↦ rw (e, h, f) tt
          | inr f ↦ rw (e, h, f) (rw h at on)
        ]
      ]
