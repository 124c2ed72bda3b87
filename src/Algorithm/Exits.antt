-- ===== src/Algorithm/Exits.antt =====
-- qdiskd/algorithm.c: why a heartbeat ends the process by `exit(1)`.
use corosync_qdisk.Prelude.{
  ◌≡◌, ◌⊎◌, inl, inr, some, true, false, not, ◌&&◌, ◌==◌, ==_iff, arith, ltb, is_zero, is_negative,
  u32, length, Bool-cases, Option-cases, refl,
}
use corosync_qdisk.Corosync.{is_cs_ok, Env, Request}
use corosync_qdisk.Reserve.{Device}
use corosync_qdisk.Cmap.{qdisk_cmap_get_node_count}
use corosync_qdisk.Vquorum.Service.{vquorum_get_node_key_list, vquorum_get_node_list}
use corosync_qdisk.Daemon.{
  State, Prog, Sys, Outcome, done, exited, aborted, crashed, bind, exit, ◌>>◌, gettime_ms,
}
use corosync_qdisk.Algorithm.{
  Seen, Ballot, switch, run_finish, run_switch, run_keys, run_reserved, algorithm_run,
  algorithm_stop, first_look, holder_visible, key_registered, may_hold,
}
use corosync_qdisk.Vquorum.Kept.{vquorum_get_node_key_list-kept}
use corosync_qdisk.Algorithm.Keeps.{Keeps}
use corosync_qdisk.Algorithm.Release.{clock_of}

module _ {W : Type 0} (env : Env W) (d : Device W) (Q : W → Type 0) (keeps : Keeps env d Q) where
  -- In a world of `Q` the registered keys can be read, and ours is not one of them.
  abbrev pub IsUnregistered : Type 0
  IsUnregistered =
      (w : W) × (Q w
        × ((is_zero (d.get_registered_keys w).0.0 ≡ true)
            × (key_registered d.get_ikey (d.get_registered_keys w).0.1 ≡ false)))

  -- In a world of `Q` the key of the holder can be read, and it is 0.
  abbrev pub IsUnowned : Type 0
  IsUnowned =
      (w : W) × (Q w
        × ((is_zero (d.get_reservation_owner_key w).0.0 ≡ true)
            × ((d.get_reservation_owner_key w).0.1 ≡ 0)))

  -- If the process ends by `exit`, then for the reason `P`.
  abbrev pub ExitsFor : {A : Type 0} → Type 0 → Outcome W A → Type 0
  ExitsFor P (exited n t) = P
  ExitsFor P (done a t) = Unit
  ExitsFor P (aborted t) = Unit
  ExitsFor P (crashed t) = Unit

  bind-ExitsFor :
      {A B : Type 0} (P : Type 0) (o : Outcome W A) (f : A → Prog W B)
      → ExitsFor P o
      → ((a : A) (s : Sys W) → ExitsFor P (f a s))
      → ExitsFor P (bind o f)
  bind-ExitsFor P (done a s) f h k = k a s
  bind-ExitsFor P (exited n s) f h k = h
  bind-ExitsFor P (aborted s) f h k = tt
  bind-ExitsFor P (crashed s) f h k = tt

  switch-ExitsFor : (seen : Seen) (st : State) (s : Sys W) → ExitsFor ⊥ (switch env seen d st s)
  unfolding switch
  switch-ExitsFor seen _ s = ground arith

  finish-ExitsFor : (seen : Seen) (b : Ballot) (s : Sys W) → ExitsFor ⊥ (run_finish env seen b s)
  unfolding run_finish gettime_ms
  finish-ExitsFor seen b s = ground arith

  run_switch-ExitsFor : (seen : Seen) (s : Sys W) → ExitsFor ⊥ (run_switch env d seen s)
  unfolding run_switch
  run_switch-ExitsFor seen s =
      bind-ExitsFor ⊥ (switch env seen d s.alg.state s) _ (switch-ExitsFor seen s.alg.state s)
        (λ b t. finish-ExitsFor seen b t)

  weaken : {A : Type 0} (P Q : Type 0) (o : Outcome W A) → (P → Q) → ExitsFor P o → ExitsFor Q o
  weaken P Q (done a s) f h = tt
  weaken P Q (exited n s) f h = f h
  weaken P Q (aborted s) f h = tt
  weaken P Q (crashed s) f h = tt

  stop_exits :
      (P : Type 0) (s : Sys W) → P → ExitsFor P ((algorithm_stop env >> exit {A = Unit {0}} 1) s)
  unfolding algorithm_stop
  stop_exits P s x = elim (Option-cases s.alg.pr_device) [ inl e ↦ rw e x | inr (h, e) ↦ rw e x ]

  run_keys-ExitsFor :
      (seen : Seen) (s : Sys W) → Q s.world → ExitsFor IsUnregistered (run_keys env d seen s)
  unfolding run_keys
  run_keys-ExitsFor seen s q =
      let r = vquorum_get_node_key_list env (s.vq, s.world) in
      let read = d.get_registered_keys r.1.1 in
      let t = record s { vq = r.1.0; world = read.1 } in
      let last = record seen {
        num_nodes_visible = u32 (length (vquorum_get_node_list r.1.0));
        resv_node_visible = holder_visible seen.reservation_holder r.0.1;
      } in
      let switched =
        weaken ⊥ IsUnregistered (run_switch env d last t) (λ x. absurd x)
          (run_switch-ExitsFor last t) in
      elim (Bool-cases (is_cs_ok r.0.0)) [
        | inr e ↦ rw e tt
        | inl e ↦ elim (Bool-cases (is_zero read.0.0)) [
          | inr f ↦ rw (e, f) tt
          | inl f ↦ elim (Bool-cases (key_registered d.get_ikey read.0.1)) [
            | inl g ↦ rw (e, f, g) switched
            | inr g ↦
                rw (e, f, g)
                  (stop_exits IsUnregistered t (
                    r.1.1,
                    (vquorum_get_node_key_list-kept env Q keeps.call_keeps s.vq s.world q, (f, g)),
                  ))
          ]
        ]
      ]

  run_reserved-ExitsFor :
      (seen : Seen) (s : Sys W)
      → Q s.world
      → ExitsFor (IsUnregistered ⊎ IsUnowned) (run_reserved env d seen s)
  unfolding run_reserved
  run_reserved-ExitsFor seen s q =
      let r = d.get_reservation_owner_key s.world in
      let t = record s { world = r.1 } in
      let known = record seen { reservation_holder = r.0.1 } in
      let on = weaken IsUnregistered (IsUnregistered ⊎ IsUnowned) in
      elim (Bool-cases (is_zero seen.reserved)) [
        | inl e ↦ rw e (on (run_keys env d seen s) (λ x. inl x) (run_keys-ExitsFor seen s q))
        | inr e ↦ elim (Bool-cases (is_zero r.0.0)) [
          | inr f ↦ rw (e, f) tt
          | inl f ↦ elim (Bool-cases (r.0.1 == 0)) [
            | inl g ↦
                rw (e, f, g)
                  (stop_exits (IsUnregistered ⊎ IsUnowned) t
                    (inr (s.world, (q, (f, (==_iff r.0.1 0).0 g)))))
            | inr g ↦ elim (Bool-cases (not (may_hold s.alg.state) && r.0.1 == d.get_ikey)) [
              | inl k ↦ rw (e, f, g, k) tt
              | inr k ↦
                  rw (e, f, g, k)
                    (on (run_keys env d known t) (λ x. inl x)
                      (run_keys-ExitsFor known t (keeps.owner_keeps s.world q)))
            ]
          ]
        ]
      ]

  -- When a heartbeat with an open device ends the process by `exit`, then the last complete heartbeat
  -- is too old; or the registered keys could be read and ours was not one of them, or the key of the
  -- holder was read as 0, in a world with any given property `Q` that the world had at first and that
  -- services, looks at the disk and tries to reserve it keep.
  pub run-ExitsFor :
      (s : Sys W)
      → s.alg.pr_device ≡ some d
      → Q s.world
      → ExitsFor
          ((ltb s.alg.good_heartbeat_timeout (clock_of env s.world) ≡ true)
            ⊎ (IsUnregistered ⊎ IsUnowned))
          (algorithm_run env s)
  unfolding algorithm_run gettime_ms qdisk_cmap_get_node_count
  run-ExitsFor s h q =
      let now = env.call Request.clock_gettime s.world in
      let look = d.is_reserved now.1 in
      let t = record s { world = look.1 } in
      let seen = first_look s.vq s.cmap.node_count look.0 in
      let late = ltb s.alg.good_heartbeat_timeout (clock_of env s.world) in
      let known =
        weaken (IsUnregistered ⊎ IsUnowned) ((late ≡ true) ⊎ (IsUnregistered ⊎ IsUnowned))
          (run_reserved env d seen t) (λ x. inr x)
          (run_reserved-ExitsFor seen t
            (keeps.is_reserved_keeps now.1 (keeps.call_keeps _ s.world q))) in
      elim (Bool-cases late) [
        | inl e ↦ rw e (
            stop_exits ((true ≡ true) ⊎ (IsUnregistered ⊎ IsUnowned)) (record s { world = now.1 })
              (inl refl))
        | inr e ↦ elim (Bool-cases (is_negative look.0)) [
          | inl f ↦ rw (e, h, f) tt
          | inr f ↦ rw (e, h, f) (rw (e, h) at known)
        ]
      ]
