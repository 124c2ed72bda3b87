-- ===== src/Algorithm/Held.antt =====
-- qdiskd/algorithm.c: a heartbeat on a disk that another node holds.
use corosync_qdisk.Prelude.{
  [], ℕ, ◌≡◌, ◌≢◌, ◌⊎◌, some, none, true, false, pos, u32, All, arith, ltb, length, refl,
}
use corosync_qdisk.Corosync.{cs_ok, Env, Request, votes_in}
use corosync_qdisk.Reserve.{Device, pr_err_ok}
use corosync_qdisk.Cmap.{qdisk_cmap_get_node_count}
use corosync_qdisk.Vquorum.{find_key}
use corosync_qdisk.Vquorum.Service.{vquorum_get_node_key_list, vquorum_get_node_list}
use corosync_qdisk.Vquorum.Exchange.{vquorum_get_node_key_list-known, known_keys}
use corosync_qdisk.Daemon.{Sys, gettime_ms}
use corosync_qdisk.Algorithm.Release.{clock_of}
use corosync_qdisk.Algorithm.{
  Seen, run_switch, run_keys, run_reserved, algorithm_run, first_look, holder_visible,
  key_registered, may_hold,
}

module _ {W : Type 0} (env : Env W) (d : Device W) where
  -- In the worlds of `Q` the disk is held with the key `k` and can be read, and our key is
  -- registered; services and looks at the disk do not lead out of `Q`.
  pub record IsHeld (Q : W → Type 0) (k : ℕ) : Type 0 where
    pub call_keeps : (r : Request) → votes_in r ≡ [] → (w : W) → Q w → Q (env.call r w).1
    pub is_reserved_keeps : (w : W) → Q w → Q (d.is_reserved w).1
    pub owner_keeps : (w : W) → Q w → Q (d.get_reservation_owner_key w).1
    pub keys_keep : (w : W) → Q w → Q (d.get_registered_keys w).1
    pub held : (w : W) → Q w → (d.is_reserved w).0 ≡ pos 1
    pub by_key : (w : W) → Q w → (d.get_reservation_owner_key w).0 ≡ (pr_err_ok, k)
    pub read : (w : W) → Q w → (d.get_registered_keys w).0.0 ≡ pr_err_ok
    pub registered : (w : W) → Q w → key_registered d.get_ikey (d.get_registered_keys w).0.1 ≡ true
    pub is_key : k ≢ 0

  -- What a heartbeat sees of a disk that is held with the key `k`.
  abbrev pub seen_held : ℕ → Sys W → Seen
  seen_held k s = record (first_look s.vq s.cmap.node_count (pos 1)) {
    reservation_holder = k;
    num_nodes_visible = u32 (length (vquorum_get_node_list s.vq));
    resv_node_visible = holder_visible k (known_keys env s.vq s.vq.visible_node_list);
  }

  -- The heartbeat comes to the switch with what it has seen, and unchanged statics, when the key is not
  -- ours or the state is one in which we may hold the disk.
  pub run-switches :
      (Q : W → Type 0) (k : ℕ)
      → IsHeld Q k
      → (s : Sys W) → Q s.world
      → (k ≢ d.get_ikey) ⊎ (may_hold s.alg.state ≡ true)
      → s.alg.pr_device ≡ some d
      → ltb s.alg.good_heartbeat_timeout (clock_of env s.world) ≡ false
      → All (λ n. find_key n s.vq.node_list ≢ none) s.vq.visible_node_list
      → (w : W) × (Q w
          × (algorithm_run env s ≡ run_switch env d (seen_held k s) (record s { world = w })))
  unfolding algorithm_run run_reserved run_keys gettime_ms qdisk_cmap_get_node_count first_look
  run-switches Q k hold s q may h alive listed =
      let now = env.call Request.clock_gettime s.world in
      let look = d.is_reserved now.1 in
      let owner = d.get_reservation_owner_key look.1 in
      let asked = (env.call Request.malloc_keys owner.1).1 in
      let read = d.get_registered_keys asked in
      let ticked = hold.call_keeps Request.clock_gettime refl s.world q in
      let looked = hold.is_reserved_keeps now.1 ticked in
      let reached =
        hold.call_keeps Request.malloc_keys refl owner.1 (hold.owner_keeps look.1 looked) in
      let known : vquorum_get_node_key_list env (s.vq, owner.1)
          ≡ ((cs_ok, known_keys env s.vq s.vq.visible_node_list), (s.vq, asked)) =
        vquorum_get_node_key_list-known env s.vq owner.1 listed in
      (
        read.1,
        (
          hold.keys_keep asked reached,
          ground (
            arith,
            h,
            alive,
            known,
            hold.held now.1 ticked,
            hold.by_key look.1 looked,
            hold.read asked reached,
            hold.registered asked reached,
            hold.is_key,
            may,
          ),
        ),
      )
