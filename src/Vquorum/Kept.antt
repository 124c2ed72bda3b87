-- ===== src/Vquorum/Kept.antt =====
-- What the votequorum functions leave alone: a property of the outside world that every call of a
-- service keeps is kept by them.
use corosync_qdisk.Prelude.{ℕ, zero, suc, ◌+◌, List, [], ◌∷◌, arith}
use corosync_qdisk.Corosync.{
  Request, Notification, quorum_notify, expected_votes_notify, nodelist_notify, extra_info_notify,
  Env,
}
use corosync_qdisk.Vquorum.{
  Vquorum, send_extra_info, vquorum_qdisk_share_ikey, rebuild_nodes, print_extra_info, getinfo,
  expected_votes_notification_fn, nodelist_notification_fn, qdevice_extra_info_notify,
  quorum_notification_fn, notify, notify_all, dispatch,
}
use corosync_qdisk.Vquorum.Service.{
  vquorum_init, vquorum_dispatch_all, ask_extra_info, vquorum_get_node_key, collect_keys,
  vquorum_get_node_key_list, vquorum_qdevice_poll, vquorum_qdevice_unregister,
}

module _ {W : Type 0} (env : Env W) (Q : W → Type 0)
    (kept : (r : Request) (w : W) → Q w → Q (env.call r w).1) where
  pub send_extra_info-kept :
      (n handle size : ℕ) (buf : List ℕ) (v : Vquorum) (w : W)
      → Q w
      → Q (send_extra_info env n handle size buf (v, w)).1.1
  unfolding send_extra_info
  send_extra_info-kept zero handle size buf v w h = h
  send_extra_info-kept (suc n) handle size buf v w h =
      let r = env.call (Request.votequorum_set_qdevice_extra_info handle size buf) w in
      ground (
        arith,
        kept (Request.votequorum_set_qdevice_extra_info handle size buf) w h,
        send_extra_info-kept n handle size buf v r.1,
      )

  notify-kept : (n : Notification) (v : Vquorum) (w : W) → Q w → Q (notify env n (v, w)).1.1
  unfolding notify quorum_notification_fn vquorum_qdisk_share_ikey expected_votes_notification_fn
      nodelist_notification_fn getinfo qdevice_extra_info_notify
  notify-kept (quorum_notify quorate nodes) v w h = ground (
    arith,
    send_extra_info-kept env.attempts v.v_handle 22 (print_extra_info v.qdisk_key)
        (record v {
          vqnode_list = nodes;
          node_list = rebuild_nodes env.qdevice_nodeid v.node_list nodes;
          quorate = quorate;
        })
        w h,
  )
  notify-kept (expected_votes_notify n) v w h = h
  notify-kept (nodelist_notify ring nodes) v w h = kept _ w h
  notify-kept (extra_info_notify n size t) v w h = h

  notify_all-kept :
      (ns : List Notification) (v : Vquorum) (w : W) → Q w → Q (notify_all env ns (v, w)).1.1
  unfolding notify_all
  notify_all-kept [] v w h = h
  notify_all-kept (n ∷ ns) v w h =
      let r = notify env n (v, w) in notify_all-kept ns r.1.0 r.1.1 (notify-kept n v w h)

  pub dispatch-kept : (v : Vquorum) (w : W) → Q w → Q (dispatch env (v, w)).1.1
  unfolding dispatch
  dispatch-kept v w h =
      let r = env.call (Request.votequorum_dispatch v.v_handle) w in
      notify_all-kept r.0.1 v r.1 (kept _ w h)

  ask_extra_info-kept :
      (n handle nodeid : ℕ) (v : Vquorum) (w : W)
      → Q w
      → Q (ask_extra_info env n handle nodeid (v, w)).1.1
  unfolding ask_extra_info
  ask_extra_info-kept zero handle nodeid v w h = h
  ask_extra_info-kept (suc n) handle nodeid v w h =
      let r = env.call (Request.votequorum_get_qdevice_extra_info handle nodeid) w in
      ground (
        arith,
        kept (Request.votequorum_get_qdevice_extra_info handle nodeid) w h,
        ask_extra_info-kept n handle nodeid v r.1,
      )

  vquorum_get_node_key-kept :
      (n old : ℕ) (v : Vquorum) (w : W) → Q w → Q (vquorum_get_node_key env n old (v, w)).1.1
  unfolding vquorum_get_node_key
  vquorum_get_node_key-kept n old v w h =
      ground (arith, ask_extra_info-kept env.attempts v.v_handle n v w h)

  collect_keys-kept :
      (fresh : ℕ → ℕ) (ns : List ℕ) (j slot : ℕ) (s : Vquorum × W)
      → Q s.1
      → Q (collect_keys env fresh j slot ns s).1.1
  unfolding collect_keys
  collect_keys-kept fresh [] j slot s h = h
  collect_keys-kept fresh (n ∷ ns) j slot s h =
      let r = vquorum_get_node_key env n slot s in
      ground (
        arith,
        vquorum_get_node_key-kept n slot s.0 s.1 h,
        collect_keys-kept fresh ns j 0 r.1,
        collect_keys-kept fresh ns (j + 1) (fresh (j + 1)) r.1,
      )

  pub vquorum_get_node_key_list-kept :
      (v : Vquorum) (w : W) → Q w → Q (vquorum_get_node_key_list env (v, w)).1.1
  unfolding vquorum_get_node_key_list
  vquorum_get_node_key_list-kept v w h =
      let r = env.call Request.malloc_keys w in
      collect_keys-kept r.0 v.visible_node_list 0 (r.0 0) (v, r.1) (kept _ w h)

  pub vquorum_qdevice_poll-kept :
      (vote : ℕ) (v : Vquorum) (w : W) → Q w → Q (vquorum_qdevice_poll env vote (v, w)).1.1
  unfolding vquorum_qdevice_poll
  vquorum_qdevice_poll-kept vote v w h =
      let (err, r) = dispatch env (v, w) in
      ground (
        arith,
        dispatch-kept v w h,
        kept (Request.votequorum_qdevice_poll r.0.v_handle vote r.0.ring_id) r.1,
      )

  pub vquorum_qdevice_unregister-kept :
      (v : Vquorum) (w : W) → Q w → Q (vquorum_qdevice_unregister env (v, w)).1.1
  unfolding vquorum_qdevice_unregister
  vquorum_qdevice_unregister-kept v w h = kept _ w h

  init-kept : (v : Vquorum) (w : W) → Q w → Q (vquorum_init env (v, w)).1.1
  unfolding vquorum_init getinfo
  init-kept v w h =
      let r = env.call Request.votequorum_model_initialize w in
      let info = Request.votequorum_getinfo r.0.1 v.our_nodeid v.info in
      let g = env.call info r.1 in
      let u = record v {
        v_handle = r.0.1;
        info = g.0.1;
        our_nodeid = g.0.1.node_id;
        expected_votes = g.0.1.node_expected_votes;
      } in
      let tracked = env.call (Request.votequorum_trackstart r.0.1) g.1 in
      ground (
        arith,
        kept Request.votequorum_model_initialize w h,
        kept info r.1,
        kept (Request.votequorum_trackstart r.0.1) g.1,
        dispatch-kept u tracked.1,
      )

  pub vquorum_dispatch_all-kept :
      (v : Vquorum) (w : W) → Q w → Q (vquorum_dispatch_all env (v, w)).1.1
  unfolding vquorum_dispatch_all
  vquorum_dispatch_all-kept v w h =
      let r = dispatch env (v, w) in
      let closed = env.call (Request.votequorum_finalize r.1.0.v_handle) r.1.1 in
      let slept = env.call (Request.sleep 1) closed.1 in
      ground (
        arith,
        dispatch-kept v w h,
        kept (Request.votequorum_finalize r.1.0.v_handle) r.1.1,
        kept (Request.sleep 1) closed.1,
        init-kept r.1.0 slept.1,
      )
