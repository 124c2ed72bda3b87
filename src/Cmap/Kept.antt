-- ===== src/Cmap/Kept.antt =====
-- What the cmap functions leave alone: a property of the outside world that every call of a service
-- keeps is kept by them.
use corosync_qdisk.Prelude.{ℕ, Bool, Text, codes, List, [], ◌∷◌, arith, true, false}
use corosync_qdisk.Corosync.{Request, CmapNotification, reload_notify, nodelist_change, Env}
use corosync_qdisk.Cmap.{
  Cmap, update_node_count, qdisk_cmap_init, qdisk_cmap_reload_cb, qdisk_cmap_nodelist_cb,
  notify_all, qdisk_cmap_dispatch_all,
}

module _ {W : Type 0} (env : Env W) (Q : W → Type 0)
    (kept : (r : Request) (w : W) → Q w → Q (env.call r w).1) where
  update_node_count-kept : (c : Cmap) (w : W) → Q w → Q (update_node_count env (c, w)).1.1
  unfolding update_node_count
  update_node_count-kept c w h = kept _ w h

  init-kept : (c : Cmap) (w : W) → Q w → Q (qdisk_cmap_init env (c, w)).1.1
  unfolding qdisk_cmap_init
  init-kept c w h =
      let r = env.call Request.cmap_initialize w in
      let d = record c { cmap_handle = r.0.1 } in
      let reload = Request.cmap_track_add r.0.1 (codes "config.totemconfig_reload_in_progress") in
      let a = env.call reload r.1 in
      let nodes = Request.cmap_track_add r.0.1 (codes "nodelist.") in
      let b = env.call nodes a.1 in
      ground (
        arith,
        kept Request.cmap_initialize w h,
        kept reload r.1,
        kept nodes a.1,
        update_node_count-kept d b.1,
      )

  reload_cb-kept :
      (key : Text) (is_uint8 : Bool) (value : ℕ) (c : Cmap) (w : W)
      → Q w
      → Q (qdisk_cmap_reload_cb env key is_uint8 value (c, w)).1.1
  unfolding qdisk_cmap_reload_cb
  reload_cb-kept key is_uint8 value c w h =
      let left = λ (b : Bool). record c { cmap_reload_in_progress = b } in
      ground (
        arith,
        h,
        update_node_count-kept (left true) w h,
        update_node_count-kept (left false) w h,
        update_node_count-kept c w h,
      )

  notify_all-kept :
      (ns : List CmapNotification) (c : Cmap) (w : W) → Q w → Q (notify_all env ns (c, w)).1.1
  unfolding notify_all qdisk_cmap_reload_cb qdisk_cmap_nodelist_cb
  notify_all-kept [] c w h = h
  notify_all-kept (reload_notify key is_uint8 value ∷ ns) c w h =
      let r = qdisk_cmap_reload_cb env key is_uint8 value (c, w) in
      notify_all-kept ns r.1.0 r.1.1 (reload_cb-kept key is_uint8 value c w h)
  notify_all-kept (nodelist_change ∷ ns) c w h =
      let r = qdisk_cmap_nodelist_cb env (c, w) in
      notify_all-kept ns r.1.0 r.1.1 (update_node_count-kept c w h)

  pub dispatch_all-kept : (c : Cmap) (w : W) → Q w → Q (qdisk_cmap_dispatch_all env (c, w)).1.1
  unfolding qdisk_cmap_dispatch_all
  dispatch_all-kept c w h =
      let r = env.call (Request.cmap_dispatch c.cmap_handle) w in
      let n = notify_all env r.0.1 (c, r.1) in
      let closed = env.call (Request.cmap_finalize n.1.0.cmap_handle) n.1.1 in
      let slept = env.call (Request.sleep 1) closed.1 in
      ground (
        arith,
        kept (Request.cmap_dispatch c.cmap_handle) w h,
        notify_all-kept r.0.1 c r.1,
        kept (Request.cmap_finalize n.1.0.cmap_handle) n.1.1,
        kept (Request.sleep 1) closed.1,
        init-kept n.1.0 slept.1,
      )
