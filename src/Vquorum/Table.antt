-- ===== src/Vquorum/Table.antt =====
-- qdiskd/vquorum.c: the table of the nodes' keys as a function from nodes to keys, which every
-- callback changes as a whole, whatever the order of the entries is.
use corosync_qdisk.Prelude.{
  ℕ, zero, suc, ◌≡◌, refl, ◌∙◌, ap, Option, none, some, List, [], ◌∷◌, Text, ◌==◌, if◌then◌else◌,
  arith,
}
use mathlib.Core.Path.{fun_ext}
use corosync_qdisk.Corosync.{
  Request, Env, Notification, quorum_notify, expected_votes_notify, nodelist_notify,
  extra_info_notify,
}
use corosync_qdisk.Vquorum.{
  Vquorum, find_key, key_or_zero, parse_key, rebuild_nodes, send_extra_info,
  vquorum_qdisk_share_ikey, print_extra_info, quorum_notification_fn,
  expected_votes_notification_fn, nodelist_notification_fn, getinfo, qdevice_extra_info_notify,
  notify, notify_all,
}
use corosync_qdisk.Vquorum.Exchange.{is_listed, find_key-set_key, find_key-rebuild_nodes}

-- The key of each node that has an entry.
abbrev pub keys_of : Vquorum → ℕ → Option ℕ
keys_of v n = find_key n v.node_list

-- What one callback does to that function; `qdevice` is the number of the quorum device.
abbrev pub apply : ℕ → Notification → (ℕ → Option ℕ) → ℕ → Option ℕ
apply qdevice (quorum_notify quorate nodes) f n =
    if is_listed qdevice n nodes then some (key_or_zero (f n)) else none
apply qdevice (expected_votes_notify votes) f n = f n
apply qdevice (nodelist_notify ring nodes) f n = f n
apply qdevice (extra_info_notify from ei_size text) f n =
    if from == n then some (if ei_size == 0 then 0 else parse_key text 0) else f n

abbrev pub replay : ℕ → List Notification → (ℕ → Option ℕ) → ℕ → Option ℕ
replay qdevice [] f = f
replay qdevice (n ∷ ns) f = replay qdevice ns (apply qdevice n f)

module _ {W : Type 0} (env : Env W) where
  send_extra_info-globals :
      (n handle size : ℕ) (buf : Text) (v : Vquorum) (w : W)
      → (send_extra_info env n handle size buf (v, w)).1.0 ≡ v
  unfolding send_extra_info
  send_extra_info-globals zero handle size buf v w = refl
  send_extra_info-globals (suc n) handle size buf v w =
      let r = env.call (Request.votequorum_set_qdevice_extra_info handle size buf) w in
      ground (arith, send_extra_info-globals n handle size buf v r.1)

  pub share-globals :
      (key : ℕ) (v : Vquorum) (w : W) → (vquorum_qdisk_share_ikey env key (v, w)).1.0 ≡ v
  unfolding vquorum_qdisk_share_ikey
  share-globals key v w =
      send_extra_info-globals env.attempts v.v_handle 22 (print_extra_info key) v w

  notify_refines :
      (n : Notification) (v : Vquorum) (w : W)
      → keys_of (notify env n (v, w)).1.0 ≡ apply env.qdevice_nodeid n (keys_of v)
  unfolding notify quorum_notification_fn expected_votes_notification_fn nodelist_notification_fn
      getinfo qdevice_extra_info_notify
  notify_refines (quorum_notify quorate nodes) v w = fun_ext λ j.
      let u = record v {
        vqnode_list = nodes;
        node_list = rebuild_nodes env.qdevice_nodeid v.node_list nodes;
        quorate = quorate;
      } in
      ground (
        arith,
        find_key-rebuild_nodes env.qdevice_nodeid j v.node_list nodes,
        share-globals v.qdisk_key u w,
      )
  notify_refines (expected_votes_notify votes) v w = refl
  notify_refines (nodelist_notify ring nodes) v w = refl
  notify_refines (extra_info_notify from ei_size text) v w = fun_ext λ j.
      ground
        (arith, find_key-set_key from (if ei_size == 0 then 0 else parse_key text 0) j v.node_list)

  -- Whatever callbacks a dispatch runs, the keys that the table then gives for the nodes are those that
  -- the callbacks leave of a function from nodes to keys, in the same order.
  pub notify_all_refines :
      (ns : List Notification) (v : Vquorum) (w : W)
      → keys_of (notify_all env ns (v, w)).1.0 ≡ replay env.qdevice_nodeid ns (keys_of v)
  unfolding notify_all
  notify_all_refines [] v w = refl
  notify_all_refines (n ∷ ns) v w =
      let r = (notify env n (v, w)).1 in
      notify_all_refines ns r.0 r.1 ∙ ap (replay env.qdevice_nodeid ns) (notify_refines n v w)
