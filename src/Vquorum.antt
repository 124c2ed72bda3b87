-- ===== src/Vquorum.antt =====
-- qdiskd/vquorum.c: what votequorum tells the daemon, and what the daemon tells votequorum.
-- The state is the file's globals; an operation takes it with the outside world.
pub mod Service
pub mod Kept
pub mod Exchange
pub mod Retry
pub mod Table
use corosync_qdisk.Prelude.{
  ℕ, suc, zero, true, false, Option, none, some, List, [], ◌∷◌, ◌++◌, Text, codes, ◌==◌,
  if◌then◌else◌,
}
use corosync_qdisk.Libc.{eof, mismatch, matched, print_key, scan_key, scan_literal}
use corosync_qdisk.Corosync.{
  CsError, cs_err_try_again, is_try_again, VotequorumInfo, VotequorumNode, RingId, Notification,
  quorum_notify, expected_votes_notify, nodelist_notify, extra_info_notify, Request, Reply, Env, St,
  ◌>>=◌, ◌>>◌, pure,
}

-- `struct node_info`
pub record NodeInfo : Type 0 where
  pub nodeid : ℕ
  pub state : ℕ
  pub disk_key : ℕ

-- The globals. `g_node_count` and the two `_entries` are the lengths of their lists.
pub record Vquorum : Type 0 where
  pub v_handle : ℕ
  pub info : VotequorumInfo
  pub our_nodeid : ℕ
  pub ring_id : RingId
  pub visible_node_list : List ℕ
  pub vqnode_list : List VotequorumNode
  pub expected_votes : ℕ
  pub quorate : ℕ
  pub qdisk_key : ℕ
  pub node_list : List NodeInfo

-- The key of the first entry for a node.
unfoldable pub find_key : ℕ → List NodeInfo → Option ℕ
find_key n [] = none
find_key n (x ∷ xs) = if x.nodeid == n then some x.disk_key else find_key n xs

abbrev pub key_or_zero : Option ℕ → ℕ
key_or_zero none = 0
key_or_zero (some k) = k

-- The loop of `quorum_notification_fn`: it ends at the dummy node of the quorum device, and a node
-- keeps the key that it had.
unfoldable pub rebuild_nodes : ℕ → List NodeInfo → List VotequorumNode → List NodeInfo
rebuild_nodes qdevice old [] = []
rebuild_nodes qdevice old (x ∷ xs) =
    if x.nodeid == qdevice
    then []
    else record {
      nodeid = x.nodeid;
      state = x.state;
      disk_key = key_or_zero (find_key x.nodeid old);
    }
      ∷ rebuild_nodes qdevice old xs

-- The key in a node's extra info; a text of another form leaves the value that was there.
unfoldable pub parse_key : Text → ℕ → ℕ
parse_key t old = elim (scan_literal (codes "Qdsk") t) [
  | none ↦ old
  | some rest ↦ elim (scan_key rest) [ eof ↦ old | mismatch ↦ old | matched k ↦ k ]
]

-- The loop of `qdevice_extra_info_notify`, with the new entry behind the last one.
unfoldable pub set_key : ℕ → ℕ → List NodeInfo → List NodeInfo
set_key n k [] = record { nodeid = n; state = 0; disk_key = k } ∷ []
set_key n k (x ∷ xs) = if n == x.nodeid then record x { disk_key = k } ∷ xs else x ∷ set_key n k xs

-- `sprintf(buf, "Qdsk %016" PRIx64, key)`
unfoldable pub print_extra_info : ℕ → Text
print_extra_info k = codes "Qdsk " ++ print_key k

module _ {W : Type 0} (env : Env W) where
  abbrev pub Vq : Type 0 → Type 0
  Vq A = St (Vquorum × W) A

  abbrev pub call : (r : Request) → Vq (Reply r)
  call r (v, w) = let (a, w') = env.call r w in (a, (v, w'))

  abbrev pub globals : Vq Vquorum
  globals (v, w) = (v, (v, w))

  abbrev pub update : (Vquorum → Vquorum) → Vq (Unit {0})
  update f (v, w) = (tt, (f v, w))

  -- The `do … while(CS_ERR_TRY_AGAIN == err)` of `vquorum_qdisk_share_ikey`.
  unfoldable pub send_extra_info : ℕ → ℕ → ℕ → Text → Vq CsError
  send_extra_info zero handle ei_size buf = pure cs_err_try_again
  send_extra_info (suc n) handle ei_size buf = do
    err ← call (Request.votequorum_set_qdevice_extra_info handle ei_size buf)
    elim (is_try_again err) [ true ↦ send_extra_info n handle ei_size buf | false ↦ pure err ]

  -- One byte more than the text, for the zero behind it.
  unfoldable pub vquorum_qdisk_share_ikey : ℕ → Vq CsError
  vquorum_qdisk_share_ikey key = do
    v ← globals
    send_extra_info env.attempts v.v_handle 22 (print_extra_info key)

  unfoldable pub quorum_notification_fn : ℕ → List VotequorumNode → Vq (Unit {0})
  quorum_notification_fn quorate nodes = do
    update (λ v. record v {
      vqnode_list = nodes;
      node_list = rebuild_nodes env.qdevice_nodeid v.node_list nodes;
      quorate = quorate;
    })
    v ← globals
    if v.qdisk_key == 0 then pure tt else (vquorum_qdisk_share_ikey v.qdisk_key >> pure tt)

  unfoldable pub expected_votes_notification_fn : ℕ → Vq (Unit {0})
  expected_votes_notification_fn n = update (λ v. record v { expected_votes = n })

  -- `votequorum_getinfo` into the global `info`.
  unfoldable pub getinfo : Vq CsError
  getinfo = do
    v ← globals
    (err, info) ← call (Request.votequorum_getinfo v.v_handle v.our_nodeid v.info)
    update (λ v. record v { info = info })
    pure err

  unfoldable pub nodelist_notification_fn : RingId → List ℕ → Vq (Unit {0})
  nodelist_notification_fn ring nodes = do
    update (λ v. record v { visible_node_list = nodes; ring_id = ring })
    getinfo
    pure tt

  unfoldable pub qdevice_extra_info_notify : ℕ → ℕ → Text → Vq (Unit {0})
  qdevice_extra_info_notify nodeid ei_size extra_info = do
    let disk_key = if ei_size == 0 then 0 else parse_key extra_info 0
    update (λ v. record v { node_list = set_key nodeid disk_key v.node_list })

  -- The table `callbacks`.
  unfoldable pub notify : Notification → Vq (Unit {0})
  notify (quorum_notify quorate nodes) = quorum_notification_fn quorate nodes
  notify (expected_votes_notify n) = expected_votes_notification_fn n
  notify (nodelist_notify ring nodes) = nodelist_notification_fn ring nodes
  notify (extra_info_notify n size t) = qdevice_extra_info_notify n size t

  unfoldable pub notify_all : List Notification → Vq (Unit {0})
  notify_all [] = pure tt
  notify_all (n ∷ ns) = notify n >> notify_all ns

  -- `votequorum_dispatch(v_handle, CS_DISPATCH_ALL)`, which runs the callbacks.
  unfoldable pub dispatch : Vq CsError
  dispatch = do
    v ← globals
    (err, ns) ← call (Request.votequorum_dispatch v.v_handle)
    notify_all ns
    pure err
