-- ===== src/Vquorum/Exchange.antt =====
-- qdiskd/vquorum.c: the exchange of the nodes' keys. A node shares its key as extra info, the others
-- read it, and the table of keys is kept over changes of the membership.
use corosync_qdisk.Prelude.{
  ℕ, ◌^◌, ◌<◌, ◌≡◌, refl, ◌≢◌, Bool, false, ◌||◌, none, some, List, [], ◌∷◌, ◌++◌, Text, codes,
  ◌==◌, if◌then◌else◌, arith, ◌+◌, ==_iff, All, Option-cases,
}
use corosync_qdisk.Libc.{scan_key, scan_literal, print_key, scan_hex, skip_spaces}
use corosync_qdisk.Libc.Keys.{scan_key-print_key}
use corosync_qdisk.Corosync.{cs_ok, Env, VotequorumNode, Request}
use corosync_qdisk.Vquorum.{
  NodeInfo, Vquorum, find_key, key_or_zero, rebuild_nodes, parse_key, set_key, print_extra_info,
  qdevice_extra_info_notify,
}
use corosync_qdisk.Vquorum.Service.{vquorum_get_node_key, collect_keys, vquorum_get_node_key_list}

-- The white space of the format's text is skipped before the digits.
scan_key-space : (t : Text) → scan_key (32 ∷ t) ≡ scan_key t
unfolding scan_key scan_hex skip_spaces
scan_key-space t = refl

scan_literal-info :
    (k : ℕ) (rest : Text)
    → scan_literal (codes "Qdsk") (print_extra_info k ++ rest) ≡ some (32 ∷ print_key k ++ rest)
unfolding print_extra_info scan_literal
scan_literal-info k rest = refl

-- For every uint64_t key, the extra info that a node shares is read as that key by another node,
-- whatever follows it in the buffer and whatever the key's variable held.
pub parse_key-print_extra_info :
    (k old : ℕ) (rest : Text) → k < 2 ^ 64 → parse_key (print_extra_info k ++ rest) old ≡ k
unfolding parse_key
parse_key-print_extra_info k old rest h = ground (
  arith,
  scan_literal-info k rest,
  scan_key-space (print_key k ++ rest),
  scan_key-print_key k rest h,
)

-- Setting the key of a node changes the key that is found for that node and for no other one.
pub find_key-set_key :
    (n k j : ℕ) (l : List NodeInfo)
    → find_key j (set_key n k l) ≡ (if n == j then some k else find_key j l)
unfolding find_key set_key
find_key-set_key n k j [] = ground arith
find_key-set_key n k j (x ∷ xs) = ground (arith, find_key-set_key n k j xs)

-- A node is listed before the entry of the quorum device.
unfoldable pub is_listed : ℕ → ℕ → List VotequorumNode → Bool
is_listed qdevice j [] = false
is_listed qdevice j (x ∷ xs) =
    let rest = is_listed qdevice j xs in
    if x.nodeid == qdevice then false else (x.nodeid == j || rest)

-- A quorum notification leaves an entry for exactly the nodes that it lists before the quorum
-- device, each with the key that it had, or 0 if it is new.
pub find_key-rebuild_nodes :
    (qdevice j : ℕ) (old : List NodeInfo) (nodes : List VotequorumNode)
    → find_key j (rebuild_nodes qdevice old nodes)
      ≡ (if is_listed qdevice j nodes then some (key_or_zero (find_key j old)) else none)
unfolding is_listed rebuild_nodes find_key
find_key-rebuild_nodes qdevice j old [] = refl
find_key-rebuild_nodes qdevice j old (x ∷ xs) =
    ground (arith, find_key-rebuild_nodes qdevice j old xs, ==_iff x.nodeid j)

module _ {W : Type 0} (env : Env W) where
  -- When a node's extra info arrives, the key that `vquorum_get_node_key` then gives for that node
  -- is the uint64_t key that the node has shared, whatever the text is followed by.
  pub vquorum_get_node_key-notify :
      (n size k old : ℕ) (rest : Text) (v : Vquorum) (w : W)
      → k < 2 ^ 64
      → (size ≡ 0 → ⊥)
      → (vquorum_get_node_key env n old
          (qdevice_extra_info_notify env n size (print_extra_info k ++ rest) (v, w)).1).0
        ≡ (cs_ok, k)
  unfolding vquorum_get_node_key qdevice_extra_info_notify
  vquorum_get_node_key-notify n size k old rest v w h ne =
      ground (
        arith,
        parse_key-print_extra_info k 0 rest h,
        find_key-set_key n k n v.node_list,
        ==_iff n n,
      )

  -- The key that the table has for a node.
  abbrev pub known : Vquorum → ℕ → ℕ
  known v n = key_or_zero (find_key n v.node_list)

  -- The known keys of some nodes, in their order; key 0 is no key.
  unfoldable pub known_keys : Vquorum → List ℕ → List ℕ
  known_keys v [] = []
  known_keys v (n ∷ ns) =
      let rest = known_keys v ns in if known v n == 0 then rest else known v n ∷ rest

  collect_keys-known :
      (fresh : ℕ → ℕ) (j slot : ℕ) (v : Vquorum) (w : W) (ns : List ℕ)
      → All (λ n. find_key n v.node_list ≢ none) ns
      → collect_keys env fresh j slot ns (v, w) ≡ ((cs_ok, known_keys v ns), (v, w))
  unfolding collect_keys vquorum_get_node_key known_keys
  collect_keys-known fresh j slot v w [] h = refl
  collect_keys-known fresh j slot v w (n ∷ ns) h = ground (
    arith,
    h.0,
    Option-cases (find_key n v.node_list),
    collect_keys-known fresh j 0 v w ns h.1,
    collect_keys-known fresh (j + 1) (fresh (j + 1)) v w ns h.1,
  )

  -- When every visible node has an entry in the table, `vquorum_get_node_key_list` succeeds without
  -- asking votequorum, and gives the nonzero keys of the visible nodes in their order, whatever the
  -- allocated memory held.
  pub vquorum_get_node_key_list-known :
      (v : Vquorum) (w : W)
      → All (λ n. find_key n v.node_list ≢ none) v.visible_node_list
      → vquorum_get_node_key_list env (v, w)
        ≡ ((cs_ok, known_keys v v.visible_node_list), (v, (env.call Request.malloc_keys w).1))
  unfolding vquorum_get_node_key_list
  vquorum_get_node_key_list-known v w h =
      let r = env.call Request.malloc_keys w in
      collect_keys-known r.0 0 (r.0 0) v r.1 v.visible_node_list h
