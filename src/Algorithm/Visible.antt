-- ===== src/Algorithm/Visible.antt =====
-- qdiskd/algorithm.c with qdiskd/vquorum.c: when a heartbeat sees the holder of the reservation.
use corosync_qdisk.Prelude.{
  ◌∙◌, ap, Option-cases, none, some, All, refl, sym, inr, inl, ℕ, ◌≡◌, ◌≢◌, ◌↔◌, true, List, [],
  ◌∷◌, map, IsIn, ==_iff, arith,
}
use corosync_qdisk.Corosync.{Env}
use corosync_qdisk.Vquorum.{Vquorum, find_key}
use corosync_qdisk.Vquorum.Service.{vquorum_get_node_key_list}
use corosync_qdisk.Vquorum.Exchange.{known, known_keys, vquorum_get_node_key_list-known}
use corosync_qdisk.Algorithm.{holder_visible, key_registered}

-- The loop over the registered keys finds our key exactly if it is one of them.
pub key_registered_iff : (key : ℕ) (ks : List ℕ) → (key_registered key ks ≡ true) ↔ IsIn key ks
unfolding key_registered
key_registered_iff key [] = ((λ h. ground arith), (λ h. absurd h))
key_registered_iff key (k ∷ ks) = ground (arith, key_registered_iff key ks, ==_iff key k)

module _ {W : Type 0} (env : Env W) where
  pub holder_visible-known_keys :
      (holder : ℕ) (v : Vquorum) (ns : List ℕ)
      → (holder_visible holder (known_keys env v ns) ≡ true)
        ↔ ((holder ≢ 0) × IsIn holder (map (known env v) ns))
  unfolding holder_visible known_keys
  holder_visible-known_keys holder v [] = ((λ h. ground arith), (λ h. absurd h.1))
  holder_visible-known_keys holder v (n ∷ ns) = ground (
    arith,
    holder_visible-known_keys holder v ns,
    ==_iff (known env v n) holder,
    ==_iff (known env v n) 0,
  )

  IsIn-map :
      (holder : ℕ) (v : Vquorum) (ns : List ℕ)
      → IsIn holder (map (known env v) ns)
      → (n : ℕ) × (IsIn n ns × (known env v n ≡ holder))
  IsIn-map holder v [] h = absurd h
  IsIn-map holder v (n ∷ ns) (inl e) = (n, (inl refl, e))
  IsIn-map holder v (n ∷ ns) (inr h) = let (m, (i, e)) = IsIn-map holder v ns h in (m, (inr i, e))

  map-IsIn :
      (holder n : ℕ) (v : Vquorum) (ns : List ℕ)
      → IsIn n ns
      → known env v n ≡ holder
      → IsIn holder (map (known env v) ns)
  map-IsIn holder n v [] h e = h
  map-IsIn holder n v (m ∷ ns) (inl q) e = inl (ap (known env v) q ∙ e)
  map-IsIn holder n v (m ∷ ns) (inr h) e = inr (map-IsIn holder n v ns h e)

  known-find_key :
      (holder n : ℕ) (v : Vquorum)
      → holder ≢ 0
      → (known env v n ≡ holder) ↔ (find_key n v.node_list ≡ some holder)
  known-find_key holder n v ne = ground (arith, ne, Option-cases (find_key n v.node_list))

  -- When every visible node has an entry in the table, the keys that `vquorum_get_node_key_list` gives
  -- to a heartbeat show the holder as visible exactly if the holder's key is not 0 and some visible
  -- node has it in the table.
  pub holder_visible-get_node_key_list :
      (holder : ℕ) (v : Vquorum) (w : W)
      → All (λ n. find_key n v.node_list ≢ none) v.visible_node_list
      → (holder_visible holder (vquorum_get_node_key_list env (v, w)).0.1 ≡ true) ↔ (
          (holder ≢ 0)
          × ((n : ℕ) × (IsIn n v.visible_node_list × (find_key n v.node_list ≡ some holder))))
  holder_visible-get_node_key_list holder v w listed =
      let ns = v.visible_node_list in
      let keys : (vquorum_get_node_key_list env (v, w)).0.1 ≡ known_keys env v ns =
        ap (λ r. r.0.1) (vquorum_get_node_key_list-known env v w listed) in
      let seen = holder_visible-known_keys holder v ns in
      (
        (λ h.
            let (ne, among) = seen.0 (sym (ap (holder_visible holder) keys) ∙ h) in
            let (n, (i, e)) = IsIn-map holder v ns among in
            (ne, (n, (i, (known-find_key holder n v ne).0 e)))),
        (λ (ne, (n, (i, e))).
            ap (holder_visible holder) keys
            ∙ seen.1 (ne, map-IsIn holder n v ns i ((known-find_key holder n v ne).1 e))),
      )
