-- ===== src/Cmap/Count.antt =====
-- qdiskd/cmap.c, `update_node_count`: the number of nodes in the node list.
use corosync_qdisk.Prelude.{
  ℕ, ◌+◌, ◌<◌, ◌≡◌, ◌≢◌, refl, ◌∙◌, ap, none, some, List, [], ◌∷◌, ◌++◌, Text, codes, length, All,
  arith, ==_iff, ◌⊎◌,
}
use corosync_qdisk.Corosync.{Env, Request}
use corosync_qdisk.Cmap.{Cmap, node_position, count_nodes, update_node_count}

-- The keys of one node of the node list: its position, its first key and the others.
pub record Group : Type 0 where
  pub position : ℕ
  pub first : Text
  pub others : List Text

-- The keys of the groups one behind another.
abbrev pub all_keys : List Group → List Text
all_keys [] = []
all_keys (g ∷ gs) = g.first ∷ (g.others ++ all_keys gs)

-- Each group has the keys of one position, which is not the position before it; a key of another
-- form may stand among them.
abbrev pub AreGrouped : ℕ → List Group → Type 0
AreGrouped last [] = Unit
AreGrouped last (g ∷ gs) =
    (last ≢ g.position)
    × ((node_position g.first ≡ some g.position)
        × (All (λ k. (node_position k ≡ some g.position) ⊎ (node_position k ≡ none)) g.others
            × AreGrouped g.position gs))

count_nodes-others :
    (n count : ℕ) (ks rest : List Text)
    → All (λ k. (node_position k ≡ some n) ⊎ (node_position k ≡ none)) ks
    → count_nodes n count (ks ++ rest) ≡ count_nodes n count rest
unfolding count_nodes
count_nodes-others n count [] rest h = refl
count_nodes-others n count (k ∷ ks) rest h =
    ground (arith, count_nodes-others n count ks rest h.1, ==_iff n n)

count_nodes-groups :
    (last count : ℕ) (gs : List Group)
    → AreGrouped last gs
    → count + length gs < 4294967296
    → count_nodes last count (all_keys gs) ≡ count + length gs
unfolding count_nodes
count_nodes-groups last count [] h fits = omega arith
count_nodes-groups last count (g ∷ gs) h fits =
    let rest : count_nodes g.position (count + 1) (all_keys gs) ≡ count + 1 + length gs =
      count_nodes-groups g.position (count + 1) gs h.1.1.1 (omega (arith, fits)) in
    ground (
      arith,
      h.0,
      h.1.0,
      fits,
      count_nodes-others g.position (count + 1) g.others (all_keys gs) h.1.1.0,
      rest,
    )

module _ {W : Type 0} (env : Env W) where
  -- When the keys under `nodelist.node.` come node by node, as cmap lists them, and there are fewer
  -- than 2^32 nodes with no position 2^32 - 1 at the head, `update_node_count` sets the number of
  -- nodes, and nothing else of the globals.
  pub update_node_count-groups :
      (c : Cmap) (w : W) (gs : List Group)
      → AreGrouped 4294967295 gs
      → length gs < 4294967296
      → (env.call (Request.cmap_iter c.cmap_handle (codes "nodelist.node.")) w).0.1 ≡ all_keys gs
      → (update_node_count env (c, w)).1.0 ≡ record c { node_count = length gs }
  unfolding update_node_count
  update_node_count-groups c w gs h fits keys =
      let counted : count_nodes 4294967295 0 (all_keys gs) ≡ 0 + length gs =
        count_nodes-groups 4294967295 0 gs h (omega (arith, fits)) in
      ap (λ n. record c { node_count = n })
        (ap (λ ks. count_nodes 4294967295 0 ks) keys ∙ counted ∙ omega arith)
