-- ===== src/Lpm/Close.antt =====
-- src/lpm.c: the release of a next table that has no node in use changes no route.
use ufp.Common.{
  ℕ, ◌∷◌, not, ◌&&◌, zero, suc, ◌<◌, ◌≡◌, refl, true, List, [], ◌==◌, arith, Bool-cases, inl, inr,
}
use ufp.Lpm.{
  Callbacks, Entry, Node, leaf, inner, table_size_8, lpm_index, head_of, has_next, entries_empty,
  all_unused,
}
use ufp.Lpm.Update.{close_table}
use ufp.Lpm.Spec.{candidates, IsWellFormedNode}

lpm_index-lt : (dst : ℕ → ℕ) (offset : ℕ) → lpm_index dst offset 8 < table_size_8
unfolding lpm_index
lpm_index-lt dst offset = omega arith

module _ {Ptr Block : Type 0} where
  unused_node :
      (node : Node Ptr Block)
      → (not (has_next node) && entries_empty (head_of node)) ≡ true
      → node ≡ leaf []
  unused_node (leaf []) p = refl
  unused_node (leaf (x ∷ xs)) p = cc
  unused_node (inner h b ns) p = cc

  all_unused-node :
      (n : ℕ) (nodes : ℕ → Node Ptr Block) (j : ℕ)
      → all_unused n nodes ≡ true
      → j < n
      → nodes j ≡ leaf []
  unfolding all_unused
  all_unused-node zero nodes j e h = absurd (omega arith)
  all_unused-node (suc n) nodes j e h = elim (Bool-cases (j == n)) [
    | inl last ↦ let same : j ≡ n = ground arith in rw same (unused_node (nodes n) (ground arith))
    | inr before ↦ all_unused-node n nodes j (ground arith) (ground arith)
  ]

module _ {Ptr Block State : Type 0} (ops : Callbacks Ptr Block State) (len : Ptr → ℕ) where
  pub close_table-routes :
      (h : List (Entry Ptr Block)) (b : Block) (nodes : ℕ → Node Ptr Block) (s : State)
      (lo offset : ℕ)
      → IsWellFormedNode len lo (inner h b nodes) offset
      → IsWellFormedNode len lo (close_table ops h b nodes s).0 offset
        × ((dst : ℕ → ℕ)
            → candidates dst (close_table ops h b nodes s).0 offset
              ≡ candidates dst (inner h b nodes) offset)
  unfolding close_table candidates
  close_table-routes h b nodes s lo offset w = elim (Bool-cases (all_unused table_size_8 nodes)) [
    | inl free ↦ rw free (
      w.0,
      λ dst.
          rw
            (all_unused-node table_size_8 nodes (lpm_index dst offset 8) free
              (lpm_index-lt dst offset))
            refl,
    )
    | inr used ↦ rw used (w, λ dst. refl)
  ]
