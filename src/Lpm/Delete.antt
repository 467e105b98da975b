-- ===== src/Lpm/Delete.antt =====
-- src/lpm.c: deletion of a prefix, of a whole table, and the walk over the entries of a prefix.
use ufp.Common.{ℕ, zero, suc, ◌+◌, ◌-◌, ◌^◌, Bool, true, false, List, [], ltb, sub32, update}
use ufp.Lpm.{
  Callbacks, Entry, Node, leaf, inner, table_size_16, table_size_8, lpm_index, clear_low, head_of,
  with_head,
}
use ufp.Lpm.Update.{lpm_entry_delete_all, delete_range, close_table}

module _ {Ptr Block State : Type 0} (ops : Callbacks Ptr Block State) where
  open ops use {mem_free}

  -- the end of `_lpm_delete`: a failure leaves the next table in place
  abbrev pub end_delete :
      List (Entry Ptr Block)
      → Block
      → Bool
      → (ℕ → Node Ptr Block)
      → State
      → Bool × Node Ptr Block × State
  end_delete h block true nodes s =
      let (node, s') = close_table ops h block nodes s in (true, node, s')
  end_delete h block false nodes s = (false, inner h block nodes, s)

  -- `_lpm_delete`, by recursion on the parent
  unfoldable pub delete_below :
      (ℕ → ℕ) → ℕ → ℕ → Node Ptr Block → ℕ → State → Bool × Node Ptr Block × State
  delete_below prefix prefix_len id (leaf h) offset s = (false, leaf h, s)
  delete_below prefix prefix_len id (inner h block nodes) offset s =
      let index = lpm_index prefix offset 8 in
      elim (ltb 8 (sub32 prefix_len offset)) [
        | true ↦
            let (done, child, s₁) =
              delete_below prefix prefix_len id (nodes index) (offset + 8) s in
            end_delete h block done (update nodes index child) s₁
        | false ↦
            let range = 2 ^ (8 - sub32 prefix_len offset) in
            let base = clear_low index range in
            let (done, nodes', s₁) = delete_range ops range id prefix_len base 0 nodes s in
            end_delete h block done nodes' s₁
      ]

  unfoldable pub lpm_delete :
      (ℕ → Node Ptr Block) → (ℕ → ℕ) → ℕ → ℕ → State → Bool × (ℕ → Node Ptr Block) × State
  lpm_delete table prefix prefix_len id s =
      let index = lpm_index prefix 0 16 in
      elim (ltb 16 prefix_len) [
        | true ↦
            let (done, node, s₁) = delete_below prefix prefix_len id (table index) 16 s in
            (done, update table index node, s₁)
        | false ↦
            let range = 2 ^ (16 - prefix_len) in
            let base = clear_low index range in delete_range ops range id prefix_len base 0 table s
      ]

  abbrev pub NodeArray : Type 0
  NodeArray = ℕ → Node Ptr Block

  -- The loop over `n` nodes of the two functions below: the call on a node's next table is `clear`,
  -- then the entries of its list go. (An empty list has none, so its test is not needed.)
  unfoldable pub clear_range :
      (ℕ → State → Node Ptr Block × State) → ℕ → NodeArray → State → NodeArray × State
  clear_range clear zero nodes s = (nodes, s)
  clear_range clear (suc n) nodes s =
      let (nodes₁, s₁) = clear_range clear n nodes s in
      let (node, s₂) = clear n s₁ in
      (update nodes₁ n (with_head [] node), lpm_entry_delete_all ops (head_of node) s₂)

  -- `_lpm_delete_all`: the cleared nodes are freed with their table
  unfoldable pub delete_all_below : Node Ptr Block → State → Node Ptr Block × State
  delete_all_below (leaf h) s = (leaf h, s)
  delete_all_below (inner h block nodes) s =
      let (_, s₁) = clear_range (λ i. delete_all_below (nodes i)) table_size_8 nodes s in
      (leaf h, mem_free block s₁)

  unfoldable pub lpm_delete_all : NodeArray → State → NodeArray × State
  lpm_delete_all table s = clear_range (λ i. delete_all_below (table i)) table_size_16 table s
