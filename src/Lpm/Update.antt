-- ===== src/Lpm/Update.antt =====
-- src/lpm.c: the functions that change a table. Each returns whether it succeeded (a return value
-- of 0), the new nodes and the new state. Recursion into the next table runs on fuel, one unit for
-- a stride of 8 bits.
use ufp.Common.{
  ℕ, zero, suc, ◌+◌, ◌-◌, ◌*◌, ◌^◌, Bool, true, false, Option, none, some, List, [], ◌∷◌, ltb, ◌==◌,
  if◌then◌else◌, sub32, update,
}
use ufp.Lpm.{
  Callbacks, Entry, Node, leaf, inner, table_size_8, entry_bytes, node_bytes, lpm_index, clear_low,
  head_of, with_head, lpm_init_node, all_unused, add_at,
}

module _ {Ptr Block State : Type 0} (ops : Callbacks Ptr Block State) where
  open ops use {entry_identify, entry_compare, entry_pull, entry_put, mem_alloc, mem_free}

  -- the walk of `lpm_entry_insert`: `none` if the entry exists, else the position of `prior`
  unfoldable pub scan : ℕ → ℕ → List (Entry Ptr Block) → ℕ → Option ℕ → Option (Option ℕ)
  scan id prefix_len [] pos prior = some prior
  scan id prefix_len (x ∷ xs) pos prior =
      let rest =
        scan id prefix_len xs (pos + 1)
          (if entry_compare x.ptr prefix_len == 0 then prior else some pos) in
      if entry_identify x.ptr id prefix_len == 0 then none else rest

  unfoldable pub lpm_entry_insert :
      List (Entry Ptr Block)
      → ℕ
      → ℕ
      → Entry Ptr Block
      → State
      → Option (List (Entry Ptr Block) × State)
  lpm_entry_insert head id prefix_len new s = elim (scan id prefix_len head 0 none) [
    | none ↦ none
    | some prior ↦ some (add_at prior new head, entry_pull new.ptr s)
  ]

  abbrev pub kept :
      Entry Ptr Block
      → Option (List (Entry Ptr Block) × State)
      → Option (List (Entry Ptr Block) × State)
  kept x none = none
  kept x (some (xs, s)) = some (x ∷ xs, s)

  unfoldable pub lpm_entry_delete :
      List (Entry Ptr Block) → ℕ → ℕ → State → Option (List (Entry Ptr Block) × State)
  lpm_entry_delete [] id prefix_len s = none
  lpm_entry_delete (x ∷ xs) id prefix_len s =
      let rest = kept x (lpm_entry_delete xs id prefix_len s) in
      if entry_identify x.ptr id prefix_len == 0
      then some (xs, mem_free x.block (entry_put x.ptr s))
      else rest

  unfoldable pub lpm_entry_delete_all : List (Entry Ptr Block) → State → State
  lpm_entry_delete_all [] s = s
  lpm_entry_delete_all (x ∷ xs) s = lpm_entry_delete_all xs (mem_free x.block (entry_put x.ptr s))

  abbrev pub Nodes : Type 0
  Nodes = ℕ → Node Ptr Block

  -- one round of the insertion loop; a rejected entry is freed again
  unfoldable pub insert_one : ℕ → ℕ → Ptr → Node Ptr Block → State → Option (Node Ptr Block) × State
  insert_one id prefix_len ptr node s = elim (mem_alloc entry_bytes s) [
    | none ↦ (none, s)
    | some (block, s₁) ↦
        elim (lpm_entry_insert (head_of node) id prefix_len (record { ptr = ptr; block = block })
          s₁) [
            | none ↦ (none, mem_free block s₁)
            | some (head, s₂) ↦ (some (with_head head node), s₂)
          ]
  ]

  -- the insertion loop, `n` rounds from round `i`; the number is of the rounds that succeeded
  unfoldable pub insert_range : ℕ → ℕ → ℕ → Ptr → ℕ → ℕ → Nodes → State → Bool × ℕ × Nodes × State
  insert_range zero id prefix_len ptr index i nodes s = (true, i, nodes, s)
  insert_range (suc n) id prefix_len ptr index i nodes s =
      let (result, s₁) = insert_one id prefix_len ptr (nodes (index + i)) s in
      elim result [
        | none ↦ (false, i, nodes, s₁)
        | some node ↦
            insert_range n id prefix_len ptr index (i + 1) (update nodes (index + i) node) s₁
      ]

  -- the loop at `err_lpm_add_self`, over the first `n` nodes; a failed deletion changes nothing
  unfoldable pub undo_range : ℕ → ℕ → ℕ → ℕ → ℕ → Nodes → State → Nodes × State
  undo_range zero id prefix_len index i nodes s = (nodes, s)
  undo_range (suc n) id prefix_len index i nodes s =
      let node = nodes (index + i) in
      elim (lpm_entry_delete (head_of node) id prefix_len s) [
        | none ↦ undo_range n id prefix_len index (i + 1) nodes s
        | some (head, s₁) ↦
            undo_range n id prefix_len index (i + 1)
              (update nodes (index + i) (with_head head node)) s₁
      ]

  -- the deletion loop, which stops at the first node without the entry
  unfoldable pub delete_range : ℕ → ℕ → ℕ → ℕ → ℕ → Nodes → State → Bool × Nodes × State
  delete_range zero id prefix_len index i nodes s = (true, nodes, s)
  delete_range (suc n) id prefix_len index i nodes s =
      let node = nodes (index + i) in
      elim (lpm_entry_delete (head_of node) id prefix_len s) [
        | none ↦ (false, nodes, s)
        | some (head, s₁) ↦
            delete_range n id prefix_len index (i + 1)
              (update nodes (index + i) (with_head head node)) s₁
      ]

  -- the `next_table` of a parent, allocated if it is NULL, or `none` (`err_table_alloc`)
  unfoldable pub open_table : Node Ptr Block → State → Option (Block × Nodes × State)
  open_table (leaf h) s = elim (mem_alloc (node_bytes * table_size_8) s) [
    | none ↦ none
    | some (block, s₁) ↦ some (block, (λ _. lpm_init_node), s₁)
  ]
  open_table (inner h block nodes) s = some (block, nodes, s)

  -- the release of a `next_table` with no node in use
  unfoldable pub close_table :
      List (Entry Ptr Block) → Block → Nodes → State → Node Ptr Block × State
  close_table h block nodes s =
      if all_unused table_size_8 nodes then (leaf h, mem_free block s) else (inner h block nodes, s)

  -- the end of `_lpm_add`, with its label `err_lpm_add`
  abbrev pub end_add :
      List (Entry Ptr Block) → Block → Bool → Nodes → State → Bool × Node Ptr Block × State
  end_add h block true nodes s = (true, inner h block nodes, s)
  end_add h block false nodes s = let (node, s') = close_table h block nodes s in (false, node, s')

  -- `_lpm_add`. Its counter `entry_allocated` stays 0, so the rollback has no rounds.
  unfoldable pub add_below :
      ℕ → (ℕ → ℕ) → ℕ → ℕ → Ptr → Node Ptr Block → ℕ → State → Bool × Node Ptr Block × State
  add_below zero prefix prefix_len id ptr parent offset s = (false, parent, s)
  add_below (suc fuel) prefix prefix_len id ptr parent offset s = elim (open_table parent s) [
    | none ↦ (false, parent, s)
    | some (block, nodes, s₁) ↦
        let h = head_of parent in
        let index = lpm_index prefix offset 8 in
        elim (ltb 8 (sub32 prefix_len offset)) [
          | true ↦
              let (done, child, s₂) =
                add_below fuel prefix prefix_len id ptr (nodes index) (offset + 8) s₁ in
              end_add h block done (update nodes index child) s₂
          | false ↦
              let range = 2 ^ (8 - sub32 prefix_len offset) in
              let base = clear_low index range in
              let (done, _, nodes', s₂) = insert_range range id prefix_len ptr base 0 nodes s₁ in
              end_add h block done nodes' s₂
        ]
  ]

  -- `lpm_add`: here the counter is the number of rounds that succeeded.
  unfoldable pub lpm_add : ℕ → Nodes → (ℕ → ℕ) → ℕ → ℕ → Ptr → State → Bool × Nodes × State
  lpm_add fuel table prefix prefix_len id ptr s =
      let index = lpm_index prefix 0 16 in
      elim (ltb 16 prefix_len) [
        | true ↦
            let (done, node, s₁) = add_below fuel prefix prefix_len id ptr (table index) 16 s in
            (done, update table index node, s₁)
        | false ↦
            let range = 2 ^ (16 - prefix_len) in
            let base = clear_low index range in
            let (done, entry_allocated, table', s₁) =
              insert_range range id prefix_len ptr base 0 table s in
            if done
            then (true, table', s₁)
            else (let (t, s₂) = undo_range entry_allocated id prefix_len base 0 table' s₁ in
                (false, t, s₂))
      ]
