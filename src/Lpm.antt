-- ===== src/Lpm.antt =====
-- src/lpm.c and src/lpm.h: the longest-prefix-match table, a multibit trie of strides 16, 8, 8, ...
-- A table of nodes is a function from indices, and an address is the function from word numbers to
-- the values of `ntohl(((uint32_t *)prefix)[word])`. The callbacks of `struct lpm_table` and the
-- memory pool come as a record of operations on a state.
pub mod Update
pub mod Delete
pub mod Spec
pub mod Lookup
pub mod Insert
pub mod Range
pub mod Routes
pub mod InsertRange
pub mod Cover
pub mod Change
pub mod Below
pub mod Add
pub mod Erase
pub mod Longest
pub mod Success
pub mod Traverse
pub mod Close
pub mod Remove
use ufp.Common.{
  ℕ, zero, suc, ◌+◌, ◌-◌, ◌*◌, ◌/◌, ◌%◌, ◌^◌, Bool, true, false, ◌&&◌, not, Option, none, some,
  List, [], ◌∷◌, ltb, ◌==◌, if◌then◌else◌, sub32, update, head?,
}

-- `identify` and `compare` return the `int` of the callback. An entry's data does not change while
-- it is in a table, so they read it from the pointer's value.
pub record Callbacks (Ptr Block State : Type 0) : Type 0 where
  pub entry_identify : Ptr → ℕ → ℕ → ℕ
  pub entry_compare : Ptr → ℕ → ℕ
  pub entry_pull : Ptr → State → State
  pub entry_put : Ptr → State → State
  pub mem_alloc : ℕ → State → Option (Block × State)
  pub mem_free : Block → State → State

-- `struct lpm_entry`, with the block that it was allocated in
pub record Entry (Ptr Block : Type 0) : Type 0 where
  pub ptr : Ptr
  pub block : Block

-- `struct lpm_node`: `leaf` has no `next_table`
pub data Node (Ptr Block : Type 0) : Type 0 where
  leaf : List (Entry Ptr Block) → Node Ptr Block
  inner : List (Entry Ptr Block) → Block → (ℕ → Node Ptr Block) → Node Ptr Block

abbrev pub table_size_16 : ℕ
table_size_16 = 2 ^ 16

abbrev pub table_size_8 : ℕ
table_size_8 = 2 ^ 8

-- `sizeof(struct lpm_entry)` and `sizeof(struct lpm_node)`
abbrev pub entry_bytes : ℕ
entry_bytes = 24

abbrev pub node_bytes : ℕ
node_bytes = 16

-- `1 << range` is a power of two, so `& mask` is a remainder.
unfoldable pub lpm_index : (ℕ → ℕ) → ℕ → ℕ → ℕ
lpm_index prefix offset range =
    let shift = sub32 32 (offset % 32 + range) in
    let word = offset / 32 in (prefix word / 2 ^ shift) % 2 ^ range

-- `index & ~(range - 1)` for a power of two; `index | i` is then a sum.
abbrev pub clear_low : ℕ → ℕ → ℕ
clear_low index range = index / range * range

module _ {Ptr Block : Type 0} where
  abbrev pub head_of : Node Ptr Block → List (Entry Ptr Block)
  head_of (leaf h) = h
  head_of (inner h b nodes) = h

  abbrev pub with_head : List (Entry Ptr Block) → Node Ptr Block → Node Ptr Block
  with_head h (leaf _) = leaf h
  with_head h (inner _ b nodes) = inner h b nodes

  abbrev pub has_next : Node Ptr Block → Bool
  has_next (leaf _) = false
  has_next (inner _ _ _) = true

  abbrev pub entries_empty : List (Entry Ptr Block) → Bool
  entries_empty [] = true
  entries_empty (_ ∷ _) = false

  unfoldable pub lpm_init_node : Node Ptr Block
  lpm_init_node = leaf []

  unfoldable pub lpm_init : ℕ → Node Ptr Block
  lpm_init i = lpm_init_node

  -- the list that `_lpm_lookup` returns at a node, given what it returned below the node
  abbrev pub choose :
      Node Ptr Block → Option (List (Entry Ptr Block)) → Option (List (Entry Ptr Block))
  choose node deeper =
      let own = if not (entries_empty (head_of node)) then some (head_of node) else none in
      if has_next node then elim deeper [ none ↦ own | some head ↦ some head ] else own

  -- `_lpm_lookup`. The parent has a `next_table`; the first clause is not reached.
  unfoldable pub lookup_below : (ℕ → ℕ) → Node Ptr Block → ℕ → Option (List (Entry Ptr Block))
  lookup_below dst (leaf h) offset = none
  lookup_below dst (inner h b nodes) offset =
      let index = lpm_index dst offset 8 in
      choose (nodes index) (lookup_below dst (nodes index) (offset + 8))

  abbrev pub last_resort : Node Ptr Block → Option (List (Entry Ptr Block)) → List (Entry Ptr Block)
  last_resort node none = head_of node
  last_resort node (some head) = head

  unfoldable pub lpm_lookup : (ℕ → Node Ptr Block) → (ℕ → ℕ) → Option (Entry Ptr Block)
  lpm_lookup table dst =
      let node = table (lpm_index dst 0 16) in
      if has_next node
      then head? (last_resort node (lookup_below dst node 16))
      else head? (head_of node)

  -- the loop `for(i = 0; i < TABLE_SIZE_8; i++)` that leaves at a node in use
  unfoldable pub all_unused : ℕ → (ℕ → Node Ptr Block) → Bool
  all_unused zero nodes = true
  all_unused (suc i) nodes =
      all_unused i nodes && (not (has_next (nodes i)) && entries_empty (head_of (nodes i)))

  -- `hlist_add_after` the entry at position `prior`, or `hlist_add_first`
  unfoldable pub insert_at : ℕ → Entry Ptr Block → List (Entry Ptr Block) → List (Entry Ptr Block)
  insert_at zero e xs = e ∷ xs
  insert_at (suc i) e [] = e ∷ []
  insert_at (suc i) e (x ∷ xs) = x ∷ insert_at i e xs

  abbrev pub add_at : Option ℕ → Entry Ptr Block → List (Entry Ptr Block) → List (Entry Ptr Block)
  add_at none e xs = insert_at 0 e xs
  add_at (some prior) e xs = insert_at (suc prior) e xs
