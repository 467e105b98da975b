-- ===== src/Lpm/Traverse.antt =====
-- src/lpm.c: `lpm_traverse`, which shows the entries under a prefix through the callback
-- `entry_dump`. The state is what the callback changes.
use ufp.Common.{ℕ, zero, suc, ◌+◌, ◌-◌, ◌^◌, Bool, true, false, List, ltb, if◌then◌else◌, sub32}
use ufp.Lpm.{Entry, Node, leaf, inner, lpm_index, clear_low, head_of, entries_empty}

module _ {Ptr Block State : Type 0} (entry_dump : List (Entry Ptr Block) → State → State) where
  -- the loop of `n` rounds from the node `index`
  unfoldable pub dump_range : (n index : ℕ) → (ℕ → Node Ptr Block) → State → State
  dump_range zero index nodes s = s
  dump_range (suc n) index nodes s =
      let head = head_of (nodes index) in
      dump_range n (index + 1) nodes (if entries_empty head then s else entry_dump head s)

  -- `_lpm_traverse`: `false` without a `next_table`
  unfoldable pub traverse_below :
      (prefix : ℕ → ℕ) (prefix_len : ℕ) → Node Ptr Block → (offset : ℕ) → State → Bool × State
  traverse_below prefix prefix_len (leaf h) offset s = (false, s)
  traverse_below prefix prefix_len (inner h b nodes) offset s =
      let index = lpm_index prefix offset 8 in
      let (_, deeper) = traverse_below prefix prefix_len (nodes index) (offset + 8) s in
      let range = 2 ^ (8 - sub32 prefix_len offset) in
      if ltb 8 (sub32 prefix_len offset)
      then (true, deeper)
      else (true, dump_range range (clear_low index range) nodes s)

  -- `lpm_traverse`, which succeeds whatever `_lpm_traverse` returns
  unfoldable pub lpm_traverse :
      (table : ℕ → Node Ptr Block) (prefix : ℕ → ℕ) (prefix_len : ℕ) → State → Bool × State
  lpm_traverse table prefix prefix_len s =
      let index = lpm_index prefix 0 16 in
      let range = 2 ^ (16 - prefix_len) in
      if ltb 16 prefix_len
      then (let (_, s') = traverse_below prefix prefix_len (table index) 16 s in (true, s'))
      else (true, dump_range range (clear_low index range) table s)
