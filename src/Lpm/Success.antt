-- ===== src/Lpm/Success.antt =====
-- src/lpm.c: when `lpm_add` succeeds.
use ufp.Common.{
  ℕ, zero, suc, ◌+◌, ◌-◌, ◌*◌, ◌^◌, ◌<◌, ◌≤◌, ◌≡◌, ◌≢◌, refl, ap, true, false, Option, none, some,
  List, [], ◌∷◌, ltb, ◌==◌, if◌then◌else◌, sub32, update, arith, Bool-cases, Option-cases, inl, inr,
  All,
}
use ufp.Lpm.{
  Callbacks, Entry, Node, leaf, inner, lpm_index, clear_low, head_of, lpm_init_node, entry_bytes,
}
use ufp.Lpm.{node_bytes, table_size_8, with_head, add_at}
use ufp.Lpm.Update.{
  scan, lpm_entry_insert, insert_one, insert_range, open_table, add_below, lpm_add,
}

-- the bytes of a table
abbrev pub biggest : ℕ
biggest = node_bytes * table_size_8

-- the requests of `lpm_add`: one for each entry, and one for each table on the way
abbrev pub requests : (fuel prefix_len : ℕ) → ℕ
requests fuel l = if ltb 16 l then fuel + 2 ^ 8 else 2 ^ (16 - l)

pow_le : (n k : ℕ) → 2 ^ (n - k) ≤ 2 ^ n
pow_le zero k = let same : 0 - k ≡ 0 = omega arith in rw same (omega arith)
pow_le (suc n) zero = let same : suc n - 0 ≡ suc n = omega arith in rw same (omega arith)
pow_le (suc n) (suc k) =
    let same : suc n - suc k ≡ n - k = omega arith in rw same (omega (arith, pow_le n k))

module _ {Ptr Block State : Type 0} (ops : Callbacks Ptr Block State) where
  -- no entry of a list has the identifier and the length
  abbrev pub IsNewHere : ℕ → ℕ → List (Entry Ptr Block) → Type 0
  IsNewHere id l h = All (λ x. (ops.entry_identify x.ptr id l == 0) ≡ false) h

  -- nor has one in the whole tree
  abbrev pub IsNew : ℕ → ℕ → Node Ptr Block → Type 0
  IsNew id l (leaf h) = IsNewHere id l h
  IsNew id l (inner h b nodes) = IsNewHere id l h × ((i : ℕ) → IsNew id l (nodes i))

  -- `room` is a number of requests that the pool can serve, each of at most the size of a table.
  pub record HasRoom (room : State → ℕ) : Type 0 where
    pub serves : (n : ℕ) (s : State) → n ≤ biggest → 0 < room s → ops.mem_alloc n s ≢ none
    pub takes :
        (n : ℕ) (s s' : State) (block : Block)
        → n ≤ biggest
        → ops.mem_alloc n s ≡ some (block, s')
        → room s ≤ suc (room s')
    pub same_pull : (p : Ptr) (s : State) → room (ops.entry_pull p s) ≡ room s

  IsNew-head : (id l : ℕ) (node : Node Ptr Block) → IsNew id l node → IsNewHere id l (head_of node)
  IsNew-head id l (leaf h) new = new
  IsNew-head id l (inner h b nodes) new = new.0

  scan-some :
      (id l : ℕ) (h : List (Entry Ptr Block)) (pos : ℕ) (prior : Option ℕ)
      → IsNewHere id l h
      → scan ops id l h pos prior ≢ none
  unfolding scan
  scan-some id l [] pos prior new e = absurd (ground (arith, e))
  scan-some id l (x ∷ xs) pos prior new e =
      scan-some id l xs (pos + 1) (if ops.entry_compare x.ptr l == 0 then prior else some pos) new.1
        (rw new.0 at e)

  add_below_deeper :
      (fuel : ℕ) (prefix : ℕ → ℕ) (l id : ℕ) (p : Ptr) (parent : Node Ptr Block) (offset : ℕ)
      (s s' : State) (block : Block) (nodes : ℕ → Node Ptr Block)
      → open_table ops parent s ≡ some (block, nodes, s')
      → ltb 8 (sub32 l offset) ≡ true
      → (add_below ops fuel prefix l id p (nodes (lpm_index prefix offset 8)) (offset + 8) s').0
        ≡ true
      → (add_below ops (suc fuel) prefix l id p parent offset s).0 ≡ true
  unfolding add_below
  add_below_deeper fuel prefix l id p parent offset s s' block nodes opened more done =
      rw (opened, more, add_below) (rw done refl)

  add_below_last :
      (fuel : ℕ) (prefix : ℕ → ℕ) (l id : ℕ) (p : Ptr) (parent : Node Ptr Block) (offset : ℕ)
      (s s' : State) (block : Block) (nodes : ℕ → Node Ptr Block)
      → open_table ops parent s ≡ some (block, nodes, s')
      → ltb 8 (sub32 l offset) ≡ false
      → let range = 2 ^ (8 - sub32 l offset) in
        (insert_range ops range id l p (clear_low (lpm_index prefix offset 8) range) 0 nodes s').0
          ≡ true
        → (add_below ops (suc fuel) prefix l id p parent offset s).0 ≡ true
  unfolding add_below
  add_below_last fuel prefix l id p parent offset s s' block nodes opened last done =
      rw (opened, last, add_below) (rw done refl)

  module _ (room : State → ℕ) (pool : HasRoom room) where
    insert_one-some :
        (id l : ℕ) (p : Ptr) (node : Node Ptr Block) (s : State)
        → 0 < room s
        → IsNewHere id l (head_of node)
        → (node' : Node Ptr Block) × ((insert_one ops id l p node s).0 ≡ some node')
          × (room s ≤ suc (room (insert_one ops id l p node s).1))
    unfolding insert_one lpm_entry_insert
    insert_one-some id l p node s some_left new =
        elim (Option-cases (ops.mem_alloc entry_bytes s)) [
          | inl failed ↦ absurd (pool.serves entry_bytes s (omega arith) some_left failed)
          | inr ((block, s₁), got) ↦ elim (Option-cases (scan ops id l (head_of node) 0 none)) [
            | inl there ↦ absurd (scan-some id l (head_of node) 0 none new there)
            | inr (prior, e) ↦
                let x : Entry Ptr Block = record { ptr = p; block = block } in
                let used = pool.takes entry_bytes s s₁ block (omega arith) got in
                let node' = with_head (add_at prior x (head_of node)) node in
                let run : insert_one ops id l p node s ≡ (some node', ops.entry_pull p s₁) =
                  rw (got, insert_one) (rw e refl) in
                (node', ap (λ r. r.0) run, rw run (omega (arith, used, pool.same_pull p s₁)))
          ]
        ]

    insert_range-done :
        (n id l : ℕ) (p : Ptr) (index i : ℕ) (nodes : ℕ → Node Ptr Block) (s : State)
        → n ≤ room s
        → ((j : ℕ) → index + i ≤ j → IsNewHere id l (head_of (nodes j)))
        → (insert_range ops n id l p index i nodes s).0 ≡ true
    unfolding insert_range
    insert_range-done zero id l p index i nodes s enough new = refl
    insert_range-done (suc n) id l p index i nodes s enough new =
        let (node, done, left) =
          insert_one-some id l p (nodes (index + i)) s (omega arith)
            (new (index + i) (omega arith)) in
        rw (done, insert_range)
          (insert_range-done n id l p index (i + 1) (update nodes (index + i) node)
            (insert_one ops id l p (nodes (index + i)) s).1 (omega arith)
            (λ j h.
              let other : (j == index + i) ≡ false = ground arith in
              rw other (new j (omega arith))))

    open_table-some :
        (id l : ℕ) (parent : Node Ptr Block) (s : State)
        → 0 < room s
        → IsNew id l parent
        → (block : Block) × (nodes : ℕ → Node Ptr Block) × (s' : State) × (open_table ops parent s
            ≡ some (block, nodes, s'))
          × ((i : ℕ) → IsNew id l (nodes i))
          × (room s ≤ suc (room s'))
    unfolding open_table lpm_init_node
    open_table-some id l (leaf h) s some_left new = elim (Option-cases (ops.mem_alloc biggest s)) [
      | inl failed ↦ absurd (pool.serves biggest s (omega arith) some_left failed)
      | inr ((block, s'), e) ↦ (
        block,
        (λ _. lpm_init_node),
        s',
        rw (e, open_table) refl,
        λ i. tt,
        pool.takes biggest s s' block (omega arith) e,
      )
    ]
    open_table-some id l (inner h b nodes) s some_left new = (b, nodes, s, refl, new.1, omega arith)

    add_below-done :
        (fuel : ℕ) (prefix : ℕ → ℕ) (l id : ℕ) (p : Ptr) (parent : Node Ptr Block) (offset : ℕ)
        (s : State)
        → fuel + 2 ^ 8 ≤ room s
        → IsNew id l parent
        → offset < l
        → l ≤ offset + 8 * fuel
        → l < 2 ^ 32
        → (add_below ops fuel prefix l id p parent offset s).0 ≡ true
    add_below-done zero prefix l id p parent offset s enough new low high word =
        absurd (omega arith)
    add_below-done (suc fuel) prefix l id p parent offset s enough new low high word =
        let (block, nodes, s', opened, rest, left) =
          open_table-some id l parent s (omega arith) new in
        let k = lpm_index prefix offset 8 in
        elim (Bool-cases (ltb 8 (sub32 l offset))) [
          | inl more ↦
              add_below_deeper fuel prefix l id p parent offset s s' block nodes opened more (
                add_below-done fuel prefix l id p (nodes k) (offset + 8) s' (omega arith) (rest k)
                  (ground arith) (omega arith) word)
          | inr last ↦
              add_below_last fuel prefix l id p parent offset s s' block nodes opened last (
                insert_range-done (2 ^ (8 - sub32 l offset)) id l p
                  (clear_low k (2 ^ (8 - sub32 l offset))) 0 nodes s'
                  (omega (arith, pow_le 8 (sub32 l offset)))
                  (λ j h. IsNew-head id l (nodes j) (rest j)))
        ]

    -- If the pool has room for the entries and the tables and no entry of the table has the
    -- identifier and the length, `lpm_add` succeeds, with one unit of fuel for each 8 bits of the
    -- prefix after the first 16.
    pub lpm_add-done :
        (fuel : ℕ) (table : ℕ → Node Ptr Block) (prefix : ℕ → ℕ) (l id : ℕ) (p : Ptr) (s : State)
        → requests fuel l ≤ room s
        → ((i : ℕ) → IsNew id l (table i))
        → l ≤ 16 + 8 * fuel
        → l < 2 ^ 32
        → (lpm_add ops fuel table prefix l id p s).0 ≡ true
    unfolding lpm_add
    lpm_add-done fuel table prefix l id p s enough new high word =
        let k = lpm_index prefix 0 16 in
        elim (Bool-cases (ltb 16 l)) [
          | inl more ↦
              rw (more, lpm_add)
                (add_below-done fuel prefix l id p (table k) 16 s (rw more at enough) (new k)
                  (ground arith) high word)
          | inr last ↦
              let range = 2 ^ (16 - l) in
              let done =
                insert_range-done range id l p (clear_low k range) 0 table s (rw last at enough)
                  (λ j h. IsNew-head id l (table j) (new j)) in
              rw (last, lpm_add) (rw done refl)
        ]
