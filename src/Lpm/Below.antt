-- ===== src/Lpm/Below.antt =====
-- src/lpm.c, `_lpm_add`: the routes below a node that it is called on.
use ufp.Common.{
  ℕ, zero, suc, ◌+◌, ◌-◌, ◌*◌, ◌^◌, ◌<◌, ◌≡◌, refl, Bool, true, false, some, List, [], ltb, sub32,
  arith, Bool-cases, Option-cases, inl, inr, update,
}
use ufp.Lpm.{
  Callbacks, Entry, Node, leaf, inner, lpm_index, clear_low, head_of, lpm_init_node, table_size_8,
  node_bytes,
}
use ufp.Lpm.Update.{insert_range, open_table, end_add, add_below}
use ufp.Lpm.Spec.{Laws, covers_below, candidates, insert_by_len, IsWellFormedNode}
use ufp.Lpm.Insert.{insert_by_len-IsLengthChange}
use ufp.Lpm.InsertRange.{insert_range-Changed}
use ufp.Lpm.Routes.{own_list}
use ufp.Lpm.Cover.{covers_below_deeper, covers_below_last}
use ufp.Lpm.Change.{OpenedTable, Effect, Effect-congr, range-Effect, child-Effect}

module _ {Ptr Block State : Type 0} (ops : Callbacks Ptr Block State) (laws : Laws ops) where
  open laws use {len}

  module _ (fuel : ℕ) (prefix : ℕ → ℕ) (l id : ℕ) (p : Ptr) (parent : Node Ptr Block) (offset : ℕ)
      (s s₁ : State) (b : Block) (nodes : ℕ → Node Ptr Block)
      (got : open_table ops parent s ≡ some (b, nodes, s₁)) (deep : offset < l)
      (word : l < 2 ^ 32) where
    add_below_deeper :
        ltb (offset + 8) l ≡ true
        → add_below ops (suc fuel) prefix l id p parent offset s ≡ (
            let i = lpm_index prefix offset 8 in
            let r = add_below ops fuel prefix l id p (nodes i) (offset + 8) s₁ in
            end_add ops (head_of parent) b r.0 (update nodes i r.1) r.2)
    unfolding add_below
    add_below_deeper more =
        let test : ltb 8 (sub32 l offset) ≡ true = ground arith in
        rw (got, add_below) (rw test refl)

    add_below_last :
        ltb (offset + 8) l ≡ false
        → add_below ops (suc fuel) prefix l id p parent offset s ≡ (
            let range = 2 ^ (8 - (l - offset)) in
            let r =
              insert_range ops range id l p
                (clear_low (lpm_index prefix offset 8) range)
                0
                nodes
                s₁ in
            end_add ops (head_of parent) b r.0 r.2 r.3)
    unfolding add_below
    add_below_last last =
        let test : ltb 8 (sub32 l offset) ≡ false = ground arith in
        let same : sub32 l offset ≡ l - offset = omega arith in
        rw (got, add_below) (rw (test, same) refl)

  -- the next table that `_lpm_add` takes or allocates
  open_table-OpenedTable :
      (p : Ptr) (lo : ℕ) (parent : Node Ptr Block) (offset : ℕ) (s s₁ : State) (b : Block)
      (nodes : ℕ → Node Ptr Block)
      → open_table ops parent s ≡ some (b, nodes, s₁)
      → IsWellFormedNode len lo parent offset
      → OpenedTable len
          (insert_by_len len p)
          (insert_by_len-IsLengthChange len p)
          lo
          parent
          offset
          nodes
  unfolding open_table candidates lpm_init_node
  open_table-OpenedTable p lo (leaf h) offset s s₁ b nodes got w =
      elim (Option-cases (ops.mem_alloc (node_bytes * table_size_8) s)) [
        | inl no_memory ↦ ground (arith, no_memory)
        | inr ((b', s'), alloc) ↦
            let e : nodes ≡ (λ _. leaf []) = ground (arith, alloc) in
            rw e (record { own = w; below = λ i. (tt, tt); split = λ dst. refl })
      ]
  open_table-OpenedTable p lo (inner h b' ns) offset s s₁ b nodes got w =
      let e : nodes ≡ ns = cc in rw e (record { own = w.0; below = w.1; split = λ dst. refl })

  end_add_done :
      (h : List (Entry Ptr Block)) (b : Block) (done : Bool) (nodes : ℕ → Node Ptr Block)
      (s : State)
      → (end_add ops h b done nodes s).0 ≡ true
      → (done ≡ true) × ((end_add ops h b done nodes s).1 ≡ inner h b nodes)
  end_add_done h b true nodes s run = (refl, refl)
  end_add_done h b false nodes s run = absurd (cc)

  -- a prefix of length `len p` is inserted below `parent`
  abbrev pub Added : ℕ → Ptr → ((ℕ → ℕ) → Bool) → Node Ptr Block → Node Ptr Block → ℕ → Type 0
  Added lo p = Effect len (insert_by_len len p) (insert_by_len-IsLengthChange len p) lo

  pub add_below-Added :
      (fuel : ℕ) (prefix : ℕ → ℕ) (id : ℕ) (p : Ptr) (lo : ℕ) (parent : Node Ptr Block) (offset : ℕ)
      (s : State)
      → (add_below ops fuel prefix (len p) id p parent offset s).0 ≡ true
      → offset < len p
      → len p < 2 ^ 32
      → IsWellFormedNode len lo parent offset
      → Added lo p
          (λ dst. covers_below fuel prefix (len p) dst offset)
          parent
          (add_below ops fuel prefix (len p) id p parent offset s).1
          offset
  add_below-Added zero prefix id p lo parent offset s run deep word w =
      absurd (unfold add_below in cc)
  add_below-Added (suc fuel) prefix id p lo parent offset s run deep word w =
      elim (Option-cases (open_table ops parent s)) [
        | inl closed ↦ absurd (unfold add_below in ground (arith, closed))
        | inr ((b, nodes, s₁), got) ↦
            let l = len p in
            let f = insert_by_len len p in
            let change = insert_by_len-IsLengthChange len p in
            let o = open_table-OpenedTable p lo parent offset s s₁ b nodes got w in
            let i = lpm_index prefix offset 8 in
            elim (Bool-cases (ltb (offset + 8) l)) [
              | inl more ↦
                  let step =
                    add_below_deeper fuel prefix l id p parent offset s s₁ b nodes got deep word
                      more in
                  let r = add_below ops fuel prefix l id p (nodes i) (offset + 8) s₁ in
                  let (done, result) =
                    end_add_done (head_of parent) b r.0 (update nodes i r.1) r.2 (rw step at run) in
                  let child =
                    add_below-Added fuel prefix id p (offset + 1) (nodes i) (offset + 8) s₁ done
                      (ground arith) word (o.below i) in
                  rw (step, result)
                    (Effect-congr len f change lo _ _ parent _ offset
                      (λ dst. covers_below_deeper fuel prefix l dst offset more)
                      (child-Effect len f change lo parent offset b nodes o deep i r.1 _ child))
              | inr last ↦
                  let step =
                    add_below_last fuel prefix l id p parent offset s s₁ b nodes got deep word
                      last in
                  let range = 2 ^ (8 - (l - offset)) in
                  let base = clear_low i range in
                  let r = insert_range ops range id l p base 0 nodes s₁ in
                  let (done, result) =
                    end_add_done (head_of parent) b r.0 r.2 r.3 (rw step at run) in
                  let changed =
                    insert_range-Changed ops laws range id l p base 0 nodes s₁ done refl
                      (λ j. (own_list len (offset + 1) (nodes j) (offset + 8) (o.below j)).0) in
                  rw (step, result)
                    (Effect-congr len f change lo _ _ parent _ offset
                      (λ dst. covers_below_last fuel prefix l dst offset last)
                      (range-Effect len f change lo parent offset b nodes o deep (base + 0) range
                        r.2 (ground arith) changed))
            ]
      ]
