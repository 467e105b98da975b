-- ===== src/Lpm/InsertRange.antt =====
-- src/lpm.c: the insertion loop puts the entry into each node of its range.
use ufp.Common.{
  ℕ, zero, suc, ◌+◌, ◌≡◌, refl, true, false, some, arith, inl, inr, Option-cases, update,
}
use ufp.Lpm.{Callbacks, Entry, Node, entry_bytes, head_of}
use ufp.Lpm.Update.{lpm_entry_insert, insert_one, insert_range}
use ufp.Lpm.Spec.{Laws, in_range, insert_by_len}
use ufp.Lpm.Insert.{insert_by_len-IsLengthChange, lpm_entry_insert-ptrs}
use ufp.Lpm.Range.{
  Replaced, Changed, HeadSorted, Replaced-HeadSorted, update-HeadSorted, Changed-suc,
}

module _ {Ptr Block State : Type 0} (ops : Callbacks Ptr Block State) (laws : Laws ops) where
  open laws use {len}

  insert_one-Replaced :
      (id l : ℕ) (p : Ptr) (node new : Node Ptr Block) (s : State)
      → (insert_one ops id l p node s).0 ≡ some new
      → len p ≡ l
      → HeadSorted len node
      → Replaced len (insert_by_len len p) node new
  unfolding insert_one
  insert_one-Replaced id l p node new s run long sorted =
      elim (Option-cases (ops.mem_alloc entry_bytes s)) [
        | inl no_memory ↦ ground (arith, no_memory)
        | inr ((block, s₁), got) ↦
            let e : Entry Ptr Block = record { ptr = p; block = block } in
            elim (Option-cases (lpm_entry_insert ops (head_of node) id l e s₁)) [
              | inl exists ↦ ground (arith, got, exists)
              | inr ((h, s₂), done) ↦ (
                h,
                ground (arith, got, done),
                lpm_entry_insert-ptrs ops laws (head_of node) h id l e s₁ s₂ done long sorted,
              )
            ]
      ]

  pub insert_range-Changed :
      (n id l : ℕ) (p : Ptr) (index i : ℕ) (nodes : ℕ → Node Ptr Block) (s : State)
      → (insert_range ops n id l p index i nodes s).0 ≡ true
      → len p ≡ l
      → ((j : ℕ) → HeadSorted len (nodes j))
      → (j : ℕ)
      → Changed len
          (in_range (index + i) n j)
          (insert_by_len len p)
          (nodes j)
          ((insert_range ops n id l p index i nodes s).2 j)
  unfolding insert_range
  insert_range-Changed zero id l p index i nodes s run long sorted j =
      let e : in_range (index + i) 0 j ≡ false = ground arith in rw e refl
  insert_range-Changed (suc n) id l p index i nodes s run long sorted j =
      elim (Option-cases (insert_one ops id l p (nodes (index + i)) s).0) [
        | inl stopped ↦ ground (arith, stopped)
        | inr (new, went_on) ↦
            let s₁ = (insert_one ops id l p (nodes (index + i)) s).1 in
            let nodes' = update nodes (index + i) new in
            let step : insert_range ops (suc n) id l p index i nodes s
                ≡ insert_range ops n id l p index (i + 1) nodes' s₁ =
              rw (went_on, insert_range) in
            let one = insert_one-Replaced id l p _ new s went_on long (sorted (index + i)) in
            let new_sorted =
              Replaced-HeadSorted len _ (insert_by_len-IsLengthChange len p) _ new one
                (sorted (index + i)) in
            let sorted' = update-HeadSorted len nodes (index + i) new sorted new_sorted in
            let rest =
              insert_range-Changed n id l p index (i + 1) nodes' s₁ (rw step at run) long sorted'
                j in
            rw step (
              Changed-suc len nodes (index + i) new (insert_by_len len p) (index + (i + 1)) n j _
                (omega arith) one rest)
      ]
