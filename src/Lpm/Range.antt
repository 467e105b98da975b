-- ===== src/Lpm/Range.antt =====
-- src/lpm.c: nodes of a table whose lists change.
use ufp.Common.{
  ℕ, suc, ◌+◌, ◌≡◌, refl, Bool, true, false, List, ◌==◌, arith, Bool-cases, inl, inr, update,
}
use ufp.Lpm.{Entry, Node, leaf, inner, head_of, with_head}
use ufp.Lpm.Spec.{ptrs, in_range, IsLengthChange, IsSorted}

module _ {Ptr Block : Type 0} (len : Ptr → ℕ) where
  -- the node with another list
  abbrev pub Replaced : (List Ptr → List Ptr) → Node Ptr Block → Node Ptr Block → Type 0
  Replaced f old new =
      (h : List (Entry Ptr Block)) × (new ≡ with_head h old) × (ptrs h ≡ f (ptrs (head_of old)))

  abbrev pub Changed : Bool → (List Ptr → List Ptr) → Node Ptr Block → Node Ptr Block → Type 0
  Changed true f old new = Replaced f old new
  Changed false f old new = new ≡ old

  abbrev pub HeadSorted : Node Ptr Block → Type 0
  HeadSorted node = IsSorted len (ptrs (head_of node))

  head_of-with_head :
      (h : List (Entry Ptr Block)) (node : Node Ptr Block) → head_of (with_head h node) ≡ h
  head_of-with_head h (leaf _) = refl
  head_of-with_head h (inner _ b nodes) = refl

  pub Replaced-HeadSorted :
      {l : ℕ} (f : List Ptr → List Ptr) (c : IsLengthChange len l f) (old new : Node Ptr Block)
      → Replaced f old new
      → HeadSorted old
      → HeadSorted new
  Replaced-HeadSorted f c old new (h, e, q) sorted =
      rw (e, head_of-with_head, q) (c.sorted (ptrs (head_of old)) sorted)

  module _ (nodes : ℕ → Node Ptr Block) (k : ℕ) (new : Node Ptr Block) where
    pub update-HeadSorted :
        ((j : ℕ) → HeadSorted (nodes j))
        → HeadSorted new
        → (j : ℕ) → HeadSorted (update nodes k new j)
    update-HeadSorted sorted h j = elim (Bool-cases (j == k)) [
      | inl e ↦ rw e h
      | inr e ↦ rw e (sorted j)
    ]

    -- a change of node `k`, then of the `n` nodes behind it
    pub Changed-suc :
        (f : List Ptr → List Ptr) (k' n j : ℕ) (out : Node Ptr Block)
        → k' ≡ k + 1
        → Replaced f (nodes k) new
        → Changed (in_range k' n j) f (update nodes k new j) out
        → Changed (in_range k (suc n) j) f (nodes j) out
    Changed-suc f k' n j out next one rest = elim (Bool-cases (j == k)) [
      | inl e ↦
          let same : j ≡ k = ground arith in
          let inside : in_range k (suc n) j ≡ true = ground arith in
          let outside : in_range k' n j ≡ false = ground arith in
          let last : out ≡ new = rw (outside, e) at rest in rw (inside, last, same) one
      | inr e ↦
          let alike : in_range k (suc n) j ≡ in_range k' n j = ground arith in
          rw alike (rw e at rest)
    ]
