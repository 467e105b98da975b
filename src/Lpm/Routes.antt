-- ===== src/Lpm/Routes.antt =====
-- Well-formed tables of src/lpm.c: the routes to a destination are sorted, and a change of a node's
-- list is a change of the routes to each destination below the node.
use ufp.Common.{ℕ, ◌+◌, ◌≤◌, ◌≡◌, sym, List, [], ◌∷◌, ◌++◌, All, arith}
use ufp.Lpm.{Entry, Node, leaf, inner, lpm_index, head_of}
use ufp.Lpm.Spec.{ptrs, candidates, IsSorted, AllLen, IsWellFormedNode, IsLengthChange}
use ufp.Lpm.Range.{Replaced}

module _ {ℓ κ} {A : Type ℓ} where
  pub All-mono : {P Q : A → Type κ} (f : (y : A) → P y → Q y) (xs : List A) → All P xs → All Q xs
  All-mono f [] h = tt
  All-mono f (x ∷ xs) h = (f x h.0, All-mono f xs h.1)

  pub All-append : (P : A → Type κ) (xs ys : List A) → All P xs → All P ys → All P (xs ++ ys)
  All-append P [] ys h k = k
  All-append P (x ∷ xs) ys h k = (h.0, All-append P xs ys h.1 k)

module _ {Ptr : Type 0} (len : Ptr → ℕ) where
  IsSorted-append :
      (m : ℕ) (xs ys : List Ptr)
      → IsSorted len xs
      → IsSorted len ys
      → All (λ y. m ≤ len y) xs
      → All (λ y. len y ≤ m) ys
      → IsSorted len (xs ++ ys)
  IsSorted-append m [] ys hx hy lo hi = hy
  IsSorted-append m (x ∷ xs) ys hx hy lo hi = (
    All-append (λ y. len y ≤ len x) xs ys hx.0 (All-mono (λ y h. omega (arith, lo.0)) ys hi),
    IsSorted-append m xs ys hx.1 hy lo.1 hi,
  )

module _ {Ptr Block : Type 0} (len : Ptr → ℕ) where
  abbrev pub OwnList : ℕ → Node Ptr Block → ℕ → Type 0
  OwnList lo node offset =
      IsSorted len (ptrs (head_of node)) × AllLen len lo offset (ptrs (head_of node))

  pub own_list :
      (lo : ℕ) (node : Node Ptr Block) (offset : ℕ)
      → IsWellFormedNode len lo node offset
      → OwnList lo node offset
  own_list lo (leaf h) offset w = w
  own_list lo (inner h b nodes) offset w = w.0

  pub candidates-AllLen :
      (dst : ℕ → ℕ) (lo : ℕ) (node : Node Ptr Block) (offset : ℕ)
      → IsWellFormedNode len lo node offset
      → lo ≤ offset + 1
      → All (λ y. lo ≤ len y) (candidates dst node offset)
  unfolding candidates
  candidates-AllLen dst lo (leaf h) offset w le = All-mono (λ y h. h.0) (ptrs h) w.1
  candidates-AllLen dst lo (inner h b nodes) offset w le =
      let i = lpm_index dst offset 8 in
      All-append (λ y. lo ≤ len y) (candidates dst (nodes i) (offset + 8)) (ptrs h)
        (All-mono (λ y k. omega arith) (candidates dst (nodes i) (offset + 8))
          (candidates-AllLen dst (offset + 1) (nodes i) (offset + 8) (w.1 i) (omega arith)))
        (All-mono (λ y k. k.0) (ptrs h) w.0.1)

  pub candidates-IsSorted :
      (dst : ℕ → ℕ) (lo : ℕ) (node : Node Ptr Block) (offset : ℕ)
      → IsWellFormedNode len lo node offset
      → IsSorted len (candidates dst node offset)
  unfolding candidates
  candidates-IsSorted dst lo (leaf h) offset w = w.0
  candidates-IsSorted dst lo (inner h b nodes) offset w =
      let i = lpm_index dst offset 8 in
      IsSorted-append len offset (candidates dst (nodes i) (offset + 8)) (ptrs h)
        (candidates-IsSorted dst (offset + 1) (nodes i) (offset + 8) (w.1 i)) w.0.0
        (All-mono (λ y k. omega arith) (candidates dst (nodes i) (offset + 8))
          (candidates-AllLen dst (offset + 1) (nodes i) (offset + 8) (w.1 i) (omega arith)))
        (All-mono (λ y k. k.1) (ptrs h) w.0.1)

  module _ (f : List Ptr → List Ptr) {l : ℕ} (c : IsLengthChange len l f) (lo offset : ℕ)
      (low : lo ≤ l) (high : l ≤ offset) where
    OwnList-change :
        (node : Node Ptr Block) (h : List (Entry Ptr Block))
        → OwnList lo node offset
        → ptrs h ≡ f (ptrs (head_of node))
        → IsSorted len (ptrs h) × AllLen len lo offset (ptrs h)
    OwnList-change node h w e =
        rw e (
          c.sorted (ptrs (head_of node)) w.0,
          c.bounded lo offset (ptrs (head_of node)) low high w.1,
        )

    pub Replaced-IsWellFormedNode :
        (old new : Node Ptr Block)
        → Replaced len f old new
        → IsWellFormedNode len lo old offset
        → IsWellFormedNode len lo new offset
    Replaced-IsWellFormedNode (leaf h) new (h', e, q) w = rw e (OwnList-change (leaf h) h' w q)
    Replaced-IsWellFormedNode (inner h b nodes) new (h', e, q) w =
        rw e (OwnList-change (inner h b nodes) h' w.0 q, w.1)

    pub Replaced-candidates :
        (dst : ℕ → ℕ) (old new : Node Ptr Block)
        → Replaced len f old new
        → IsWellFormedNode len lo old offset
        → candidates dst new offset ≡ f (candidates dst old offset)
    unfolding candidates
    Replaced-candidates dst (leaf h) new (h', e, q) w = rw e q
    Replaced-candidates dst (inner h b nodes) new (h', e, q) w =
        let i = lpm_index dst offset 8 in
        let deeper = candidates dst (nodes i) (offset + 8) in
        rw (e, q)
          (sym (
            c.longer deeper (ptrs h) (
              All-mono (λ y k. omega arith) deeper
                (candidates-AllLen dst (offset + 1) (nodes i) (offset + 8) (w.1 i) (omega arith)))))
