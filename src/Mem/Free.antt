-- ===== src/Mem/Free.antt =====
-- lib/lib_mem.c: `_ufp_mem_free` on a tree.
use mathlib.Core.List.{append_assoc}
use ufp.Common.{
  ℕ, ◌+◌, ◌/◌, ◌≡◌, ◌∙◌, refl, sym, ap, Bool, true, false, not, ◌||◌, some, List, [], ◌∷◌, ◌++◌,
  inl, inr, arith, Bool-cases,
}
use ufp.Heap.{Heap}
use ufp.Mem.{
  Mnode, null, node, NodePath, is_allocated, size_of, ptr_of, node_at, new_node, merge, free_at,
}
use ufp.Mem.Tree.{
  IsTree, free_leaf, used_leaf, inner, Block, blocks, IsTree-not_null, blocks-inner, blocks-free,
}

module _ {H : Type 0} (heap : Heap H) where
  -- One block of `t` is gone and the others are as before; the call went on from the tree (`r.0`)
  -- exactly if no block is left in it.
  pub record IsFreed (t : Mnode) (b : Block) (r : Bool × Mnode × H) : Type 0 where
    pub tree : IsTree r.1
    pub same_size : size_of r.1 ≡ size_of t
    pub same_ptr : ptr_of r.1 ≡ ptr_of t
    pub before : List Block
    pub after : List Block
    pub old_blocks : blocks t ≡ before ++ (b ∷ after)
    pub new_blocks : blocks r.1 ≡ before ++ after
    pub reached : r.0 ≡ not (is_allocated r.1)

  -- two children of a node that is in use, after one of them has changed
  record IsPair (s p : ℕ) (l r : Mnode) : Type 0 where
    left_tree : IsTree l
    right_tree : IsTree r
    left_size : size_of l ≡ s / 2
    left_ptr : ptr_of l ≡ p
    right_size : size_of r ≡ s / 2
    right_ptr : ptr_of r ≡ p + s / 2

  merge_used :
      (s p : ℕ) (l r buddy : Mnode) (up : Bool) (h : H)
      → IsTree buddy
      → (not up || is_allocated buddy) ≡ true
      → merge heap true s p l r buddy up h ≡ some (false, node true s p l r, h)
  unfolding merge
  merge_used s p l r buddy false h w e = refl
  merge_used s p l r null true h w e = absurd (cc)
  merge_used s p l r (node true _ _ _ _) true h w e = refl
  merge_used s p l r (node false _ _ _ _) true h w e = absurd (cc)

  merge_free :
      (s p : ℕ) (l r buddy : Mnode) (h : H)
      → IsTree buddy
      → is_allocated buddy ≡ false
      → merge heap true s p l r buddy true h ≡ some (true, new_node s p, heap.free (heap.free h))
  unfolding merge
  merge_free s p l r buddy h (free_leaf s' p') e = refl
  merge_free s p l r buddy h (used_leaf s' p') e = absurd (cc)
  merge_free s p l r buddy h (inner wl wr sl pl sr pr u) e = absurd (cc)

  -- what the parent becomes
  merged :
      (t : Mnode) (b : Block) (s p : ℕ) (l' r' child buddy : Mnode) (up : Bool) (h : H)
      (before after : List Block)
      → IsPair s p l' r'
      → (is_allocated l' || is_allocated r') ≡ (is_allocated child || is_allocated buddy)
      → IsTree buddy
      → up ≡ not (is_allocated child)
      → size_of t ≡ s
      → ptr_of t ≡ p
      → blocks t ≡ before ++ (b ∷ after)
      → blocks l' ++ blocks r' ≡ before ++ after
      → (r : Bool × Mnode × H) × (merge heap true s p l' r' buddy up h ≡ some r) × IsFreed t b r
  unfolding blocks
  merged t b s p l' r' child buddy up h before after pair same_use w reached ts tp old_blocks
        new_blocks =
      elim (Bool-cases (is_allocated child || is_allocated buddy)) [
        | inl used ↦ (
          (false, node true s p l' r', h),
          merge_used s p l' r' buddy up h w (ground (arith, reached, used)),
          record {
            tree =
                inner pair.left_tree pair.right_tree pair.left_size pair.left_ptr pair.right_size
                  pair.right_ptr (same_use ∙ used);
            same_size = sym ts;
            same_ptr = sym tp;
            before = before;
            after = after;
            old_blocks = old_blocks;
            new_blocks = blocks-inner s p r' pair.left_tree ∙ new_blocks;
            reached = refl;
          },
        )
        | inr unused ↦
            let went_up : up ≡ true = ground (arith, reached, unused) in
            let buddy_free : is_allocated buddy ≡ false = ground (arith, unused) in
            let left_free : is_allocated l' ≡ false = ground (arith, same_use, unused) in
            let right_free : is_allocated r' ≡ false = ground (arith, same_use, unused) in
            (
              (true, new_node s p, heap.free (heap.free h)),
              rw went_up (merge_free s p l' r' buddy h w buddy_free),
              record {
                tree = free_leaf s p;
                same_size = sym ts;
                same_ptr = sym tp;
                before = before;
                after = after;
                old_blocks = old_blocks;
                new_blocks =
                    rw
                      (blocks-free pair.left_tree left_free, blocks-free pair.right_tree right_free)
                      at new_blocks;
                reached = refl;
              },
            )
      ]

  -- Freeing a node in use that has no children removes its block; no NULL is read.
  pub free_at-IsFreed :
      (path : NodePath) {t : Mnode} (b : Block) (h : H)
      → IsTree t
      → node_at path t ≡ node true b.size b.ptr null null
      → (r : Bool × Mnode × H) × (free_at heap path t h ≡ some r) × IsFreed t b r
  unfolding free_at blocks
  free_at-IsFreed [] b h (free_leaf s p) e = absurd (cc)
  free_at-IsFreed [] b h (used_leaf s p) e = (
    (true, node false s p null null, h),
    refl,
    record {
      tree = free_leaf s p;
      same_size = refl;
      same_ptr = refl;
      before = [];
      after = [];
      old_blocks = ground (arith, e);
      new_blocks = refl;
      reached = refl;
    },
  )
  free_at-IsFreed [] b h (inner wl wr sl pl sr pr u) e = absurd (cc (IsTree-not_null wl))
  free_at-IsFreed (false ∷ path) b h (free_leaf s p) e = absurd (cc)
  free_at-IsFreed (false ∷ path) b h (used_leaf s p) e = absurd (cc)
  free_at-IsFreed (false ∷ path) b h (inner {s} {p} {l} {r} wl wr sl pl sr pr u) e =
      let ((up, l', h'), freed, f) = free_at-IsFreed path b h wl e in
      let pair : IsPair s p l' r = record {
        left_tree = f.tree;
        right_tree = wr;
        left_size = f.same_size ∙ sl;
        left_ptr = f.same_ptr ∙ pl;
        right_size = sr;
        right_ptr = pr;
      } in
      rw (freed, free_at)
        (merged (node true s p l r) b s p l' r l' r up h' f.before (f.after ++ blocks r) pair refl
          wr f.reached refl refl
          (blocks-inner s p r wl
            ∙ ap (λ bs. bs ++ blocks r) f.old_blocks
            ∙ append_assoc f.before (b ∷ f.after) (blocks r))
          (ap (λ bs. bs ++ blocks r) f.new_blocks ∙ append_assoc f.before f.after (blocks r)))
  free_at-IsFreed (true ∷ path) b h (free_leaf s p) e = absurd (cc)
  free_at-IsFreed (true ∷ path) b h (used_leaf s p) e = absurd (cc)
  free_at-IsFreed (true ∷ path) b h (inner {s} {p} {l} {r} wl wr sl pl sr pr u) e =
      let ((up, r', h'), freed, f) = free_at-IsFreed path b h wr e in
      let pair : IsPair s p l r' = record {
        left_tree = wl;
        right_tree = f.tree;
        left_size = sl;
        left_ptr = pl;
        right_size = f.same_size ∙ sr;
        right_ptr = f.same_ptr ∙ pr;
      } in
      rw (freed, free_at)
        (merged (node true s p l r) b s p l r' r' l up h' (blocks l ++ f.before) f.after pair
          (ground arith) wl f.reached refl refl
          (blocks-inner s p r wl
            ∙ ap (λ bs. blocks l ++ bs) f.old_blocks
            ∙ sym (append_assoc (blocks l) f.before (b ∷ f.after)))
          (ap (λ bs. blocks l ++ bs) f.new_blocks ∙ sym (append_assoc (blocks l) f.before f.after)))
