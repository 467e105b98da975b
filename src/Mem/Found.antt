-- ===== src/Mem/Found.antt =====
-- lib/lib_mem.c: how a node that is found in one of two buddies is one of their parent.
use mathlib.Core.List.{append_assoc}
use ufp.Common.{
  ℕ, ◌+◌, ◌/◌, ◌≤◌, ◌≡◌, ◌≢◌, ◌∙◌, refl, sym, ap, true, false, not, ◌||◌, none, some, List, [], ◌∷◌,
  ◌++◌, arith,
}
use ufp.Heap.{Heap}
use ufp.Mem.{
  Mnode, null, node, NodePath, is_allocated, size_of, ptr_of, node_at, new_node, merge, free_at,
}
use ufp.Mem.Tree.{IsTree, free_leaf, used_leaf, inner, Block, block, blocks, blocks-inner}

module _ {H : Type 0} (heap : Heap H) where
  abbrev pub MallocSucceeds : Type 0
  MallocSucceeds = (h : H) → heap.malloc h ≢ none

  -- The node at `path` was found in `t`, which became `t'`: it is a new block of the tree, large
  -- enough, the blocks of other clients are the same, and freeing the node gives `t` back.
  pub record IsAllocated (want : ℕ) (t : Mnode) (path : NodePath) (t' : Mnode) : Type 0 where
    pub tree : IsTree t'
    pub in_use : is_allocated t' ≡ true
    pub same_size : size_of t' ≡ size_of t
    pub same_ptr : ptr_of t' ≡ ptr_of t
    pub before : List Block
    pub after : List Block
    pub old_blocks : blocks t ≡ before ++ after
    pub new_blocks :
        blocks t' ≡ before ++ (block (ptr_of (node_at path t')) (size_of (node_at path t')) ∷ after)
    pub fits : want ≤ size_of (node_at path t')
    pub undo : (h : H) → (h' : H) × (free_at heap path t' h ≡ some (not (is_allocated t), t, h'))

  pub leaf-IsAllocated :
      (want s p : ℕ)
      → want ≤ s
      → IsAllocated want (node false s p null null) [] (node true s p null null)
  unfolding blocks free_at
  leaf-IsAllocated want s p h = record {
    tree = used_leaf s p;
    in_use = refl;
    same_size = refl;
    same_ptr = refl;
    before = [];
    after = [];
    old_blocks = refl;
    new_blocks = refl;
    fits = h;
    undo = λ h. (h, refl);
  }

  -- A tree that has the blocks of two buddies, and that freeing in one of them gives back: their
  -- parent in use, or the free node that was split into them.
  pub record IsParent (t : Mnode) (s p : ℕ) (l r : Mnode) : Type 0 where
    left_tree : IsTree l
    right_tree : IsTree r
    left_size : size_of l ≡ s / 2
    left_ptr : ptr_of l ≡ p
    right_size : size_of r ≡ s / 2
    right_ptr : ptr_of r ≡ p + s / 2
    its_size : size_of t ≡ s
    its_ptr : ptr_of t ≡ p
    its_blocks : blocks t ≡ blocks l ++ blocks r
    undo_left :
        (h : H)
        → (h' : H) × (merge heap true s p l r r (not (is_allocated l)) h
            ≡ some (not (is_allocated t), t, h'))
    undo_right :
        (h : H)
        → (h' : H) × (merge heap true s p l r l (not (is_allocated r)) h
            ≡ some (not (is_allocated t), t, h'))

  pub new-IsParent :
      (s p : ℕ)
      → IsParent (node false s p null null) s p (new_node (s / 2) p) (new_node (s / 2) (p + s / 2))
  unfolding blocks merge
  new-IsParent s p = record {
    left_tree = free_leaf (s / 2) p;
    right_tree = free_leaf (s / 2) (p + s / 2);
    left_size = refl;
    left_ptr = refl;
    right_size = refl;
    right_ptr = refl;
    its_size = refl;
    its_ptr = refl;
    its_blocks = refl;
    undo_left = λ h. (heap.free (heap.free h), refl);
    undo_right = λ h. (heap.free (heap.free h), refl);
  }

  -- a buddy in use, or the node itself in use, stops the merge
  merge-stops :
      (s p : ℕ) (l r child buddy : Mnode) (h : H)
      → (is_allocated child || is_allocated buddy) ≡ true
      → merge heap true s p l r buddy (not (is_allocated child)) h
        ≡ some (false, node true s p l r, h)
  unfolding merge
  merge-stops s p l r null null h e = absurd (cc)
  merge-stops s p l r null (node true s' p' l' r') h e = refl
  merge-stops s p l r null (node false s' p' l' r') h e = absurd (cc)
  merge-stops s p l r (node true _ _ _ _) buddy h e = refl
  merge-stops s p l r (node false _ _ _ _) null h e = absurd (cc)
  merge-stops s p l r (node false _ _ _ _) (node true s' p' l' r') h e = refl
  merge-stops s p l r (node false _ _ _ _) (node false s' p' l' r') h e = absurd (cc)

  pub inner-IsParent :
      (s p : ℕ) (l r : Mnode)
      → IsTree l
      → IsTree r
      → size_of l ≡ s / 2
      → ptr_of l ≡ p
      → size_of r ≡ s / 2
      → ptr_of r ≡ p + s / 2
      → (is_allocated l || is_allocated r) ≡ true
      → IsParent (node true s p l r) s p l r
  inner-IsParent s p l r wl wr sl pl sr pr e = record {
    left_tree = wl;
    right_tree = wr;
    left_size = sl;
    left_ptr = pl;
    right_size = sr;
    right_ptr = pr;
    its_size = refl;
    its_ptr = refl;
    its_blocks = blocks-inner s p r wl;
    undo_left = λ h. (h, merge-stops s p l r l r h e);
    undo_right = λ h. (h, merge-stops s p l r r l h (ground (arith, e)));
  }

  pub left-IsAllocated :
      (want : ℕ) (t : Mnode) (s p : ℕ) (l r : Mnode) (path : NodePath) (l' : Mnode)
      → IsParent t s p l r
      → IsAllocated want l path l'
      → IsAllocated want t (false ∷ path) (node true s p l' r)
  unfolding free_at
  left-IsAllocated want t s p l r path l' parent a = record {
    tree =
        inner a.tree parent.right_tree (a.same_size ∙ parent.left_size)
          (a.same_ptr ∙ parent.left_ptr) parent.right_size parent.right_ptr
          (ground (arith, a.in_use));
    in_use = refl;
    same_size = sym parent.its_size;
    same_ptr = sym parent.its_ptr;
    before = a.before;
    after = a.after ++ blocks r;
    old_blocks =
        parent.its_blocks
        ∙ ap (λ bs. bs ++ blocks r) a.old_blocks
        ∙ append_assoc a.before a.after (blocks r);
    new_blocks =
        blocks-inner s p r a.tree
        ∙ ap (λ bs. bs ++ blocks r) a.new_blocks
        ∙ append_assoc a.before
            (block (ptr_of (node_at path l')) (size_of (node_at path l')) ∷ a.after) (blocks r);
    fits = a.fits;
    undo = λ h.
        let (h₁, undone) = a.undo h in
        let (h₂, merged) = parent.undo_left h₁ in (h₂, rw (undone, free_at) merged);
  }

  pub right-IsAllocated :
      (want : ℕ) (t : Mnode) (s p : ℕ) (l r : Mnode) (path : NodePath) (r' : Mnode)
      → IsParent t s p l r
      → IsAllocated want r path r'
      → IsAllocated want t (true ∷ path) (node true s p l r')
  unfolding free_at
  right-IsAllocated want t s p l r path r' parent a = record {
    tree =
        inner parent.left_tree a.tree parent.left_size parent.left_ptr
          (a.same_size ∙ parent.right_size) (a.same_ptr ∙ parent.right_ptr)
          (ground (arith, a.in_use));
    in_use = refl;
    same_size = sym parent.its_size;
    same_ptr = sym parent.its_ptr;
    before = blocks l ++ a.before;
    after = a.after;
    old_blocks =
        parent.its_blocks
        ∙ ap (λ bs. blocks l ++ bs) a.old_blocks
        ∙ sym (append_assoc (blocks l) a.before a.after);
    new_blocks =
        blocks-inner s p r' parent.left_tree
        ∙ ap (λ bs. blocks l ++ bs) a.new_blocks
        ∙ sym (
            append_assoc (blocks l) a.before
              (block (ptr_of (node_at path r')) (size_of (node_at path r')) ∷ a.after));
    fits = a.fits;
    undo = λ h.
        let (h₁, undone) = a.undo h in
        let (h₂, merged) = parent.undo_right h₁ in (h₂, rw (undone, free_at) merged);
  }
