-- ===== src/Mem/Alloc.antt =====
-- lib/lib_mem.c: `_ufp_mem_alloc` on a tree, while the heap gives memory for new nodes.
use mathlib.Core.Path.{subst}
use ufp.Common.{
  ℕ, zero, suc, ◌+◌, ◌*◌, ◌/◌, ◌<◌, ◌≡◌, ◌∙◌, inl, inr, refl, sym, ap, Bool, true, false, not, ◌&&◌,
  none, some, [], ◌∷◌, ltb, leb, if◌then◌else◌, arith, Bool-cases, Option-cases,
}
use ufp.Heap.{Heap}
use ufp.Mem.{
  Mnode, null, node, NodePath, size_of, new_node, split, Found, try_children, after_split,
  alloc_below,
}
use ufp.Mem.Tree.{IsTree, free_leaf, used_leaf, inner, NoRoom, NoRoom-small}
use ufp.Mem.Found.{
  MallocSucceeds, IsAllocated, IsParent, leaf-IsAllocated, new-IsParent, inner-IsParent,
  left-IsAllocated, right-IsAllocated,
}

-- a bound on the size of a tree that `fuel` levels can search for `want` bytes
abbrev pub reach : ℕ → ℕ → ℕ
reach zero want = want
reach (suc fuel) want = 2 * reach fuel want

module _ {H : Type 0} (heap : Heap H) where
  -- what a call returns: a node, or nothing, and then the tree is as before and has no room
  pub data Outcome (want : ℕ) (t : Mnode) (r : Found heap) : Type 0 where
    found :
        (path : NodePath) → r.0 ≡ some path → IsAllocated heap want t path r.1 → Outcome want t r
    failed : r.0 ≡ none → r.1 ≡ t → NoRoom want t → Outcome want t r

  try_children-Outcome :
      (want : ℕ) (search_in : Mnode → H → Found heap) (t : Mnode) (a : Bool) (s p : ℕ) (l r : Mnode)
      (h : H)
      → IsParent heap t s p l r
      → ((h : H) → Outcome want l (search_in l h))
      → ((h : H) → Outcome want r (search_in r h))
      → (NoRoom want l → NoRoom want r → (node a s p l r ≡ t) × NoRoom want t)
      → Outcome want t (try_children heap search_in a s p l r h)
  unfolding try_children
  try_children-Outcome want search_in t a s p l r h parent left right full =
      let (in_left, l', h₁) = search_in l h in
      elim (left h) [
        | found path e got ↦
            rw (e, try_children)
              (found (false ∷ path) refl (left-IsAllocated heap want t s p l r path l' parent got))
        | failed e same no_left ↦ elim (right h₁) [
          | found path e' got ↦
              rw (e, e', same, try_children)
                (found (true ∷ path) refl
                  (right-IsAllocated heap want t s p l r path (search_in r h₁).1 parent got))
          | failed e' same' no_right ↦
              let (unchanged, no_room) = full no_left no_right in
              rw (e, e', same, same', try_children) (failed refl unchanged no_room)
        ]
      ]

  -- the two results of `split` while there is memory
  split_done :
      (s p : ℕ) (h : H)
      → MallocSucceeds heap
      → (h' : H) × (split heap s p null null h
          ≡ (true, new_node (s / 2) p, new_node (s / 2) (p + s / 2), h'))
  unfolding split
  split_done s p h malloc = elim (Option-cases (heap.malloc h)) [
    | inl e ↦ absurd (malloc h e)
    | inr (h₁, e) ↦ elim (Option-cases (heap.malloc h₁)) [
      | inl e' ↦ absurd (malloc h₁ e')
      | inr (h₂, e') ↦ (h₂, rw (e, e', split) refl)
    ]
  ]

  try_children-null :
      (fuel want s p : ℕ) (h : H)
      → try_children heap (alloc_below heap fuel want) true s p null null h
        ≡ (none, node true s p null null, h)
  unfolding try_children alloc_below
  try_children-null zero want s p h = refl
  try_children-null (suc fuel) want s p h = refl

  alloc_below_here :
      (fuel want : ℕ) (a : Bool) (s p : ℕ) (l r : Mnode) (h : H)
      → ltb (s / 2) want ≡ true
      → alloc_below heap (suc fuel) want (node a s p l r) h ≡ (
          if not a && leb want s
          then (some [], node true s p l r, h)
          else (none, node a s p l r, h))
  unfolding alloc_below
  alloc_below_here fuel want a s p l r h e = rw (e, alloc_below) refl

  alloc_below_used :
      (fuel want s p : ℕ) (l r : Mnode) (h : H)
      → ltb (s / 2) want ≡ false
      → alloc_below heap (suc fuel) want (node true s p l r) h
        ≡ try_children heap (alloc_below heap fuel want) true s p l r h
  unfolding alloc_below
  alloc_below_used fuel want s p l r h e = rw (e, alloc_below) refl

  alloc_below_split :
      (fuel want s p : ℕ) (h h' : H)
      → ltb (s / 2) want ≡ false
      → split heap s p null null h ≡ (true, new_node (s / 2) p, new_node (s / 2) (p + s / 2), h')
      → alloc_below heap (suc fuel) want (node false s p null null) h
        ≡ try_children heap
            (alloc_below heap fuel want)
            false
            s
            p
            (new_node (s / 2) p)
            (new_node (s / 2) (p + s / 2))
            h'
  unfolding alloc_below
  alloc_below_split fuel want s p h h' e done =
      rw (e, alloc_below) (ap (after_split heap (alloc_below heap fuel want) s p) done)

  -- `_ufp_mem_alloc` finds a block, or leaves the tree as it is because no free node has room.
  pub alloc_below-Outcome :
      (fuel want : ℕ) {t : Mnode} (h : H)
      → MallocSucceeds heap
      → IsTree t
      → size_of t < reach fuel want
      → Outcome want t (alloc_below heap fuel want t h)
  unfolding alloc_below NoRoom
  alloc_below-Outcome zero want h malloc w enough = failed refl refl (NoRoom-small want w enough)
  alloc_below-Outcome (suc fuel) want h malloc (free_leaf s p) enough =
      elim (Bool-cases (ltb (s / 2) want)) [
        | inl small ↦
            subst (Outcome want (node false s p null null))
              (sym (alloc_below_here fuel want false s p null null h small))
              (elim (Bool-cases (leb want s)) [
                | inl fit ↦ rw fit (found [] refl (leaf-IsAllocated heap want s p (ground arith)))
                | inr large ↦ rw large (failed refl refl (ground arith))
              ])
        | inr large ↦
            let (h', done) = split_done s p h malloc in
            subst (Outcome want (node false s p null null))
              (sym (alloc_below_split fuel want s p h h' large done))
              (try_children-Outcome want (alloc_below heap fuel want) (node false s p null null)
                false s p (new_node (s / 2) p) (new_node (s / 2) (p + s / 2)) h'
                (new-IsParent heap s p)
                (λ h. alloc_below-Outcome fuel want h malloc (free_leaf (s / 2) p) (omega arith))
                (λ h.
                  alloc_below-Outcome fuel want h malloc (free_leaf (s / 2) (p + s / 2))
                    (omega arith))
                (λ no_left no_right. absurd (ground arith)))
      ]
  alloc_below-Outcome (suc fuel) want h malloc (used_leaf s p) enough =
      let used : Mnode = node true s p null null in
      elim (Bool-cases (ltb (s / 2) want)) [
        | inl small ↦
            subst (Outcome want used) (sym (alloc_below_here fuel want true s p null null h small))
              (failed refl refl (tt, tt))
        | inr large ↦
            subst (Outcome want used)
              (sym (
                alloc_below_used fuel want s p null null h large
                ∙ try_children-null fuel want s p h))
              (failed refl refl (tt, tt))
      ]
  alloc_below-Outcome (suc fuel) want h malloc (inner {s} {p} {l} {r} wl wr sl pl sr pr e) enough =
      elim (Bool-cases (ltb (s / 2) want)) [
        | inl small ↦
            subst (Outcome want (node true s p l r))
              (sym (alloc_below_here fuel want true s p l r h small))
              (failed refl refl
                (NoRoom-small want wl (ground arith), NoRoom-small want wr (ground arith)))
        | inr large ↦
            subst (Outcome want (node true s p l r))
              (sym (alloc_below_used fuel want s p l r h large))
              (try_children-Outcome want (alloc_below heap fuel want) (node true s p l r) true s p l
                r h (inner-IsParent heap s p l r wl wr sl pl sr pr e)
                (λ h. alloc_below-Outcome fuel want h malloc wl (omega arith))
                (λ h. alloc_below-Outcome fuel want h malloc wr (omega arith))
                (λ no_left no_right. (refl, (no_left, no_right))))
      ]
