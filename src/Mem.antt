-- ===== src/Mem.antt =====
-- lib/lib_mem.c: a pool of memory as a binary tree of buddies. A node is named by its path from the
-- root (`false` for child 0), which stands for the pointer to it and for its parent pointers. The
-- nodes themselves come from the C library's heap, a parameter.
pub mod Pool
pub mod Tree
pub mod Found
pub mod Alloc
pub mod Free
pub mod Client
mod Tests
use ufp.Common.{
  ℕ, zero, suc, ◌+◌, ◌-◌, ◌/◌, ◌%◌, ◌^◌, Bool, true, false, not, ◌&&◌, Option, none, some, List, [],
  ◌∷◌, ltb, leb, if◌then◌else◌, update,
}
use ufp.Heap.{Heap}

-- `struct ufp_mnode` with its two children, or NULL
pub data Mnode : Type 0 where
  null : Mnode
  node : (allocated : Bool) (size ptr : ℕ) (child0 child1 : Mnode) → Mnode

abbrev pub NodePath : Type 0
NodePath = List Bool

abbrev pub is_allocated : Mnode → Bool
is_allocated null = false
is_allocated (node a s p l r) = a

-- what `ufp_mnode_alloc` writes to a new node
abbrev pub new_node : ℕ → ℕ → Mnode
new_node size ptr = node false size ptr null null

abbrev pub size_of : Mnode → ℕ
size_of null = 0
size_of (node a s p l r) = s

abbrev pub ptr_of : Mnode → ℕ
ptr_of null = 0
ptr_of (node a s p l r) = p

-- the node that a pointer names
abbrev pub node_at : NodePath → Mnode → Mnode
node_at path null = null
node_at [] (node a s p l r) = node a s p l r
node_at (false ∷ path) (node a s p l r) = node_at path l
node_at (true ∷ path) (node a s p l r) = node_at path r

module _ {H : Type 0} (heap : Heap H) where
  open heap use {malloc, free}

  unfoldable pub ufp_mem_init : ℕ → ℕ → H → Option (Mnode × H)
  ufp_mem_init ptr size h = elim (malloc h) [ none ↦ none | some h' ↦ some (new_node size ptr, h') ]

  -- the heap after the nodes of a tree are released, children first
  unfoldable pub ufp_mem_destroy : Mnode → H → H
  ufp_mem_destroy null h = h
  ufp_mem_destroy (node a s p l r) h = free (ufp_mem_destroy r (ufp_mem_destroy l h))

  -- The loop that makes two children in place of `l` and `r`, and `err_alloc_child`: whether both
  -- were made, the children and the heap.
  unfoldable pub split : (size ptr : ℕ) (l r : Mnode) → H → Bool × Mnode × Mnode × H
  split size ptr l r h = elim (malloc h) [
    | none ↦ (false, null, r, h)
    | some h₁ ↦ elim (malloc h₁) [
      | none ↦ (false, null, null, free h₁)
      | some h₂ ↦ (true, new_node (size / 2) ptr, new_node (size / 2) (ptr + size / 2), h₂)
    ]
  ]

  -- what `_ufp_mem_alloc` of a node returns: the node that is found, and what the call changes
  abbrev pub Found : Type 0
  Found = Option NodePath × Mnode × H

  -- the loop over both children; `search` is `_ufp_mem_alloc` of a child
  unfoldable pub try_children :
      (Mnode → H → Found) → (allocated : Bool) (size ptr : ℕ) (l r : Mnode) → H → Found
  try_children search_in a size ptr l r h =
      let (in_left, l', h₁) = search_in l h in
      let (in_right, r', h₂) = search_in r h₁ in
      elim in_left [
        | some path ↦ (some (false ∷ path), node true size ptr l' r, h₁)
        | none ↦ elim in_right [
          | some path ↦ (some (true ∷ path), node true size ptr l' r', h₂)
          | none ↦ (none, node a size ptr l' r', h₂)
        ]
      ]

  -- the call after `split`
  abbrev pub after_split : (Mnode → H → Found) → (size ptr : ℕ) → Bool × Mnode × Mnode × H → Found
  after_split search_in size ptr (false, l, r, h) = (none, node false size ptr l r, h)
  after_split search_in size ptr (true, l, r, h) = try_children search_in false size ptr l r h

  -- `_ufp_mem_alloc`, on fuel for the depth of the tree
  unfoldable pub alloc_below : ℕ → ℕ → Mnode → H → Found
  alloc_below zero want t h = (none, t, h)
  alloc_below (suc fuel) want null h = (none, null, h)
  alloc_below (suc fuel) want (node a size ptr l r) h = elim (ltb (size / 2) want) [
    | true ↦
        if not a && leb want size
        then (some [], node true size ptr l r, h)
        else (none, node a size ptr l r, h)
    | false ↦ elim a [
      | true ↦ try_children (alloc_below fuel want) true size ptr l r h
      | false ↦ after_split (alloc_below fuel want) size ptr (split size ptr l r h)
    ]
  ]

  -- the step of `_ufp_mem_free` from a child to its parent, where `up` tells that the child was
  -- just marked as free; `none` is a read through a NULL buddy
  unfoldable pub merge :
      (allocated : Bool) (size ptr : ℕ) (l r buddy : Mnode) (up : Bool)
      → H
      → Option (Bool × Mnode × H)
  merge a size ptr l r buddy false h = some (false, node a size ptr l r, h)
  merge a size ptr l r null true h = none
  merge a size ptr l r (node true _ _ _ _) true h = some (false, node a size ptr l r, h)
  merge a size ptr l r (node false _ _ _ _) true h = some (true, new_node size ptr, free (free h))

  -- `_ufp_mem_free` of the node at a path: whether the call reached this node, the new tree and
  -- the heap, or `none` if the path or a buddy is NULL.
  unfoldable pub free_at : NodePath → Mnode → H → Option (Bool × Mnode × H)
  free_at path null h = none
  free_at [] (node a size ptr l r) h = some (true, node false size ptr l r, h)
  free_at (false ∷ path) (node a size ptr l r) h = elim (free_at path l h) [
    | none ↦ none
    | some (up, l', h') ↦ merge a size ptr l' r r up h'
  ]
  free_at (true ∷ path) (node a size ptr l r) h = elim (free_at path r h) [
    | none ↦ none
    | some (up, r', h') ↦ merge a size ptr l r' l up h'
  ]
