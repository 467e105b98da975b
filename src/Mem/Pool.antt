-- ===== src/Mem/Pool.antt =====
-- lib/lib_mem.c: the functions that clients call. The header of a block is the word before it, which
-- points to the block's node.
use ufp.Common.{ℕ, ◌+◌, ◌-◌, ◌%◌, ◌^◌, Bool, Option, none, some, ltb, if◌then◌else◌, update}
use ufp.Heap.{Heap}
use ufp.Mem.{Mnode, NodePath, ptr_of, node_at, alloc_below, free_at}

-- `struct ufp_mpool`, with the words that are written to its memory as headers
pub record Mpool (H : Type 0) : Type 0 where
  pub tree : Mnode
  pub header : ℕ → NodePath
  pub heap : H

abbrev pub size_header : ℕ
size_header = 8

-- A size is below 2 ^ 64, and each level halves it.
abbrev pub levels : ℕ
levels = 64

abbrev pub max : ℕ → ℕ → ℕ
max a b = if ltb b a then a else b

module _ {H : Type 0} where
  -- what is done with the node that is found
  abbrev pub use_node : Mpool H → Option NodePath × Mnode × H → Option ℕ × Mpool H
  use_node pool (none, tree, h) = (none, record pool { tree = tree; heap = h })
  use_node pool (some path, tree, h) =
      let header = ptr_of (node_at path tree) in
      (
        some (header + size_header),
        record { tree = tree; header = update pool.header header path; heap = h },
      )

  abbrev pub use_node_align :
      (align : ℕ) → Mpool H → Option NodePath × Mnode × H → Option ℕ × Mpool H
  use_node_align align pool (none, tree, h) = (none, record pool { tree = tree; heap = h })
  use_node_align align pool (some path, tree, h) =
      let ptr = ptr_of (node_at path tree) in
      let offset = align - (ptr + size_header) % align in
      let header = ptr + offset in
      (
        some (header + size_header),
        record { tree = tree; header = update pool.header header path; heap = h },
      )

  -- what a client holds once the node is freed
  abbrev pub after_free : Mpool H → Option (Bool × Mnode × H) → Option (Mpool H)
  after_free pool none = none
  after_free pool (some (up, tree, h)) = some (record pool { tree = tree; heap = h })

module _ {H : Type 0} (heap : Heap H) where
  unfoldable pub ufp_mem_alloc : ℕ → Mpool H → Option ℕ × Mpool H
  ufp_mem_alloc size pool =
      use_node pool (alloc_below heap levels ((size_header + size) % 2 ^ 64) pool.tree pool.heap)

  -- `page_size` is `getpagesize()`.
  unfoldable pub ufp_mem_alloc_align : (page_size size align : ℕ) → Mpool H → Option ℕ × Mpool H
  ufp_mem_alloc_align page_size size align pool =
      let a = max align page_size in
      use_node_align a pool
        (alloc_below heap levels ((a + size_header + size) % 2 ^ 64) pool.tree pool.heap)

  -- `none` where `_ufp_mem_free` reads through NULL
  unfoldable pub ufp_mem_free : ℕ → Mpool H → Option (Mpool H)
  ufp_mem_free addr pool =
      after_free pool (free_at heap (pool.header (addr - size_header)) pool.tree pool.heap)
