-- ===== src/Mem/Client.antt =====
-- lib/lib_mem.c: what a client of the pool gets.
use ufp.Common.{
  ℕ, ◌+◌, ◌-◌, ◌%◌, ◌^◌, ◌≤◌, ◌<◌, ◌≡◌, refl, true, Option, none, some, List, ◌∷◌, ◌++◌,
  update_self, arith,
}
use ufp.Heap.{Heap}
use ufp.Mem.{null, node, NodePath, size_of, ptr_of, node_at, Found, alloc_below}
use ufp.Mem.Pool.{
  Mpool, size_header, levels, max, use_node, use_node_align, ufp_mem_alloc, ufp_mem_alloc_align,
  ufp_mem_free,
}
use ufp.Mem.Tree.{IsTree, Block, block, blocks, IsPacked, NoRoom, blocks-IsPacked}
use ufp.Mem.Found.{MallocSucceeds, IsAllocated}
use ufp.Mem.Alloc.{Outcome, found, failed, alloc_below-Outcome}
use ufp.Mem.Free.{free_at-IsFreed}

module _ {H : Type 0} where
  -- a pool as `ufp_mem_init` and the functions below leave it
  pub record IsPool (pool : Mpool H) : Type 0 where
    pub tree : IsTree pool.tree
    pub bound : size_of pool.tree < 2 ^ 64

  -- the new block `b` of a pool, beside the old ones
  pub record IsGranted (pool pool' : Mpool H) (b : Block) : Type 0 where
    pub valid : IsPool pool'
    pub before : List Block
    pub after : List Block
    pub old_blocks : blocks pool.tree ≡ before ++ after
    pub new_blocks : blocks pool'.tree ≡ before ++ (b ∷ after)
    pub apart :
        IsPacked (ptr_of pool.tree) (ptr_of pool.tree + size_of pool.tree) (before ++ (b ∷ after))

-- an address, if there is one, is a multiple of the alignment
abbrev pub IsAligned : ℕ → Option ℕ → Type 0
IsAligned a none = Unit
IsAligned a (some addr) = addr % a ≡ 0

-- a pool without one of its blocks
pub record IsReturned {H : Type 0} (pool : Mpool H) (b : Block) (pool' : Mpool H) : Type 0 where
  pub valid : IsPool pool'
  pub before : List Block
  pub after : List Block
  pub old_blocks : blocks pool.tree ≡ before ++ (b ∷ after)
  pub new_blocks : blocks pool'.tree ≡ before ++ after

module _ {H : Type 0} (heap : Heap H) where
  IsAllocated-IsGranted :
      (want : ℕ) (pool pool' : Mpool H) (path : NodePath)
      → IsPool pool
      → IsAllocated heap want pool.tree path pool'.tree
      → IsGranted pool pool'
          (block (ptr_of (node_at path pool'.tree)) (size_of (node_at path pool'.tree)))
  IsAllocated-IsGranted want pool pool' path w a = record {
    valid = record { tree = a.tree; bound = omega (arith, a.same_size, w.bound) };
    before = a.before;
    after = a.after;
    old_blocks = a.old_blocks;
    new_blocks = a.new_blocks;
    apart = rw (a.new_blocks, a.same_ptr, a.same_size) at (blocks-IsPacked a.tree);
  }

  -- what an allocation returns: memory that lies in a new block, or NULL, and then no free node has
  -- room for what was asked of the tree
  pub data IsServed (want size : ℕ) (pool : Mpool H) (r : Option ℕ × Mpool H) : Type 0 where
    served :
        (b : Block) (addr : ℕ)
        → r.0 ≡ some addr
        → b.ptr + size_header ≤ addr
        → addr + size ≤ b.ptr + b.size
        → IsGranted pool r.1 b
        → IsServed want size pool r
    refused :
        r.0 ≡ none
        → r.1.tree ≡ pool.tree
        → r.1.header ≡ pool.header
        → NoRoom want pool.tree
        → IsServed want size pool r

  use_node-IsServed :
      (size : ℕ) (pool : Mpool H)
      → IsPool pool
      → (f : Found heap) → Outcome heap (size_header + size) pool.tree f
      → IsServed (size_header + size) size pool (use_node pool f)
  use_node-IsServed size pool w (some q, tree, h) (found path e a) =
      let same : q ≡ path = ground (arith, e) in
      rw same (
        served (block (ptr_of (node_at path tree)) (size_of (node_at path tree)))
          (ptr_of (node_at path tree) + size_header) refl (omega arith) (omega (arith, a.fits))
          (IsAllocated-IsGranted (size_header + size) pool (use_node pool (some path, tree, h)).1
            path w a))
  use_node-IsServed size pool w (none, tree, h) (found path e a) = absurd (cc)
  use_node-IsServed size pool w (some path, tree, h) (failed e same no_room) = absurd (cc)
  use_node-IsServed size pool w (none, tree, h) (failed e same no_room) =
      refused refl same refl no_room

  searched :
      (want : ℕ) (pool : Mpool H)
      → MallocSucceeds heap
      → 0 < want
      → want < 2 ^ 64
      → IsPool pool
      → Outcome heap want pool.tree (alloc_below heap levels (want % 2 ^ 64) pool.tree pool.heap)
  searched want pool malloc some_size h w =
      let fits : want % 2 ^ 64 ≡ want = omega arith in
      rw fits
        (alloc_below-Outcome heap levels want pool.heap malloc w.tree (omega (arith, w.bound)))

  -- A pool serves a request with the address of memory that is inside a block of the tree which is
  -- new, shares no byte with a block of another client and leaves those blocks as they were, or
  -- else answers NULL, changes nothing, and no free node has room for the request and its
  -- header. The request with its header is below 2 ^ 64, and `malloc` of nodes succeeds.
  pub ufp_mem_alloc-IsServed :
      (size : ℕ) (pool : Mpool H)
      → MallocSucceeds heap
      → size_header + size < 2 ^ 64
      → IsPool pool
      → IsServed (size_header + size) size pool (ufp_mem_alloc heap size pool)
  unfolding ufp_mem_alloc
  ufp_mem_alloc-IsServed size pool malloc h w =
      use_node-IsServed size pool w
        (alloc_below heap levels ((size_header + size) % 2 ^ 64) pool.tree pool.heap)
        (searched (size_header + size) pool malloc (omega arith) h w)

  free_used :
      (want : ℕ) (pool : Mpool H) (f : Found heap) (addr : ℕ)
      → Outcome heap want pool.tree f
      → (use_node pool f).0 ≡ some addr
      → (pool' : Mpool H) × (ufp_mem_free heap addr (use_node pool f).1 ≡ some pool')
        × (pool'.tree ≡ pool.tree)
  unfolding ufp_mem_free
  free_used want pool (none, tree, h) addr o got = absurd (cc)
  free_used want pool (some q, tree, h) addr (failed e same no_room) got = absurd (cc)
  free_used want pool (some q, tree, h) addr (found path e a) got =
      let same : q ≡ path = ground (arith, e) in
      let at : addr - size_header ≡ ptr_of (node_at q tree) = ground (arith, got) in
      let (h', undone) = a.undo h in
      (
        record { tree = pool.tree; header = (use_node pool (some q, tree, h)).1.header; heap = h' },
        rw (at, update_self pool.header (ptr_of (node_at q tree)) q, same, undone) refl,
        refl,
      )

  -- Freeing what `ufp_mem_alloc` has just returned gives back the tree as it was, whatever was split
  -- for the request, and reads no NULL. The request with its header is below 2 ^ 64, and `malloc` of
  -- nodes succeeds.
  pub ufp_mem_free-ufp_mem_alloc :
      (size addr : ℕ) (pool : Mpool H)
      → MallocSucceeds heap
      → size_header + size < 2 ^ 64
      → IsPool pool
      → (ufp_mem_alloc heap size pool).0 ≡ some addr
      → (pool' : Mpool H) × (ufp_mem_free heap addr (ufp_mem_alloc heap size pool).1 ≡ some pool')
        × (pool'.tree ≡ pool.tree)
  unfolding ufp_mem_alloc
  ufp_mem_free-ufp_mem_alloc size addr pool malloc h w got =
      free_used (size_header + size) pool
        (alloc_below heap levels ((size_header + size) % 2 ^ 64) pool.tree pool.heap) addr
        (searched (size_header + size) pool malloc (omega arith) h w) got

  use_node_align-IsServed :
      (size a : ℕ) (pool : Mpool H)
      → 0 < a
      → IsPool pool
      → (f : Found heap) → Outcome heap (a + size_header + size) pool.tree f
      → IsServed (a + size_header + size) size pool (use_node_align a pool f)
  use_node_align-IsServed size a pool some_align w (some q, tree, h) (found path e g) =
      let same : q ≡ path = ground (arith, e) in
      let header = ptr_of (node_at path tree) + size_header in
      let short : header % a < a = grind arith in
      rw same (
        served (block (ptr_of (node_at path tree)) (size_of (node_at path tree)))
          (ptr_of (node_at path tree) + (a - header % a) + size_header) refl (omega arith)
          (omega (arith, g.fits, short))
          (IsAllocated-IsGranted (a + size_header + size) pool
            (use_node_align a pool (some path, tree, h)).1 path w g))
  use_node_align-IsServed size a pool some_align w (none, tree, h) (found path e g) = absurd (cc)
  use_node_align-IsServed size a pool some_align w (some q, tree, h) (failed e same no_room) =
      absurd (cc)
  use_node_align-IsServed size a pool some_align w (none, tree, h) (failed e same no_room) =
      refused refl same refl no_room

  use_node_align-IsAligned :
      (a : ℕ) (pool : Mpool H) (f : Found heap) → 0 < a → IsAligned a (use_node_align a pool f).0
  use_node_align-IsAligned a pool (none, tree, h) some_align = tt
  use_node_align-IsAligned a pool (some q, tree, h) some_align =
      let x = ptr_of (node_at q tree) + size_header in grind arith

  -- `ufp_mem_alloc_align` serves a request as `ufp_mem_alloc` does, for a block that has room for
  -- the alignment too, and the address is a multiple of the larger of the alignment and the page
  -- size. The page size is not 0, the three sizes together with the header are below 2 ^ 64, and
  -- `malloc` of nodes succeeds.
  pub ufp_mem_alloc_align-IsServed :
      (page_size size align : ℕ) (pool : Mpool H)
      → MallocSucceeds heap
      → 0 < page_size
      → max align page_size + size_header + size < 2 ^ 64
      → IsPool pool
      → IsServed
          (max align page_size + size_header + size)
          size
          pool
          (ufp_mem_alloc_align heap page_size size align pool)
        × IsAligned (max align page_size) (ufp_mem_alloc_align heap page_size size align pool).0
  unfolding ufp_mem_alloc_align
  ufp_mem_alloc_align-IsServed page_size size align pool malloc some_page h w =
      let a = max align page_size in
      let some_align : 0 < a = ground arith in
      let f = alloc_below heap levels ((a + size_header + size) % 2 ^ 64) pool.tree pool.heap in
      (
        use_node_align-IsServed size a pool some_align w f
            (searched (a + size_header + size) pool malloc (omega arith) h w),
        use_node_align-IsAligned a pool f some_align,
      )

  -- Freeing an address whose header names a block that a client holds takes exactly that block out
  -- of the pool, leaves the blocks of all others, merges buddies into a valid tree, and reads no
  -- NULL.
  pub ufp_mem_free-IsReturned :
      (addr : ℕ) (b : Block) (pool : Mpool H)
      → IsPool pool
      → node_at (pool.header (addr - size_header)) pool.tree ≡ node true b.size b.ptr null null
      → (pool' : Mpool H) × (ufp_mem_free heap addr pool ≡ some pool') × IsReturned pool b pool'
  unfolding ufp_mem_free
  ufp_mem_free-IsReturned addr b pool w e =
      let ((up, tree, h), freed, f) =
        free_at-IsFreed heap (pool.header (addr - size_header)) b pool.heap w.tree e in
      (
        record { tree = tree; header = pool.header; heap = h },
        rw freed refl,
        record {
          valid = record { tree = f.tree; bound = omega (arith, f.same_size, w.bound) };
          before = f.before;
          after = f.after;
          old_blocks = f.old_blocks;
          new_blocks = f.new_blocks;
        },
      )
