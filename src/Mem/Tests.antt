-- ===== src/Mem/Tests.antt =====
-- lib/lib_mem.c at concrete pools.
use ufp.Common.{ℕ, suc, ◌-◌, if◌then◌else◌, ◌≡◌, refl, true, false, none, some, [], ◌∷◌, arith, ltb}
use ufp.Heap.{Heap}
use ufp.Mem.{null, node, new_node, split, try_children, alloc_below, ufp_mem_init, ufp_mem_destroy}
use ufp.Mem.Pool.{Mpool, ufp_mem_alloc, ufp_mem_alloc_align, ufp_mem_free}
use ufp.Mem.Tree.{free_leaf, used_leaf, inner, block}
use ufp.Mem.Found.{MallocSucceeds}
use ufp.Mem.Client.{
  IsPool, IsServed, IsAligned, IsReturned, ufp_mem_alloc-IsServed, ufp_mem_free-ufp_mem_alloc,
  ufp_mem_alloc_align-IsServed, ufp_mem_free-IsReturned,
}

-- a heap that counts the nodes in use, and has memory for all of them
abbrev counting : Heap ℕ
counting = record { malloc = λ n. some (suc n); free = λ n. n - 1 }

counting-MallocSucceeds : MallocSucceeds counting
counting-MallocSucceeds n e = absurd (cc)

-- a heap that has no memory for the node after the `n`-th
abbrev short : ℕ → Heap ℕ
short n = record {
  malloc = λ used. if ltb used n then some (suc used) else none;
  free = λ used. used;
}

abbrev fresh : Mpool ℕ
fresh = record { tree = new_node 4096 65536; header = λ a. []; heap = 1 }

fresh-IsPool : IsPool fresh
fresh-IsPool = record { tree = free_leaf 4096 65536; bound = omega arith }

-- the fresh pool after a request of 1000 bytes
abbrev one_block : Mpool ℕ
one_block = record {
  tree =
      node true 4096 65536
        (node true 2048 65536 (node true 1024 65536 null null) (new_node 1024 66560))
        (new_node 2048 67584);
  header = λ a. false ∷ false ∷ [];
  heap = 5;
}

one_block-IsPool : IsPool one_block
one_block-IsPool = record {
  tree =
      inner (inner (used_leaf 1024 65536) (free_leaf 1024 66560) refl refl refl refl refl)
        (free_leaf 2048 67584) refl refl refl refl refl;
  bound = omega arith;
}

init_test : ufp_mem_init counting 65536 4096 0 ≡ some (new_node 4096 65536, 1)
unfolding ufp_mem_init
init_test = refl

destroy_test : ufp_mem_destroy counting one_block.tree 5 ≡ 0
unfolding ufp_mem_destroy
destroy_test = refl

alloc_test : (ufp_mem_alloc counting 1000 fresh).1.tree ≡ one_block.tree
unfolding ufp_mem_alloc alloc_below split try_children
alloc_test = refl

-- the second request of 1000 bytes gets the buddy of the first
second_test : (ufp_mem_alloc counting 1000 one_block).0 ≡ some 66568
unfolding ufp_mem_alloc alloc_below split try_children
second_test = refl

ufp_mem_alloc-IsServed_example :
    IsServed counting 1008 1000 one_block (ufp_mem_alloc counting 1000 one_block)
ufp_mem_alloc-IsServed_example =
    ufp_mem_alloc-IsServed counting 1000 one_block counting-MallocSucceeds (omega arith)
      one_block-IsPool

alloc_addr : (ufp_mem_alloc counting 1000 fresh).0 ≡ some 65544
unfolding ufp_mem_alloc alloc_below split try_children
alloc_addr = refl

ufp_mem_free-ufp_mem_alloc_example :
    (pool' : Mpool ℕ) × (ufp_mem_free counting 65544 (ufp_mem_alloc counting 1000 fresh).1
      ≡ some pool')
    × (pool'.tree ≡ new_node 4096 65536)
ufp_mem_free-ufp_mem_alloc_example =
    ufp_mem_free-ufp_mem_alloc counting 1000 65544 fresh counting-MallocSucceeds (omega arith)
      fresh-IsPool alloc_addr

ufp_mem_alloc_align-IsServed_test :
    IsServed counting 1036 1000 one_block (ufp_mem_alloc_align counting 16 1000 28 one_block)
    × IsAligned 28 (ufp_mem_alloc_align counting 16 1000 28 one_block).0
ufp_mem_alloc_align-IsServed_test =
    ufp_mem_alloc_align-IsServed counting 16 1000 28 one_block counting-MallocSucceeds (omega arith)
      (omega arith) one_block-IsPool

ufp_mem_free-IsReturned_test :
    (pool' : Mpool ℕ) × (ufp_mem_free counting 65544 one_block ≡ some pool')
    × IsReturned one_block (block 65536 1024) pool'
ufp_mem_free-IsReturned_test =
    ufp_mem_free-IsReturned counting 65544 (block 65536 1024) one_block one_block-IsPool refl

-- A heap that runs out after the root was split leaves two children under a free node. The next
-- request of 4000 bytes gets that node with the children, and the one of 100 bytes after it gets
-- memory inside the block of the first.
abbrev failed_once : Mpool ℕ
failed_once = (ufp_mem_alloc (short 3) 500 fresh).1

overlap_test :
    let (first, pool) = ufp_mem_alloc counting 4000 failed_once in
    let (second, _) = ufp_mem_alloc counting 100 pool in
    (first ≡ some 65544) × (second ≡ some 65544)
unfolding ufp_mem_alloc alloc_below split try_children
overlap_test = (refl, refl)
