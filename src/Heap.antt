-- ===== src/Heap.antt =====
-- What the code uses of the C library's heap for one kind of struct: `malloc`, which may fail, and
-- `free`.
use ufp.Common.{Option}

pub record Heap (H : Type 0) : Type 0 where
  pub malloc : H → Option H
  pub free : H → H
