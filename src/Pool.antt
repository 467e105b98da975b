-- ===== src/Pool.antt =====
-- What the clients of lib/lib_mem.c use of it: `ufp_mem_alloc`, which may return NULL, and
-- `ufp_mem_free`, on a state of the pool. Addresses are numbers.
use ufp.Common.{ℕ, Option}

pub record Pool (S : Type 0) : Type 0 where
  pub mem_alloc : ℕ → S → Option (ℕ × S)
  pub mem_free : ℕ → S → S
