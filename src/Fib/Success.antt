-- ===== src/Fib/Success.antt =====
-- src/fib.c: when `fib_route_update` succeeds.
use ufp.Common.{
  ℕ, suc, ◌<◌, ◌≤◌, ◌≡◌, ◌≢◌, refl, Bool, true, ◌||◌, Option, none, some, ◌==◌, arith, Option-cases,
  inl, inr, update,
}
use ufp.Pool.{Pool}
use ufp.Lpm.{Node}
use ufp.Lpm.Update.{lpm_add}
use ufp.Lpm.Success.{IsNew, HasRoom, biggest, requests, lpm_add-done}
use ufp.Fib.{
  FibType, PortIndex, FibEntry, FibState, af_inet, af_inet6, fib_entry_bytes, strides, new_entry,
  fib_callbacks, with_pool, end_update, fib_route_update,
}

module _ {S : Type 0} (mem : Pool S) where
  -- `room` is a number of requests of at most 4096 bytes that the pool can serve.
  pub record PoolHasRoom (room : S → ℕ) : Type 0 where
    pub serves : (n : ℕ) (pool : S) → n ≤ biggest → 0 < room pool → Pool.mem_alloc mem n pool ≢ none
    pub takes :
        (n : ℕ) (pool pool' : S) (addr : ℕ)
        → n ≤ biggest
        → Pool.mem_alloc mem n pool ≡ some (addr, pool')
        → room pool ≤ suc (room pool')

  with_pool-some :
      (s s' : FibState S) (r : Option (ℕ × S)) (addr : ℕ)
      → with_pool mem s r ≡ some (addr, s')
      → r ≡ some (addr, s'.pool)
  with_pool-some s s' none addr e = absurd (cc e)
  with_pool-some s s' (some (addr', pool)) addr e = ground (arith, e)

  fib_callbacks-HasRoom :
      (room : S → ℕ) → PoolHasRoom room → HasRoom (fib_callbacks mem) (λ s. room s.pool)
  unfolding ufp.Fib.fib_entry_pull
  fib_callbacks-HasRoom room laws = record {
    serves = λ n s small left e. elim (Option-cases (Pool.mem_alloc mem n s.pool)) [
      | inl failed ↦ laws.serves n s.pool small left failed
      | inr (r, done) ↦ absurd (ground (arith, e, done))
    ];
    takes = λ n s s' addr small e.
        laws.takes n s.pool s'.pool addr small (with_pool-some s s' _ addr e);
    same_pull = λ p s. refl;
  }

  new_entry-some :
      (addr : ℕ) (old : ℕ → ℕ) (family : ℕ) (type : FibType) (prefix : ℕ → ℕ) (l : ℕ)
      (nexthop : ℕ → ℕ) (port_index : PortIndex) (id : ℕ)
      → (family == af_inet) || (family == af_inet6) ≡ true
      → new_entry addr old family type prefix l nexthop port_index id ≢ none
  unfolding new_entry
  new_entry-some addr old family type prefix l nexthop port_index id known e =
      absurd (ground (arith, e, known))

  end_update_done :
      (addr : ℕ) (r : Bool × (ℕ → Node FibEntry ℕ) × FibState S)
      → r.0 ≡ true
      → (end_update mem addr r).0 ≡ true
  end_update_done addr r e = rw e refl

  -- If the pool has room for the entries and the tables of the prefix and one request more, the
  -- family is AF_INET or AF_INET6, the prefix has at most 128 bits, and no entry of the table has the
  -- identifier and the length, then `fib_route_update` succeeds. A prefix of up to 16 bits needs
  -- 2 ^ (16 - its length) entries, a longer one at most 14 tables and 256 entries.
  pub fib_route_update-done :
      (old : ℕ → ℕ) (table : ℕ → Node FibEntry ℕ) (family : ℕ) (type : FibType) (prefix : ℕ → ℕ)
      (prefix_len : ℕ) (nexthop : ℕ → ℕ) (port_index : PortIndex) (id : ℕ) (s : FibState S)
      (room : S → ℕ) (laws : PoolHasRoom room)
      → requests strides prefix_len < room s.pool
      → (family == af_inet) || (family == af_inet6) ≡ true
      → prefix_len ≤ 128
      → ((i : ℕ) → IsNew (fib_callbacks mem) id prefix_len (table i))
      → (fib_route_update mem old table family type prefix prefix_len nexthop port_index id s).0
        ≡ true
  unfolding fib_route_update
  fib_route_update-done old table family type prefix prefix_len nexthop port_index id s room laws
        enough known short new =
      elim (Option-cases (with_pool mem s (Pool.mem_alloc mem fib_entry_bytes s.pool))) [
        | inl failed ↦ absurd (
            (fib_callbacks-HasRoom room laws).serves fib_entry_bytes s (omega arith) (omega arith)
              failed)
        | inr ((addr, s₁), got) ↦
            elim (Option-cases
              (new_entry addr old family type prefix prefix_len nexthop port_index id)) [
                | inl failed ↦ absurd (
                    new_entry-some addr old family type prefix prefix_len nexthop port_index id
                      known failed)
                | inr (entry, filled) ↦
                    let s₂ : FibState S = record s₁ { refcount = update s₁.refcount addr 0 } in
                    let pool_laws = fib_callbacks-HasRoom room laws in
                    let used = pool_laws.takes fib_entry_bytes s s₁ addr (omega arith) got in
                    let added =
                      lpm_add-done (fib_callbacks mem) (λ s. room s.pool) pool_laws strides table
                        prefix prefix_len id entry s₂ (omega (arith, used)) new (omega arith)
                        (omega arith) in
                    rw (got, filled, fib_route_update)
                      (end_update_done addr
                        (lpm_add (fib_callbacks mem) strides table prefix prefix_len id entry s₂)
                        added)
              ]
      ]
