-- ===== src/Lpm/Add.antt =====
-- src/lpm.c, `lpm_add`: a prefix that is added becomes a route to the destinations that it covers,
-- and to no others.
use native.Mathlib.Nat.{add-zero}
use mathlib.Core.Path.{subst}
use ufp.Common.{
  ℕ, ◌-◌, ◌^◌, ◌<◌, ◌≡◌, refl, true, false, ltb, ◌==◌, arith, Bool-cases, inl, inr, update,
}
use ufp.Lpm.{Callbacks, Node, lpm_index, clear_low}
use ufp.Lpm.Update.{insert_range, add_below, lpm_add}
use ufp.Lpm.Spec.{Laws, covers, routes, insert_by_len, IsWellFormed}
use ufp.Lpm.Insert.{insert_by_len-IsLengthChange}
use ufp.Lpm.InsertRange.{insert_range-Changed}
use ufp.Lpm.Routes.{own_list}
use ufp.Lpm.Below.{add_below-Added}
use ufp.Lpm.Change.{apply_if, Changed-IsWellFormedNode, Changed-candidates}

module _ {Ptr Block State : Type 0} (ops : Callbacks Ptr Block State) (laws : Laws ops) where
  open laws use {len}

  lpm_add_deeper :
      (fuel : ℕ) (table : ℕ → Node Ptr Block) (prefix : ℕ → ℕ) (l id : ℕ) (p : Ptr) (s : State)
      → ltb 16 l ≡ true
      → lpm_add ops fuel table prefix l id p s ≡ (
          let k = lpm_index prefix 0 16 in
          let r = add_below ops fuel prefix l id p (table k) 16 s in (r.0, update table k r.1, r.2))
  unfolding lpm_add
  lpm_add_deeper fuel table prefix l id p s more = rw (more, lpm_add) refl

  lpm_add_last :
      (fuel : ℕ) (table : ℕ → Node Ptr Block) (prefix : ℕ → ℕ) (l id : ℕ) (p : Ptr) (s : State)
      → ltb 16 l ≡ false
      → (lpm_add ops fuel table prefix l id p s).0 ≡ true
      → let range = 2 ^ (16 - l) in
        let r = insert_range ops range id l p (clear_low (lpm_index prefix 0 16) range) 0 table s in
        (r.0 ≡ true) × (lpm_add ops fuel table prefix l id p s ≡ (true, r.2, r.3))
  unfolding lpm_add
  lpm_add_last fuel table prefix l id p s last run =
      let range = 2 ^ (16 - l) in
      let r = insert_range ops range id l p (clear_low (lpm_index prefix 0 16) range) 0 table s in
      elim (Bool-cases r.0) [
        | inl done ↦ (done, rw (last, lpm_add) (rw done refl))
        | inr failed ↦ absurd (ground (arith, last, failed))
      ]

  lpm_add-routes_len :
      (fuel : ℕ) (table : ℕ → Node Ptr Block) (prefix : ℕ → ℕ) (id : ℕ) (p : Ptr) (s : State)
      → (lpm_add ops fuel table prefix (len p) id p s).0 ≡ true
      → len p < 2 ^ 32
      → IsWellFormed len table
      → IsWellFormed len (lpm_add ops fuel table prefix (len p) id p s).1
        × ((dst : ℕ → ℕ)
            → routes (lpm_add ops fuel table prefix (len p) id p s).1 dst
              ≡ apply_if (covers fuel prefix (len p) dst) (insert_by_len len p) (routes table dst))
  unfolding routes covers
  lpm_add-routes_len fuel table prefix id p s run word w =
      let l = len p in
      let f = insert_by_len len p in
      let change = insert_by_len-IsLengthChange len p in
      let k = lpm_index prefix 0 16 in
      elim (Bool-cases (ltb 16 l)) [
        | inl more ↦
            let step = lpm_add_deeper fuel table prefix l id p s more in
            let added =
              add_below-Added ops laws fuel prefix id p 0 (table k) 16 s (rw step at run)
                (ground arith) word (w k) in
            rw step (
              λ i. elim (Bool-cases (i == k)) [ inl e ↦ rw e added.0 | inr e ↦ rw e (w i) ],
              λ dst.
                  let i = lpm_index dst 0 16 in
                  elim (Bool-cases (i == k)) [
                    | inl e ↦
                        let same : i ≡ k = ground arith in rw (e, more) (rw same (added.1 dst))
                    | inr e ↦ rw (e, more) refl
                  ],
            )
        | inr last ↦
            let (done, step) = lpm_add_last fuel table prefix l id p s last run in
            let range = 2 ^ (16 - l) in
            let base = clear_low k range in
            let changed =
              insert_range-Changed ops laws range id l p base 0 table s done refl
                (λ j. (own_list len 0 (table j) 16 (w j)).0) in
            rw step (
              λ i.
                  Changed-IsWellFormedNode len f change 0 16 (omega arith) (ground arith) _
                    (table i) _ (changed i) (w i),
              λ dst.
                  let i = lpm_index dst 0 16 in
                  rw last (
                    rw add-zero at (
                      Changed-candidates len f change 0 16 (omega arith) (ground arith) dst _
                        (table i) _ (changed i) (w i))),
            )
      ]

  -- A prefix that `lpm_add` takes leaves the table well formed, and becomes a route to exactly the
  -- destinations that it covers: behind the longer prefixes, before those of the same length.
  pub lpm_add-routes :
      (fuel : ℕ) (table : ℕ → Node Ptr Block) (prefix : ℕ → ℕ) (l id : ℕ) (p : Ptr) (s : State)
      → (lpm_add ops fuel table prefix l id p s).0 ≡ true
      → len p ≡ l
      → l < 2 ^ 32
      → IsWellFormed len table
      → IsWellFormed len (lpm_add ops fuel table prefix l id p s).1
        × ((dst : ℕ → ℕ)
            → routes (lpm_add ops fuel table prefix l id p s).1 dst
              ≡ apply_if (covers fuel prefix l dst) (insert_by_len len p) (routes table dst))
  lpm_add-routes fuel table prefix l id p s run long =
      subst
        (λ (k : ℕ).
          (lpm_add ops fuel table prefix k id p s).0 ≡ true
          → k < 2 ^ 32
          → IsWellFormed len table
          → IsWellFormed len (lpm_add ops fuel table prefix k id p s).1
            × ((dst : ℕ → ℕ)
                → routes (lpm_add ops fuel table prefix k id p s).1 dst
                  ≡ apply_if (covers fuel prefix k dst) (insert_by_len len p) (routes table dst)))
        long (lpm_add-routes_len fuel table prefix id p s) run
