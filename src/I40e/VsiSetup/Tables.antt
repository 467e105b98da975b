-- ===== src/I40e/VsiSetup/Tables.antt =====
-- dev/i40e/i40e_io.c: what the tables of an interface hold.
use mathlib.Core.Path.{subst}
use native.Mathlib.Decide.{dec_lt}
use ufp.Common.{
  ℕ, zero, suc, ◌+◌, ◌*◌, ◌%◌, ◌^◌, ◌<◌, ◌≤◌, ltb, ltb→lt, Bool-cases, ◌≡◌, inl, inr, sym, ap, ◌∙◌,
  arith, get_or,
}
use ufp.I40e.VsiSetup.{power_from, lut_from, lut_size, tc_map}

-- `pow` is the least exponent whose power of 2 is not below `n`
pub record IsLeastPower (pow n : ℕ) : Type 0 where
  pub enough : n ≤ 2 ^ pow
  pub least : (p : ℕ) → p < pow → 2 ^ p < n

power_from-IsLeastPower :
    (fuel pow n : ℕ)
    → n ≤ 2 ^ (fuel + pow)
    → ((p : ℕ) → p < pow → 2 ^ p < n)
    → IsLeastPower (power_from fuel pow n) n
unfolding power_from
power_from-IsLeastPower zero pow n h below = record {
  enough = subst (λ k. n ≤ 2 ^ k) (omega arith) h;
  least = below;
}
power_from-IsLeastPower (suc fuel) pow n h below = elim (Bool-cases (ltb (2 ^ pow) n)) [
  | inl more ↦ rw more (
      power_from-IsLeastPower fuel (suc pow) n (subst (λ k. n ≤ 2 ^ k) (omega arith) h) (λ p lt.
        elim (dec_lt p pow) [
          | yes lt' ↦ below p lt'
          | no ge ↦
              let e : p ≡ pow = omega arith in
              subst (λ k. 2 ^ k < n) (sym e) (ltb→lt (2 ^ pow) n more)
        ]))
  | inr enough ↦ rw enough (record { enough = ground arith; least = below })
]

-- The number of queues of the first traffic class is given by the least exponent that is enough, in
-- the bits from 9 on, and the offset of its queues below them is 0.
pub tc_map_first :
    (num_qps : ℕ)
    → num_qps ≤ 2 ^ 32
    → (pow : ℕ) × IsLeastPower pow num_qps × (tc_map 0 num_qps ≡ pow * 2 ^ 9 % 2 ^ 16)
unfolding tc_map
tc_map_first num_qps h = (
  power_from 32 0 num_qps,
  power_from-IsLeastPower 32 0 num_qps h (λ p lt. elim lt [ ]),
  ground arith,
)

get_or-lut_from :
    (n i j num_qps : ℕ) → j < n → get_or (lut_from n i num_qps) j 0 ≡ (i + j) % num_qps % 2 ^ 8
unfolding lut_from
get_or-lut_from zero i j num_qps h = absurd (omega arith)
get_or-lut_from (suc n) i zero num_qps h = ap (λ (k : ℕ). k % num_qps % 2 ^ 8) (omega arith)
get_or-lut_from (suc n) i (suc j) num_qps h =
    get_or-lut_from n (suc i) j num_qps (omega arith)
    ∙ ap (λ (k : ℕ). k % num_qps % 2 ^ 8) (omega arith)

reduced :
    (j num_qps : ℕ)
    → j % num_qps < num_qps
    → num_qps ≤ 256
    → (0 + j) % num_qps % 2 ^ 8 ≡ j % num_qps
reduced j num_qps h le = let e : 0 + j ≡ j = omega arith in rw e (omega arith)

-- Every entry of the table by which received packets are spread over the queues is a queue of the
-- interface, for up to 256 queues, and the entries take the queues in turn.
pub lut_from-bounds :
    (j num_qps : ℕ)
    → j < lut_size
    → 0 < num_qps
    → num_qps ≤ 256
    → (get_or (lut_from lut_size 0 num_qps) j 0 < num_qps)
      × (get_or (lut_from lut_size 0 num_qps) j 0 ≡ j % num_qps)
lut_from-bounds j num_qps h pos le =
    let small : j % num_qps < num_qps = grind arith in
    let e : get_or (lut_from lut_size 0 num_qps) j 0 ≡ j % num_qps =
      get_or-lut_from lut_size 0 j num_qps h ∙ reduced j num_qps small le in
    (rw e small, e)
