-- ===== src/I40e/Hmc/Address.antt =====
-- dev/i40e/i40e_hmc.c: where the context of a queue lies.
use ufp.Common.{
  ℕ, ◌+◌, ◌-◌, ◌*◌, ◌/◌, ◌%◌, ◌^◌, ◌<◌, ◌≤◌, ltb, ltb→lt, Bool-cases, ◌≡◌, inl, inr, sym, ap, arith,
  some,
}
use mathlib.Core.Option.{some-injective}
use native.Mathlib.Decide.{dec_lt}
use ufp.I40e.Hmc.{Hmc, HmcObj, i40e_hmc_va}

-- The context with the number `qp_idx` lies at `va`: at an offset in a page of a segment that there
-- is, which with the numbers of the two gives its address in the FPM, and whole in that page.
pub record IsPlaced (hmc : Hmc) (obj : HmcObj) (qp_idx va : ℕ) : Type 0 where
  pub sd_idx : ℕ
  pub pd_idx : ℕ
  pub offset : ℕ
  pub in_table : sd_idx < hmc.sd_count
  pub in_segment : pd_idx < 512
  pub at_offset : va ≡ ((hmc.sd_entry sd_idx).pd pd_idx).addr_virt + offset
  pub fpm : (sd_idx * 512 + pd_idx) * 4096 + offset ≡ qp_idx * obj.size + obj.base
  pub in_page : offset + obj.size ≤ 4096

-- of two multiples of `size` the smaller is smaller by `size`
fits :
    (size m q page offset : ℕ)
    → page * (m * size) + offset ≡ q * size
    → offset < m * size
    → offset + size ≤ m * size
fits size m q page offset e h = elim (dec_lt q (page * m + m)) [
  | yes lt ↦
      let k = page * m + m - q - 1 in
      let e' : q + 1 + k ≡ page * m + m = omega arith in
      let e'' : (q + 1 + k) * size ≡ (page * m + m) * size = ap (λ (t : ℕ). t * size) e' in
      grind arith
  | no ge ↦
      let k = q - (page * m + m) in
      let e' : page * m + m + k ≡ q = omega arith in
      let e'' : (page * m + m + k) * size ≡ q * size = ap (λ (t : ℕ). t * size) e' in
      absurd (grind arith)
]

-- Where the size of a context divides that of a page and the base of the contexts, and no address in
-- the FPM is too large: an address that the code computes for a context is that of its place.
pub i40e_hmc_va-IsPlaced :
    (hmc : Hmc) (obj : HmcObj) (qp_idx va m b : ℕ)
    → m * obj.size ≡ 4096
    → obj.base ≡ b * obj.size
    → qp_idx * obj.size + obj.base < 2 ^ 44
    → i40e_hmc_va hmc obj qp_idx ≡ some va
    → IsPlaced hmc obj qp_idx va
unfolding i40e_hmc_va
i40e_hmc_va-IsPlaced hmc obj qp_idx va m b whole aligned small e =
    let fpm = qp_idx * obj.size + obj.base in
    let page = fpm / 4096 in
    let fpm₀ = fpm % 2 ^ 64 in
    let page₀ = fpm₀ / 4096 % 2 ^ 32 in
    let same : fpm % 2 ^ 64 ≡ fpm = omega arith in
    let same_page : fpm % 2 ^ 64 / 4096 % 2 ^ 32 ≡ page = omega arith in
    elim (Bool-cases (ltb (fpm % 2 ^ 64 / 4096 % 2 ^ 32 / 512) hmc.sd_count)) [
      | inl there ↦
          let found : some (((hmc.sd_entry (page₀ / 512)).pd (page₀ % 512)).addr_virt + fpm₀ % 4096)
              ≡ some va =
            rw (there, i40e_hmc_va) at e in
          let within : fpm % 4096 + obj.size ≤ 4096 = rw whole at (
            fits obj.size m (qp_idx + b) page (fpm % 4096) (grind arith)
              (rw whole (omega arith))) in
          record {
            sd_idx = page₀ / 512;
            pd_idx = page₀ % 512;
            offset = fpm₀ % 4096;
            in_table = ltb→lt (page₀ / 512) hmc.sd_count there;
            in_segment = omega arith;
            at_offset = sym (some-injective _ _ found);
            fpm = omega (arith, same, same_page);
            in_page = rw same within;
          }
      | inr beyond ↦ absurd (cc (rw (beyond, i40e_hmc_va) at e))
    ]
