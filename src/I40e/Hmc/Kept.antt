-- ===== src/I40e/Hmc/Kept.antt =====
-- dev/i40e/i40e_hmc.c: the memory that setting the context of a queue leaves alone.
use ufp.Common.{
  ℕ, zero, suc, ◌+◌, ◌/◌, ◌<◌, ◌≤◌, Bool, true, false, ◌≡◌, ◌≢◌, ◌⊎◌, inl, inr, refl, ◌∙◌, arith,
  Option, none, some, List, [], ◌∷◌, update_ne,
}
use native.Mathlib.Decide.{dec_lt}
use ufp.I40e.Hmc.{Hmc, HmcObj, i40e_hmc_va}
use ufp.I40e.Hmc.Context.{
  HmcCe, CtxRx, CtxTx, hmc_ce_rx, hmc_ce_tx, write_bytes, i40e_hmc_write, write_fields, set_ctx,
  memset_0, i40e_hmc_set_ctx_rx, i40e_hmc_set_ctx_tx,
}

-- an address outside of the `size` bytes at `addr`
pub Outside : (addr size a : ℕ) → Type 0
Outside addr size a = (a < addr) ⊎ (addr + size ≤ a)

-- a field whose bytes are among the first `size` of a context
IsWithin : (size : ℕ) → List HmcCe → Type 0
IsWithin size [] = Unit
IsWithin size (f ∷ rest) = (f.lsb / 8 + f.size_of ≤ size) × IsWithin size rest

write_bytes-Outside :
    (n i prev_data prev_mask dst : ℕ) (f : HmcCe) (m : ℕ → ℕ) (a : ℕ)
    → Outside (dst + i) n a
    → write_bytes n i prev_data prev_mask dst f m a ≡ m a
unfolding write_bytes Outside
write_bytes-Outside zero i prev_data prev_mask dst f m a out = refl
write_bytes-Outside (suc n) i prev_data prev_mask dst f m a out =
    let other : a ≢ dst + i = λ e. elim out [ inl lt ↦ omega arith | inr ge ↦ omega arith ] in
    let out' : Outside (dst + suc i) n a = elim out [
      | inl lt ↦ inl (omega arith)
      | inr ge ↦ inr (omega arith)
    ] in
    write_bytes-Outside n (suc i) _ _ dst f _ a out' ∙ update_ne m (dst + i) _ a other

write_fields-Outside :
    (hmc_bits size : ℕ) (fields : List HmcCe) (m : ℕ → ℕ) (a : ℕ)
    → IsWithin size fields
    → Outside hmc_bits size a
    → write_fields hmc_bits fields m a ≡ m a
unfolding write_fields i40e_hmc_write IsWithin Outside
write_fields-Outside hmc_bits size [] m a within out = refl
write_fields-Outside hmc_bits size (f ∷ rest) m a (here, within) out =
    let out' : Outside (hmc_bits + f.lsb / 8 + 0) f.size_of a = elim out [
      | inl lt ↦ inl (omega arith)
      | inr ge ↦ inr (omega arith)
    ] in
    write_fields-Outside hmc_bits size rest (i40e_hmc_write hmc_bits f m) a within out
    ∙ write_bytes-Outside f.size_of 0 0 0 (hmc_bits + f.lsb / 8) f m a out'

memset_0-Outside :
    (addr size : ℕ) (m : ℕ → ℕ) (a : ℕ) → Outside addr size a → memset_0 addr size m a ≡ m a
unfolding Outside
memset_0-Outside addr size m a (inl lt) = ground arith
memset_0-Outside addr size m a (inr ge) = ground arith

-- What setting a context with an object's size does to the byte at `a`: without an address nothing,
-- and it fails; with one it succeeds, and the byte is as before or one of the context's own.
pub IsKept : (size : ℕ) (place : Option ℕ) (m : ℕ → ℕ) (a : ℕ) → Bool × (ℕ → ℕ) → Type 0
IsKept size none m a r = r ≡ (false, m)
IsKept size (some va) m a r = (r.0 ≡ true) × ((r.1 a ≡ m a) ⊎ ((va ≤ a) × (a < va + size)))

set_ctx-IsKept :
    (obj : HmcObj) (fields : List HmcCe) (place : Option ℕ) (m : ℕ → ℕ) (a : ℕ)
    → IsWithin obj.size fields
    → IsKept obj.size place m a (set_ctx obj fields place m)
unfolding IsKept Outside
set_ctx-IsKept obj fields none m a within = refl
set_ctx-IsKept obj fields (some va) m a within =
    let kept : Outside va obj.size a → write_fields va fields (memset_0 va obj.size m) a ≡ m a =
      λ out.
        write_fields-Outside va obj.size fields (memset_0 va obj.size m) a within out
        ∙ memset_0-Outside va obj.size m a out in
    elim (dec_lt a va) [
      | yes below ↦ (refl, inl (kept (inl below)))
      | no above ↦ elim (dec_lt a (va + obj.size)) [
        | yes inside ↦ (refl, inr (omega arith, inside))
        | no beyond ↦ (refl, inl (kept (inr (omega arith))))
      ]
    ]

-- Where the device keeps at least 32 bytes for the context of a receive queue: setting it changes no
-- byte but those of the context, and none where the queue has no place for it, which fails.
pub i40e_hmc_set_ctx_rx-IsKept :
    (hmc : Hmc) (ctx : CtxRx) (qp_idx : ℕ) (m : ℕ → ℕ) (a : ℕ)
    → 32 ≤ hmc.obj_rx.size
    → IsKept hmc.obj_rx.size
        (i40e_hmc_va hmc hmc.obj_rx qp_idx)
        m
        a
        (i40e_hmc_set_ctx_rx hmc ctx qp_idx m)
unfolding i40e_hmc_set_ctx_rx hmc_ce_rx IsWithin
i40e_hmc_set_ctx_rx-IsKept hmc ctx qp_idx m a large =
    set_ctx-IsKept hmc.obj_rx (hmc_ce_rx ctx) (i40e_hmc_va hmc hmc.obj_rx qp_idx) m a (ground arith)

-- Where the device keeps at least 128 bytes for the context of a transmit queue: setting it changes no
-- byte but those of the context, and none where the queue has no place for it, which fails.
pub i40e_hmc_set_ctx_tx-IsKept :
    (hmc : Hmc) (ctx : CtxTx) (qp_idx : ℕ) (m : ℕ → ℕ) (a : ℕ)
    → 128 ≤ hmc.obj_tx.size
    → IsKept hmc.obj_tx.size
        (i40e_hmc_va hmc hmc.obj_tx qp_idx)
        m
        a
        (i40e_hmc_set_ctx_tx hmc ctx qp_idx m)
unfolding i40e_hmc_set_ctx_tx hmc_ce_tx IsWithin
i40e_hmc_set_ctx_tx-IsKept hmc ctx qp_idx m a large =
    set_ctx-IsKept hmc.obj_tx (hmc_ce_tx ctx) (i40e_hmc_va hmc hmc.obj_tx qp_idx) m a (ground arith)
