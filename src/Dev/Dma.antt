-- ===== src/Dev/Dma.antt =====
-- lib/lib_dev.c: memory for DMA. The C library's heap, `mmap`, `munmap` and the mapping of
-- addresses for the device are parameters.
use ufp.Common.{
  ℕ, ◌+◌, ◌-◌, ◌*◌, ◌/◌, ◌%◌, ◌^◌, ◌≡◌, inl, inr, ap, ◌∙◌, Option, none, some, Option-cases,
}

pub record DevBuf : Type 0 where
  pub addr_virt : ℕ
  pub addr_dma : ℕ
  pub size : ℕ

pub record System (S : Type 0) : Type 0 where
  pub malloc : S → Option S
  pub free : S → S
  pub mmap : ℕ → S → Option (ℕ × S)
  pub munmap : (addr size : ℕ) → S → S
  pub ufp_vfio_dma_map : (addr size : ℕ) → S → Option (ℕ × S)
  pub ufp_vfio_dma_unmap : (addr_dma size : ℕ) → S → S

-- `ALIGN`, for a power of 2
abbrev pub align : ℕ → ℕ → ℕ
align x a = (x + (a - 1)) % 2 ^ 64 / a * a

module _ {S : Type 0} (system : System S) (page_size : ℕ) where
  open system use {malloc, free, mmap, munmap, ufp_vfio_dma_map, ufp_vfio_dma_unmap}

  unfoldable pub ufp_dev_dma_alloc : ℕ → S → Option DevBuf × S
  ufp_dev_dma_alloc size s = elim (malloc s) [
    | none ↦ (none, s)
    | some s₁ ↦ elim (mmap (align size page_size) s₁) [
      | none ↦ (none, free s₁)
      | some (addr_virt, s₂) ↦ elim (ufp_vfio_dma_map addr_virt (align size page_size) s₂) [
        | none ↦ (none, free (munmap addr_virt (align size page_size) s₂))
        | some (addr_dma, s₃) ↦
            (some (record { addr_virt = addr_virt; addr_dma = addr_dma; size = size }), s₃)
      ]
    ]
  ]

  unfoldable pub ufp_dev_dma_free : DevBuf → S → S
  ufp_dev_dma_free buf s =
      munmap buf.addr_virt (align buf.size page_size)
        (ufp_vfio_dma_unmap buf.addr_dma (align buf.size page_size) s)

  -- each call of the system that gives a resource is undone by the one that takes it back
  pub record IsUndone : Type 0 where
    pub free_malloc : {s s' : S} → malloc s ≡ some s' → free s' ≡ s
    pub munmap_mmap :
        {size addr : ℕ} {s s' : S} → mmap size s ≡ some (addr, s') → munmap addr size s' ≡ s
    pub unmap_map :
        {addr size addr_dma : ℕ} {s s' : S}
        → ufp_vfio_dma_map addr size s ≡ some (addr_dma, s')
        → ufp_vfio_dma_unmap addr_dma size s' ≡ s

  -- An allocation and then the call that frees its buffer leave the struct of the buffer allocated.
  pub data IsLeaky (s : S) : Option DevBuf × S → Type 0 where
    refused : IsLeaky s (none, s)
    granted :
        (buf : DevBuf) (s₁ s' : S)
        → malloc s ≡ some s₁
        → ufp_dev_dma_free buf s' ≡ s₁
        → IsLeaky s (some buf, s')

  -- An allocation that fails leaves the system as it was. After one that succeeds,
  -- `ufp_dev_dma_free` undoes all of it but the `malloc` of the struct. Each call of the system
  -- that takes a resource back undoes the one that gave it.
  pub ufp_dev_dma_alloc-IsLeaky :
      (size : ℕ) (s : S) → IsUndone → IsLeaky s (ufp_dev_dma_alloc size s)
  unfolding ufp_dev_dma_alloc ufp_dev_dma_free
  ufp_dev_dma_alloc-IsLeaky size s laws = elim (Option-cases (malloc s)) [
    | inl e ↦ rw (e, ufp_dev_dma_alloc) refused
    | inr (s₁, e) ↦ elim (Option-cases (mmap (align size page_size) s₁)) [
      | inl e' ↦ rw (e, e', laws.free_malloc e, ufp_dev_dma_alloc) refused
      | inr ((addr_virt, s₂), e') ↦
          elim (Option-cases (ufp_vfio_dma_map addr_virt (align size page_size) s₂)) [
            | inl e'' ↦
                rw (e, e', e'', laws.munmap_mmap e', laws.free_malloc e, ufp_dev_dma_alloc) refused
            | inr ((addr_dma, s₃), e'') ↦
                rw (e, e', e'', ufp_dev_dma_alloc)
                  (granted (record { addr_virt = addr_virt; addr_dma = addr_dma; size = size }) s₁
                    s₃ e
                    (ap (λ s. munmap addr_virt (align size page_size) s) (laws.unmap_map e'')
                      ∙ laws.munmap_mmap e'))
          ]
    ]
  ]
