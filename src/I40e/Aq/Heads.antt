-- ===== src/I40e/Aq/Heads.antt =====
-- dev/i40e/i40e_aq.c: the register that the send queue is set up with.
use mathlib.Core.Path.{subst}
use ufp.Common.{ℕ, Bool, true, false, ◌≡◌, inl, inr, refl, sym, Option, none, some, Option-cases}
use ufp.I40e.{Registers}
use ufp.Dev.Dma.{System, DevBuf}
use ufp.I40e.Aq.{AqRing, Shared}
use ufp.I40e.Aq.Sessions.{Nic}
use ufp.I40e.Aq.Setup.{
  alloc_bufs, i40e_aq_ring_alloc, with_bufs, with_desc, configure, configured, allocated, ring_init,
  asq_registers, i40e_aq_asq_init, with_arq, with_asq, i40e_aq_init, i40e_aq_arq_init,
}

-- `I40E_PF_ATQH`
abbrev pub pf_atqh : ℕ
pf_atqh = 0x00080300

module _ {R : Type 0} (system : System R) (page_size : ℕ) (hw : Registers R) (mem : Shared R) where
  abbrev HeadFrom : ℕ → Option AqRing × R → Type 0
  HeadFrom h (none, s) = Unit {0}
  HeadFrom h (some ring, s) = ring.head ≡ h

  with_bufs-head :
      (ring : AqRing) (desc : DevBuf) (r : Bool × ℕ × (ℕ → DevBuf) × R)
      → HeadFrom ring.head (with_bufs system page_size ring desc r)
  with_bufs-head ring desc (true, n, bufs, s) = refl
  with_bufs-head ring desc (false, n, bufs, s) = tt

  with_desc-head :
      (ring : AqRing) (r : Option DevBuf × R)
      → HeadFrom ring.head (with_desc system page_size ring r)
  with_desc-head ring (none, s) = tt
  with_desc-head ring (some desc, s) = elim (Option-cases (system.malloc s)) [
    | inl full ↦ rw (full, HeadFrom) tt
    | inr (s', granted) ↦
        let bufs = alloc_bufs system page_size ring.num_desc 0 ring.bufs s' in
        let e : with_desc system page_size ring (some desc, s)
            ≡ with_bufs system page_size ring desc bufs =
          rw (granted, with_desc) in
        subst (HeadFrom ring.head) (sym e) (with_bufs-head ring desc bufs)
  ]

  configured-head :
      (ring : AqRing) (r : Bool × R)
      → HeadFrom ring.head (configured system page_size hw mem ring r)
  configured-head ring (true, s) = refl
  configured-head ring (false, s) = tt

  allocated-head :
      (h : ℕ) (r : Option AqRing × R)
      → HeadFrom h r
      → HeadFrom h (allocated system page_size hw mem r)
  allocated-head h (none, s) e = tt
  allocated-head h (some ring, s) e =
      let r = configure system page_size hw mem ring s in
      subst (λ h. HeadFrom h (configured system page_size hw mem ring r)) e (configured-head ring r)

  ring_init-head :
      (ring : AqRing) (s : R) → HeadFrom ring.head (ring_init system page_size hw mem ring s)
  unfolding ring_init i40e_aq_ring_alloc
  ring_init-head ring s = elim (Option-cases (system.malloc s)) [
    | inl full ↦ rw (full, ring_init) tt
    | inr (s', granted) ↦
        rw (granted, ring_init)
          (allocated-head ring.head (i40e_aq_ring_alloc system page_size ring s')
            (with_desc-head (record ring { next_to_use = 0; next_to_clean = 0 }) _))
  ]

  -- the register for the head of the send queue, where the queues were set up
  abbrev pub InitFrom : ℕ → Bool × Nic R → Type 0
  InitFrom h (false, nic) = Unit {0}
  InitFrom h (true, nic) = nic.tx_ring.head ≡ h

  with_arq-head :
      (asq : AqRing) (nic : Nic R) (r : Option AqRing × R)
      → InitFrom asq.head (with_arq system page_size hw mem asq nic r)
  with_arq-head asq nic (none, s) = tt
  with_arq-head asq nic (some arq, s) = refl

  with_asq-head :
      (blank : AqRing) (h : ℕ) (nic : Nic R) (r : Option AqRing × R)
      → HeadFrom h r
      → InitFrom h (with_asq system page_size hw mem blank nic r)
  with_asq-head blank h nic (none, s) e = tt
  with_asq-head blank h nic (some asq, s) e =
      subst
        (λ h. InitFrom h (
          with_arq system page_size hw mem asq nic
            (i40e_aq_arq_init system page_size hw mem blank s)))
        e (with_arq-head asq nic (i40e_aq_arq_init system page_size hw mem blank s))

  pub i40e_aq_init-head :
      (blank : AqRing) (nic : Nic R)
      → InitFrom pf_atqh (i40e_aq_init system page_size hw mem blank nic)
  unfolding i40e_aq_init i40e_aq_asq_init
  i40e_aq_init-head blank nic =
      with_asq-head blank pf_atqh nic _ (ring_init-head (asq_registers blank) nic.machine)
