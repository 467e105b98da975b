-- ===== src/I40e/Aq/Areas.antt =====
-- dev/i40e/i40e_aq.c: the areas of memory that the two queues map.
use mathlib.Core.Path.{subst}
use ufp.Common.{
  ℕ, zero, suc, ◌+◌, ◌-◌, ◌*◌, ◌==◌, Bool, true, false, Bool-cases, ◌≡◌, inl, inr, refl, sym, ap,
  ◌∙◌, arith, Option, none, some, Option-cases, update,
}
use ufp.I40e.{Registers}
use ufp.I40e.Mapped.{mapping, total, of_buf, total-push}
use ufp.Dev.Dma.{System, DevBuf, align, ufp_dev_dma_alloc, ufp_dev_dma_free}
use ufp.I40e.Aq.{
  AqDesc, AqRing, Shared, max_aq_buf_size, i40e_aq_desc_unused, i40e_aq_arq_assign, assign_events,
  next_index, event_desc,
}
use ufp.I40e.Aq.Sessions.{Nic}
use ufp.I40e.Aq.Setup.{
  alloc_bufs, free_bufs, i40e_aq_ring_alloc, i40e_aq_ring_release, configure, ring_init,
  i40e_aq_asq_init, i40e_aq_arq_init, shutdown, i40e_aq_init, aq_len, with_bufs, with_desc,
  configured, allocated, with_events, with_arq, with_asq, shutdown_both, asq_registers,
  arq_registers,
}
use ufp.I40e.Aq.Indices.{IsRing, i40e_aq_arq_assign-full}

module _ {R : Type 0} (system : System R) (page_size : ℕ) (hw : Registers R) (mem : Shared R)
    (area : ℕ × ℕ) (areas : R → ℕ) where
  open system use {malloc, free, mmap, munmap, ufp_vfio_dma_map, ufp_vfio_dma_unmap}

  -- `areas` counts how often the address and the size of `area` are mapped: `mmap` gives an area, and
  -- `munmap` takes back the one of its address and size. Nothing else changes the number.
  pub record IsCounted : Type 0 where
    pub by_mmap :
        (size addr : ℕ) (s s' : R)
        → mmap size s ≡ some (addr, s')
        → areas s' ≡ areas s + mapping area addr size
    pub by_munmap :
        (addr size : ℕ) (s : R) → areas (munmap addr size s) ≡ areas s - mapping area addr size
    pub same_malloc : (s s' : R) → malloc s ≡ some s' → areas s' ≡ areas s
    pub same_free : (s : R) → areas (free s) ≡ areas s
    pub same_map :
        (addr size addr_dma : ℕ) (s s' : R)
        → ufp_vfio_dma_map addr size s ≡ some (addr_dma, s')
        → areas s' ≡ areas s
    pub same_unmap : (addr size : ℕ) (s : R) → areas (ufp_vfio_dma_unmap addr size s) ≡ areas s
    pub same_read : (reg : ℕ) (s : R) → areas (hw.read32 reg s).1 ≡ areas s
    pub same_write : (reg value : ℕ) (s : R) → areas (hw.write32 reg value s) ≡ areas s
    pub same_store :
        (ring index : ℕ) (desc : AqDesc) (s : R)
        → areas (mem.store_desc ring index desc s) ≡ areas s

  abbrev weight : DevBuf → ℕ
  weight buf = of_buf page_size area buf

  -- how often the area is among the buffers and the descriptors of a ring
  abbrev pub of_ring : AqRing → ℕ
  of_ring ring = weight ring.desc + total weight ring.num_desc 0 ring.bufs

  -- what an allocation of a buffer leaves, where there were `a` areas before it
  abbrev pub BufFrom : (a : ℕ) → Option DevBuf × R → Type 0
  BufFrom a (none, s) = areas s ≡ a
  BufFrom a (some buf, s) = areas s ≡ a + weight buf

  -- what an allocation of a ring leaves
  abbrev pub RingFrom : (a n : ℕ) → Option AqRing × R → Type 0
  RingFrom a n (none, s) = areas s ≡ a
  RingFrom a n (some ring, s) =
      (areas s ≡ a + of_ring ring)
      × (ring.num_desc ≡ n)
      × (ring.next_to_use ≡ 0)
      × (ring.next_to_clean ≡ 0)

  -- What `i40e_aq_init` leaves: the areas as before where it fails, and two rings where not.
  abbrev pub QueuesFrom : (a : ℕ) → Bool × Nic R → Type 0
  QueuesFrom a (false, nic) = areas nic.machine ≡ a
  QueuesFrom a (true, nic) =
      (areas nic.machine ≡ a + (of_ring nic.tx_ring + of_ring nic.rx_ring))
      × IsRing nic.tx_ring
      × IsRing nic.rx_ring
      × (nic.tx_ring.num_desc ≡ aq_len)
      × (nic.rx_ring.num_desc ≡ aq_len)
      × (i40e_aq_desc_unused nic.rx_ring aq_len ≡ 0)

  abbrev BufsFrom : (a n : ℕ) → Bool × ℕ × (ℕ → DevBuf) × R → Type 0
  BufsFrom a n (true, i, bufs, s) = areas s ≡ a + total weight n 0 bufs
  BufsFrom a n (false, i, bufs, s) = areas s ≡ a + total weight i 0 bufs

  module _ (laws : IsCounted) where
    less : {a b c d : ℕ} (k : ℕ) → b ≡ a + k → d ≡ c → c ≡ b - k → d ≡ a
    less k e e' e'' = omega arith

    pub dma_alloc-areas :
        (size : ℕ) (s : R) → BufFrom (areas s) (ufp_dev_dma_alloc system page_size size s)
    unfolding ufp_dev_dma_alloc
    dma_alloc-areas size s = elim (Option-cases (malloc s)) [
      | inl e ↦ rw (e, ufp_dev_dma_alloc) refl
      | inr (s₁, e) ↦ elim (Option-cases (mmap (align size page_size) s₁)) [
        | inl e' ↦ rw (e, e', ufp_dev_dma_alloc) (laws.same_free s₁ ∙ laws.same_malloc s s₁ e)
        | inr ((addr, s₂), e') ↦
            let gained =
              laws.by_mmap _ addr s₁ s₂ e'
              ∙ ap (λ (n : ℕ). n + mapping area addr (align size page_size))
                  (laws.same_malloc s s₁ e) in
            elim (Option-cases (ufp_vfio_dma_map addr (align size page_size) s₂)) [
              | inl e'' ↦
                  rw (e, e', e'', ufp_dev_dma_alloc)
                    (less (mapping area addr (align size page_size)) gained
                      (laws.same_free (munmap addr (align size page_size) s₂))
                      (laws.by_munmap addr _ s₂))
              | inr ((addr_dma, s₃), e'') ↦
                  rw (e, e', e'', ufp_dev_dma_alloc) (laws.same_map _ _ _ s₂ s₃ e'' ∙ gained)
            ]
      ]
    ]

    pub dma_free-areas :
        (buf : DevBuf) (s : R)
        → areas (ufp_dev_dma_free system page_size buf s) ≡ areas s - weight buf
    unfolding ufp_dev_dma_free
    dma_free-areas buf s =
        laws.by_munmap _ _ _ ∙ ap (λ (n : ℕ). n - weight buf) (laws.same_unmap _ _ s)

    free_bufs-areas :
        (n i : ℕ) (bufs : ℕ → DevBuf) (s : R)
        → areas (free_bufs system page_size n i bufs s) ≡ areas s - total weight n i bufs
    unfolding free_bufs total
    free_bufs-areas zero i bufs s = omega arith
    free_bufs-areas (suc n) i bufs s = omega (
      arith,
      dma_free-areas (bufs i) s,
      free_bufs-areas n (suc i) bufs (ufp_dev_dma_free system page_size (bufs i) s),
    )

    alloc_step-areas :
        (n i a upto : ℕ) (bufs : ℕ → DevBuf) (r : Option DevBuf × R)
        → BufFrom (a + total weight i 0 bufs) r
        → ((buf : DevBuf) (s : R)
            → areas s ≡ a + total weight (suc i) 0 (update bufs i buf)
            → BufsFrom a upto (alloc_bufs system page_size n (suc i) (update bufs i buf) s))
        → BufsFrom a upto (elim r.0 [
          | none ↦ (false, i, bufs, r.1)
          | some buf ↦ alloc_bufs system page_size n (suc i) (update bufs i buf) r.1
        ])
    alloc_step-areas n i a upto bufs (none, s) e later = e
    alloc_step-areas n i a upto bufs (some buf, s) e later =
        later buf s (omega (arith, total-push weight i bufs buf))

    alloc_bufs-areas :
        (n i a : ℕ) (bufs : ℕ → DevBuf) (s : R)
        → areas s ≡ a + total weight i 0 bufs
        → BufsFrom a (n + i) (alloc_bufs system page_size n i bufs s)
    unfolding alloc_bufs
    alloc_bufs-areas zero i a bufs s e = let same : 0 + i ≡ i = omega arith in rw same e
    alloc_bufs-areas (suc n) i a bufs s e =
        alloc_step-areas n i a (suc n + i) bufs
          (ufp_dev_dma_alloc system page_size max_aq_buf_size s)
          (subst (λ b. BufFrom b (ufp_dev_dma_alloc system page_size max_aq_buf_size s)) e
            (dma_alloc-areas max_aq_buf_size s))
          (λ buf s' e'.
            let same : n + suc i ≡ suc n + i = omega arith in
            subst (λ t. BufsFrom a t (alloc_bufs system page_size n (suc i) (update bufs i buf) s'))
              same (alloc_bufs-areas n (suc i) a (update bufs i buf) s' e'))

    with_bufs-areas :
        (ring : AqRing) (desc : DevBuf) (a n : ℕ) (r : Bool × ℕ × (ℕ → DevBuf) × R)
        → ring.num_desc ≡ n
        → ring.next_to_use ≡ 0
        → ring.next_to_clean ≡ 0
        → BufsFrom (a + weight desc) n r
        → RingFrom a n (with_bufs system page_size ring desc r)
    with_bufs-areas ring desc a n (true, i, bufs, s) e e' e'' h =
        (rw e (omega (arith, h)), e, e', e'')
    with_bufs-areas ring desc a n (false, i, bufs, s) e e' e'' h = omega (
      arith,
      dma_free-areas desc (free_bufs system page_size i 0 bufs s),
      free_bufs-areas i 0 bufs s,
    )

    with_desc-areas :
        (ring : AqRing) (a n : ℕ) (r : Option DevBuf × R)
        → ring.num_desc ≡ n
        → ring.next_to_use ≡ 0
        → ring.next_to_clean ≡ 0
        → BufFrom a r
        → RingFrom a n (with_desc system page_size ring r)
    with_desc-areas ring a n (none, s) e e' e'' h = h
    with_desc-areas ring a n (some desc, s) e e' e'' h = elim (Option-cases (malloc s)) [
      | inl full ↦
          let e₁ : with_desc system page_size ring (some desc, s)
              ≡ (none, ufp_dev_dma_free system page_size desc s) =
            rw (full, with_desc) in
          subst (RingFrom a n) (sym e₁) (omega (arith, dma_free-areas desc s))
      | inr (s', granted) ↦
          let bufs = alloc_bufs system page_size ring.num_desc 0 ring.bufs s' in
          let e₁ : with_desc system page_size ring (some desc, s)
              ≡ with_bufs system page_size ring desc bufs =
            rw (granted, with_desc) in
          let count : ring.num_desc + 0 ≡ n = omega arith in
          subst (RingFrom a n) (sym e₁) (
            with_bufs-areas ring desc a n bufs e e' e'' (
              subst (λ t. BufsFrom (a + weight desc) t bufs) count
                (alloc_bufs-areas ring.num_desc 0 (a + weight desc) ring.bufs s'
                  (unfold total in omega (arith, laws.same_malloc s s' granted)))))
    ]

    ring_alloc-areas :
        (ring : AqRing) (n : ℕ) (s : R)
        → ring.num_desc ≡ n
        → RingFrom (areas s) n (i40e_aq_ring_alloc system page_size ring s)
    unfolding i40e_aq_ring_alloc
    ring_alloc-areas ring n s e =
        with_desc-areas (record ring { next_to_use = 0; next_to_clean = 0 }) (areas s) n _ e refl
          refl (dma_alloc-areas (align (ring.num_desc * 32) 4096) s)

    ring_release-areas :
        (ring : AqRing) (s : R)
        → areas (i40e_aq_ring_release system page_size ring s) ≡ areas s - of_ring ring
    unfolding i40e_aq_ring_release
    ring_release-areas ring s = omega (
      arith,
      free_bufs-areas ring.num_desc 0 ring.bufs s,
      laws.same_free (free_bufs system page_size ring.num_desc 0 ring.bufs s),
      dma_free-areas ring.desc (free (free_bufs system page_size ring.num_desc 0 ring.bufs s)),
    )

    configure-areas :
        (ring : AqRing) (s : R) → areas (configure system page_size hw mem ring s).1 ≡ areas s
    unfolding configure
    configure-areas ring s =
        laws.same_read _ _
        ∙ laws.same_write _ _ _
        ∙ laws.same_write _ _ _
        ∙ laws.same_write _ _ _
        ∙ laws.same_write _ _ _
        ∙ laws.same_write _ _ _

    configured-areas :
        (ring : AqRing) (a n : ℕ) (r : Bool × R)
        → RingFrom a n (some ring, r.1)
        → RingFrom a n (configured system page_size hw mem ring r)
    configured-areas ring a n (true, s) h = h
    configured-areas ring a n (false, s) (h, e, e', e'') = omega (
      arith,
      ring_release-areas ring s,
      laws.same_free (i40e_aq_ring_release system page_size ring s),
    )

    allocated-areas :
        (a n : ℕ) (r : Option AqRing × R)
        → RingFrom a n r
        → RingFrom a n (allocated system page_size hw mem r)
    allocated-areas a n (none, s) h = laws.same_free s ∙ h
    allocated-areas a n (some ring, s) (h, e, e', e'') =
        configured-areas ring a n _ (configure-areas ring s ∙ h, e, e', e'')

    ring_init-areas :
        (ring : AqRing) (n : ℕ) (s : R)
        → ring.num_desc ≡ n
        → RingFrom (areas s) n (ring_init system page_size hw mem ring s)
    unfolding ring_init
    ring_init-areas ring n s e = elim (Option-cases (malloc s)) [
      | inl full ↦ rw (full, ring_init) refl
      | inr (s', granted) ↦
          rw (granted, ring_init)
            (allocated-areas (areas s) n _ (
              subst (λ a. RingFrom a n (i40e_aq_ring_alloc system page_size ring s'))
                (laws.same_malloc s s' granted) (ring_alloc-areas ring n s' e)))
    ]

    shutdown-areas :
        (ring : AqRing) (s : R)
        → areas (shutdown system page_size hw mem ring s) ≡ areas s - of_ring ring
    unfolding shutdown
    shutdown-areas ring s =
        laws.same_free _
        ∙ ring_release-areas ring _
        ∙ ap (λ (n : ℕ). n - of_ring ring)
            (laws.same_write _ _ _
              ∙ laws.same_write _ _ _
              ∙ laws.same_write _ _ _
              ∙ laws.same_write _ _ _
              ∙ laws.same_write _ _ _)

    assign_events-areas :
        (n : ℕ) (ring : AqRing) (s : R)
        → (areas (assign_events hw mem n ring s).1 ≡ areas s)
          × ((assign_events hw mem n ring s).0.num_desc ≡ ring.num_desc)
          × (of_ring (assign_events hw mem n ring s).0 ≡ of_ring ring)
    unfolding assign_events
    assign_events-areas zero ring s = (refl, refl, refl)
    assign_events-areas (suc n) ring s =
        let i = ring.next_to_use in
        let desc = event_desc (ring.bufs i) (mem.load_desc ring.desc.addr_virt i s) in
        let (e, e', e'') =
          assign_events-areas n (record ring { next_to_use = next_index ring i })
            (mem.store_desc ring.desc.addr_virt i desc s) in
        (e ∙ laws.same_store _ _ desc s, e', e'')

    arq_assign-areas :
        (ring : AqRing) (s : R)
        → (areas (i40e_aq_arq_assign hw mem ring s).1 ≡ areas s)
          × ((i40e_aq_arq_assign hw mem ring s).0.num_desc ≡ ring.num_desc)
          × (of_ring (i40e_aq_arq_assign hw mem ring s).0 ≡ of_ring ring)
    unfolding i40e_aq_arq_assign
    arq_assign-areas ring s = elim (Bool-cases (i40e_aq_desc_unused ring ring.num_desc == 0)) [
      | inl full ↦ rw full (refl, refl, refl)
      | inr room ↦
          let (e, e', e'') = assign_events-areas (i40e_aq_desc_unused ring ring.num_desc) ring s in
          rw room (laws.same_write _ _ _ ∙ e, e', e'')
    ]

    fresh-IsRing :
        (ring : AqRing)
        → ring.num_desc ≡ aq_len
        → ring.next_to_use ≡ 0
        → ring.next_to_clean ≡ 0
        → IsRing ring
    fresh-IsRing ring e e' e'' = record {
      small = omega arith;
      used = omega arith;
      cleaned = omega arith;
    }

    with_arq-areas :
        (asq : AqRing) (a : ℕ) (nic : Nic R) (r : Option AqRing × R)
        → IsRing asq
        → asq.num_desc ≡ aq_len
        → RingFrom (a + of_ring asq) aq_len r
        → QueuesFrom a
            (with_arq system page_size hw mem asq nic (with_events system page_size hw mem r))
    with_arq-areas asq a nic (none, s) v e h = omega (arith, shutdown-areas asq s)
    with_arq-areas asq a nic (some arq, s) v e (h, size, used, clean) =
        let (same, size', same_areas) = arq_assign-areas arq s in
        let (v', full) = i40e_aq_arq_assign-full hw mem arq s (fresh-IsRing arq size used clean) in
        (
          omega arith,
          v,
          v',
          e,
          size' ∙ size,
          subst (λ n. i40e_aq_desc_unused (i40e_aq_arq_assign hw mem arq s).0 n ≡ 0) size full,
        )

    with_asq-areas :
        (blank : AqRing) (a : ℕ) (nic : Nic R) (r : Option AqRing × R)
        → RingFrom a aq_len r
        → QueuesFrom a (with_asq system page_size hw mem blank nic r)
    unfolding i40e_aq_arq_init
    with_asq-areas blank a nic (none, s) h = h
    with_asq-areas blank a nic (some asq, s) (h, size, used, clean) =
        with_arq-areas asq a nic (ring_init system page_size hw mem (arq_registers blank) s)
          (fresh-IsRing asq size used clean) size
          (subst
            (λ b. RingFrom b aq_len (ring_init system page_size hw mem (arq_registers blank) s)) h
            (ring_init-areas (arq_registers blank) aq_len s refl))

    -- Setting up the admin queues, for each area by its address and size, where `mmap` and `munmap`
    -- alone change how often it is mapped: when it fails, it is mapped as often as before. When not,
    -- it is mapped as often more as it is among the 128 buffers and the descriptors of either queue,
    -- the indices lie in the rings, and every slot of the event queue that may be is given to the
    -- firmware.
    pub i40e_aq_init-areas :
        (blank : AqRing) (nic : Nic R)
        → QueuesFrom (areas nic.machine) (i40e_aq_init system page_size hw mem blank nic)
    unfolding i40e_aq_init i40e_aq_asq_init
    i40e_aq_init-areas blank nic =
        with_asq-areas blank (areas nic.machine) nic _
          (ring_init-areas (asq_registers blank) aq_len nic.machine refl)

    -- Shutting both down unmaps what they have.
    pub shutdown_both-areas :
        (nic : Nic R)
        → areas (shutdown_both system page_size hw mem nic).machine
          ≡ areas nic.machine - (of_ring nic.tx_ring + of_ring nic.rx_ring)
    shutdown_both-areas nic = omega (
      arith,
      shutdown-areas nic.tx_ring nic.machine,
      shutdown-areas nic.rx_ring (shutdown system page_size hw mem nic.tx_ring nic.machine),
    )
