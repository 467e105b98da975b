-- ===== src/Io/Receive.antt =====
-- lib/lib_io.c: `ufp_rx_clean` takes the packets at the front of the receive queue.
use mathlib.Core.Path.{subst}
use ufp.Common.{
  ℕ, zero, suc, ◌+◌, ◌*◌, ◌%◌, ◌^◌, ◌<◌, ◌≤◌, ◌≡◌, ◌∙◌, refl, sym, true, false, none, some, List,
  [], ◌∷◌, ◌++◌, map, ◌==◌, arith, Bool-cases, Option-cases, inl, inr, length, All,
}
use ufp.Io.{Packet, Buf, RingOps, IoState, ufp_slot_detach, ufp_slot_addr_virt, clean_desc}
use ufp.Io.Transfer.{clean_rx_ring, ufp_rx_clean}
use ufp.Io.Queue.{rx_pending, IsRing, clean_desc-IsRing, clean_desc-pending}

module _ {D : Type 0} where
  -- The packets `r.0` of at most `rounds` rounds stood at the front of the receive queue, in order,
  -- and each has the address of its slot, where a slot's index and its offset fit in 16 and 32 bits.
  pub record IsReceived (rounds : ℕ) (s : IoState D) (r : List Packet × IoState D) : Type 0 where
    pub front : rx_pending s ≡ map (λ p. p.slot_index) r.0 ++ rx_pending r.1
    pub ring : IsRing s.port.num_rx_desc r.1.port.rx_ring
    pub limit : length r.0 ≤ rounds
    pub addresses :
        All
          (λ p.
            p.slot_index < 2 ^ 16
            → s.buf.slot_size * p.slot_index < 2 ^ 32
            → p.slot_buf ≡ s.buf.addr_virt + s.buf.slot_size * p.slot_index)
          r.0
    pub same_buf : r.1.buf ≡ s.buf

module _ {D : Type 0} (ops : RingOps D) where
  slot_addr :
      (buf : Buf) (index : ℕ)
      → index < 2 ^ 16
      → buf.slot_size * index < 2 ^ 32
      → ufp_slot_addr_virt buf index ≡ buf.addr_virt + buf.slot_size * index
  unfolding ufp_slot_addr_virt
  slot_addr buf index small fits =
      let same : index % 2 ^ 16 ≡ index = omega arith in
      let within : (buf.slot_size * index) % 2 ^ 32 ≡ buf.slot_size * index = omega arith in
      rw (same, within) refl

  none-IsReceived :
      (rounds : ℕ) (s : IoState D) (dev : D)
      → IsRing s.port.num_rx_desc s.port.rx_ring
      → IsReceived rounds s ([], record s { dev = dev })
  none-IsReceived rounds s dev h = record {
    front = refl;
    ring = h;
    limit = omega arith;
    addresses = tt;
    same_buf = refl;
  }

  abbrev after_rx : IoState D → D → IoState D
  after_rx s dev = record s {
    port = record s.port { rx_ring = clean_desc s.port.rx_ring s.port.num_rx_desc };
    dev = dev;
  }

  some-IsReceived :
      (rounds : ℕ) (s : IoState D) (dev : D) (p : Packet) (r : List Packet × IoState D)
      → IsRing s.port.num_rx_desc s.port.rx_ring
      → (s.port.rx_ring.next_to_clean == s.port.rx_ring.next_to_use) ≡ false
      → p.slot_index ≡ ufp_slot_detach s.port.rx_ring s.port.rx_ring.next_to_clean
      → p.slot_buf ≡ ufp_slot_addr_virt s.buf p.slot_index
      → IsReceived rounds (after_rx s dev) r
      → IsReceived (suc rounds) s (p ∷ r.0, r.1)
  some-IsReceived rounds s dev p r h used index address rest =
      let first = clean_desc-pending s.port.num_rx_desc s.port.rx_ring h used in
      record {
        front = first ∙ rw (index, sym rest.front) refl;
        ring = rest.ring;
        limit = omega (arith, rest.limit);
        addresses =
            (λ small fits. address ∙ slot_addr s.buf p.slot_index small fits, rest.addresses);
        same_buf = rest.same_buf;
      }

  abbrev received : IoState D → ℕ → ℕ → Packet
  received s size flag =
      let index = ufp_slot_detach s.port.rx_ring s.port.rx_ring.next_to_clean in
      record {
        slot_buf = ufp_slot_addr_virt s.buf index;
        slot_size = size;
        slot_index = index;
        flag = flag;
      }

  clean_rx_ring-empty :
      (rounds : ℕ) (s : IoState D)
      → (s.port.rx_ring.next_to_clean == s.port.rx_ring.next_to_use) ≡ true
      → clean_rx_ring ops (suc rounds) s ≡ ([], s)
  unfolding clean_rx_ring
  clean_rx_ring-empty rounds s e = rw (e, clean_rx_ring) refl

  clean_rx_ring-none :
      (rounds : ℕ) (s : IoState D)
      → (s.port.rx_ring.next_to_clean == s.port.rx_ring.next_to_use) ≡ false
      → (ops.fetch_rx_desc s.port.rx_ring.next_to_clean s.dev).0 ≡ none
      → clean_rx_ring ops (suc rounds) s
        ≡ ([], record s { dev = (ops.fetch_rx_desc s.port.rx_ring.next_to_clean s.dev).1 })
  unfolding clean_rx_ring
  clean_rx_ring-none rounds s e n = rw (e, n, clean_rx_ring) refl

  clean_rx_ring-some :
      (rounds : ℕ) (s : IoState D) (size flag : ℕ)
      → (s.port.rx_ring.next_to_clean == s.port.rx_ring.next_to_use) ≡ false
      → (ops.fetch_rx_desc s.port.rx_ring.next_to_clean s.dev).0 ≡ some (size, flag)
      → clean_rx_ring ops (suc rounds) s ≡ (
          let r =
            clean_rx_ring ops rounds
              (after_rx s (ops.fetch_rx_desc s.port.rx_ring.next_to_clean s.dev).1) in
          (received s size flag ∷ r.0, r.1))
  unfolding clean_rx_ring
  clean_rx_ring-some rounds s size flag e f = rw (e, f, clean_rx_ring) refl

  clean_rx_ring-IsReceived :
      (rounds : ℕ) (s : IoState D)
      → IsRing s.port.num_rx_desc s.port.rx_ring
      → IsReceived rounds s (clean_rx_ring ops rounds s)
  unfolding clean_rx_ring
  clean_rx_ring-IsReceived zero s h = none-IsReceived zero s s.dev h
  clean_rx_ring-IsReceived (suc rounds) s h =
      let ring = s.port.rx_ring in
      let fetch = ops.fetch_rx_desc ring.next_to_clean s.dev in
      let rest = after_rx s fetch.1 in
      elim (Bool-cases (ring.next_to_clean == ring.next_to_use)) [
        | inl e ↦
            subst (IsReceived (suc rounds) s) (sym (clean_rx_ring-empty rounds s e))
              (none-IsReceived (suc rounds) s s.dev h)
        | inr e ↦ elim (Option-cases fetch.0) [
          | inl n ↦
              subst (IsReceived (suc rounds) s) (sym (clean_rx_ring-none rounds s e n))
                (none-IsReceived (suc rounds) s fetch.1 h)
          | inr ((size, flag), f) ↦
              subst (IsReceived (suc rounds) s) (sym (clean_rx_ring-some rounds s size flag e f)) (
                some-IsReceived rounds s fetch.1 (received s size flag)
                  (clean_rx_ring ops rounds rest) h e refl refl
                  (clean_rx_ring-IsReceived rounds rest
                    (clean_desc-IsRing s.port.num_rx_desc ring h)))
        ]
      ]

  clean_rx_ring-total :
      (rounds : ℕ) (s : IoState D)
      → (clean_rx_ring ops rounds s).1.port.count_rx_clean_total ≡ s.port.count_rx_clean_total
  unfolding clean_rx_ring
  clean_rx_ring-total zero s = refl
  clean_rx_ring-total (suc rounds) s =
      let ring = s.port.rx_ring in
      let fetch = ops.fetch_rx_desc ring.next_to_clean s.dev in
      elim (Bool-cases (ring.next_to_clean == ring.next_to_use)) [
        | inl e ↦ rw (clean_rx_ring-empty rounds s e) refl
        | inr e ↦ elim (Option-cases fetch.0) [
          | inl n ↦ rw (clean_rx_ring-none rounds s e n) refl
          | inr ((size, flag), f) ↦
              rw (clean_rx_ring-some rounds s size flag e f)
                (clean_rx_ring-total rounds (after_rx s fetch.1))
        ]
      ]

  -- `ufp_rx_clean` returns at most `rx_budget` packets. Their slots are the front of the receive
  -- queue, in its order; the rest of the queue and the buffer stay, and the counter of 64 bits goes
  -- up by their number. A packet whose slot has an index of 16 bits and an offset of 32 has the
  -- address of the slot: that many slots behind the start of the buffer.
  pub ufp_rx_clean-IsReceived :
      (s : IoState D)
      → IsRing s.port.num_rx_desc s.port.rx_ring
      → IsReceived s.port.rx_budget s (ufp_rx_clean ops s)
        × ((ufp_rx_clean ops s).1.port.count_rx_clean_total
            ≡ (s.port.count_rx_clean_total + length (ufp_rx_clean ops s).0) % 2 ^ 64)
  unfolding ufp_rx_clean
  ufp_rx_clean-IsReceived s h =
      let r = clean_rx_ring-IsReceived s.port.rx_budget s h in
      (
        record {
          front = r.front;
          ring = r.ring;
          limit = r.limit;
          addresses = r.addresses;
          same_buf = r.same_buf;
        },
        rw (clean_rx_ring-total s.port.rx_budget s) refl,
      )
