-- ===== src/Io/Transmit.antt =====
-- lib/lib_io.c: `ufp_tx_assign` and `ufp_tx_clean` on the transmit queue.
use mathlib.Core.Path.{subst}
use ufp.Common.{
  ℕ, zero, suc, ◌+◌, ◌%◌, ◌^◌, ◌<◌, ◌≤◌, ◌≡◌, ◌∙◌, refl, sym, true, false, List, [], ◌∷◌, ◌++◌,
  ◌==◌, update, arith, Bool-cases, inl, inr, length,
}
use ufp.Io.{
  Packet, RingOps, IoState, ufp_desc_unused, ufp_slot_detach, ufp_slot_release, clean_desc,
}
use ufp.Io.Transfer.{ufp_tx_assign, clean_tx_ring, ufp_tx_clean}
use ufp.Io.Queue.{
  tx_pending, IsRing, occupied, ufp_desc_unused-occupied, use_desc-IsRing, use_desc-pending,
  clean_desc-IsRing, clean_desc-pending,
}

-- the flags after the slots of a list are released
abbrev pub released : List ℕ → (ℕ → ℕ) → ℕ → ℕ
released [] slots = slots
released (i ∷ is) slots = released is (update slots i 0)

module _ {D : Type 0} where
  -- The `r.0` slots of at most `rounds` rounds stood at the front of the transmit queue, and are
  -- released.
  pub record IsSent (rounds : ℕ) (s : IoState D) (r : ℕ × IoState D) : Type 0 where
    pub sent : List ℕ
    pub front : tx_pending s ≡ sent ++ tx_pending r.1
    pub ring : IsRing s.port.num_tx_desc r.1.port.tx_ring
    pub sent_count : length sent ≡ r.0
    pub limit : r.0 ≤ rounds
    pub new_buf : r.1.buf ≡ record s.buf { slots = released sent s.buf.slots }
    pub same_total : r.1.port.count_tx_clean_total ≡ s.port.count_tx_clean_total

module _ {D : Type 0} (ops : RingOps D) where
  -- A packet for a ring that is not full goes to the end of the queue, no slot changes, and one more
  -- packet waits for `ufp_tx_xmit`.
  pub ufp_tx_assign-queue :
      (packet : Packet) (s : IoState D)
      → IsRing s.port.num_tx_desc s.port.tx_ring
      → occupied s.port.num_tx_desc s.port.tx_ring + 1 < s.port.num_tx_desc
      → (tx_pending (ufp_tx_assign ops packet s) ≡ tx_pending s ++ (packet.slot_index ∷ []))
        × IsRing s.port.num_tx_desc (ufp_tx_assign ops packet s).port.tx_ring
        × ((ufp_tx_assign ops packet s).buf ≡ s.buf)
        × ((ufp_tx_assign ops packet s).port.tx_suspended ≡ (s.port.tx_suspended + 1) % 2 ^ 32)
  unfolding ufp_tx_assign
  ufp_tx_assign-queue packet s h room =
      let some_unused : (ufp_desc_unused s.port.tx_ring s.port.num_tx_desc == 0) ≡ false =
        ground (arith, ufp_desc_unused-occupied s.port.num_tx_desc s.port.tx_ring h) in
      rw (some_unused, ufp_tx_assign)
        (
          use_desc-pending s.port.num_tx_desc packet.slot_index s.port.tx_ring h room,
          use_desc-IsRing s.port.num_tx_desc packet.slot_index s.port.tx_ring h,
          refl,
          refl,
        )

  -- A packet for a full ring is dropped: its slot is released and the failure is counted; the queue
  -- does not change.
  pub ufp_tx_assign-full :
      (packet : Packet) (s : IoState D)
      → IsRing s.port.num_tx_desc s.port.tx_ring
      → occupied s.port.num_tx_desc s.port.tx_ring + 1 ≡ s.port.num_tx_desc
      → (tx_pending (ufp_tx_assign ops packet s) ≡ tx_pending s)
        × ((ufp_tx_assign ops packet s).buf ≡ ufp_slot_release s.buf packet.slot_index)
        × ((ufp_tx_assign ops packet s).port.count_tx_xmit_failed
            ≡ (s.port.count_tx_xmit_failed + 1) % 2 ^ 64)
  unfolding ufp_tx_assign
  ufp_tx_assign-full packet s h full =
      let none_unused : (ufp_desc_unused s.port.tx_ring s.port.num_tx_desc == 0) ≡ true =
        ground (arith, ufp_desc_unused-occupied s.port.num_tx_desc s.port.tx_ring h) in
      rw (none_unused, ufp_tx_assign) (refl, refl, refl)

  none-IsSent :
      (rounds : ℕ) (s : IoState D) (dev : D)
      → IsRing s.port.num_tx_desc s.port.tx_ring
      → IsSent rounds s (0, record s { dev = dev })
  none-IsSent rounds s dev h = record {
    sent = [];
    front = refl;
    ring = h;
    sent_count = refl;
    limit = omega arith;
    new_buf = refl;
    same_total = refl;
  }

  abbrev after_tx : IoState D → D → IoState D
  after_tx s dev =
      let ring = s.port.tx_ring in
      record {
        port = record s.port { tx_ring = clean_desc ring s.port.num_tx_desc };
        buf = ufp_slot_release s.buf (ufp_slot_detach ring ring.next_to_clean);
        dev = dev;
      }

  some-IsSent :
      (rounds : ℕ) (s : IoState D) (dev : D) (r : ℕ × IoState D)
      → IsRing s.port.num_tx_desc s.port.tx_ring
      → (s.port.tx_ring.next_to_clean == s.port.tx_ring.next_to_use) ≡ false
      → IsSent rounds (after_tx s dev) r
      → IsSent (suc rounds) s (r.0 + 1, r.1)
  unfolding ufp_slot_release
  some-IsSent rounds s dev r h used rest = record {
    sent = ufp_slot_detach s.port.tx_ring s.port.tx_ring.next_to_clean ∷ rest.sent;
    front = clean_desc-pending s.port.num_tx_desc s.port.tx_ring h used ∙ rw (sym rest.front) refl;
    ring = rest.ring;
    sent_count = omega (arith, rest.sent_count);
    limit = omega (arith, rest.limit);
    new_buf = rest.new_buf;
    same_total = rest.same_total;
  }

  clean_tx_ring-empty :
      (rounds : ℕ) (s : IoState D)
      → (s.port.tx_ring.next_to_clean == s.port.tx_ring.next_to_use) ≡ true
      → clean_tx_ring ops (suc rounds) s ≡ (0, s)
  unfolding clean_tx_ring
  clean_tx_ring-empty rounds s e = rw (e, clean_tx_ring) refl

  clean_tx_ring-none :
      (rounds : ℕ) (s : IoState D)
      → (s.port.tx_ring.next_to_clean == s.port.tx_ring.next_to_use) ≡ false
      → (ops.fetch_tx_desc s.port.tx_ring.next_to_clean s.dev).0 ≡ false
      → clean_tx_ring ops (suc rounds) s
        ≡ (0, record s { dev = (ops.fetch_tx_desc s.port.tx_ring.next_to_clean s.dev).1 })
  unfolding clean_tx_ring
  clean_tx_ring-none rounds s e n = rw (e, n, clean_tx_ring) refl

  clean_tx_ring-some :
      (rounds : ℕ) (s : IoState D)
      → (s.port.tx_ring.next_to_clean == s.port.tx_ring.next_to_use) ≡ false
      → (ops.fetch_tx_desc s.port.tx_ring.next_to_clean s.dev).0 ≡ true
      → clean_tx_ring ops (suc rounds) s ≡ (
          let r =
            clean_tx_ring ops rounds
              (after_tx s (ops.fetch_tx_desc s.port.tx_ring.next_to_clean s.dev).1) in
          (r.0 + 1, r.1))
  unfolding clean_tx_ring
  clean_tx_ring-some rounds s e f = rw (e, f, clean_tx_ring) refl

  clean_tx_ring-IsSent :
      (rounds : ℕ) (s : IoState D)
      → IsRing s.port.num_tx_desc s.port.tx_ring
      → IsSent rounds s (clean_tx_ring ops rounds s)
  unfolding clean_tx_ring
  clean_tx_ring-IsSent zero s h = none-IsSent zero s s.dev h
  clean_tx_ring-IsSent (suc rounds) s h =
      let ring = s.port.tx_ring in
      let fetch = ops.fetch_tx_desc ring.next_to_clean s.dev in
      let rest = after_tx s fetch.1 in
      elim (Bool-cases (ring.next_to_clean == ring.next_to_use)) [
        | inl e ↦
            subst (IsSent (suc rounds) s) (sym (clean_tx_ring-empty rounds s e))
              (none-IsSent (suc rounds) s s.dev h)
        | inr e ↦ elim (Bool-cases fetch.0) [
          | inr n ↦
              subst (IsSent (suc rounds) s) (sym (clean_tx_ring-none rounds s e n))
                (none-IsSent (suc rounds) s fetch.1 h)
          | inl f ↦ subst (IsSent (suc rounds) s) (sym (clean_tx_ring-some rounds s e f)) (
              some-IsSent rounds s fetch.1 (clean_tx_ring ops rounds rest) h e
                (clean_tx_ring-IsSent rounds rest (clean_desc-IsRing s.port.num_tx_desc ring h)))
        ]
      ]

  -- `ufp_tx_clean` releases the slots of at most `tx_budget` packets. They are the front of the
  -- transmit queue, in its order; the rest of the queue and the other slots stay, and the counter
  -- of 64 bits goes up by their number.
  pub ufp_tx_clean-front :
      (s : IoState D)
      → IsRing s.port.num_tx_desc s.port.tx_ring
      → (sent : List ℕ) × (tx_pending s ≡ sent ++ tx_pending (ufp_tx_clean ops s))
        × IsRing s.port.num_tx_desc (ufp_tx_clean ops s).port.tx_ring
        × (length sent ≤ s.port.tx_budget)
        × ((ufp_tx_clean ops s).buf ≡ record s.buf { slots = released sent s.buf.slots })
        × ((ufp_tx_clean ops s).port.count_tx_clean_total
            ≡ (s.port.count_tx_clean_total + length sent) % 2 ^ 64)
  unfolding ufp_tx_clean
  ufp_tx_clean-front s h =
      let r = clean_tx_ring-IsSent s.port.tx_budget s h in
      (
        r.sent,
        r.front,
        r.ring,
        omega (arith, r.sent_count, r.limit),
        r.new_buf,
        rw (r.same_total, r.sent_count) refl,
      )
