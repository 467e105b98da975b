-- ===== src/Io/Refill.antt =====
-- lib/lib_io.c: `ufp_rx_assign` gives free slots to the receive queue.
use mathlib.Core.Path.{subst}
use ufp.Common.{
  ℕ, zero, suc, ◌+◌, ◌%◌, ◌^◌, ◌<◌, ◌≤◌, ◌≡◌, ◌⊎◌, ◌∙◌, refl, sym, ap, false, none, some, List, [],
  ◌∷◌, ◌++◌, update, arith, inl, inr, length, length-append, All,
}
use mathlib.Core.List.{append_assoc, append-nil}
use ufp.Io.{
  RingOps, IoState, ufp_desc_unused, ufp_write_tail, ufp_slot_addr_dma, ufp_slot_assign, use_desc,
  is_inflight, set_inflight,
}
use ufp.Io.Transfer.{fill_rx_ring, write_rx_tail, ufp_rx_assign}
use ufp.Io.Queue.{
  IsRing, occupied, rx_pending, ufp_desc_unused-occupied, use_desc-IsRing, use_desc-pending,
  use_desc-occupied, length-slots_from,
}
use ufp.Io.Slots.{AllTaken, taken, ufp_slot_assign-cases}

-- the flags after the slots of a list are taken
abbrev pub taken_all : List ℕ → (ℕ → ℕ) → ℕ → ℕ
taken_all [] slots = slots
taken_all (i ∷ is) slots = taken_all is (update slots i (set_inflight (slots i)))

-- each slot of the list is free when it is taken, so none stands in it twice
abbrev pub AreFree : List ℕ → (ℕ → ℕ) → Type 0
AreFree [] slots = Unit
AreFree (i ∷ is) slots =
    (is_inflight (slots i) ≡ false) × AreFree is (update slots i (set_inflight (slots i)))

module _ {D : Type 0} where
  -- the receive ring is one, and the next search starts at a slot of the port
  pub record IsReady (s : IoState D) : Type 0 where
    pub ring : IsRing s.port.num_rx_desc s.port.rx_ring
    pub next_bound : s.port.rx_slot_next < s.buf.count
    pub slots_bound : s.port.rx_slot_offset + s.buf.count ≤ 2 ^ 32

  -- the state after `taken` slot `k`
  pub record IsFilled (rounds : ℕ) (s : IoState D) (r : ℕ × IoState D) : Type 0 where
    pub new : List ℕ
    pub back : rx_pending r.1 ≡ rx_pending s ++ new
    pub new_count : length new ≡ r.0
    pub limit : r.0 ≤ rounds
    pub ready : IsReady r.1
    pub free : AreFree new s.buf.slots
    pub of_port :
        All (λ i. (s.port.rx_slot_offset ≤ i) × (i < s.port.rx_slot_offset + s.buf.count)) new
    pub new_buf : r.1.buf ≡ record s.buf { slots = taken_all new s.buf.slots }
    pub complete : (r.0 ≡ rounds) ⊎ AllTaken r.1.buf r.1.port

module _ {D : Type 0} (ops : RingOps D) where
  -- the state after one round that takes the slot number `k` of the port
  abbrev filled : IoState D → ℕ → IoState D
  filled s k =
      let (index, buf, port) = taken s.buf s.port k in
      let ring = s.port.rx_ring in
      record {
        port = record port { rx_ring = use_desc ring s.port.num_rx_desc index };
        buf = buf;
        dev = ops.fill_rx_desc ring.next_to_use (ufp_slot_addr_dma buf index) s.dev;
      }

  fill_rx_ring-some :
      (rounds : ℕ) (s : IoState D) (k : ℕ)
      → ufp_slot_assign s.buf s.port ≡ some (taken s.buf s.port k)
      → fill_rx_ring ops (suc rounds) s
        ≡ (let r = fill_rx_ring ops rounds (filled s k) in (r.0 + 1, r.1))
  unfolding fill_rx_ring
  fill_rx_ring-some rounds s k e = rw (e, fill_rx_ring) refl

  abbrev failed : IoState D → ℕ → IoState D
  failed s rounds = record s {
    port = record s.port {
      count_rx_alloc_failed = (s.port.count_rx_alloc_failed + rounds) % 2 ^ 64;
    };
  }

  fill_rx_ring-none :
      (rounds : ℕ) (s : IoState D)
      → ufp_slot_assign s.buf s.port ≡ none
      → fill_rx_ring ops (suc rounds) s ≡ (0, failed s (suc rounds))
  unfolding fill_rx_ring
  fill_rx_ring-none rounds s e = rw (e, fill_rx_ring) refl

  filled-IsReady : (s : IoState D) (k : ℕ) → IsReady s → k < s.buf.count → IsReady (filled s k)
  filled-IsReady s k h bound = record {
    ring = use_desc-IsRing s.port.num_rx_desc (taken s.buf s.port k).0 s.port.rx_ring h.ring;
    next_bound = ground arith;
    slots_bound = h.slots_bound;
  }

  filled-IsFilled :
      (rounds : ℕ) (s : IoState D) (k : ℕ) (r : ℕ × IoState D)
      → IsReady s
      → occupied s.port.num_rx_desc s.port.rx_ring + 1 < s.port.num_rx_desc
      → k < s.buf.count
      → is_inflight (s.buf.slots ((s.port.rx_slot_offset + k) % 2 ^ 32)) ≡ false
      → IsFilled rounds (filled s k) r
      → IsFilled (suc rounds) s (r.0 + 1, r.1)
  filled-IsFilled rounds s k r h room bound free rest =
      let index = (taken s.buf s.port k).0 in
      let size = s.port.num_rx_desc in
      record {
        new = index ∷ rest.new;
        back =
            rest.back
            ∙ ap (λ q. q ++ rest.new) (use_desc-pending size index s.port.rx_ring h.ring room)
            ∙ append_assoc (rx_pending s) (index ∷ []) rest.new;
        new_count = omega (arith, rest.new_count);
        limit = omega (arith, rest.limit);
        ready = rest.ready;
        free = (free, rest.free);
        of_port = ((omega arith, omega arith), rest.of_port);
        new_buf = rest.new_buf;
        complete = elim rest.complete [ inl e ↦ inl (omega arith) | inr all ↦ inr all ];
      }

  fill_rx_ring-IsFilled :
      (rounds : ℕ) (s : IoState D)
      → IsReady s
      → occupied s.port.num_rx_desc s.port.rx_ring + rounds < s.port.num_rx_desc
      → IsFilled rounds s (fill_rx_ring ops rounds s)
  unfolding fill_rx_ring
  fill_rx_ring-IsFilled zero s h room = record {
    new = [];
    back = sym (append-nil (rx_pending s));
    new_count = refl;
    limit = omega arith;
    ready = h;
    free = tt;
    of_port = tt;
    new_buf = refl;
    complete = inl refl;
  }
  fill_rx_ring-IsFilled (suc rounds) s h room =
      elim (ufp_slot_assign-cases s.buf s.port h.next_bound) [
        | inl (e, all) ↦
            subst (IsFilled (suc rounds) s) (sym (fill_rx_ring-none rounds s e)) (record {
              new = [];
              back = sym (append-nil (rx_pending s));
              new_count = refl;
              limit = omega arith;
              ready = record {
                ring = h.ring;
                next_bound = h.next_bound;
                slots_bound = h.slots_bound;
              };
              free = tt;
              of_port = tt;
              new_buf = refl;
              complete = inr all;
            })
        | inr (k, e, bound, free) ↦
            let index = (taken s.buf s.port k).0 in
            let one_more = use_desc-occupied s.port.num_rx_desc index s.port.rx_ring h.ring in
            subst (IsFilled (suc rounds) s) (sym (fill_rx_ring-some rounds s k e)) (
              filled-IsFilled rounds s k (fill_rx_ring ops rounds (filled s k)) h (omega arith)
                bound free
                (fill_rx_ring-IsFilled rounds (filled s k) (filled-IsReady s k h bound)
                  (omega (arith, one_more))))
      ]

  write_rx_tail-IsFilled :
      (rounds total : ℕ) (s s' : IoState D)
      → IsFilled rounds s (total, s')
      → IsFilled rounds s (total, write_rx_tail ops total s')
  unfolding ufp_write_tail
  write_rx_tail-IsFilled rounds zero s s' h = h
  write_rx_tail-IsFilled rounds (suc total) s s' h = record {
    new = h.new;
    back = h.back;
    new_count = h.new_count;
    limit = h.limit;
    ready = record {
      ring = record {
        use_bound = h.ready.ring.use_bound;
        clean_bound = h.ready.ring.clean_bound;
        size_bound = h.ready.ring.size_bound;
      };
      next_bound = h.ready.next_bound;
      slots_bound = h.ready.slots_bound;
    };
    free = h.free;
    of_port = h.of_port;
    new_buf = h.new_buf;
    complete = h.complete;
  }

  -- `ufp_rx_assign` puts slots of the port that were free at the end of the receive queue, none of
  -- them twice, and marks them as taken. All other slots stay as they are. Then the ring is full, or
  -- every slot of the port is taken.
  pub ufp_rx_assign-back :
      (s : IoState D)
      → IsReady s
      → (new : List ℕ) × (rx_pending (ufp_rx_assign ops s) ≡ rx_pending s ++ new)
        × IsReady (ufp_rx_assign ops s)
        × AreFree new s.buf.slots
        × All (λ i. (s.port.rx_slot_offset ≤ i) × (i < s.port.rx_slot_offset + s.buf.count)) new
        × ((ufp_rx_assign ops s).buf ≡ record s.buf { slots = taken_all new s.buf.slots })
        × ((length (rx_pending s ++ new) + 1 ≡ s.port.num_rx_desc)
            ⊎ AllTaken (ufp_rx_assign ops s).buf (ufp_rx_assign ops s).port)
  unfolding ufp_rx_assign
  ufp_rx_assign-back s h =
      let size = s.port.num_rx_desc in
      let unused = ufp_desc_unused s.port.rx_ring size in
      let total_size = ufp_desc_unused-occupied size s.port.rx_ring h.ring in
      let r = fill_rx_ring ops unused s in
      let f =
        write_rx_tail-IsFilled unused r.0 s r.1
          (fill_rx_ring-IsFilled unused s h (omega (arith, total_size))) in
      let sizes =
        length-append (rx_pending s) f.new
        ∙ ap (λ c. c + length f.new)
            (length-slots_from size (occupied size s.port.rx_ring) s.port.rx_ring.slot_index
              s.port.rx_ring.next_to_clean) in
      (
        f.new,
        f.back,
        f.ready,
        f.free,
        f.of_port,
        f.new_buf,
        elim f.complete [
          | inl all_unused ↦ inl (omega (arith, sizes, f.new_count, all_unused, total_size))
          | inr all_taken ↦ inr all_taken
        ],
      )
