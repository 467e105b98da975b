-- ===== src/I40e/Tests.antt =====
-- dev/i40e at a concrete device.
use ufp.Common.{
  Bool, arith, false, if◌then◌else◌, none, refl, some, true, update, ℕ, ◌%◌, ◌*◌, ◌+◌, ◌==◌, ◌^◌,
  ◌≡◌,
}
use ufp.I40e.{Registers, set_bit}
use ufp.I40e.Queues.{
  qrx_ena, qtx_ena, qena_req_shift, is_enabled, i40e_vsi_start_rx, i40e_vsi_start_tx, switch, poll,
  each_queue,
}
use ufp.Io.{Packet}
use ufp.I40e.{field}
use ufp.I40e.Desc.{
  DescMemory, i40e_rx_desc_fetch, i40e_rx_desc_fill, i40e_tx_desc_fetch, i40e_tx_desc_fill,
  write_back, i40e_rx_desc_fetch-write_back, i40e_tx_desc_fill-fields,
}
use ufp.I40e.Irq.{
  pfint_dyn_ctln, pfint_lnklstn, qint_rqctl, qint_tqctl, each_irq, configure_irq, shutdown_irq,
  i40e_vsi_configure_irq, i40e_vsi_shutdown_irq, i40e_vsi_start_irq, i40e_vsi_stop_irq,
  i40e_update_enable_itr,
}
use ufp.I40e.Vectors.{IsControlled, i40e_vsi_start_irq-is_own}
use ufp.I40e.Switch.{IsFollowed}
use ufp.I40e.Start.{i40e_vsi_start_rx-enabled}
use ufp.I40e.Answer.{IsAnswered, i40e_vsi_start-in_time}

-- A device whose registers, by address, are requested and on. It follows a request to be on after a
-- wait, and one to be off at once.
record Switches : Type 0 where
  requested : ℕ → Bool
  on : ℕ → Bool

abbrev shown : Bool → Bool → ℕ
shown true on = if on then 5 else 1
shown false on = if on then 4 else 0

abbrev slow : Registers Switches
slow = record {
  read32 = λ reg s. (shown (s.requested reg) (s.on reg), s);
  write32 = λ reg value s. record {
    requested = λ r. if r == reg then value % 2 == 1 else s.requested r;
    on = λ r. if r == reg then (if value % 2 == 1 then s.on r else false) else s.on r;
  };
  usleep = λ usec s. record {
    requested = s.requested;
    on = λ r. if s.requested r then true else s.on r;
  };
}

abbrev all_off : Switches
all_off = record { requested = λ r. false; on = λ r. false }

shown_lem : (requested on : Bool) → is_enabled (shown requested on) ≡ on
shown_lem true true = refl
shown_lem true false = refl
shown_lem false true = refl
shown_lem false false = refl

set_bit-odd : (v : ℕ) → (set_bit v 0 % 2 == 1) ≡ true
set_bit-odd v = ground arith

slow-IsFollowed :
    (reg_of : ℕ → ℕ)
    → IsFollowed slow reg_of is_enabled (λ v. set_bit v qena_req_shift) (λ q s. s.on (reg_of q))
slow-IsFollowed reg_of = record {
  shows = λ queue s. shown_lem (s.requested (reg_of queue)) (s.on (reg_of queue));
  keeps_read = λ reg queue s e. e;
  keeps_usleep = λ usec queue s e. ground (arith, e);
  keeps_request = λ other value queue s e. ground (arith, e, set_bit-odd value);
}

slow-IsAnswered :
    (reg_of : ℕ → ℕ)
    → IsAnswered slow reg_of (λ v. set_bit v qena_req_shift) (λ q s. s.on (reg_of q))
slow-IsAnswered reg_of queue value s = ground (arith, set_bit-odd value)

started : (i40e_vsi_start_rx slow 4 2 all_off).0 ≡ true
unfolding i40e_vsi_start_rx each_queue switch poll
started = refl

i40e_vsi_start_rx-enabled_example : (i40e_vsi_start_rx slow 4 2 all_off).1.on (qrx_ena 5) ≡ true
i40e_vsi_start_rx-enabled_example =
    i40e_vsi_start_rx-enabled slow (λ q s. s.on (qrx_ena q)) 4 2 1 all_off (slow-IsFollowed qrx_ena)
      (omega arith) started

i40e_vsi_start-in_time_example :
    ((i40e_vsi_start_rx slow 4 2 all_off).0 ≡ true)
    × ((i40e_vsi_start_tx slow 4 2 all_off).0 ≡ true)
i40e_vsi_start-in_time_example =
    i40e_vsi_start-in_time slow 4 2 all_off (λ q s. s.on (qrx_ena q)) (λ q s. s.on (qtx_ena q))
      (slow-IsFollowed qrx_ena) (slow-IsAnswered qrx_ena) (slow-IsFollowed qtx_ena)
      (slow-IsAnswered qtx_ena)

abbrev zeros : DescMemory
zeros = record {
  rx = λ i. record { qword0 = 0; qword1 = 0 };
  tx = λ i. record { qword0 = 0; qword1 = 0 };
}

-- the last part of a packet, of 60 bytes
abbrev received : DescMemory
received = record {
  rx = λ i. record { qword0 = 0; qword1 = write_back 1 5 0 3 60 0 };
  tx = zeros.tx;
}

i40e_rx_desc_fetch-write_back_example :
    ((i40e_rx_desc_fetch 3 (i40e_rx_desc_fill 3 4096 zeros)).0 ≡ none)
    × ((i40e_rx_desc_fetch 3 received).0 ≡ some (60, 2))
i40e_rx_desc_fetch-write_back_example =
    i40e_rx_desc_fetch-write_back 3 4096 zeros received 1 5 0 3 60 0 (omega arith) (omega arith)
      (omega arith) (omega arith) (omega arith) refl

abbrev short_packet : Packet
short_packet = record { slot_buf = 0; slot_size = 60; slot_index = 7; flag = 2 }

i40e_tx_desc_fill-fields_test :
    let d' = i40e_tx_desc_fill 3 4096 short_packet zeros in
    let q = (d'.tx 3).qword1 in
    ((i40e_tx_desc_fetch 3 d').0 ≡ false)
    × ((d'.tx 3).qword0 ≡ 4096)
    × (field q 0 4 ≡ 0)
    × (field q 4 12 ≡ 7)
    × (field q 16 18 ≡ 0)
    × (field q 34 14 ≡ 60)
    × (field q 48 16 ≡ 0)
i40e_tx_desc_fill-fields_test = i40e_tx_desc_fill-fields 3 4096 short_packet zeros (omega arith)

-- registers that are plain memory
abbrev plain : Registers (ℕ → ℕ)
plain = record {
  read32 = λ reg s. (s reg, s);
  write32 = λ reg value s. update s reg value;
  usleep = λ usec s. s;
}

abbrev reset : ℕ → ℕ
reset reg = 0

plain-IsControlled : IsControlled plain (λ n s. s (pfint_dyn_ctln n))
plain-IsControlled = record { written = λ index value n s. ground arith; kept = λ n s. refl }

-- Two queues from the queue 4 on have the interrupts 9 to 12, whose indices are 8 to 11.
i40e_vsi_start_irq-is_own_example :
    (i40e_vsi_start_irq plain 4 2 reset (pfint_dyn_ctln 11) ≡ 27)
    × (i40e_vsi_stop_irq plain 4 2 reset (pfint_dyn_ctln 11) ≡ 0)
i40e_vsi_start_irq-is_own_example =
    i40e_vsi_start_irq-is_own plain (λ n s. s (pfint_dyn_ctln n)) 4 2 11 reset plain-IsControlled
      (omega arith)

-- the second queue of the same interface: its interrupts are 10 and 12
configure_test :
    let s = i40e_vsi_configure_irq plain 4 2 0 reset in
    (s (qint_rqctl 5) ≡ 2 ^ 30 + 2047 * 2 ^ 16 + 10)
    × (s (qint_tqctl 5) ≡ 2 ^ 30 + 2047 * 2 ^ 16 + 12)
    × (s (pfint_lnklstn 11) ≡ 2 ^ 11 + 5)
unfolding i40e_vsi_configure_irq each_irq configure_irq
configure_test = (refl, refl, refl)

shutdown_test :
    let s = i40e_vsi_shutdown_irq plain 4 2 (i40e_vsi_configure_irq plain 4 2 0 reset) in
    (s (qint_rqctl 5) ≡ 2047 * 2 ^ 16 + 3 * 2 ^ 11) × (s (pfint_lnklstn 9) ≡ 2047)
unfolding i40e_vsi_configure_irq i40e_vsi_shutdown_irq each_irq configure_irq shutdown_irq
shutdown_test = (refl, refl)

unmask_test : i40e_update_enable_itr plain 9 reset (pfint_dyn_ctln 8) ≡ 25
unfolding i40e_update_enable_itr
unmask_test = refl
