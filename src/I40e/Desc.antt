-- ===== src/I40e/Desc.antt =====
-- dev/i40e/i40e_io.c and i40e_io.h: the descriptors of the receive and transmit rings. A descriptor is
-- two words of 64 bits, which the card overwrites when it is done.
use Prim.Native.Nat.{bit_or}
use ufp.Common.{
  ℕ, ◌+◌, ◌*◌, ◌/◌, ◌%◌, ◌^◌, ◌<◌, ◌≡◌, refl, ap, arith, inl, inr, Bool-cases, Bool, true, false,
  Option, none, some, ◌==◌, if◌then◌else◌, ◌∙◌, update, update_self,
}
use ufp.I40e.{test_bit, field}
use ufp.Common.Or.{shift_left, bit_or-sum}
use ufp.Io.{Packet, RingOps}

-- `struct i40e_rx_desc` with its write-back format, and `struct i40e_tx_desc`
pub record Desc : Type 0 where
  pub qword0 : ℕ
  pub qword1 : ℕ

-- the memory of the two rings of a queue
pub record DescMemory : Type 0 where
  pub rx : ℕ → Desc
  pub tx : ℕ → Desc

abbrev pub packet_error : ℕ
packet_error = 1

abbrev pub packet_eof : ℕ
packet_eof = 2

-- The size of the packet and its flags, if the card is done with the descriptor.
unfoldable pub i40e_rx_desc_fetch : ℕ → DescMemory → Option (ℕ × ℕ) × DescMemory
i40e_rx_desc_fetch index d =
    let qword1 = (d.rx index).qword1 in
    let eof = if test_bit qword1 1 then packet_eof else 0 in
    let error = if field qword1 19 8 == 0 then 0 else packet_error in
    if test_bit qword1 0 then (some (field qword1 38 14, bit_or eof error), d) else (none, d)

-- whether the card has sent the packet: the type of the descriptor is then `DESC_DONE`
unfoldable pub i40e_tx_desc_fetch : ℕ → DescMemory → Bool × DescMemory
i40e_tx_desc_fetch index d = (field (d.tx index).qword1 0 4 == 15, d)

unfoldable pub i40e_rx_desc_fill : (index addr_dma : ℕ) → DescMemory → DescMemory
i40e_rx_desc_fill index addr_dma d = record d {
  rx = update d.rx index (record { qword0 = addr_dma; qword1 = 0 });
}

-- `ICRC`, `RS`, and `EOP` for the last part of a packet
abbrev pub tx_cmd : ℕ → ℕ
tx_cmd flag = bit_or (bit_or 4 2) (if test_bit flag 1 then 1 else 0)

-- The type `DATA`, the offset and the tag are 0.
abbrev tx_word_of : Packet → ℕ
tx_word_of packet = bit_or (tx_cmd packet.flag * 2 ^ 4) (packet.slot_size * 2 ^ 34 % 2 ^ 64)

unfoldable pub i40e_tx_desc_fill : (index addr_dma : ℕ) → Packet → DescMemory → DescMemory
i40e_tx_desc_fill index addr_dma packet d = record d {
  tx = update d.tx index (record { qword0 = addr_dma; qword1 = tx_word_of packet });
}

-- the callbacks that the driver gives to the library
abbrev pub i40e_ring_ops : RingOps DescMemory
i40e_ring_ops = record {
  fill_rx_desc = i40e_rx_desc_fill;
  fetch_rx_desc = i40e_rx_desc_fetch;
  fill_tx_desc = i40e_tx_desc_fill;
  fetch_tx_desc = i40e_tx_desc_fetch;
}

-- The write-back format of a receive descriptor (8.3.2.2): done, end of packet, other status bits, error,
-- type, length of the packet, and the rest.
abbrev pub write_back : (eof status error type len rest : ℕ) → ℕ
write_back eof status error type len rest =
    1 + eof * 2 + status * 2 ^ 2 + error * 2 ^ 19 + type * 2 ^ 27 + len * 2 ^ 38 + rest * 2 ^ 52

flags_lem :
    (eof fine : Bool)
    → bit_or (if eof then packet_eof else 0) (if fine then 0 else packet_error)
      ≡ (if eof then packet_eof else 0) + (if fine then 0 else packet_error)
flags_lem true true = refl
flags_lem true false = refl
flags_lem false true = refl
flags_lem false false = refl

tx_cmd_lem : (flag : ℕ) → tx_cmd flag ≡ 6 + (if test_bit flag 1 then 1 else 0)
tx_cmd_lem flag = elim (Bool-cases (test_bit flag 1)) [ inl e ↦ rw e refl | inr e ↦ rw e refl ]

tx_word :
    (packet : Packet)
    → packet.slot_size < 2 ^ 14
    → tx_word_of packet
      ≡ (6 + (if test_bit packet.flag 1 then 1 else 0)) * 2 ^ 4 + packet.slot_size * 2 ^ 34
tx_word packet h =
    let eop = if test_bit packet.flag 1 then 1 else 0 in
    let size = packet.slot_size in
    let shifted : size * 2 ^ 34 % 2 ^ 64 ≡ shift_left 34 size = omega arith in
    let small : (6 + eop) * 2 ^ 4 < shift_left 34 1 = ground arith in
    let back : (6 + eop) * 2 ^ 4 + shift_left 34 size ≡ (6 + eop) * 2 ^ 4 + size * 2 ^ 34 =
      omega arith in
    ap (λ c. bit_or (c * 2 ^ 4) (size * 2 ^ 34 % 2 ^ 64)) (tx_cmd_lem packet.flag)
    ∙ ap (λ x. bit_or ((6 + eop) * 2 ^ 4) x) shifted
    ∙ bit_or-sum 34 ((6 + eop) * 2 ^ 4) size small
    ∙ back

eop_bound : (flag : ℕ) → (if test_bit flag 1 then 1 else 0) < 2
eop_bound flag = ground arith

-- A descriptor that was just filled is not received. Once the card has written it back, the fetch
-- gives the length, the flag for the end of a packet, and the flag for an error if any bit of the
-- error field is set. Each field of the format is below the bound of its width.
pub i40e_rx_desc_fetch-write_back :
    (index addr_dma : ℕ) (d d' : DescMemory) (eof status error type len rest : ℕ)
    → eof < 2
    → status < 2 ^ 17
    → error < 2 ^ 8
    → type < 2 ^ 11
    → len < 2 ^ 14
    → (d'.rx index).qword1 ≡ write_back eof status error type len rest
    → ((i40e_rx_desc_fetch index (i40e_rx_desc_fill index addr_dma d)).0 ≡ none)
      × ((i40e_rx_desc_fetch index d').0
          ≡ some (
            len,
            (if eof == 1 then packet_eof else 0) + (if error == 0 then 0 else packet_error),
          ))
unfolding i40e_rx_desc_fetch i40e_rx_desc_fill
i40e_rx_desc_fetch-write_back index addr_dma d d' eof status error type len rest h₁ h₂ h₃ h₄ h₅ e =
    let q = (d'.rx index).qword1 in
    let done : test_bit q 0 ≡ true = ground (arith, e) in
    let eof_of : q / 2 ^ 1 % 2 ≡ eof = omega arith in
    let error_of : field q 19 8 ≡ error = omega arith in
    let len_of : field q 38 14 ≡ len = omega arith in
    (
      ground arith,
      rw (done, eof_of, error_of, len_of, i40e_rx_desc_fetch)
          (ap (λ f. some (len, f)) (flags_lem (eof == 1) (error == 0))),
    )

-- A descriptor that was just filled names the address and is not sent. What the card reads in it is
-- the type of data, the size of the packet, and the command: a status is asked for, the checksum is
-- inserted, and the packet ends exactly if it has the flag for that. The size is below 2 ^ 14.
pub i40e_tx_desc_fill-fields :
    (index addr_dma : ℕ) (packet : Packet) (d : DescMemory)
    → packet.slot_size < 2 ^ 14
    → let d' = i40e_tx_desc_fill index addr_dma packet d in
      let q = (d'.tx index).qword1 in
      ((i40e_tx_desc_fetch index d').0 ≡ false)
      × ((d'.tx index).qword0 ≡ addr_dma)
      × (field q 0 4 ≡ 0)
      × (field q 4 12 ≡ 6 + (if test_bit packet.flag 1 then 1 else 0))
      × (field q 16 18 ≡ 0)
      × (field q 34 14 ≡ packet.slot_size)
      × (field q 48 16 ≡ 0)
unfolding i40e_tx_desc_fill i40e_tx_desc_fetch
i40e_tx_desc_fill-fields index addr_dma packet d h =
    let d' = i40e_tx_desc_fill index addr_dma packet d in
    let eop = if test_bit packet.flag 1 then 1 else 0 in
    let small : eop < 2 = eop_bound packet.flag in
    let at : d'.tx index ≡ record { qword0 = addr_dma; qword1 = tx_word_of packet } =
      update_self d.tx index _ in
    let word : (d'.tx index).qword1 ≡ (6 + eop) * 2 ^ 4 + packet.slot_size * 2 ^ 34 =
      ap (λ x. x.qword1) at ∙ tx_word packet h in
    let its_type : field (d'.tx index).qword1 0 4 ≡ 0 = omega (arith, word, small) in
    (
      rw its_type refl,
      ap (λ x. x.qword0) at,
      its_type,
      omega (arith, word, small),
      omega (arith, word, small),
      omega (arith, word, small),
      omega (arith, word, small),
    )
