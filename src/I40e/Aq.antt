-- ===== src/I40e/Aq.antt =====
-- dev/i40e/i40e_aq.c and i40e_aq.h: the admin queues, by which the driver sends commands to the
-- firmware of the device. Their descriptors and buffers lie in memory that the device reads and
-- writes too, so loads from it and stores to it are parameters that act on the state of the machine.
pub mod Requests
pub mod Sessions
pub mod Responses
pub mod Clean
pub mod Indices
pub mod Effects
pub mod Answers
pub mod Cleaned
pub mod Delivered
pub mod Waited
pub mod Setup
pub mod Areas
pub mod Returned
pub mod Heads
pub mod Toy
mod Tests
use Prim.Native.Nat.{bit_or}
use ufp.Common.{
  ℕ, zero, suc, ◌+◌, ◌-◌, ◌*◌, ◌/◌, ◌%◌, ◌^◌, ltb, ◌==◌, if◌then◌else◌, Bool, true, false, ◌&&◌,
  not, Option, none, some, List,
}
use ufp.I40e.{Registers, test_bit, set_bit}
use ufp.Dev.Dma.{DevBuf}

-- the 16 bytes of a command, as four little-endian words
pub record Params : Type 0 where
  pub param0 : ℕ
  pub param1 : ℕ
  pub param2 : ℕ
  pub param3 : ℕ

-- `struct i40e_aq_desc`; a command that has a buffer has its address in `param2` and `param3`
pub record AqDesc : Type 0 where
  pub flags : ℕ
  pub opcode : ℕ
  pub datalen : ℕ
  pub retval : ℕ
  pub cookie_high : ℕ
  pub cookie_low : ℕ
  pub params : Params

-- the memory that the driver shares with the device, at addresses of the process
pub record Shared (R : Type 0) : Type 0 where
  pub load_desc : (ring index : ℕ) → R → AqDesc
  pub store_desc : (ring index : ℕ) → AqDesc → R → R
  pub load_byte : (addr : ℕ) → R → ℕ
  pub memcpy : (addr : ℕ) (bytes : List ℕ) (size : ℕ) → R → R

-- `struct i40e_aq_ring`; `head` to `bal` are the addresses of registers
pub record AqRing : Type 0 where
  pub desc : DevBuf
  pub bufs : ℕ → DevBuf
  pub num_desc : ℕ
  pub next_to_use : ℕ
  pub next_to_clean : ℕ
  pub head : ℕ
  pub tail : ℕ
  pub len : ℕ
  pub bah : ℕ
  pub bal : ℕ

abbrev pub lower32 : ℕ → ℕ
lower32 n = n % 2 ^ 32

abbrev pub upper32 : ℕ → ℕ
upper32 n = n / 2 ^ 32 % 2 ^ 32

abbrev pub large_buf : ℕ
large_buf = 512

abbrev pub max_aq_buf_size : ℕ
max_aq_buf_size = 4096

abbrev pub flag_err_shift : ℕ
flag_err_shift = 2

abbrev pub flag_lb_shift : ℕ
flag_lb_shift = 9

abbrev pub flag_rd_shift : ℕ
flag_rd_shift = 10

abbrev pub flag_buf_shift : ℕ
flag_buf_shift = 12

abbrev pub flag_rd : ℕ
flag_rd = 2 ^ flag_rd_shift

abbrev pub flag_buf : ℕ
flag_buf = 2 ^ flag_buf_shift

-- in `uint16_t`
unfoldable pub i40e_aq_desc_unused : AqRing → (num_desc : ℕ) → ℕ
i40e_aq_desc_unused ring num_desc =
    if ltb ring.next_to_use ring.next_to_clean
    then (ring.next_to_clean + 2 ^ 17 - ring.next_to_use - 1) % 2 ^ 16
    else (num_desc + 2 ^ 17 - ring.next_to_use + ring.next_to_clean - 1) % 2 ^ 16

-- `next_to_use` and `next_to_clean` go round the ring
unfoldable pub next_index : AqRing → ℕ → ℕ
next_index ring index =
    let next = (index + 1) % 2 ^ 16 in if ltb next ring.num_desc then next else 0

-- the length and the flags of the descriptor of a command that has a buffer, and the buffer's address
unfoldable pub desc_buf : (data_size : ℕ) → DevBuf → AqDesc → AqDesc
desc_buf data_size buf desc = record desc {
  datalen = if data_size == 0 then max_aq_buf_size else data_size;
  flags =
      if data_size == 0
      then set_bit desc.flags flag_lb_shift
      else if ltb large_buf data_size
      then set_bit desc.flags flag_lb_shift
      else desc.flags;
  params = record desc.params { param2 = upper32 buf.addr_dma; param3 = lower32 buf.addr_dma };
}

-- The descriptor of a command, from what the slot of the ring holds: `retval` stays, and so does
-- `datalen` where the command has no buffer.
unfoldable pub command_desc :
    (opcode flags : ℕ) → Params → (data_size cookie : ℕ) → DevBuf → AqDesc → AqDesc
unfolding desc_buf
command_desc opcode flags cmd data_size cookie buf old =
    let desc = record old { flags = flags; opcode = opcode; params = cmd } in
    let desc' = if test_bit flags flag_buf_shift then desc_buf data_size buf desc else desc in
    record desc' { cookie_high = upper32 cookie; cookie_low = lower32 cookie }

-- the descriptor that the firmware writes an event to
unfoldable pub event_desc : DevBuf → AqDesc → AqDesc
event_desc buf old = record {
  flags = flag_buf + 2 ^ flag_lb_shift;
  opcode = 0;
  datalen = max_aq_buf_size;
  retval = 0;
  cookie_high = 0;
  cookie_low = 0;
  params = record {
    param0 = 0;
    param1 = 0;
    param2 = upper32 buf.addr_dma;
    param3 = lower32 buf.addr_dma;
  };
}

-- what is copied to the buffer of a command
unfoldable pub is_copied : (flags : ℕ) (has_data : Bool) (data_size : ℕ) → Bool
is_copied flags has_data data_size =
    test_bit flags flag_buf_shift
    && test_bit flags flag_rd_shift
    && has_data
    && not (data_size == 0)

module _ {R : Type 0} (hw : Registers R) (mem : Shared R) where
  open hw use {write32}
  open mem use {load_desc, store_desc, memcpy}

  abbrev copy_data : (flags : ℕ) (bytes : Option (List ℕ)) (data_size addr : ℕ) → R → R
  copy_data flags none data_size addr s = s
  copy_data flags (some bytes) data_size addr s =
      if is_copied flags true data_size then memcpy addr bytes data_size s else s

  -- The descriptor is built in place; here it is built and stored as a whole. A full ring takes no
  -- command, and the caller does not see it.
  unfoldable pub i40e_aq_asq_assign :
      (opcode flags : ℕ) (cmd : Params) (bytes : Option (List ℕ)) (data_size cookie : ℕ)
      (ring : AqRing)
      → R
      → AqRing × R
  unfolding copy_data
  i40e_aq_asq_assign opcode flags cmd bytes data_size cookie ring s =
      if i40e_aq_desc_unused ring ring.num_desc == 0
      then (ring, s)
      else let i = ring.next_to_use in
        let s₁ = copy_data flags bytes data_size (ring.bufs i).addr_virt s in
        let old = load_desc ring.desc.addr_virt i s₁ in
        let desc = command_desc opcode flags cmd data_size cookie (ring.bufs i) old in
        let s₂ = store_desc ring.desc.addr_virt i desc s₁ in
        let ring' = record ring { next_to_use = next_index ring i } in
        (ring', write32 ring'.tail ring'.next_to_use s₂)

  -- the loop of `i40e_aq_arq_assign`, with the rounds that are left
  unfoldable pub assign_events : ℕ → AqRing → R → AqRing × R
  assign_events zero ring s = (ring, s)
  assign_events (suc n) ring s =
      let i = ring.next_to_use in
      let desc = event_desc (ring.bufs i) (load_desc ring.desc.addr_virt i s) in
      assign_events n (record ring { next_to_use = next_index ring i })
        (store_desc ring.desc.addr_virt i desc s)

  abbrev write_tail : AqRing × R → AqRing × R
  write_tail (ring, s) = (ring, write32 ring.tail ring.next_to_use s)

  unfoldable pub i40e_aq_arq_assign : AqRing → R → AqRing × R
  unfolding write_tail
  i40e_aq_arq_assign ring s =
      let max_allocation = i40e_aq_desc_unused ring ring.num_desc in
      if max_allocation == 0 then (ring, s) else write_tail (assign_events max_allocation ring s)
