-- ===== src/I40e/Aq/Toy.antt =====
-- A device that completes every command in a millisecond, and one that does nothing.
use ufp.Common.{ℕ, suc, ◌+◌, ◌-◌, ◌*◌, refl, arith, Option, some, [], ◌∷◌, update}
use ufp.I40e.{Registers}
use ufp.I40e.Mapped.{mapping}
use ufp.Dev.Dma.{System, DevBuf}
use ufp.I40e.Aq.{Params, AqDesc, AqRing, Shared}
use ufp.I40e.Aq.Sessions.{Nic, no_answer}
use ufp.I40e.Aq.Indices.{IsRing}
use ufp.I40e.Aq.Areas.{IsCounted}

pub record Toy : Type 0 where
  pub regs : ℕ → ℕ
  pub descs : ℕ → AqDesc
  pub next : ℕ
  pub mapped : ℕ × ℕ → ℕ

abbrev pub head_reg : ℕ
head_reg = 0x00080300

abbrev pub tail_reg : ℕ
tail_reg = 0x00080400

-- a sleep lets the firmware move the head to the tail
abbrev pub hw : Registers Toy
hw = record {
  read32 = λ reg s. (s.regs reg, s);
  write32 = λ reg value s. record s { regs = update s.regs reg value };
  usleep = λ n s. record s { regs = update s.regs head_reg (s.regs tail_reg) };
}

abbrev pub dead : Registers Toy
dead = record {
  read32 = λ reg s. (s.regs reg, s);
  write32 = λ reg value s. record s { regs = update s.regs reg value };
  usleep = λ n s. s;
}

abbrev pub mem : Shared Toy
mem = record {
  load_desc = λ ring i s. s.descs i;
  store_desc = λ ring i desc s. record s { descs = update s.descs i desc };
  load_byte = λ addr s. 0;
  memcpy = λ addr bytes size s. s;
}

abbrev pub malloc : Toy → Option Toy
malloc s = some s

abbrev pub system : System Toy
system = record {
  malloc = malloc;
  free = λ s. s;
  mmap = λ size s. some (
    s.next * 4096,
    record s { next = suc s.next; mapped = λ q. s.mapped q + mapping q (s.next * 4096) size },
  );
  munmap = λ addr size s. record s { mapped = λ q. s.mapped q - mapping q addr size };
  ufp_vfio_dma_map = λ addr size s. some (addr, s);
  ufp_vfio_dma_unmap = λ addr size s. s;
}

abbrev pub no_buf : DevBuf
no_buf = record { addr_virt = 0; addr_dma = 0; size = 0 }

abbrev pub ring : AqRing
ring = record {
  desc = no_buf;
  bufs = λ i. no_buf;
  num_desc = 128;
  next_to_use = 1;
  next_to_clean = 0;
  head = head_reg;
  tail = tail_reg;
  len = 0;
  bah = 0;
  bal = 0;
}

pub ring-IsRing : IsRing ring
ring-IsRing = record { small = omega arith; used = omega arith; cleaned = omega arith }

abbrev pub no_params : Params
no_params = record { param0 = 0; param1 = 0; param2 = 0; param3 = 0 }

-- the command to shut down of the session 7, with the error 5
abbrev pub desc : AqDesc
desc = record {
  flags = 0;
  opcode = 3;
  datalen = 0;
  retval = 5;
  cookie_high = 0;
  cookie_low = 7;
  params = no_params;
}

abbrev pub descs : ℕ → AqDesc
descs i = desc

abbrev pub toy : Toy
toy = record { regs = update (λ reg. 0) tail_reg 1; descs = descs; next = 0; mapped = λ q. 0 }

abbrev pub nic : Nic Toy
nic = record {
  tx_ring = ring;
  rx_ring = ring;
  session = (7, record { retval = no_answer; value = 0 }) ∷ [];
  version = record { fw_major = 0; fw_minor = 0; fw_build = 0; api_major = 0; api_minor = 0 };
  pf_lan_mac = [];
  elem = [];
  iface = [];
  machine = toy;
}

pub toy-IsCounted : (q : ℕ × ℕ) → IsCounted system 4096 hw mem q (λ s. s.mapped q)
toy-IsCounted q = record {
  by_mmap = λ size addr s s' e. ground (arith, e);
  by_munmap = λ addr size s. refl;
  same_malloc = λ s s' e. ground (arith, e);
  same_free = λ s. refl;
  same_map = λ addr size addr_dma s s' e. ground (arith, e);
  same_unmap = λ addr size s. refl;
  same_read = λ reg s. refl;
  same_write = λ reg value s. refl;
  same_store = λ ring index desc s. refl;
}
