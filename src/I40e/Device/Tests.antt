-- ===== src/I40e/Device/Tests.antt =====
-- Opening the device of I40e/Aq/Toy.
use mathlib.Core.Option.{some-injective}
use ufp.Common.{◌%◌, ◌==◌, if◌then◌else◌, sym, ap, ℕ, ◌+◌, ◌*◌, ◌^◌, refl, arith, some, [], update}
use ufp.I40e.Aq.Sessions.{Nic, Blocks}
use ufp.I40e.Aq.Toy.{Toy, hw, mem, malloc, system, ring, no_buf, toy, nic, toy-IsCounted}
use ufp.I40e.Aq.Areas.{IsCounted}
use ufp.I40e.Aq.Returned.{IsSteady}
use ufp.I40e.Aq.Heads.{pf_atqh}
use ufp.I40e.Commands.{Commands}
use ufp.I40e.Hmc.{SdEntry}
use ufp.I40e.Reset.{glnvm_uld, glpci_cnf2}
use ufp.I40e.{Registers}
use ufp.I40e.Device.{Parts, i40e_open}
use ufp.I40e.Device.Implementation.{nic_hw, commands, parts}
use ufp.I40e.Device.Kept.{IsQuiet}
use ufp.I40e.Device.Balance.{OpenedFrom, i40e_open-i40e_close}

-- every session gets the address 7
abbrev heap : Blocks Toy
heap = record { malloc = λ s. some (7, s); free = λ p s. s }

abbrev store64 : (addr value : ℕ) → Toy → Toy
store64 addr value s = s

abbrev sd_garbage : ℕ → SdEntry
sd_garbage i = record { pd_addrs = no_buf; pd = λ j. no_buf }

-- the register for the head shows an index of the queue
abbrev small_hw : Registers Toy
small_hw = record {
  read32 = λ reg s. (if reg == pf_atqh then s.regs reg % 128 else s.regs reg, s);
  write32 = hw.write32;
  usleep = hw.usleep;
}

small_hw-IsCounted : (q : ℕ × ℕ) → IsCounted system 4096 small_hw mem q (λ s. s.mapped q)
small_hw-IsCounted q = record {
  by_mmap = (toy-IsCounted q).by_mmap;
  by_munmap = (toy-IsCounted q).by_munmap;
  same_malloc = (toy-IsCounted q).same_malloc;
  same_free = (toy-IsCounted q).same_free;
  same_map = (toy-IsCounted q).same_map;
  same_unmap = (toy-IsCounted q).same_unmap;
  same_read = λ reg s. refl;
  same_write = (toy-IsCounted q).same_write;
  same_store = (toy-IsCounted q).same_store;
}

small_hw-IsSteady : IsSteady small_hw malloc pf_atqh 128
small_hw-IsSteady = record {
  in_ring = λ s. omega arith;
  steady_read = λ s. refl;
  steady_write = λ s. refl;
  steady_malloc = λ s s' e. ap (λ (s : Toy). s.regs pf_atqh % 128) (sym (some-injective s s' e));
}

toy-IsQuiet : (q : ℕ × ℕ) → IsQuiet small_hw mem heap (λ s. s.mapped q)
toy-IsQuiet q = record {
  same_usleep = λ n s. refl;
  same_memcpy = λ addr bytes size s. refl;
  same_create = λ p s s' e. ground (arith, e);
  same_delete = λ p s. refl;
}

-- with two interrupts of either kind, and a firmware that is ready after a reset
abbrev ready_nic : Nic Toy
ready_nic = record nic {
  machine = record toy {
    regs = update (update toy.regs glpci_cnf2 (2 * 2 ^ 2 + 2 * 2 ^ 13)) glnvm_uld 24;
  };
}

abbrev toy_commands : Commands (Nic Toy)
toy_commands = commands system 4096 small_hw mem heap store64 129 0 ring sd_garbage

abbrev toy_hw : Registers (Nic Toy)
toy_hw = nic_hw system 4096 small_hw mem heap store64 129 0 ring sd_garbage

abbrev toy_parts : Parts (Nic Toy)
toy_parts = parts system 4096 small_hw mem heap store64 129 0 ring sd_garbage

abbrev area : ℕ × ℕ
area = (4096, 4096)

i40e_open-i40e_close_example :
    OpenedFrom system 4096 small_hw mem heap store64 128 0 ring sd_garbage area
      (λ s. s.mapped area)
      (small_hw-IsCounted area)
      (toy-IsQuiet area)
      (λ addr value s. refl)
      small_hw-IsSteady
      (omega arith)
      3
      0
      (i40e_open toy_commands toy_hw toy_parts 3 [] ready_nic)
i40e_open-i40e_close_example =
    i40e_open-i40e_close system 4096 small_hw mem heap store64 128 0 ring sd_garbage area
      (λ s. s.mapped area) (small_hw-IsCounted area) (toy-IsQuiet area) (λ addr value s. refl)
      small_hw-IsSteady (omega arith) 3 [] ready_nic
