-- ===== src/I40e/Device/Implementation.antt =====
-- dev/i40e: the parts of I40e/Device on the admin queues and on the memory of the contexts.
use ufp.Common.{ℕ, Option, none, some}
use ufp.I40e.{Registers}
use ufp.Dev.Dma.{System}
use ufp.I40e.Aq.{AqRing, Shared}
use ufp.I40e.Aq.Sessions.{Nic, Blocks}
use ufp.I40e.Aq.Setup.{i40e_aq_init, i40e_aq_destroy}
use ufp.I40e.Hmc.{SdEntry, i40e_hmc_init, i40e_hmc_destroy}
use ufp.I40e.Commands.{Commands}
use ufp.I40e.Commands.Implementation.{nic_commands}
use ufp.I40e.Device.{Parts}

-- `blank`, `garbage` and `sd_garbage` are what allocated memory holds, and `fuel` is for the loop
-- that cleans the send queue.
module _ {R : Type 0} (system : System R) (page_size : ℕ) (hw : Registers R) (mem : Shared R)
    (heap : Blocks R) (store64 : (addr value : ℕ) → R → R) (fuel garbage : ℕ) (blank : AqRing)
    (sd_garbage : ℕ → SdEntry) where
  abbrev pub on_machine : {A : Type 0} → Nic R → A × R → A × Nic R
  on_machine nic (a, s) = (a, record nic { machine = s })

  abbrev pub nic_hw : Registers (Nic R)
  nic_hw = record {
    read32 = λ reg nic. on_machine nic (hw.read32 reg nic.machine);
    write32 = λ reg value nic. record nic { machine = hw.write32 reg value nic.machine };
    usleep = λ n nic. record nic { machine = hw.usleep n nic.machine };
  }

  abbrev pub commands : Commands (Nic R)
  commands = nic_commands hw mem system.malloc system.free heap fuel garbage

  abbrev pub nic_allocated : Nic R → Option R → Option (Nic R)
  nic_allocated nic none = none
  nic_allocated nic (some s) = some (record nic { machine = s })

  abbrev pub parts : Parts (Nic R)
  parts = record {
    aq_init = i40e_aq_init system page_size hw mem blank;
    aq_destroy = i40e_aq_destroy system page_size hw mem heap fuel garbage;
    hmc_init = λ pf_id nic.
        on_machine nic (i40e_hmc_init hw system page_size store64 pf_id sd_garbage nic.machine);
    hmc_destroy = λ hmc nic. record nic {
      machine = i40e_hmc_destroy hw system page_size store64 hmc nic.machine;
    };
    malloc = λ nic. nic_allocated nic (system.malloc nic.machine);
    pf_lan_mac = λ nic. nic.pf_lan_mac;
  }
