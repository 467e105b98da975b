-- ===== src/I40e/Pf/Tests.antt =====
-- Setting up the function and an interface at the device of I40e/Aq/Toy.
use mathlib.Core.Option.{some-injective}
use ufp.Common.{ℕ, ◌*◌, ◌%◌, ◌^◌, ◌<◌, ◌≡◌, ap, sym, arith, Option, some, [], get_or}
use ufp.I40e.Aq.Sessions.{Nic, Blocks}
use ufp.I40e.Aq.Toy.{Toy, hw, mem, malloc}
use ufp.I40e.Commands.{Commands}
use ufp.I40e.Commands.Sessions.{IsBalanced, IsTracked}
use ufp.I40e.Commands.Implementation.{nic_commands, sessions, Never, nic_commands-IsTracked}
use ufp.I40e.Pf.{i40e_setup_pf_switch}
use ufp.I40e.Pf.Balance.{i40e_setup_pf_switch-IsBalanced}
use ufp.I40e.VsiSetup.{lut_from, tc_map}
use ufp.I40e.VsiSetup.Tables.{lut_from-bounds, IsLeastPower, tc_map_first}

-- every session gets the address 7
abbrev heap : Blocks Toy
heap = record { malloc = λ s. some (7, s); free = λ p s. s }

abbrev toy_commands : Commands (Nic Toy)
toy_commands = nic_commands hw mem malloc (λ s. s) heap 128 0

abbrev toy_sessions : Nic Toy → ℕ → ℕ
toy_sessions = sessions hw mem malloc (λ s. s) heap 128 0

abbrev ToyNever : (ℕ → ℕ) → Type 0
ToyNever = Never hw mem malloc (λ s. s) heap 128 0

nic_commands-IsTracked_example : IsTracked toy_sessions ToyNever toy_commands
nic_commands-IsTracked_example = nic_commands-IsTracked hw mem malloc (λ s. s) heap 128 0

same_malloc :
    (s s' : Nic Toy)
    → ◌≡◌ {A = Option (Nic Toy)} (some s) (some s')
    → toy_sessions s' ≡ toy_sessions s
same_malloc s s' e = ap toy_sessions (sym (some-injective s s' e))

i40e_setup_pf_switch-IsBalanced_example :
    IsBalanced toy_sessions ToyNever
      (i40e_setup_pf_switch toy_commands (λ s. some s) (λ nic. nic.pf_lan_mac) 3 0 [])
i40e_setup_pf_switch-IsBalanced_example =
    i40e_setup_pf_switch-IsBalanced toy_sessions ToyNever toy_commands
      (nic_commands-IsTracked hw mem malloc (λ s. s) heap 128 0) 3 (λ offset s reached l. tt)
      (λ s. some s) (λ nic. nic.pf_lan_mac) same_malloc 0 []

lut_from-bounds_test :
    (get_or (lut_from 512 0 6) 100 0 < 6) × (get_or (lut_from 512 0 6) 100 0 ≡ 100 % 6)
lut_from-bounds_test = lut_from-bounds 100 6 (omega arith) (omega arith) (omega arith)

tc_map_first_test : (pow : ℕ) × IsLeastPower pow 6 × (tc_map 0 6 ≡ pow * 2 ^ 9 % 2 ^ 16)
tc_map_first_test = tc_map_first 6 (omega arith)
