-- ===== src/I40e/Aq/Sessions.antt =====
-- dev/i40e/i40e_aq.c: the sessions, one for each command that waits for its answer, and what the
-- driver keeps of the answers (`struct i40e_dev` of i40e_main.h).
use ufp.Common.{
  ℕ, ◌+◌, ◌-◌, ◌/◌, ◌*◌, ◌%◌, ◌^◌, ◌==◌, if◌then◌else◌, Option, none, some, List, [], ◌∷◌, ◌++◌,
}
use ufp.I40e.{Registers}
use ufp.I40e.Aq.{AqRing, Shared, i40e_aq_asq_assign}
use ufp.I40e.Aq.Requests.{Request, Vsi}

-- `struct i40e_aq_session`. `retval` is an `int` as a word of 32 bits. `value` is the union of
-- `read_val` and `seid_offset`, which is its low half.
pub record Session : Type 0 where
  pub retval : ℕ
  pub value : ℕ

-- the `retval` of a session whose command has no answer yet
abbrev pub no_answer : ℕ
no_answer = 0xffff

-- -1
abbrev pub failed_answer : ℕ
failed_answer = 2 ^ 32 - 1

-- `struct i40e_elem`
pub record Elem : Type 0 where
  pub element_type : ℕ
  pub seid : ℕ
  pub seid_uplink : ℕ
  pub seid_downlink : ℕ
  pub element_info : ℕ

-- `struct i40e_version`
pub record Version : Type 0 where
  pub fw_major : ℕ
  pub fw_minor : ℕ
  pub fw_build : ℕ
  pub api_major : ℕ
  pub api_minor : ℕ

-- The parts of `struct i40e_dev` that commands change, the interfaces of the device, and the
-- machine. A session has its address; `session` is the list in its order.
pub record Nic (R : Type 0) : Type 0 where
  pub tx_ring : AqRing
  pub rx_ring : AqRing
  pub session : List (ℕ × Session)
  pub version : Version
  pub pf_lan_mac : List ℕ
  pub elem : List Elem
  pub iface : List Vsi
  pub machine : R

-- the search of the list by the address
unfoldable pub find_session : ℕ → List (ℕ × Session) → Option Session
find_session p [] = none
find_session p ((q, session) ∷ rest) = if q == p then some session else find_session p rest

-- a write through the address of a session
unfoldable pub change : ℕ → (Session → Session) → List (ℕ × Session) → List (ℕ × Session)
change p f [] = []
change p f ((q, session) ∷ rest) =
    if q == p then (q, f session) ∷ rest else (q, session) ∷ change p f rest

-- `list_del`
unfoldable pub remove_session : ℕ → List (ℕ × Session) → List (ℕ × Session)
remove_session p [] = []
remove_session p ((q, session) ∷ rest) =
    if q == p then rest else (q, session) ∷ remove_session p rest

abbrev pub set_retval : ℕ → Session → Session
set_retval retval session = record session { retval = retval }

abbrev pub set_read_val : ℕ → Session → Session
set_read_val read_val session = record session { value = read_val }

abbrev pub set_seid_offset : ℕ → Session → Session
set_seid_offset seid_offset session = record session {
  value = session.value / 2 ^ 16 * 2 ^ 16 + seid_offset % 2 ^ 16;
}

-- the heap, for a session: the address that `malloc` gives
pub record Blocks (R : Type 0) : Type 0 where
  pub malloc : R → Option (ℕ × R)
  pub free : ℕ → R → R

module _ {R : Type 0} (heap : Blocks R) where
  open heap use {malloc, free}

  -- The union is what the memory held: `malloc` does not clear it.
  unfoldable pub i40e_aq_session_create : (garbage : ℕ) → Nic R → Option ℕ × Nic R
  i40e_aq_session_create garbage nic = elim (malloc nic.machine) [
    | none ↦ (none, nic)
    | some (p, s) ↦ (
      some p,
      record nic {
        session = nic.session ++ (p, record { retval = no_answer; value = garbage }) ∷ [];
        machine = s;
      },
    )
  ]

  unfoldable pub i40e_aq_session_delete : ℕ → Nic R → Nic R
  i40e_aq_session_delete p nic = record nic {
    session = remove_session p nic.session;
    machine = free p nic.machine;
  }

module _ {R : Type 0} (hw : Registers R) (mem : Shared R) where
  abbrev put_ring : Nic R → AqRing × R → Nic R
  put_ring nic (ring, s) = record nic { tx_ring = ring; machine = s }

  -- the call of `i40e_aq_asq_assign` that ends every `i40e_aqc_req_*`
  unfoldable pub submit : Request → (session : ℕ) → Nic R → Nic R
  unfolding put_ring
  submit request session nic = put_ring nic (
      i40e_aq_asq_assign hw mem request.opcode request.flags request.cmd request.bytes
        request.data_size session nic.tx_ring nic.machine)
