-- ===== src/Dev/Register.antt =====
-- lib/lib_dev.c: the registration of drivers.
use mathlib.Core.List.{append_assoc, append-nil, map-append}
use ufp.Common.{
  ℕ, suc, ◌≡◌, inl, inr, refl, sym, ap, ◌∙◌, Bool, true, false, none, some, List, [], ◌∷◌, ◌++◌,
  map, ◌==◌, if◌then◌else◌, length, All, arith, Bool-cases, Option-cases,
}
use ufp.Heap.{Heap}
use ufp.Dev.{
  PciId, PciEntry, PciDriver, is_for, find_entry, new_pci_entry, Registry, ufp_dev_register_device,
  unregister_from, unregister_first, register_from, ufp_dev_register, unregister_table,
  ufp_dev_unregister,
}

-- the part of a table before its end
abbrev pub up_to_end : List PciId → List PciId
up_to_end [] = []
up_to_end (id ∷ ids) = if id.device_id == 0 then [] else id ∷ up_to_end ids

-- a device that no entry is for
abbrev pub IsNew : List PciEntry → PciId → Type 0
IsNew entries id = find_entry id entries ≡ none

is_for-new_pci_entry : (driver : ℕ) (id : PciId) → is_for id (new_pci_entry driver id) ≡ true
is_for-new_pci_entry driver id = ground arith

find_entry_skip :
    (id : PciId) (x : PciEntry) (xs : List PciEntry)
    → is_for id x ≡ false
    → find_entry id (x ∷ xs) ≡ find_entry id xs
unfolding find_entry
find_entry_skip id x xs e = rw e refl

find_entry_here :
    (id : PciId) (x : PciEntry) (xs : List PciEntry)
    → is_for id x ≡ true
    → find_entry id (x ∷ xs) ≡ some x
unfolding find_entry
find_entry_here id x xs e = rw e refl

-- the two ways in which a list without an entry for a device can begin
IsNew-head :
    (id : PciId) (x : PciEntry) (xs : List PciEntry)
    → IsNew (x ∷ xs) id
    → (is_for id x ≡ false) × IsNew xs id
IsNew-head id x xs h = elim (Bool-cases (is_for id x)) [
  | inl e ↦ absurd (cc (find_entry_here id x xs e))
  | inr e ↦ (e, sym (find_entry_skip id x xs e) ∙ h)
]

IsNew-append : (id : PciId) (xs ys : List PciEntry) → IsNew (xs ++ ys) id → IsNew xs id
unfolding find_entry
IsNew-append id [] ys h = refl
IsNew-append id (x ∷ xs) ys h =
    let (e, rest) = IsNew-head id x (xs ++ ys) h in
    find_entry_skip id x xs e ∙ IsNew-append id xs ys rest

module _ {H : Type 0} (heap : Heap H) where
  -- Unregistering a device that has a new entry behind `old` takes exactly that entry out.
  unregister_added :
      (driver : ℕ) (id : PciId) (old rest : List PciEntry) (h : H)
      → IsNew old id
      → (unregister_from heap id (old ++ (new_pci_entry driver id ∷ rest)) h).entries ≡ old ++ rest
  unfolding unregister_from
  unregister_added driver id [] rest h new = rw (is_for-new_pci_entry driver id) refl
  unregister_added driver id (x ∷ old) rest h new =
      let (e, new') = IsNew-head id x old new in
      let rest' = unregister_added driver id old rest h new' in rw e (ap (λ xs. x ∷ xs) rest')

  -- Unregistering as many devices as were added gives back the old list.
  unregister_first_added :
      (driver : ℕ) (added ids : List PciId) (old : List PciEntry) (s : Registry H)
      → All (IsNew old) added
      → s.entries ≡ old ++ map (new_pci_entry driver) added
      → (unregister_first heap (length added) (added ++ ids) s).entries ≡ old
  unfolding unregister_first
  unregister_first_added driver [] ids old s new e = e ∙ append-nil old
  unregister_first_added driver (id ∷ added) ids old s new e =
      unregister_first_added driver added ids old (unregister_from heap id s.entries s.heap) new.1
        (rw e (unregister_added driver id old (map (new_pci_entry driver) added) s.heap new.0))

  unregister_table_added :
      (driver : ℕ) (ids : List PciId) (old : List PciEntry) (s : Registry H)
      → All (IsNew old) (up_to_end ids)
      → s.entries ≡ old ++ map (new_pci_entry driver) (up_to_end ids)
      → (unregister_table heap ids s).entries ≡ old
  unfolding unregister_table
  unregister_table_added driver [] old s new e = e ∙ append-nil old
  unregister_table_added driver (id ∷ ids) old s new e = elim (Bool-cases (id.device_id == 0)) [
    | inl last ↦ rw last ((rw last at e) ∙ append-nil old)
    | inr more ↦
        let new' : All (IsNew old) (id ∷ up_to_end ids) = rw more at new in
        let e' : s.entries ≡ old ++ map (new_pci_entry driver) (id ∷ up_to_end ids) =
          rw more at e in
        rw more (
          unregister_table_added driver ids old (unregister_from heap id s.entries s.heap) new'.1 (
            rw e' (
              unregister_added driver id old (map (new_pci_entry driver) (up_to_end ids)) s.heap
                new'.0)))
  ]

  -- why a driver is not registered: no memory, or a device of its table has an entry by then
  pub data Reason (driver : PciDriver) (old : List PciEntry) : Type 0 where
    no_memory : (h : H) → heap.malloc h ≡ none → Reason driver old
    taken :
        (done : List PciId) (id : PciId) (rest : List PciId) (entry : PciEntry)
        → driver.id_table ≡ done ++ (id ∷ rest)
        → find_entry id (old ++ map (new_pci_entry driver.driver) done) ≡ some entry
        → Reason driver old

  -- all of the devices `added` have an entry for the driver at the end, or the list is the old one
  pub data IsRegistered (driver : PciDriver) (old : List PciEntry) (added : List PciId)
      (r : Bool × Registry H) : Type 0 where
    all :
        r.0 ≡ true
        → r.1.entries ≡ old ++ map (new_pci_entry driver.driver) added
        → All (IsNew old) added
        → IsRegistered driver old added r
    nothing : r.0 ≡ false → r.1.entries ≡ old → Reason driver old → IsRegistered driver old added r

  -- what one call of `ufp_dev_register_device` does
  data Registered (driver : ℕ) (id : PciId) (s : Registry H) : Bool × Registry H → Type 0 where
    added_one :
        (h : H)
        → IsNew s.entries id
        → Registered driver id s
            (true, record { entries = s.entries ++ (new_pci_entry driver id ∷ []); heap = h })
    out_of_memory : heap.malloc s.heap ≡ none → Registered driver id s (false, s)
    present :
        (entry : PciEntry)
        → find_entry id s.entries ≡ some entry
        → Registered driver id s (false, s)

  register_device_lem :
      (driver : ℕ) (id : PciId) (s : Registry H)
      → Registered driver id s (ufp_dev_register_device heap driver id s)
  unfolding ufp_dev_register_device
  register_device_lem driver id s = elim (Option-cases (find_entry id s.entries)) [
    | inr (entry, e) ↦ rw (e, ufp_dev_register_device) (present entry e)
    | inl new ↦ elim (Option-cases (heap.malloc s.heap)) [
      | inl e ↦ rw (new, e, ufp_dev_register_device) (out_of_memory e)
      | inr (h, e) ↦ rw (new, e, ufp_dev_register_device) (added_one h new)
    ]
  ]

  All-append :
      (old : List PciEntry) (xs ys : List PciId)
      → All (IsNew old) xs
      → All (IsNew old) ys
      → All (IsNew old) (xs ++ ys)
  All-append old [] ys hx hy = hy
  All-append old (x ∷ xs) ys hx hy = (hx.0, All-append old xs ys hx.1 hy)

  length-done : (done : List PciId) (id : PciId) → length (done ++ (id ∷ [])) ≡ suc (length done)
  length-done [] id = refl
  length-done (x ∷ done) id = ap suc (length-done done id)

  -- the loop after the call for the device `id`, where the next round is as it should be
  continued :
      (driver : PciDriver) (done ids added : List PciId) (id : PciId) (old : List PciEntry)
      (s : Registry H)
      → driver.id_table ≡ done ++ (id ∷ ids)
      → s.entries ≡ old ++ map (new_pci_entry driver.driver) done
      → All (IsNew old) done
      → ((s' : Registry H)
          → s'.entries ≡ old ++ map (new_pci_entry driver.driver) (done ++ (id ∷ []))
          → IsNew old id
          → IsRegistered driver old added (register_from heap driver (suc (length done)) ids s'))
      → {r : Bool × Registry H} → Registered driver.driver id s r
      → IsRegistered driver old added (
          if r.0
          then register_from heap driver (suc (length done)) ids r.1
          else (false, unregister_first heap (length done) driver.id_table r.1))
  continued driver done ids added id old s table e new next (added_one h fresh) =
      let new_old : IsNew old id =
        IsNew-append id old (map (new_pci_entry driver.driver) done) (rw e at fresh) in
      next (record { entries = s.entries ++ (new_pci_entry driver.driver id ∷ []); heap = h })
        (ap (λ xs. xs ++ (new_pci_entry driver.driver id ∷ [])) e
          ∙ append_assoc old (map (new_pci_entry driver.driver) done)
              (new_pci_entry driver.driver id ∷ [])
          ∙ ap (λ xs. old ++ xs) (sym (map-append (new_pci_entry driver.driver) done (id ∷ []))))
        new_old
  continued driver done ids added id old s table e new next (out_of_memory full) =
      nothing refl (rw table (unregister_first_added driver.driver done (id ∷ ids) old s new e))
        (no_memory s.heap full)
  continued driver done ids added id old s table e new next (present entry found) =
      nothing refl (rw table (unregister_first_added driver.driver done (id ∷ ids) old s new e))
        (taken done id ids entry table (rw e at found))

  register_from_lem :
      (driver : PciDriver) (done ids : List PciId) (old : List PciEntry) (s : Registry H)
      → driver.id_table ≡ done ++ ids
      → s.entries ≡ old ++ map (new_pci_entry driver.driver) done
      → All (IsNew old) done
      → IsRegistered driver old
          (done ++ up_to_end ids)
          (register_from heap driver (length done) ids s)
  unfolding register_from
  register_from_lem driver done [] old s table e new =
      all refl (rw (append-nil done) e) (rw (append-nil done) new)
  register_from_lem driver done (id ∷ ids) old s table e new =
      elim (Bool-cases (id.device_id == 0)) [
        | inl last ↦ rw last (all refl (rw (append-nil done) e) (rw (append-nil done) new))
        | inr more ↦ rw more (
            continued driver done ids (done ++ (id ∷ up_to_end ids)) id old s table e new
              (λ s' e' fresh.
                rw (append_assoc done (id ∷ []) (up_to_end ids), length-done done id) at
                  (register_from_lem driver (done ++ (id ∷ [])) ids old s'
                    (table ∙ sym (append_assoc done (id ∷ []) ids)) e'
                    (All-append old done (id ∷ []) new (fresh, tt))))
              (register_device_lem driver.driver id s))
      ]

  -- Registering a driver is all or nothing: if it succeeds, the list has a new entry behind the old
  -- ones for each device of the table, none of which had one; if it fails, the list is as it was,
  -- and the reason is that a device has an entry already, of the list or of the table, or that
  -- `malloc` failed.
  pub ufp_dev_register-IsRegistered :
      (driver : PciDriver) (s : Registry H)
      → IsRegistered driver s.entries (up_to_end driver.id_table) (ufp_dev_register heap driver s)
  unfolding ufp_dev_register
  ufp_dev_register-IsRegistered driver s =
      register_from_lem driver [] driver.id_table s.entries s refl (sym (append-nil s.entries)) tt

  -- Unregistering a driver after it was registered gives back the list as it was before.
  pub ufp_dev_unregister-ufp_dev_register :
      (driver : PciDriver) (s : Registry H)
      → (ufp_dev_register heap driver s).0 ≡ true
      → (ufp_dev_unregister heap driver (ufp_dev_register heap driver s).1).entries ≡ s.entries
  unfolding ufp_dev_unregister
  ufp_dev_unregister-ufp_dev_register driver s success =
      elim (ufp_dev_register-IsRegistered driver s) [
        | all e entries new ↦
            unregister_table_added driver.driver driver.id_table s.entries
              (ufp_dev_register heap driver s).1 new entries
        | nothing e same reason ↦ absurd (cc)
      ]
