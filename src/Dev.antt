-- ===== src/Dev.antt =====
-- lib/lib_dev.c: the drivers that are registered for PCI devices, the libraries that hold drivers, and
-- memory for DMA. A driver is its number, which stands for its functions. The C library's heap and
-- calls of the operating system are parameters.
pub mod Register
pub mod Libraries
pub mod Dma
mod Tests
use ufp.Common.{
  ℕ, zero, suc, ◌+◌, ◌-◌, ◌/◌, ◌*◌, Bool, true, false, ◌&&◌, Option, none, some, List, [], ◌∷◌,
  ◌++◌, ◌==◌, if◌then◌else◌,
}
use ufp.Heap.{Heap}

pub record PciId : Type 0 where
  pub vendor_id : ℕ
  pub device_id : ℕ

-- `struct pci_entry`; `driver` stands for its two function pointers.
pub record PciEntry : Type 0 where
  pub vendor_id : ℕ
  pub device_id : ℕ
  pub driver : ℕ

-- `struct pci_driver`; the table ends at a device number of 0.
pub record PciDriver : Type 0 where
  pub id_table : List PciId
  pub driver : ℕ

abbrev pub is_for : PciId → PciEntry → Bool
is_for id entry = entry.vendor_id == id.vendor_id && entry.device_id == id.device_id

-- the first entry of the list for a device
unfoldable pub find_entry : PciId → List PciEntry → Option PciEntry
find_entry id [] = none
find_entry id (entry ∷ entries) = if is_for id entry then some entry else find_entry id entries

abbrev pub new_pci_entry : ℕ → PciId → PciEntry
new_pci_entry driver id = record {
  vendor_id = id.vendor_id;
  device_id = id.device_id;
  driver = driver;
}

-- `pci_entries` and the heap
pub record Registry (H : Type 0) : Type 0 where
  pub entries : List PciEntry
  pub heap : H

module _ {H : Type 0} (heap : Heap H) where
  open heap use {malloc, free}

  -- `true` for the return value 0
  unfoldable pub ufp_dev_register_device : ℕ → PciId → Registry H → Bool × Registry H
  ufp_dev_register_device driver id s = elim (find_entry id s.entries) [
    | some entry ↦ (false, s)
    | none ↦ elim (malloc s.heap) [
      | none ↦ (false, s)
      | some h ↦ (true, record { entries = s.entries ++ (new_pci_entry driver id ∷ []); heap = h })
    ]
  ]

  -- the list without its first entry for a device, and the heap after it is freed
  unfoldable pub unregister_from : PciId → List PciEntry → H → Registry H
  unregister_from id [] h = record { entries = []; heap = h }
  unregister_from id (entry ∷ entries) h =
      let rest = unregister_from id entries h in
      if is_for id entry
      then record { entries = entries; heap = free h }
      else record { entries = entry ∷ rest.entries; heap = rest.heap }

  abbrev pub ufp_dev_unregister_device : PciId → Registry H → Registry H
  ufp_dev_unregister_device id s = unregister_from id s.entries s.heap

  -- the loop of `err_register_handler`
  unfoldable pub unregister_first : ℕ → List PciId → Registry H → Registry H
  unregister_first zero ids s = s
  unregister_first (suc n) [] s = s
  unregister_first (suc n) (id ∷ ids) s = unregister_first n ids (ufp_dev_unregister_device id s)

  -- The loop of `ufp_dev_register` from an index of the table on, with the rest of the table there;
  -- `next` is the next round, and `undo` the exit with an error.
  unfoldable pub register_from :
      PciDriver → (registered : ℕ) → List PciId → Registry H → Bool × Registry H
  register_from driver registered [] s = (true, s)
  register_from driver registered (id ∷ ids) s =
      let (ok, s') = ufp_dev_register_device driver.driver id s in
      let next = register_from driver (suc registered) ids s' in
      if id.device_id == 0
      then (true, s)
      else if ok
      then next
      else (false, unregister_first registered driver.id_table s')

  unfoldable pub ufp_dev_register : PciDriver → Registry H → Bool × Registry H
  ufp_dev_register driver s = register_from driver 0 driver.id_table s

  unfoldable pub unregister_table : List PciId → Registry H → Registry H
  unregister_table [] s = s
  unregister_table (id ∷ ids) s =
      let next = unregister_table ids (ufp_dev_unregister_device id s) in
      if id.device_id == 0 then s else next

  unfoldable pub ufp_dev_unregister : PciDriver → Registry H → Registry H
  ufp_dev_unregister driver s = unregister_table driver.id_table s

-- A driver's `init` and `destroy` change the state `D` of the device; `init` may fail.
pub record DriverOps (D : Type 0) : Type 0 where
  pub init : (driver : ℕ) → D → Bool × D
  pub destroy : (driver : ℕ) → D → D

module _ {D : Type 0} (ops : DriverOps D) where
  unfoldable pub ufp_dev_init : PciId → List PciEntry → D → Bool × D
  ufp_dev_init id entries d = elim (find_entry id entries) [
    | none ↦ (false, d)
    | some entry ↦ ops.init entry.driver d
  ]

  unfoldable pub ufp_dev_destroy : PciId → List PciEntry → D → Bool × D
  ufp_dev_destroy id entries d = elim (find_entry id entries) [
    | none ↦ (false, d)
    | some entry ↦ (true, ops.destroy entry.driver d)
  ]
