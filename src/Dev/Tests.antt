-- ===== src/Dev/Tests.antt =====
-- lib/lib_dev.c at concrete registries.
use ufp.Common.{
  ℕ, suc, ◌-◌, ◌≡◌, refl, true, false, none, some, List, [], ◌∷◌, ltb, if◌then◌else◌, arith,
}
use ufp.Heap.{Heap}
use ufp.Dev.{
  PciDriver, find_entry, Registry, DriverOps, ufp_dev_register_device, unregister_from,
  unregister_first, register_from, ufp_dev_register, ufp_dev_unregister, ufp_dev_init,
  ufp_dev_destroy,
}
use ufp.Dev.Register.{
  up_to_end, IsRegistered, ufp_dev_register-IsRegistered, ufp_dev_unregister-ufp_dev_register,
}
use ufp.Dev.Libraries.{
  Loader, Libraries, is_library, close_all, load_one, load_all, ufp_dev_load_lib,
}
use ufp.Dev.Dma.{System, IsUndone, IsLeaky, ufp_dev_dma_alloc, ufp_dev_dma_alloc-IsLeaky}

-- a heap that counts its structs, and has memory for five
abbrev five : Heap ℕ
five = record { malloc = λ n. if ltb n 5 then some (suc n) else none; free = λ n. n - 1 }

abbrev xl710 : PciDriver
xl710 = record {
  id_table =
      record { vendor_id = 32902; device_id = 5504 }
      ∷ record { vendor_id = 32902; device_id = 5505 }
      ∷ record { vendor_id = 0; device_id = 0 }
      ∷ [];
  driver = 7;
}

-- the second device has an entry already
abbrev taken_entries : Registry ℕ
taken_entries = record {
  entries = record { vendor_id = 32902; device_id = 5505; driver = 3 } ∷ [];
  heap = 1;
}

abbrev empty_entries : Registry ℕ
empty_entries = record { entries = []; heap = 0 }

ufp_dev_register-IsRegistered_example :
    IsRegistered five xl710 taken_entries.entries
      (up_to_end xl710.id_table)
      (ufp_dev_register five xl710 taken_entries)
ufp_dev_register-IsRegistered_example = ufp_dev_register-IsRegistered five xl710 taken_entries

registered : (ufp_dev_register five xl710 empty_entries).0 ≡ true
unfolding ufp_dev_register register_from ufp_dev_register_device find_entry
registered = refl

rejected : ufp_dev_register five xl710 taken_entries ≡ (false, taken_entries)
unfolding ufp_dev_register register_from ufp_dev_register_device find_entry unregister_first
    unregister_from
rejected = refl

ufp_dev_unregister-ufp_dev_register_example :
    (ufp_dev_unregister five xl710 (ufp_dev_register five xl710 empty_entries).1).entries ≡ []
ufp_dev_unregister-ufp_dev_register_example =
    ufp_dev_unregister-ufp_dev_register five xl710 empty_entries registered

-- a device whose state is the number of the driver that holds it
abbrev holder : DriverOps ℕ
holder = record { init = λ driver d. (true, driver); destroy = λ driver d. 0 }

init_test :
    ufp_dev_init holder (record { vendor_id = 32902; device_id = 5505 }) taken_entries.entries 0
    ≡ (true, 3)
unfolding ufp_dev_init find_entry
init_test = refl

destroy_test :
    ufp_dev_destroy holder (record { vendor_id = 32902; device_id = 1 }) taken_entries.entries 3
    ≡ (false, 3)
unfolding ufp_dev_destroy find_entry
destroy_test = refl

-- "a.b.so", and "so"
library_test : is_library (97 ∷ 46 ∷ 98 ∷ 46 ∷ 115 ∷ 111 ∷ []) ≡ true
library_test = refl

other_test : is_library (115 ∷ 111 ∷ []) ≡ false
other_test = refl

-- a loader that counts, and opens libraries up to the second
abbrev two : Loader ℕ
two = record {
  dlopen = λ path n. if ltb n 2 then (some n, suc n) else (none, n);
  dlclose = λ handle n. n - 1;
}

load_test :
    let so : List ℕ = 97 ∷ 46 ∷ 115 ∷ 111 ∷ [] in
    let s : Libraries ℕ ℕ = record { dylibs = []; heap = 0; loader = 0 } in
    ufp_dev_load_lib five two [] (some (so ∷ so ∷ so ∷ [])) s ≡ (false, s)
unfolding ufp_dev_load_lib load_all load_one close_all
load_test = refl

-- a system that counts its resources
abbrev counting : System ℕ
counting = record {
  malloc = λ n. some (suc n);
  free = λ n. n - 1;
  mmap = λ size n. some (4096, suc n);
  munmap = λ addr size n. n - 1;
  ufp_vfio_dma_map = λ addr size n. some (addr, suc n);
  ufp_vfio_dma_unmap = λ addr_dma size n. n - 1;
}

abbrev counting-IsUndone : IsUndone counting 4096
counting-IsUndone = record {
  free_malloc = λ {s} {s'} e. ground (arith, e);
  munmap_mmap = λ {size} {addr} {s} {s'} e. ground (arith, e);
  unmap_map = λ {addr} {size} {addr_dma} {s} {s'} e. ground (arith, e);
}

ufp_dev_dma_alloc-IsLeaky_example : IsLeaky counting 4096 3 (ufp_dev_dma_alloc counting 4096 100 3)
ufp_dev_dma_alloc-IsLeaky_example = ufp_dev_dma_alloc-IsLeaky counting 4096 100 3 counting-IsUndone
