-- ===== src/Lib.antt =====
-- The user-space forwarding plane: a library that drives network cards through VFIO, and a layer 3
-- forwarding application on top of it. This library of definitions and proofs follows the C code.
--
-- Parts and files:
-- - Common: shared names, Boolean tests, lists and arrays over the native numbers.
-- - Pool: the interface of the memory pool (lib/lib_mem.c) as its clients see it.
-- - Links: lib/lib_list.h, doubly linked lists in memory. `Links.antt` has the operations on the
--   two fields of nodes, `Links/Chain.antt` states which list the nodes stand for, and
--   `Links/Insert.antt`, `Links/Delete.antt` and `Links/Visit.antt` are about the operations.
--   `Links/Hash.antt` has the lists of hash tables, whose nodes point back to a pointer. Other
--   parts take a list for a `List`.
-- - Mem: lib/lib_mem.c, the buddy allocator. `Mem.antt` has the tree, `Mem/Pool.antt` the functions
--   that clients call. `Mem/Tree.antt` states which trees the pool builds, `Mem/Found.antt`,
--   `Mem/Alloc.antt` and `Mem/Free.antt` are about the recursive functions, `Mem/Client.antt` about
--   the others. A node is named by its path from the root, and the C library's `malloc` and `free`
--   of nodes are a parameter.
-- - Heap: the C library's `malloc` and `free` of one kind of struct, a parameter.
-- - Dev: lib/lib_dev.c. `Dev.antt` has the registry of drivers and the choice of a driver for a
--   device, `Dev/Register.antt` its theorems, `Dev/Libraries.antt` the libraries of drivers,
--   `Dev/Dma.antt` the memory for DMA.
-- - Lpm: src/lpm.c and src/lpm.h. `Lpm.antt` has the data and `lpm_lookup`, `Lpm/Update.antt` the
--   insertion functions, `Lpm/Delete.antt` the deletion functions, `Lpm/Traverse.antt` the walk. A
--   static function `_lpm_x` is `x_below` here. `Lpm/Spec.antt` states what a table means: for each
--   destination a sorted list of routes. The other files relate the two.
-- - Fib: src/fib.c and src/fib.h on top of Lpm; `Fib/Routes.antt` and `Fib/Success.antt` have its
--   theorems.
-- - Hash: src/hash.c and src/hash.h; `Hash/Chain.antt` and `Hash/Map.antt` have its theorems.
-- - Neigh: src/neigh.c and src/neigh.h on top of Hash. `Neigh/Keys.antt` is about the hash and the
--   comparison of addresses, `Neigh/Table.antt` and `Neigh/Map.antt` about the operations.
-- - Io: lib/lib_io.c, one port at a time. `Io.antt` has the data, the slots and the steps on a
--   ring, `Io/Transfer.antt` the functions that move packets. `Io/Queue.antt` reads a ring as a
--   queue, `Io/Slots.antt` is about the search for a free slot, `Io/Refill.antt`, `Io/Receive.antt`
--   and `Io/Transmit.antt` about the functions. The device is a state that the driver's callbacks
--   read and change.
-- - I40e: dev/i40e. `I40e.antt` has the access to registers, `I40e/Desc.antt` the descriptors of
--   dev/i40e/i40e_io.c, which fill the interface that Io has for drivers, and `I40e/Queues.antt`
--   the functions of the same file that switch queues on and off; `I40e/Switch.antt`,
--   `I40e/Start.antt` and `I40e/Answer.antt` are about these. `I40e/Irq.antt` has the functions on
--   interrupts, `I40e/Vectors.antt` is about them. The hardware is a state with its own behaviour.
--   `I40e/Aq.antt` and its children are dev/i40e/i40e_aq.c and i40e_aqc.c, the queues of commands
--   to the firmware: `Requests` and `Responses` build commands and take answers, `Sessions` has the
--   sessions and the driver's state, `Clean` the loops, `Setup` the allocation; `Indices`,
--   `Effects`, `Answers`, `Cleaned`, `Delivered`, `Returned`, `Waited`, `Areas` and `Heads` are about
--   them, and `Toy` has a device for the tests. `I40e/Commands.antt` is what the rest of the driver uses of them, an
--   interface that `I40e/Commands/Implementation.antt` fills. On it stand `I40e/Pf.antt`, the
--   commands of dev/i40e/i40e_main.c, and `I40e/VsiSetup.antt`, those of i40e_io.c;
--   `I40e/Pf/Balance.antt` and `I40e/VsiSetup/Tables.antt` are about these. `I40e/Reset.antt` has
--   the functions of i40e_main.c that only use registers. `I40e/Hmc.antt` is the memory of the
--   contexts of queues in dev/i40e/i40e_hmc.c, `I40e/Hmc/Context.antt` the packing of a context into
--   bits, and `I40e/Contexts.antt` the functions of i40e_io.c that give queues their contexts;
--   `I40e/Hmc/Address.antt` and `I40e/Hmc/Kept.antt` are about the place of a context,
--   `I40e/Hmc/Pages.antt` and `I40e/Hmc/Segments.antt` about the memory.
--   `I40e/Mapped.antt` says how often an area of memory is among buffers.
--   `I40e/Device.antt` puts these together: how i40e_main.c opens and closes a device, and how it and
--   i40e_ops.c bring interfaces up and down. `I40e/Device/Implementation.antt` fills its parts with
--   the admin queues and the contexts, and `I40e/Device/Kept.antt`, `I40e/Reset/Kept.antt` and
--   `I40e/Device/Balance.antt` are about it.
-- - Forward: src/forward.c on top of Fib, Neigh and Io. `Forward.antt` has the decision about one
--   packet, `Forward/Process.antt` the loop. `Forward/Ip.antt` is about headers,
--   `Forward/Drop.antt` about the slots.
-- - Args: src/main.c, the options: `Args.antt` has the lists of cores and devices, and
--   `Args/Options.antt` is `ufpd_parse_args`, on the options that `getopt` finds. `Args/Split.antt`
--   is about lists with commas.
-- - Process: src/main.c, `main` and the functions for its devices, threads and signals. What a label
--   of `main` gives back is in the function that also has what was taken. `Process/Ledger.antt`
--   books what it gets and gives back, and `Process/Balance.antt` compares the two.
-- - Netlink: src/netlink.c, the kernel's messages on routes and neighbours and what they do to the
--   tables. `Netlink/Neighbours.antt` has its theorems.
--
-- State is passed explicitly: a function that changes a table or a pool returns the new ones, with
-- `true` for the return value 0. An array is a function from indices. `struct lpm_node` is a tree,
-- so a table that is freed is dropped. An address is the function from the number of a 32-bit word
-- to its value in host order; the keys of neighbour tables alone are words of network order, as a
-- little-endian machine loads them.
--
-- Fuel: `add_below` recurs once for each stride of 8 bits below the first 16 bits of an address,
-- so 14 units are enough for the 128 bits of IPv6 (`Lpm/Success.antt`, `Fib/Success.antt`).
-- `alloc_below` halves the size of a node, which is below 2 ^ 64, in each call, so 64 units are
-- enough. A loop over a linked list needs one round more than it has nodes. The loops that clean
-- an admin queue need as much fuel as the queue has descriptors, and from any slot one more
-- (`I40e/Aq/Delivered.antt`, `I40e/Aq/Returned.antt`); the loop that fetches the elements of the
-- switch takes any fuel, since the firmware decides when it ends. Deletion and lookup recur on the
-- tree.
--
-- Not modelled: the threads' loop, the set-up of the library, and the drivers that are not built,
-- most of which is calls of the operating system or of the hardware. Printing under DEBUG is left
-- out.
pub mod Common
pub mod Args
pub mod Lpm
pub mod Pool
pub mod Process
pub mod Fib
pub mod Hash
pub mod Neigh
pub mod Io
pub mod Forward
pub mod Netlink
pub mod Heap
pub mod Links
pub mod I40e
pub mod Mem
pub mod Dev
