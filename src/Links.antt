-- ===== src/Links.antt =====
-- lib/lib_list.h: doubly linked lists in memory. A node is its address, and the head of a list is a
-- node too; `container_of` and the types of the entries are left out.
pub mod Chain
pub mod Insert
pub mod Delete
pub mod Hash
pub mod Visit
mod Tests
use ufp.Common.{ℕ, zero, suc, Bool, List, [], ◌∷◌, ◌==◌, if◌then◌else◌, update}

-- the fields of all nodes
pub record Memory : Type 0 where
  pub next : ℕ → ℕ
  pub prev : ℕ → ℕ

abbrev pub set_next : ℕ → ℕ → Memory → Memory
set_next node value m = record { next = update m.next node value; prev = m.prev }

abbrev pub set_prev : ℕ → ℕ → Memory → Memory
set_prev node value m = record { next = m.next; prev = update m.prev node value }

unfoldable pub list_add_before : (node new : ℕ) → Memory → Memory
list_add_before node new m =
    let m₁ = set_next new node m in
    let m₂ = set_prev new (m₁.prev node) m₁ in
    let m₃ = set_next (m₂.prev node) new m₂ in set_prev node new m₃

unfoldable pub list_add_after : (node new : ℕ) → Memory → Memory
list_add_after node new m =
    let m₁ = set_next new (m.next node) m in
    let m₂ = set_prev new node m₁ in let m₃ = set_prev (m₂.next node) new m₂ in set_next node new m₃

unfoldable pub list_add_first : (head new : ℕ) → Memory → Memory
list_add_first head new m = list_add_after head new m

unfoldable pub list_add_last : (head new : ℕ) → Memory → Memory
list_add_last head new m = list_add_before head new m

unfoldable pub list_del : ℕ → Memory → Memory
list_del node m =
    let m₁ = set_next (m.prev node) (m.next node) m in set_prev (m₁.next node) (m₁.prev node) m₁

unfoldable pub list_del_first : ℕ → Memory → Memory
list_del_first head m = list_del (m.next head) m

unfoldable pub list_del_last : ℕ → Memory → Memory
list_del_last head m = list_del (m.prev head) m

unfoldable pub list_empty : ℕ → Memory → Bool
list_empty head m = m.next head == head

unfoldable pub list_init : ℕ → Memory → Memory
list_init head m = set_prev head head (set_next head head m)

-- the nodes that the body of `list_for_each_dir` gets, from a node on, in at most `fuel` rounds
unfoldable pub each_from : (dir : ℕ → ℕ) (head fuel node : ℕ) → List ℕ
each_from dir head zero node = []
each_from dir head (suc fuel) node =
    let rest = each_from dir head fuel (dir node) in if node == head then [] else node ∷ rest

abbrev pub list_for_each : (head fuel : ℕ) → Memory → List ℕ
list_for_each head fuel m = each_from m.next head fuel (m.next head)

abbrev pub list_for_each_rev : (head fuel : ℕ) → Memory → List ℕ
list_for_each_rev head fuel m = each_from m.prev head fuel (m.prev head)
