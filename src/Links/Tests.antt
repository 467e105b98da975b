-- ===== src/Links/Tests.antt =====
-- lib/lib_list.h at a concrete memory.
use ufp.Common.{◌≡◌, refl, false, [], ◌∷◌, arith}
use ufp.Links.{
  Memory, list_add_before, list_add_after, list_add_first, list_add_last, list_del, list_init,
  list_for_each, list_for_each_rev, list_empty, each_from,
}
use ufp.Links.Hash.{
  HashMemory, first_of, hlist_init, hlist_add_first, hlist_add_before, hlist_add_after, hlist_del,
  hlist_del_first, hlist_empty,
}
use ufp.Links.Chain.{IsList}
use ufp.Links.Insert.{list_add_last-IsList, list_init-IsList}
use ufp.Links.Delete.{list_del-IsList}
use ufp.Links.Visit.{list_for_each-IsList}

abbrev blank : Memory
blank = record { next = λ p. 0; prev = λ p. 0 }

-- the list of the nodes 2 and 3 at the head 1
abbrev two_nodes : Memory
two_nodes = list_add_last 1 3 (list_add_last 1 2 (list_init 1 blank))

one_node-IsList : IsList (list_add_last 1 2 (list_init 1 blank)) 1 (2 ∷ [])
one_node-IsList =
    list_add_last-IsList (list_init 1 blank) 1 2 [] (list_init-IsList blank 1) (omega arith, tt)

two_nodes-IsList : IsList two_nodes 1 (2 ∷ 3 ∷ [])
two_nodes-IsList =
    list_add_last-IsList (list_add_last 1 2 (list_init 1 blank)) 1 3 (2 ∷ []) one_node-IsList
      (omega arith, (omega arith, tt))

list_add_last-IsList_test : IsList (list_add_last 1 4 two_nodes) 1 (2 ∷ 3 ∷ 4 ∷ [])
list_add_last-IsList_test =
    list_add_last-IsList two_nodes 1 4 (2 ∷ 3 ∷ []) two_nodes-IsList
      (omega arith, (omega arith, (omega arith, tt)))

list_del-IsList_example : IsList (list_del 2 two_nodes) 1 (3 ∷ [])
list_del-IsList_example = list_del-IsList two_nodes 1 [] 2 (3 ∷ []) two_nodes-IsList

list_for_each-IsList_example :
    (list_for_each 1 3 two_nodes ≡ 2 ∷ 3 ∷ [])
    × (list_for_each_rev 1 3 two_nodes ≡ 3 ∷ 2 ∷ [])
    × (list_empty 1 two_nodes ≡ false)
list_for_each-IsList_example =
    list_for_each-IsList two_nodes 1 (2 ∷ 3 ∷ []) 3 two_nodes-IsList (omega arith)

-- the node is the second after it is added before the node 3, and the first after it is added first
order_test :
    (list_for_each 1 9 (list_add_before 3 4 two_nodes) ≡ 2 ∷ 4 ∷ 3 ∷ [])
    × (list_for_each 1 9 (list_add_first 1 4 two_nodes) ≡ 4 ∷ 2 ∷ 3 ∷ [])
unfolding list_add_before list_add_first list_add_after list_add_last list_init each_from
order_test = (refl, refl)

abbrev blank_hash : HashMemory
blank_hash = record { first = λ p. 0; next = λ p. 0; prev = λ p. first_of 0 }

-- the list of the nodes 2, 3, 4 and 5 at the head 9, and deletions from it
hash_test :
    let two = hlist_add_first 9 2 (hlist_add_first 9 4 (hlist_init 9 blank_hash)) in
    let four = hlist_add_after 4 5 (hlist_add_before 4 3 two) in
    let left = hlist_del_first 9 (hlist_del 4 four) in
    (four.first 9 ≡ 2)
    × (four.next 2 ≡ 3)
    × (four.next 3 ≡ 4)
    × (four.next 4 ≡ 5)
    × (left.first 9 ≡ 3)
    × (left.next 3 ≡ 5)
    × (left.next 5 ≡ 0)
    × (hlist_empty 9 left ≡ false)
unfolding hlist_init hlist_add_first hlist_add_before hlist_add_after hlist_del hlist_del_first
    hlist_empty
hash_test = (refl, refl, refl, refl, refl, refl, refl, refl)
