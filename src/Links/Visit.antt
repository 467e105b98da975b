-- ===== src/Links/Visit.antt =====
-- lib/lib_list.h: the loops over a list, and the tests and deletions at its ends.
use mathlib.Core.List.{append-nil, reverse, reverse_aux}
use ufp.Common.{
  ℕ, zero, suc, ◌+◌, ◌-◌, ◌<◌, ◌≡◌, ◌≢◌, refl, ap, ◌∙◌, Bool, true, false, List, [], ◌∷◌, ◌++◌,
  ◌==◌, length, arith,
}
use ufp.Links.{
  Memory, each_from, list_for_each, list_for_each_rev, list_empty, list_del_first, list_del_last,
}
use ufp.Links.Chain.{Links, NotIn, IsList, Links-split}
use ufp.Links.Delete.{list_del-IsList}

each_end : (dir : ℕ → ℕ) (head fuel : ℕ) → each_from dir head (suc fuel) head ≡ []
unfolding each_from
each_end dir head fuel = ground arith

each_node :
    (dir : ℕ → ℕ) (head fuel node : ℕ)
    → head ≢ node
    → each_from dir head (suc fuel) node ≡ node ∷ each_from dir head fuel (dir node)
unfolding each_from
each_node dir head fuel node h =
    let other : (node == head) ≡ false = ground (arith, h) in rw other refl

forward_from :
    (m : Memory) (a head : ℕ) (xs : List ℕ) (fuel : ℕ)
    → Links m a xs head
    → NotIn head xs
    → length xs < fuel
    → each_from m.next head fuel (m.next a) ≡ xs
forward_from m a head xs zero links apart enough = absurd (omega arith)
forward_from m a head [] (suc fuel) links apart enough = rw links.0 (each_end m.next head fuel)
forward_from m a head (x ∷ xs) (suc fuel) links apart enough = rw links.0 (
    each_node m.next head fuel x apart.0
    ∙ ap (λ ys. x ∷ ys) (forward_from m x head xs fuel links.2 apart.1 (omega arith)))

backward_from :
    (m : Memory) (a : ℕ) (xs : List ℕ) (b head fuel n : ℕ)
    → Links m a xs b
    → NotIn head xs
    → n ≡ length xs + fuel
    → each_from m.prev head n (m.prev b) ≡ reverse_aux xs (each_from m.prev head fuel a)
backward_from m a [] b head fuel n links apart e =
    let same : n ≡ fuel = omega arith in rw (same, links.1) refl
backward_from m a (x ∷ xs) b head fuel n links apart e =
    backward_from m x xs b head (suc fuel) n links.2 apart.1 (omega arith)
    ∙ ap (reverse_aux xs) (
        each_node m.prev head fuel x apart.0
        ∙ ap (λ node. x ∷ each_from m.prev head fuel node) links.1)

abbrev pub is_empty : List ℕ → Bool
is_empty [] = true
is_empty (x ∷ xs) = false

empty_lem :
    (m : Memory) (head : ℕ) (xs : List ℕ) → IsList m head xs → list_empty head m ≡ is_empty xs
unfolding list_empty
empty_lem m head [] w = rw w.links.0 (ground arith)
empty_lem m head (x ∷ xs) w = rw w.links.0 (ground (arith, w.distinct.0.0))

backward_all :
    (m : Memory) (head : ℕ) (xs : List ℕ) (fuel : ℕ)
    → IsList m head xs
    → length xs < fuel
    → list_for_each_rev head fuel m ≡ reverse xs
backward_all m head xs fuel w enough =
    let left = fuel - length xs - 1 in
    backward_from m head xs head head (suc left) fuel w.links w.distinct.0 (omega arith)
    ∙ ap (reverse_aux xs) (each_end m.prev head left)

-- The loops over a list visit its nodes in order, or in reverse order, and end: one round more than
-- the list has nodes is enough. The list is empty exactly if the test says so.
pub list_for_each-IsList :
    (m : Memory) (head : ℕ) (xs : List ℕ) (fuel : ℕ)
    → IsList m head xs
    → length xs < fuel
    → (list_for_each head fuel m ≡ xs)
      × (list_for_each_rev head fuel m ≡ reverse xs)
      × (list_empty head m ≡ is_empty xs)
unfolding list_empty
list_for_each-IsList m head xs fuel w enough = (
  forward_from m head head xs fuel w.links w.distinct.0 enough,
  backward_all m head xs fuel w enough,
  empty_lem m head xs w,
)

-- Deleting the first, or the last, node of a list that is not empty.
pub list_del_first-IsList :
    (m : Memory) (head x : ℕ) (xs : List ℕ)
    → IsList m head (x ∷ xs)
    → IsList (list_del_first head m) head xs
unfolding list_del_first
list_del_first-IsList m head x xs w = rw w.links.0 (list_del-IsList m head [] x xs w)

pub list_del_last-IsList :
    (m : Memory) (head x : ℕ) (xs : List ℕ)
    → IsList m head (xs ++ (x ∷ []))
    → IsList (list_del_last head m) head xs
unfolding list_del_last
list_del_last-IsList m head x xs w =
    let right = (Links-split m head xs x [] head w.links).1 in
    let deleted = list_del-IsList m head xs x [] w in rw right.1 (rw (append-nil xs) at deleted)
