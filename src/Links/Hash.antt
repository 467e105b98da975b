-- ===== src/Links/Hash.antt =====
-- lib/lib_list.h: lists whose nodes point back to the pointer to them (`hlist`). Such a pointer is the
-- `first` field of a head or the `next` field of a node; 0 is NULL.
use mathlib.Core.Path.{subst}
use ufp.Links.Chain.{Distinct, All-but}
use ufp.Common.{
  ℕ, ◌≡◌, ◌≢◌, refl, sym, ◌∙◌, Bool, false, List, [], ◌∷◌, ◌==◌, if◌then◌else◌, update, update_ne,
  ==_refl, All, arith,
}

pub data Place : Type 0 where
  first_of : ℕ → Place
  next_of : ℕ → Place

pub record HashMemory : Type 0 where
  pub first : ℕ → ℕ
  pub next : ℕ → ℕ
  pub prev : ℕ → Place

abbrev pub load : Place → HashMemory → ℕ
load (first_of head) m = m.first head
load (next_of node) m = m.next node

abbrev pub store : Place → ℕ → HashMemory → HashMemory
store (first_of head) value m = record {
  first = update m.first head value;
  next = m.next;
  prev = m.prev;
}
store (next_of node) value m = record {
  first = m.first;
  next = update m.next node value;
  prev = m.prev;
}

abbrev pub set_back : ℕ → Place → HashMemory → HashMemory
set_back node place m = record {
  first = m.first;
  next = m.next;
  prev = λ n. if n == node then place else m.prev n;
}

-- `if(node) node->prev = place;`
abbrev pub set_back_if : ℕ → Place → HashMemory → HashMemory
set_back_if node place m = if node == 0 then m else set_back node place m

unfoldable pub hlist_add_before : (node new : ℕ) → HashMemory → HashMemory
hlist_add_before node new m =
    let m₁ = store (next_of new) node m in
    let m₂ = set_back new (m₁.prev node) m₁ in
    let m₃ = set_back node (next_of new) m₂ in store (m₃.prev new) new m₃

unfoldable pub hlist_add_after : (node new : ℕ) → HashMemory → HashMemory
hlist_add_after node new m =
    let m₁ = store (next_of new) (m.next node) m in
    let m₂ = set_back new (next_of node) m₁ in
    let m₃ = set_back_if (m₂.next new) (next_of new) m₂ in store (next_of node) new m₃

unfoldable pub hlist_add_first : (head new : ℕ) → HashMemory → HashMemory
hlist_add_first head new m =
    let m₁ = store (next_of new) (m.first head) m in
    let m₂ = set_back new (first_of head) m₁ in
    let m₃ = set_back_if (m₂.first head) (next_of new) m₂ in store (first_of head) new m₃

unfoldable pub hlist_del : ℕ → HashMemory → HashMemory
hlist_del node m =
    let m₁ = set_back_if (m.next node) (m.prev node) m in store (m₁.prev node) (m₁.next node) m₁

unfoldable pub hlist_del_first : ℕ → HashMemory → HashMemory
hlist_del_first head m = hlist_del (m.first head) m

unfoldable pub hlist_empty : ℕ → HashMemory → Bool
hlist_empty head m = m.first head == 0

unfoldable pub hlist_init : ℕ → HashMemory → HashMemory
hlist_init head m = store (first_of head) 0 m

-- From a pointer on, the nodes `xs` follow, and each points back to the pointer to it.
abbrev pub HashLinks : HashMemory → Place → List ℕ → Type 0
HashLinks m place [] = load place m ≡ 0
HashLinks m place (x ∷ xs) =
    (load place m ≡ x) × (x ≢ 0) × (m.prev x ≡ place) × HashLinks m (next_of x) xs

-- nodes whose fields are not written
frame :
    (m m' : HashMemory) (x : ℕ) (xs : List ℕ)
    → All (λ q. m'.next q ≡ m.next q) (x ∷ xs)
    → All (λ q. m'.prev q ≡ m.prev q) xs
    → HashLinks m (next_of x) xs
    → HashLinks m' (next_of x) xs
frame m m' x [] same_next same_prev links = same_next.0 ∙ links
frame m m' x (y ∷ xs) same_next same_prev links = (
  same_next.0 ∙ links.0,
  links.1,
  same_prev.0 ∙ links.2,
  frame m m' y xs same_next.1 same_prev.1 links.3,
)

-- the memory after `hlist_add_first` to a list that has a node
added :
    (m : HashMemory) (head new x : ℕ)
    → m.first head ≡ x
    → x ≢ 0
    → hlist_add_first head new m
      ≡ store
          (first_of head)
          new
          (set_back x (next_of new) (set_back new (first_of head) (store (next_of new) x m)))
unfolding hlist_add_first
added m head new x e some_node =
    let full : (x == 0) ≡ false = ground (arith, some_node) in rw (e, full, hlist_add_first) refl

added_empty :
    (m : HashMemory) (head new : ℕ)
    → m.first head ≡ 0
    → hlist_add_first head new m
      ≡ store (first_of head) new (set_back new (first_of head) (store (next_of new) 0 m))
unfolding hlist_add_first
added_empty m head new e = rw (e, hlist_add_first) refl

-- Adding a node that is not in the list at its beginning.
pub hlist_add_first-HashLinks :
    (m : HashMemory) (head new : ℕ) (xs : List ℕ)
    → HashLinks m (first_of head) xs
    → Distinct (new ∷ xs)
    → new ≢ 0
    → HashLinks (hlist_add_first head new m) (first_of head) (new ∷ xs)
hlist_add_first-HashLinks m head new [] links distinct some_node =
    rw (added_empty m head new links) (ground arith, some_node, rw (==_refl new) refl, ground arith)
hlist_add_first-HashLinks m head new (x ∷ xs) links distinct some_node =
    let m₂ = set_back new (first_of head) (store (next_of new) x m) in
    let m₃ = set_back x (next_of new) m₂ in
    let not_x : (new == x) ≡ false = ground (arith, distinct.0.0) in
    subst (λ m'. HashLinks m' (first_of head) (new ∷ (x ∷ xs)))
      (sym (added m head new x links.0 links.1))
      (
        ground arith,
        some_node,
        rw (not_x, ==_refl new) refl,
        (
          ground arith,
          links.1,
          rw (==_refl x) refl,
          frame m (store (first_of head) new m₃) x xs
              (All-but (λ q. update m.next new x q ≡ m.next q) new new (x ∷ xs) distinct.0
                distinct.0 (λ q not_new also. update_ne m.next new x q not_new))
              (All-but (λ q. m₃.prev q ≡ m.prev q) x new xs distinct.1.0 distinct.0.1
                (λ q other not_new.
                  let e : (q == x) ≡ false = ground (arith, other) in
                  let e' : (q == new) ≡ false = ground (arith, not_new) in rw (e, e') refl))
              links.3,
        ),
      )
