-- ===== src/Links/Delete.antt =====
-- lib/lib_list.h: deletion, and the loops over a list.
use mathlib.Core.Path.{subst}
use mathlib.Core.List.{append-nil}
use ufp.Common.{ℕ, ◌≡◌, ◌≢◌, sym, ◌∙◌, List, [], ◌∷◌, ◌++◌, ◌==◌, if◌then◌else◌, All, arith}
use ufp.Links.{Memory, list_del}
use ufp.Links.Chain.{
  Links, NotIn, Distinct, IsList, All-append, All-map, All-both, Distinct-snoc, All-left, All-right,
  Links-prev, Links-next, Links-split, Links-join, Links-relink, Links-frame,
}

del_next :
    (x : ℕ) (m : Memory) (q : ℕ)
    → (list_del x m).next q ≡ (if q == m.prev x then m.next x else m.next q)
unfolding list_del
del_next x m q = ground arith

del_prev :
    (x : ℕ) (m : Memory) (q : ℕ)
    → x ≢ m.prev x
    → (list_del x m).prev q ≡ (if q == m.next x then m.prev x else m.prev q)
unfolding list_del
del_prev x m q h = ground (arith, h)

-- no node of the first list is one of the second
Distinct-cross : (xs ys : List ℕ) → Distinct (xs ++ ys) → All (λ q. NotIn q ys) xs
Distinct-cross [] ys d = tt
Distinct-cross (x ∷ xs) ys d = (All-right (λ y. x ≢ y) xs ys d.0, Distinct-cross xs ys d.1)

Distinct-left : (xs ys : List ℕ) → Distinct (xs ++ ys) → Distinct xs
Distinct-left [] ys d = tt
Distinct-left (x ∷ xs) ys d = (All-left (λ y. x ≢ y) xs ys d.0, Distinct-left xs ys d.1)

Distinct-right : (xs ys : List ℕ) → Distinct (xs ++ ys) → Distinct ys
Distinct-right [] ys d = d
Distinct-right (x ∷ xs) ys d = Distinct-right xs ys d.1

-- from every node of the second list, no node of the first is it
cross-swap : (xs ys : List ℕ) → All (λ q. NotIn q ys) xs → All (λ y. NotIn y xs) ys
cross-swap xs [] h = tt
cross-swap xs (y ∷ ys) h = (
  All-map xs (λ q apart e. apart.0 (sym e)) h,
  cross-swap xs ys (All-map xs (λ q apart. apart.1) h),
)

Distinct-drop :
    (xs : List ℕ) (x : ℕ) (ys : List ℕ) → Distinct (xs ++ (x ∷ ys)) → Distinct (xs ++ ys)
Distinct-drop [] x ys d = d.1
Distinct-drop (z ∷ xs) x ys d = (
  All-append (λ y. z ≢ y) xs ys (All-left (λ y. z ≢ y) xs (x ∷ ys) d.0)
      (All-right (λ y. z ≢ y) xs (x ∷ ys) d.0).1,
  Distinct-drop xs x ys d.1,
)

-- the chain behind the node that is deleted, joined to the one before it
rejoin :
    (m m' : Memory) (head : ℕ) (xs : List ℕ) (x : ℕ) (ys : List ℕ)
    → Links m x ys head
    → Links m' head xs (m.next x)
    → All (λ q. m'.next q ≡ m.next q) ys
    → ((q : ℕ) → q ≢ m.next x → m'.prev q ≡ m.prev q)
    → Distinct (ys ++ (head ∷ []))
    → Links m' head (xs ++ ys) head
rejoin m m' head xs x [] right left same_next same_prev distinct =
    rw (append-nil xs) (subst (λ b. Links m' head xs b) right.0 left)
rejoin m m' head xs x (y ∷ ys) right left same_next same_prev distinct =
    Links-join m' head xs y ys head (subst (λ b. Links m' head xs b) right.0 left) (
      Links-frame m m' y ys head same_next
        (All-map (ys ++ (head ∷ [])) (λ q apart. same_prev q (λ e. apart (sym (e ∙ right.0))))
          distinct.0)
        right.2)

-- Deleting a node of a list leaves the list of the others, in order.
pub list_del-IsList :
    (m : Memory) (head : ℕ) (xs : List ℕ) (x : ℕ) (ys : List ℕ)
    → IsList m head (xs ++ (x ∷ ys))
    → IsList (list_del x m) head (xs ++ ys)
list_del-IsList m head xs x ys w =
    let m' = list_del x m in
    let (left, right) = Links-split m head xs x ys head w.links in
    let cross = Distinct-cross (head ∷ xs) (x ∷ ys) w.distinct in
    let back = cross-swap (head ∷ xs) (x ∷ ys) cross in
    let before = Distinct-left (head ∷ xs) (x ∷ ys) w.distinct in
    let after = Distinct-right (head ∷ xs) (x ∷ ys) w.distinct in
    let apart : x ≢ m.prev x = Links-prev (λ q. x ≢ q) m head xs x left back.0 in
    record {
      links =
          rejoin m m' head xs x ys right
            (Links-relink m m' head xs x (m.next x) left before
              (del_next x m (m.prev x) ∙ ground arith)
              (del_prev x m (m.next x) apart ∙ ground arith)
              (All-map (head ∷ xs)
                (λ q (h : NotIn q (x ∷ ys)) not_last. del_next x m q ∙ ground (arith, not_last))
                cross)
              (All-both xs
                (λ q (h : NotIn q (x ∷ ys)) (not_head : head ≢ q).
                  del_prev x m q apart
                  ∙ ground (
                    arith,
                    Links-next (λ y. q ≢ y) m x ys head right
                        (All-append (λ y. q ≢ y) ys (head ∷ []) h.1 ((λ e. not_head (sym e)), tt)),
                  ))
                cross.1 before.0))
            (All-map ys
              (λ q (h : NotIn q (head ∷ xs)).
                del_next x m q ∙ ground (arith, Links-prev (λ p. q ≢ p) m head xs x left h))
              back.1)
            (λ q h. del_prev x m q apart ∙ ground (arith, h))
            (Distinct-snoc ys head after.1 cross.0.1);
      distinct = Distinct-drop (head ∷ xs) x ys w.distinct;
    }
