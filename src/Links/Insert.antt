-- ===== src/Links/Insert.antt =====
-- lib/lib_list.h: insertion at the two ends of a list.
use ufp.Common.{ℕ, ◌≡◌, ◌≢◌, sym, ◌∙◌, List, [], ◌∷◌, ◌++◌, ◌==◌, if◌then◌else◌, arith}
use ufp.Links.{Memory, list_add_before, list_add_after, list_add_first, list_add_last, list_init}
use ufp.Links.Chain.{
  Distinct-snoc, NotIn, IsList, All-append, All-map, All-but, Links-next, Links-prev, Links-join,
  Links-relink, Links-restart,
}

-- the fields after `list_add_before`, where neither `node` nor the one before it is the new node
before_next :
    (node new : ℕ) (m : Memory) (q : ℕ)
    → node ≢ new
    → (list_add_before node new m).next q
      ≡ (if q == m.prev node then new else if q == new then node else m.next q)
unfolding list_add_before
before_next node new m q h = ground (arith, h)

before_prev :
    (node new : ℕ) (m : Memory) (q : ℕ)
    → (list_add_before node new m).prev q
      ≡ (if q == node then new else if q == new then m.prev node else m.prev q)
unfolding list_add_before
before_prev node new m q = ground (arith)

after_next :
    (node new : ℕ) (m : Memory) (q : ℕ)
    → (list_add_after node new m).next q
      ≡ (if q == node then new else if q == new then m.next node else m.next q)
unfolding list_add_after
after_next node new m q = ground (arith)

after_prev :
    (node new : ℕ) (m : Memory) (q : ℕ)
    → node ≢ new
    → (list_add_after node new m).prev q
      ≡ (if q == m.next node then new else if q == new then node else m.prev q)
unfolding list_add_after
after_prev node new m q h = ground (arith, h)

-- Adding a node that is not in the list at its end.
pub list_add_last-IsList :
    (m : Memory) (head new : ℕ) (xs : List ℕ)
    → IsList m head xs
    → NotIn new (head ∷ xs)
    → IsList (list_add_last head new m) head (xs ++ (new ∷ []))
unfolding list_add_last
list_add_last-IsList m head new xs w fresh =
    let m' = list_add_before head new m in
    let last_old : new ≢ m.prev head = Links-prev (λ y. new ≢ y) m head xs head w.links fresh in
    let apart : head ≢ new = λ e. fresh.0 (sym e) in
    record {
      links =
          Links-join m' head xs new [] head
            (Links-relink m m' head xs head new w.links w.distinct
              (before_next head new m (m.prev head) apart ∙ ground arith)
              (before_prev head new m new ∙ ground (arith, apart))
              (All-map (head ∷ xs)
                (λ q h not_last. before_next head new m q apart ∙ ground (arith, not_last, h))
                fresh)
              (All-but (λ q. m'.prev q ≡ m.prev q) head new xs w.distinct.0 fresh.1
                (λ q not_head not_new.
                  before_prev head new m q ∙ ground (arith, not_head, not_new))))
            (
              before_next head new m new apart ∙ ground (arith, last_old),
              before_prev head new m head ∙ ground arith,
            );
      distinct = Distinct-snoc (head ∷ xs) new w.distinct fresh;
    }

-- Adding a node that is not in the list at its beginning.
pub list_add_first-IsList :
    (m : Memory) (head new : ℕ) (xs : List ℕ)
    → IsList m head xs
    → NotIn new (head ∷ xs)
    → IsList (list_add_first head new m) head (new ∷ xs)
unfolding list_add_first
list_add_first-IsList m head new xs w fresh =
    let m' = list_add_after head new m in
    let apart : head ≢ new = λ e. fresh.0 (sym e) in
    let fresh' : NotIn new (xs ++ (head ∷ [])) =
      All-append (λ y. new ≢ y) xs (head ∷ []) fresh.1 (fresh.0, tt) in
    let first_old : new ≢ m.next head = Links-next (λ y. new ≢ y) m head xs head w.links fresh' in
    record {
      links = (
        after_next head new m head ∙ ground arith,
        after_prev head new m new apart ∙ ground (arith, first_old),
        Links-restart m m' head new xs head w.links
            (after_next head new m new ∙ ground (arith, apart))
            (after_prev head new m (m.next head) apart ∙ ground arith)
            (All-but (λ q. m'.next q ≡ m.next q) head new xs w.distinct.0 fresh.1
              (λ q not_head not_new. after_next head new m q ∙ ground (arith, not_head, not_new)))
            (λ q not_first not_new.
              after_prev head new m q apart ∙ ground (arith, not_first, not_new))
            (Distinct-snoc xs head w.distinct.1 w.distinct.0) fresh',
      );
      distinct = ((apart, w.distinct.0), (fresh.1, w.distinct.1));
    }

-- A list that was just made is empty.
pub list_init-IsList : (m : Memory) (head : ℕ) → IsList (list_init head m) head []
unfolding list_init
list_init-IsList m head = record { links = (ground arith, ground arith); distinct = (tt, tt) }
