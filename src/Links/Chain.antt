-- ===== src/Links/Chain.antt =====
-- lib/lib_list.h: the list that the nodes in memory stand for.
use mathlib.Core.Path.{subst}
use ufp.Common.{ℕ, ◌≡◌, ◌≢◌, sym, ap, ◌∙◌, List, [], ◌∷◌, ◌++◌, All}
use ufp.Links.{Memory}

-- From `a` over `xs` to `b`, each node points to the one behind it and is pointed back to.
abbrev pub Links : Memory → (a : ℕ) (xs : List ℕ) (b : ℕ) → Type 0
Links m a [] b = (m.next a ≡ b) × (m.prev b ≡ a)
Links m a (x ∷ xs) b = (m.next a ≡ x) × (m.prev x ≡ a) × Links m x xs b

abbrev pub NotIn : ℕ → List ℕ → Type 0
NotIn x xs = All (λ y. x ≢ y) xs

abbrev pub Distinct : List ℕ → Type 0
Distinct [] = Unit
Distinct (x ∷ xs) = NotIn x xs × Distinct xs

-- The nodes of the list at `head` are `xs`, in order.
pub record IsList (m : Memory) (head : ℕ) (xs : List ℕ) : Type 0 where
  pub links : Links m head xs head
  pub distinct : Distinct (head ∷ xs)

module _ (P : ℕ → Type 0) where
  pub All-append : (xs ys : List ℕ) → All P xs → All P ys → All P (xs ++ ys)
  All-append [] ys hx hy = hy
  All-append (x ∷ xs) ys hx hy = (hx.0, All-append xs ys hx.1 hy)

  pub All-left : (xs ys : List ℕ) → All P (xs ++ ys) → All P xs
  All-left [] ys h = tt
  All-left (x ∷ xs) ys h = (h.0, All-left xs ys h.1)

  pub All-right : (xs ys : List ℕ) → All P (xs ++ ys) → All P ys
  All-right [] ys h = h
  All-right (x ∷ xs) ys h = All-right xs ys h.1

  -- the node before the end of a chain is one of its nodes
  pub Links-prev :
      (m : Memory) (a : ℕ) (xs : List ℕ) (b : ℕ) → Links m a xs b → All P (a ∷ xs) → P (m.prev b)
  Links-prev m a [] b links h = subst P (sym links.1) h.0
  Links-prev m a (x ∷ xs) b links h = Links-prev m x xs b links.2 h.1

module _ {P Q : ℕ → Type 0} where
  pub All-map : (xs : List ℕ) → ((x : ℕ) → P x → Q x) → All P xs → All Q xs
  All-map [] f h = tt
  All-map (x ∷ xs) f h = (f x h.0, All-map xs f h.1)

module _ {P Q R : ℕ → Type 0} where
  pub All-both : (xs : List ℕ) → ((x : ℕ) → P x → Q x → R x) → All P xs → All Q xs → All R xs
  All-both [] f hp hq = tt
  All-both (x ∷ xs) f hp hq = (f x hp.0 hq.0, All-both xs f hp.1 hq.1)

-- what holds of every node but two holds of a list without the two
pub All-but :
    (S : ℕ → Type 0) (a b : ℕ) (xs : List ℕ)
    → NotIn a xs
    → NotIn b xs
    → ((q : ℕ) → q ≢ a → q ≢ b → S q)
    → All S xs
All-but S a b [] ha hb f = tt
All-but S a b (x ∷ xs) ha hb f =
    (f x (λ e. ha.0 (sym e)) (λ e. hb.0 (sym e)), All-but S a b xs ha.1 hb.1 f)

pub Links-split :
    (m : Memory) (a : ℕ) (xs : List ℕ) (x : ℕ) (ys : List ℕ) (b : ℕ)
    → Links m a (xs ++ (x ∷ ys)) b
    → Links m a xs x × Links m x ys b
Links-split m a [] x ys b links = ((links.0, links.1), links.2)
Links-split m a (y ∷ xs) x ys b links =
    let (left, right) = Links-split m y xs x ys b links.2 in ((links.0, links.1, left), right)

pub Links-join :
    (m : Memory) (a : ℕ) (xs : List ℕ) (x : ℕ) (ys : List ℕ) (b : ℕ)
    → Links m a xs x
    → Links m x ys b
    → Links m a (xs ++ (x ∷ ys)) b
Links-join m a [] x ys b left right = (left.0, left.1, right)
Links-join m a (y ∷ xs) x ys b left right = (left.0, left.1, Links-join m y xs x ys b left.2 right)

-- A chain stays one if its fields are not written.
pub Links-frame :
    (m m' : Memory) (a : ℕ) (xs : List ℕ) (b : ℕ)
    → All (λ q. m'.next q ≡ m.next q) (a ∷ xs)
    → All (λ q. m'.prev q ≡ m.prev q) (xs ++ (b ∷ []))
    → Links m a xs b
    → Links m' a xs b
Links-frame m m' a [] b same_next same_prev links = (same_next.0 ∙ links.0, same_prev.0 ∙ links.1)
Links-frame m m' a (x ∷ xs) b same_next same_prev links = (
  same_next.0 ∙ links.0,
  same_prev.0 ∙ links.1,
  Links-frame m m' x xs b same_next.1 same_prev.1 links.2,
)

-- A chain that ends at another node: only the last of its nodes points elsewhere.
pub Links-relink :
    (m m' : Memory) (a : ℕ) (xs : List ℕ) (b c : ℕ)
    → Links m a xs b
    → Distinct (a ∷ xs)
    → m'.next (m.prev b) ≡ c
    → m'.prev c ≡ m.prev b
    → All (λ q. q ≢ m.prev b → m'.next q ≡ m.next q) (a ∷ xs)
    → All (λ q. m'.prev q ≡ m.prev q) xs
    → Links m' a xs c
Links-relink m m' a [] b c links distinct at_last at_end same_next same_prev =
    (ap m'.next (sym links.1) ∙ at_last, at_end ∙ links.1)
Links-relink m m' a (x ∷ xs) b c links distinct at_last at_end same_next same_prev =
    let not_last : a ≢ m.prev b = Links-prev (λ y. a ≢ y) m x xs b links.2 distinct.0 in
    (
      same_next.0 not_last ∙ links.0,
      same_prev.0 ∙ links.1,
      Links-relink m m' x xs b c links.2 distinct.1 at_last at_end same_next.1 same_prev.1,
    )

-- A chain that begins at another node.
pub Links-restart :
    (m m' : Memory) (a c : ℕ) (xs : List ℕ) (b : ℕ)
    → Links m a xs b
    → m'.next c ≡ m.next a
    → m'.prev (m.next a) ≡ c
    → All (λ q. m'.next q ≡ m.next q) xs
    → ((q : ℕ) → q ≢ m.next a → q ≢ c → m'.prev q ≡ m.prev q)
    → Distinct (xs ++ (b ∷ []))
    → NotIn c (xs ++ (b ∷ []))
    → Links m' c xs b
Links-restart m m' a c [] b links at_first at_back same_next same_prev distinct fresh =
    (at_first ∙ links.0, ap m'.prev (sym links.0) ∙ at_back)
Links-restart m m' a c (x ∷ xs) b links at_first at_back same_next same_prev distinct fresh = (
  at_first ∙ links.0,
  ap m'.prev (sym links.0) ∙ at_back,
  Links-frame m m' x xs b same_next
      (All-but (λ q. m'.prev q ≡ m.prev q) x c (xs ++ (b ∷ [])) distinct.0 fresh.1
        (λ q not_x not_c. same_prev q (λ e. not_x (e ∙ links.0)) not_c))
      links.2,
)

-- the node behind the beginning of a chain is one of those up to its end
pub Links-next :
    (P : ℕ → Type 0) (m : Memory) (a : ℕ) (xs : List ℕ) (b : ℕ)
    → Links m a xs b
    → All P (xs ++ (b ∷ []))
    → P (m.next a)
Links-next P m a [] b links h = subst P (sym links.0) h.0
Links-next P m a (x ∷ xs) b links h = subst P (sym links.0) h.0

pub Distinct-snoc : (xs : List ℕ) (x : ℕ) → Distinct xs → NotIn x xs → Distinct (xs ++ (x ∷ []))
Distinct-snoc [] x d h = (tt, tt)
Distinct-snoc (y ∷ xs) x d h =
    (All-append (λ z. y ≢ z) xs (x ∷ []) d.0 ((λ e. h.0 (sym e)), tt), Distinct-snoc xs x d.1 h.1)
