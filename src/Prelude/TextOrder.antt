-- ===== src/Prelude/TextOrder.antt =====
-- The order of texts by UTF-16 code units, as `Array.prototype.sort` has it, and sorted sets of texts.
use Prim.Native.Nat.{Ordering, compare}
use mathlib.Core.List.{append-nil}
use bevoac_dev.Prelude.{
  ◌≡◌, refl, sym, ap, ◌∙◌, true, ◌||◌, List, [], ◌∷◌, ◌++◌, arith, Bool-cases, inl, inr,
}
use bevoac_dev.Prelude.Text.{Text, text_eq, text_eq_iff, text_eq_refl, mem_text}

unfoldable pub text_cmp : Text → Text → Ordering
text_cmp [] [] = Ordering.eq
text_cmp [] (d ∷ t) = Ordering.lt
text_cmp (c ∷ s) [] = Ordering.gt
text_cmp (c ∷ s) (d ∷ t) =
    let later = text_cmp s t in
    elim (compare c d) [
      | Ordering.lt ↦ Ordering.lt
      | Ordering.eq ↦ later
      | Ordering.gt ↦ Ordering.gt
    ]

text_cmp-eq : (s t : Text) → text_cmp s t ≡ Ordering.eq → s ≡ t
unfolding text_cmp
text_cmp-eq [] [] h = refl
text_cmp-eq [] (d ∷ t) h = cc
text_cmp-eq (c ∷ s) [] h = cc
text_cmp-eq (c ∷ s) (d ∷ t) h = ground (arith, text_cmp-eq s t)

text_cmp-gt : (s t : Text) → text_cmp s t ≡ Ordering.gt → text_cmp t s ≡ Ordering.lt
unfolding text_cmp
text_cmp-gt [] [] h = cc
text_cmp-gt [] (d ∷ t) h = cc
text_cmp-gt (c ∷ s) [] h = refl
text_cmp-gt (c ∷ s) (d ∷ t) h = ground (arith, text_cmp-gt s t)

pub text_cmp-lt : (s t : Text) → text_cmp s t ≡ Ordering.lt → text_cmp t s ≡ Ordering.gt
unfolding text_cmp
text_cmp-lt [] [] h = cc
text_cmp-lt [] (d ∷ t) h = refl
text_cmp-lt (c ∷ s) [] h = cc
text_cmp-lt (c ∷ s) (d ∷ t) h = ground (arith, text_cmp-lt s t)

pub text_cmp_trans :
    (s t u : Text)
    → text_cmp s t ≡ Ordering.lt
    → text_cmp t u ≡ Ordering.lt
    → text_cmp s u ≡ Ordering.lt
unfolding text_cmp
text_cmp_trans [] [] u h k = cc
text_cmp_trans [] (d ∷ t) [] h k = cc
text_cmp_trans [] (d ∷ t) (e ∷ u) h k = refl
text_cmp_trans (c ∷ s) [] u h k = cc
text_cmp_trans (c ∷ s) (d ∷ t) [] h k = cc
text_cmp_trans (c ∷ s) (d ∷ t) (e ∷ u) h k = ground (arith, text_cmp_trans s t u)

-- a text into a sorted list without repetitions
unfoldable pub set_insert : Text → List Text → List Text
set_insert x [] = x ∷ []
set_insert x (y ∷ l) =
    let later = set_insert x l in
    elim (text_cmp x y) [
      | Ordering.lt ↦ x ∷ (y ∷ l)
      | Ordering.eq ↦ y ∷ l
      | Ordering.gt ↦ y ∷ later
    ]

-- `[...new Set(xs)].sort()`
unfoldable pub sorted_set : List Text → List Text
unfolding set_insert
sorted_set [] = []
sorted_set (x ∷ xs) = set_insert x (sorted_set xs)

pub data Order (s t : Text) : Type 0 where
  before : text_cmp s t ≡ Ordering.lt → text_cmp t s ≡ Ordering.gt → Order s t
  same : text_cmp s t ≡ Ordering.eq → text_cmp t s ≡ Ordering.eq → s ≡ t → Order s t
  after : text_cmp s t ≡ Ordering.gt → text_cmp t s ≡ Ordering.lt → Order s t

Ordering-cases : (s t : Text) (o : Ordering) → text_cmp s t ≡ o → Order s t
Ordering-cases s t Ordering.lt h = before h (text_cmp-lt s t h)
Ordering-cases s t Ordering.eq h = let e = text_cmp-eq s t h in same h (rw e (rw e at h)) e
Ordering-cases s t Ordering.gt h = after h (text_cmp-gt s t h)

pub order_of : (s t : Text) → Order s t
order_of s t = Ordering-cases s t (text_cmp s t) refl

set_insert_comm :
    (a b : Text) (l : List Text) → set_insert a (set_insert b l) ≡ set_insert b (set_insert a l)
unfolding set_insert
set_insert_comm a b [] = elim (order_of a b) [
  | before p q ↦ rw (p, q, set_insert)
  | same p q e ↦ rw e
  | after p q ↦ rw (p, q, set_insert)
]
set_insert_comm a b (y ∷ l) = elim (order_of a y) [
  | before p q ↦ elim (order_of b y) [
    | before r s ↦ elim (order_of a b) [
      | before t u ↦ simp (p, r, t, u, set_insert)
      | same t u e ↦ rw e
      | after t u ↦ simp (p, r, t, u, set_insert)
    ]
    | same r s f ↦ let t : text_cmp b a ≡ Ordering.gt = rw f q in simp (p, r, t, set_insert)
    | after r s ↦ let u = text_cmp-lt a b (text_cmp_trans a y b p s) in simp (p, r, u, set_insert)
  ]
  | same p q e ↦ elim (order_of b y) [
    | before r s ↦ let t : text_cmp a b ≡ Ordering.gt = rw e s in simp (p, r, t, set_insert)
    | same r s f ↦ rw (e, f)
    | after r s ↦ simp (p, r, set_insert)
  ]
  | after p q ↦ elim (order_of b y) [
    | before r s ↦ let u = text_cmp-lt b a (text_cmp_trans b y a r q) in simp (p, r, u, set_insert)
    | same r s e ↦ simp (p, r, set_insert)
    | after r s ↦ simp (p, r, set_insert, set_insert_comm a b l)
  ]
]

-- whether a text is in the set after an insertion
pub mem-set_insert :
    (t x : Text) (l : List Text) → mem_text t (set_insert x l) ≡ (text_eq t x || mem_text t l)
unfolding mem_text set_insert
mem-set_insert t x [] = refl
mem-set_insert t x (y ∷ l) =
    let ih = mem-set_insert t x l in
    elim (order_of x y) [
      | before p q ↦ ground arith
      | same p q e ↦ ground arith
      | after p q ↦ ground arith
    ]

pub mem-sorted_set : (t : Text) (xs : List Text) → mem_text t (sorted_set xs) ≡ mem_text t xs
unfolding sorted_set mem_text
mem-sorted_set t [] = refl
mem-sorted_set t (x ∷ xs) = ground (arith, mem-set_insert t x (sorted_set xs), mem-sorted_set t xs)

text_cmp_refl : (s : Text) → text_cmp s s ≡ Ordering.eq
unfolding text_cmp
text_cmp_refl [] = refl
text_cmp_refl (c ∷ s) = ground (arith, text_cmp_refl s)

set_insert_idem : (x : Text) (l : List Text) → set_insert x (set_insert x l) ≡ set_insert x l
unfolding set_insert
set_insert_idem x [] = rw (text_cmp_refl x, set_insert)
set_insert_idem x (y ∷ l) = elim (order_of x y) [
  | before p q ↦ simp (p, text_cmp_refl x, set_insert)
  | same p q e ↦ simp (p, set_insert)
  | after p q ↦ simp (p, set_insert, set_insert_idem x l)
]

-- A text that is in the list already adds nothing.
set_insert-mem :
    (x : Text) (ys : List Text)
    → mem_text x ys ≡ true
    → set_insert x (sorted_set ys) ≡ sorted_set ys
unfolding mem_text sorted_set
set_insert-mem x [] h = cc
set_insert-mem x (y ∷ ys) h = elim (Bool-cases (text_eq x y)) [
  | inl e ↦ rw ((text_eq_iff x y).0 e) (set_insert_idem y (sorted_set ys))
  | inr e ↦
      set_insert_comm x y (sorted_set ys) ∙ ap (set_insert y) (set_insert-mem x ys (ground arith))
]

sorted_set-append_cons :
    (x : Text) (ys xs : List Text)
    → sorted_set (ys ++ (x ∷ xs)) ≡ set_insert x (sorted_set (ys ++ xs))
unfolding sorted_set
sorted_set-append_cons x [] xs = refl
sorted_set-append_cons x (y ∷ ys) xs =
    ap (set_insert y) (sorted_set-append_cons x ys xs) ∙ set_insert_comm y x (sorted_set (ys ++ xs))

sorted_set-append_comm : (xs ys : List Text) → sorted_set (xs ++ ys) ≡ sorted_set (ys ++ xs)
unfolding sorted_set
sorted_set-append_comm [] ys = ap sorted_set (sym (append-nil ys))
sorted_set-append_comm (x ∷ xs) ys =
    ap (set_insert x) (sorted_set-append_comm xs ys) ∙ sym (sorted_set-append_cons x ys xs)

sorted_set-subset :
    (xs ys : List Text)
    → ((t : Text) → mem_text t xs ≡ true → mem_text t ys ≡ true)
    → sorted_set (xs ++ ys) ≡ sorted_set ys
unfolding sorted_set mem_text
sorted_set-subset [] ys h = refl
sorted_set-subset (x ∷ xs) ys h =
    ap (set_insert x) (sorted_set-subset xs ys (λ t m. h t (ground (arith, m))))
    ∙ set_insert-mem x ys (h x (ground (arith, text_eq_refl x)))

-- Lists with the same members have the same sorted set.
pub sorted_set-ext :
    (xs ys : List Text)
    → ((t : Text) → mem_text t xs ≡ mem_text t ys)
    → sorted_set xs ≡ sorted_set ys
sorted_set-ext xs ys h =
    sym (sorted_set-subset ys xs (λ t m. h t ∙ m))
    ∙ (sorted_set-append_comm ys xs ∙ sorted_set-subset xs ys (λ t m. sym (h t) ∙ m))
