-- ===== src/Sdk/Fees/Sort.antt =====
-- Lemmas on the sort of the rewards.
use basin.Prelude.{
  ℕ, zero, suc, ◌≤◌, ◌≡◌, refl, ◌∙◌, ap, ◌⊎◌, inl, inr, some, List, [], ◌∷◌, arith, length,
  get_elem?,
}
use basin.Sdk.Fees.{insert, sort}

abbrev pub IsAscending : List ℕ → Type 0
IsAscending [] = Unit
IsAscending (x ∷ []) = Unit
IsAscending (x ∷ y ∷ ys) = (x ≤ y) × IsAscending (y ∷ ys)

abbrev pub Has : ℕ → List ℕ → Type 0
Has x [] = ⊥
Has x (y ∷ ys) = (x ≡ y) ⊎ Has x ys

pub insert_comm : (a b : ℕ) (l : List ℕ) → insert a (insert b l) ≡ insert b (insert a l)
unfolding insert
insert_comm a b [] = ground arith
insert_comm a b (x ∷ l) = ground (arith, insert_comm a b l)

pub length-sort : (l : List ℕ) → length (sort l) ≡ length l
unfolding sort
length-sort [] = refl
length-sort (x ∷ l) = length-insert x (sort l) ∙ ap suc (length-sort l)
  where
    length-insert : (a : ℕ) (m : List ℕ) → length (insert a m) ≡ suc (length m)
    length-insert a [] = refl
    length-insert a (y ∷ m) = ground (arith, length-insert a m)

insert-IsAscending : (a : ℕ) (l : List ℕ) → IsAscending l → IsAscending (insert a l)
unfolding insert
insert-IsAscending a [] h = tt
insert-IsAscending a (x ∷ []) h = ground arith
insert-IsAscending a (x ∷ y ∷ l) h = ground (arith, insert-IsAscending a (y ∷ l) h.1)

pub sort-IsAscending : (l : List ℕ) → IsAscending (sort l)
unfolding sort
sort-IsAscending [] = tt
sort-IsAscending (x ∷ l) = insert-IsAscending x (sort l) (sort-IsAscending l)

Has-insert : (x a : ℕ) (l : List ℕ) → Has x (insert a l) → (x ≡ a) ⊎ Has x l
unfolding insert
Has-insert x a [] h = h
Has-insert x a (y ∷ l) h = ground (arith, Has-insert x a l)

pub Has-sort : (x : ℕ) (l : List ℕ) → Has x (sort l) → Has x l
unfolding sort
Has-sort x [] h = h
Has-sort x (y ∷ l) h = elim (Has-insert x y (sort l) h) [
  | inl e ↦ inl e
  | inr m ↦ inr (Has-sort x l m)
]

pub get_elem?-Has : (l : List ℕ) (i x : ℕ) → get_elem? l i ≡ some x → Has x l
get_elem?-Has [] i x h = cc
get_elem?-Has (y ∷ l) zero x h = inl (ground arith)
get_elem?-Has (y ∷ l) (suc i) x h = inr (get_elem?-Has l i x h)

-- The head of an ascending list is its least element.
head_le : (x : ℕ) (l : List ℕ) (i y : ℕ) → IsAscending (x ∷ l) → get_elem? l i ≡ some y → x ≤ y
head_le x [] i y h e = cc
head_le x (z ∷ l) zero y h e = ground arith
head_le x (z ∷ l) (suc i) y h e = omega (arith, head_le z l i y h.1 e)

pub get_elem?-mono :
    (l : List ℕ) (i j x y : ℕ)
    → IsAscending l
    → i ≤ j
    → get_elem? l i ≡ some x
    → get_elem? l j ≡ some y
    → x ≤ y
get_elem?-mono [] i j x y h le e f = cc
get_elem?-mono (z ∷ l) zero zero x y h le e f = ground arith
get_elem?-mono (z ∷ l) zero (suc j) x y h le e f = ground (arith, head_le z l j y h f)
get_elem?-mono (z ∷ l) (suc i) zero x y h le e f = absurd (omega arith)
get_elem?-mono (z ∷ []) (suc i) (suc j) x y h le e f = cc
get_elem?-mono (z ∷ w ∷ l) (suc i) (suc j) x y h le e f =
    get_elem?-mono (w ∷ l) i j x y h.1 (omega arith) e f
