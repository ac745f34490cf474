-- ===== src/Sdk/Fees/Laws.antt =====
-- sdk/src/ipc/manager.rs: the estimate of the priority fee, and its place among the rewards.
use basin.Prelude.{
  ℕ, suc, ◌+◌, ◌-◌, ◌*◌, ◌/◌, ◌≤◌, ◌<◌, ◌≡◌, refl, ap, ◌⊎◌, inl, inr, leb, ◌&&◌, if◌then◌else◌,
  some, List, [], ◌∷◌, ◌++◌, arith, length, get_elem?, drop, get_elem?-lt, get_elem?-drop,
  length-drop, length-append, Bool-cases,
}
use basin.Prelude.Int.{ℤ, sub_ℕ, leb_ℤ}
use basin.Result.{ok}
use basin.Foreign.Int256.{Int256, IsExact, i256_half, trunc_div, scale}
use basin.Sdk.Fees.{
  first_rewards, positive, insert, sort, rotate_left, zip, pop, max_of, position, eq_ℤ, change,
  changes, cut, median, estimate_sorted, estimate_positive, estimate_priority_fee, expect_ok,
}
use basin.Sdk.Fees.Sort.{
  Has, sort-IsAscending, length-sort, Has-sort, get_elem?-Has, get_elem?-mono,
}

-- A reward with which the arithmetic stays in range.
abbrev pub IsSmall : ℕ → Type 0
IsSmall r = r * 100 < i256_half

abbrev pub All : {A : Type 0} → (A → Type 0) → List A → Type 0
All P [] = Unit
All P (x ∷ xs) = P x × All P xs

abbrev IsFit : ℕ × ℕ → Type 0
IsFit t = (0 < t.0) × IsSmall t.0 × IsSmall t.1

module _ (I : Int256) (exact : IsExact I) where
  change_lem : (a b : ℕ) → IsFit (a, b) → change I (a, b) ≡ ok (trunc_div (scale (sub_ℕ b a) 100) a)
  unfolding change expect_ok
  change_lem a b h = rw (
    exact.signed a (omega arith),
    exact.signed b (omega arith),
    exact.sub b a (omega arith) (omega arith),
    exact.times (sub_ℕ b a) 100 (ground arith) (ground arith),
    exact.over (scale (sub_ℕ b a) 100) a h.0,
  )

  changes_total :
      (ts : List (ℕ × ℕ))
      → All IsFit ts
      → (cs : List ℤ) × (changes I ts ≡ ok cs) × (length cs ≡ length ts)
  unfolding changes
  changes_total [] h = ([], refl, refl)
  changes_total ((a, b) ∷ ts) (fit, h) =
      let (cs, e, n) = changes_total ts h in
      (trunc_div (scale (sub_ℕ b a) 100) a ∷ cs, rw (change_lem a b fit, e), ap suc n)

length-pop : (cs : List ℤ) → length (pop cs) ≡ length cs - 1
unfolding pop
length-pop [] = refl
length-pop (c ∷ []) = refl
length-pop (c ∷ d ∷ cs) = omega (arith, length-pop (d ∷ cs))

-- The greatest element is there, and it is found.
max_found :
    (c : ℤ) (cs : List ℤ)
    → (m : ℤ) × (i : ℕ) × (max_of (c ∷ cs) ≡ some m)
      × (position m (c ∷ cs) ≡ some i)
      × (i < suc (length cs))
unfolding max_of position eq_ℤ
max_found c [] = (c, 0, refl, ground arith, omega arith)
max_found c (d ∷ cs) =
    let (m, i, e, f, lt) = max_found d cs in
    elim (Bool-cases (leb_ℤ c m)) [
      | inl le ↦ elim (Bool-cases (eq_ℤ c m)) [
        | inl same ↦ (m, 0, rw (e, le), rw same, omega arith)
        | inr differ ↦ (m, suc i, rw (e, le), rw (differ, f), omega arith)
      ]
      | inr gt ↦ (c, 0, rw (e, gt), ground arith, omega arith)
    ]

-- The value at the middle of what is left after the first `k` elements.
abbrev IsPick : List ℕ → ℕ → Type 0
IsPick l x = (k : ℕ) × (get_elem? l (k + (length l - k) / 2) ≡ some x)

median-IsPick :
    (l : List ℕ) (k : ℕ) → k < length l → (x : ℕ) × (median (drop k l) ≡ ok x) × IsPick l x
unfolding median
median-IsPick l k h =
    let (x, e) = get_elem?-lt l (k + (length l - k) / 2) (omega arith) in
    (x, rw (length-drop, get_elem?-drop, e), (k, e))

length-zip_rotate :
    (a : ℕ) (l : List ℕ) → length (zip (a ∷ l) (rotate_left (a ∷ l))) ≡ suc (length l)
unfolding rotate_left zip
length-zip_rotate a l = go (a ∷ l) (l ++ (a ∷ [])) (omega (arith, length-append l (a ∷ [])))
  where
    go : (as' bs : List ℕ) → length as' ≡ length bs → length (zip as' bs) ≡ length as'
    go [] bs h = refl
    go (x ∷ xs) [] h = absurd (omega arith)
    go (x ∷ xs) (y ∷ ys) h = ap suc (go xs ys (omega arith))

zip-IsFit :
    (xs ys : List ℕ)
    → All (λ r. (0 < r) × IsSmall r) xs
    → All (λ r. (0 < r) × IsSmall r) ys
    → All IsFit (zip xs ys)
unfolding zip
zip-IsFit [] ys h k = tt
zip-IsFit (x ∷ xs) [] h k = tt
zip-IsFit (x ∷ xs) (y ∷ ys) (hx, h) (hy, k) = ((hx.0, hx.1, hy.1), zip-IsFit xs ys h k)

All-rotate : (P : ℕ → Type 0) (xs : List ℕ) → All P xs → All P (rotate_left xs)
unfolding rotate_left
All-rotate P [] h = tt
All-rotate P (x ∷ xs) (hx, h) = go xs h
  where
    go : (l : List ℕ) → All P l → All P (l ++ (x ∷ []))
    go [] k = (hx, tt)
    go (y ∷ l) (hy, k) = (hy, go l k)

-- From the changes on: the cut is made at an index inside the list.
chosen :
    (threshold : ℤ) (l : List ℕ) (cs : List ℤ)
    → 0 < length cs
    → length cs < length l
    → (m : ℤ) × (i : ℕ) × (max_of cs ≡ some m)
      × (position m cs ≡ some i)
      × ((k : ℕ) × ((if leb_ℤ threshold m && leb (length l / 2) i then drop i l else l) ≡ drop k l)
          × (k < length l))
chosen threshold l [] h lt = absurd (omega arith)
chosen threshold l (c ∷ cs) h lt =
    let (m, i, e, f, g) = max_found c cs in
    elim (Bool-cases (leb_ℤ threshold m && leb (length l / 2) i)) [
      | inl take ↦ (m, i, e, f, (i, rw take, omega arith))
      | inr leave ↦ (m, i, e, f, (0, rw leave, omega arith))
    ]

module _ (I : Int256) (exact : IsExact I) (threshold : ℤ) where
  -- Where the cut is made: not at all, or at an index inside the list.
  cut_lem :
      (l : List ℕ)
      → 2 ≤ length l
      → All (λ r. (0 < r) × IsSmall r) l
      → (k : ℕ) × (cut I threshold l ≡ ok (drop k l)) × (k < length l)
  unfolding cut
  cut_lem [] h small = absurd (omega arith)
  cut_lem (a ∷ l) h small =
      let (cs, e, n) = changes_total I exact (zip (a ∷ l) (rotate_left (a ∷ l))) (
        zip-IsFit (a ∷ l) (rotate_left (a ∷ l)) small
          (All-rotate (λ r. (0 < r) × IsSmall r) (a ∷ l) small)) in
      let (m, i, f, g, (k, c, lt)) =
        chosen threshold (a ∷ l) (pop cs) (omega (arith, length-pop cs, n, length-zip_rotate a l))
          (omega (arith, length-pop cs, n, length-zip_rotate a l)) in
      (k, rw (e, f, g, c), lt)

  estimate_sorted-IsPick :
      (l : List ℕ)
      → 2 ≤ length l
      → All (λ r. (0 < r) × IsSmall r) l
      → (x : ℕ) × (estimate_sorted I threshold l ≡ ok x) × IsPick l x
  unfolding estimate_sorted
  estimate_sorted-IsPick l h small =
      let (k, e, lt) = cut_lem l h small in
      let (x, f, p) = median-IsPick l k lt in (x, rw (e, f), p)

All-positive : (l : List ℕ) → All IsSmall l → All (λ r. (0 < r) × IsSmall r) (positive l)
unfolding positive
All-positive [] h = tt
All-positive (x ∷ l) (hx, h) = ground (arith, All-positive l h)

All-insert : (P : ℕ → Type 0) (x : ℕ) (l : List ℕ) → P x → All P l → All P (insert x l)
unfolding insert
All-insert P x [] p h = (p, tt)
All-insert P x (y ∷ l) p (q, h) = elim (Bool-cases (leb x y)) [
  | inl le ↦ rw le (p, (q, h))
  | inr gt ↦ rw gt (q, All-insert P x l p h)
]

All-sort : (P : ℕ → Type 0) (l : List ℕ) → All P l → All P (sort l)
unfolding sort
All-sort P [] h = tt
All-sort P (x ∷ l) (p, h) = All-insert P x (sort l) p (All-sort P l h)

-- 0 where there are no rewards; else one of them, and at least their upper median.
abbrev pub IsEstimate : List ℕ → ℕ → Type 0
IsEstimate l x =
    ((l ≡ []) × (x ≡ 0))
    ⊎ (Has x l × ((m : ℕ) × (get_elem? (sort l) (length l / 2) ≡ some m) × (m ≤ x)))

pick-IsEstimate : (l : List ℕ) (x : ℕ) → 0 < length l → IsPick (sort l) x → IsEstimate l x
pick-IsEstimate l x h (k, e) =
    let (m, f) = get_elem?-lt (sort l) (length l / 2) (omega (arith, length-sort l)) in
    inr (
      Has-sort x l (get_elem?-Has (sort l) (k + (length (sort l) - k) / 2) x e),
      (
        m,
        f,
        get_elem?-mono (sort l) (length l / 2) (k + (length (sort l) - k) / 2) m x
            (sort-IsAscending l) (omega (arith, length-sort l)) f e,
      ),
    )

module _ (I : Int256) (exact : IsExact I) (threshold : ℤ) where
  estimate_positive-IsEstimate :
      (l : List ℕ)
      → All (λ r. (0 < r) × IsSmall r) l
      → (x : ℕ) × (estimate_positive I threshold l ≡ ok x) × IsEstimate l x
  unfolding estimate_positive sort
  estimate_positive-IsEstimate [] h = (0, refl, inl (refl, refl))
  estimate_positive-IsEstimate (r ∷ []) h =
      (r, refl, pick-IsEstimate (r ∷ []) r (omega arith) (0, refl))
  estimate_positive-IsEstimate (r ∷ s ∷ l) h =
      let (x, e, p) =
        estimate_sorted-IsPick I exact threshold (sort (r ∷ s ∷ l))
          (omega (arith, length-sort (r ∷ s ∷ l)))
          (All-sort (λ r. (0 < r) × IsSmall r) (r ∷ s ∷ l) h) in
      (x, e, pick-IsEstimate (r ∷ s ∷ l) x (omega arith) p)

-- If the 256-bit arithmetic is exact in range, every row has a first reward, and these leave room
-- for the percentage, the estimate returns: 0 where no reward is positive, else a positive reward
-- of the history, which is at least the upper median of the positive ones.
pub estimate_priority_fee-IsEstimate :
    (I : Int256) (threshold : ℤ) (rows : List (List ℕ)) (firsts : List ℕ)
    → IsExact I
    → first_rewards rows ≡ ok firsts
    → All IsSmall firsts
    → (x : ℕ) × (estimate_priority_fee I threshold rows ≡ ok x) × IsEstimate (positive firsts) x
unfolding estimate_priority_fee
estimate_priority_fee-IsEstimate I threshold rows firsts exact e small =
    let (x, f, p) =
      estimate_positive-IsEstimate I exact threshold (positive firsts)
        (All-positive firsts small) in
    (x, rw (e, f), p)
