-- ===== src/Sdk/Fees.antt =====
-- sdk/src/ipc/manager.rs: the estimate of the fees of an EIP-1559 transaction.
pub mod Sort
pub mod Order
pub mod Laws
pub mod Surge
use basin.Prelude.{
  String, ℕ, zero, suc, ◌+◌, ◌-◌, ◌*◌, ◌/◌, ltb, leb, ◌==◌, Bool, true, false, ◌&&◌, if◌then◌else◌,
  Option, none, some, List, [], ◌∷◌, ◌++◌, length, drop, get_elem?,
}
use basin.Prelude.Int.{ℤ, pos, leb_ℤ}
use basin.Result
use basin.Result.{Result, ok, err, halt, panic, message, expect, ok_or, ◌>>=◌}
use basin.Run
use basin.Run.{Run}
use basin.Foreign.{Foreign}
use basin.Foreign.Int256.{Int256}
use basin.Foreign.Evm.{Middleware}

-- `.expect(s)` on a result.
expect_ok : {A : Type 0} → String → Result A → Result A
expect_ok s (ok a) = ok a
expect_ok s (err e) = halt (panic s)
expect_ok s (halt h) = halt h

-- `r[0]` of each row
unfoldable pub first_rewards : List (List ℕ) → Result (List ℕ)
first_rewards [] = ok []
first_rewards ([] ∷ rows) = halt (panic "index out of bounds")
first_rewards ((r ∷ _) ∷ rows) = do rest ← first_rewards rows; ok (r ∷ rest)

-- `.filter(|r| *r > 0)`
unfoldable pub positive : List ℕ → List ℕ
positive [] = []
positive (r ∷ rs) = let rest = positive rs in if ltb 0 r then r ∷ rest else rest

pub insert : ℕ → List ℕ → List ℕ
insert x [] = x ∷ []
insert x (y ∷ ys) = let rest = insert x ys in if leb x y then x ∷ y ∷ ys else y ∷ rest

-- `sort()` on numbers, of which only the order of the result matters.
pub sort : List ℕ → List ℕ
unfolding insert
sort [] = []
sort (x ∷ xs) = insert x (sort xs)

-- `rotate_left(1)`
rotate_left : List ℕ → List ℕ
rotate_left [] = []
rotate_left (x ∷ xs) = xs ++ (x ∷ [])

zip : List ℕ → List ℕ → List (ℕ × ℕ)
zip [] bs = []
zip (a ∷ as') [] = []
zip (a ∷ as') (b ∷ bs) = (a, b) ∷ zip as' bs

pop : List ℤ → List ℤ
pop [] = []
pop (c ∷ []) = []
pop (c ∷ d ∷ cs) = c ∷ pop (d ∷ cs)

-- The greatest of a list's elements, none of an empty list's.
max_of : List ℤ → Option ℤ
max_of [] = none
max_of (c ∷ cs) = elim (max_of cs) [ none ↦ some c | some m ↦ some (if leb_ℤ c m then m else c) ]

-- `c == d` on integers
eq_ℤ : ℤ → ℤ → Bool
eq_ℤ c d = leb_ℤ c d && leb_ℤ d c

position : ℤ → List ℤ → Option ℕ
position m [] = none
position m (c ∷ cs) =
    let later = position m cs in
    if eq_ℤ c m then some 0 else elim later [ none ↦ none | some i ↦ some (suc i) ]

-- `values[values.len() / 2]`
median : List ℕ → Result ℕ
median values = expect "index out of bounds" (get_elem? values (length values / 2))

module _ (I : Int256) where
  -- `((b - a) * 100) / a`
  change : ℕ × ℕ → Result ℤ
  change t = do
    a ← expect_ok "priority fee overflow" (I.i_try_from t.0)
    b ← expect_ok "priority fee overflow" (I.i_try_from t.1)
    d ← I.i_sub b a
    p ← I.i_mul d (pos 100)
    I.i_div p a

  changes : List (ℕ × ℕ) → Result (List ℤ)
  changes [] = ok []
  changes (t ∷ ts) = do c ← change t; rest ← changes ts; ok (c ∷ rest)

  -- From the sorted rewards to those that are considered.
  cut : ℤ → List ℕ → Result (List ℕ)
  cut threshold rewards = do
    all ← changes (zip rewards (rotate_left rewards))
    max_change ← expect "called `Option::unwrap()` on a `None` value" (max_of (pop all))
    index ← expect "called `Option::unwrap()` on a `None` value" (position max_change (pop all))
    ok (
        if leb_ℤ threshold max_change && leb (length rewards / 2) index
        then drop index rewards
        else rewards)

  pub estimate_sorted : ℤ → List ℕ → Result ℕ
  estimate_sorted threshold rewards = do values ← cut threshold rewards; median values

  unfoldable pub estimate_positive : ℤ → List ℕ → Result ℕ
  estimate_positive threshold [] = ok 0
  estimate_positive threshold (r ∷ []) = ok r
  estimate_positive threshold (r ∷ s ∷ rs) = estimate_sorted threshold (sort (r ∷ s ∷ rs))

  unfoldable pub estimate_priority_fee : ℤ → List (List ℕ) → Result ℕ
  unfolding first_rewards positive estimate_positive
  estimate_priority_fee threshold rewards = do
    firsts ← first_rewards rewards
    estimate_positive threshold (positive firsts)

  times_tenths : ℕ → ℕ → Result ℕ
  times_tenths fee k = do p ← I.u_mul fee k; ok (p / 10)

  pub base_fee_surged : ℕ → Result ℕ
  unfolding times_tenths
  base_fee_surged fee =
      if leb fee 40000000000
      then I.u_mul fee 2
      else if leb fee 100000000000
      then times_tenths fee 16
      else if leb fee 200000000000
      then times_tenths fee 14
      else times_tenths fee 12

  -- The two fees, once the node has answered.
  unfoldable pub fees_of : ℤ → ℕ → List (List ℕ) → Result (ℕ × ℕ)
  unfolding estimate_priority_fee base_fee_surged
  fees_of threshold base_fee rewards = do
    fee ← estimate_priority_fee threshold rewards
    potential ← base_fee_surged base_fee
    cap ← if ltb potential fee then I.u_add fee potential else ok potential
    ok (fee, cap)

module _ (F : Foreign) where
  unfoldable pub premium_estimation : Middleware F.types → Run F.World (ℕ × ℕ)
  premium_estimation signer w =
      (Run.◌>>=◌ (F.latest_base_fee signer) λ block.
          Run.◌>>=◌ (Run.lift (ok_or (message "Latest block not found") block)) λ base_fee.
            Run.◌>>=◌ (Run.lift (ok_or (message "EIP-1559 not activated") base_fee))
              λ base_fee_per_gas. Run.◌>>=◌ (F.fee_history signer) λ rewards.
                Run.lift (fees_of F.ints F.threshold_max_change base_fee_per_gas rewards))
        w
