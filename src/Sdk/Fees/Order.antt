-- ===== src/Sdk/Fees/Order.antt =====
-- sdk/src/ipc/manager.rs: the estimate of the priority fee, and the order of the blocks.
use mathlib.Core.Logic.{∥∥₁_elim}
use mathlib.Core.List.{Perm, Permᴰ}
use native.Mathlib.Nat.{ℕ_set}
use mathlib.Core.Bool.{Bool-discrete}
use mathlib.Core.HLevel.{hedberg}
use basin.Prelude.{
  ℕ, ◌≤◌, ◌≡◌, refl, ◌∙◌, sym, ap, String, str_eq, eq_iff, true, ltb, if◌then◌else◌, List, [], ◌∷◌,
  arith, length,
}
use basin.Prelude.Int.{ℤ}
use basin.Result.{Result, ok, err, halt, panic, map_ok, ◌>>=◌}
use basin.Foreign.Int256.{Int256}
use basin.Sdk.Fees.{
  first_rewards, positive, insert, sort, estimate_sorted, estimate_positive, estimate_priority_fee,
}
use basin.Sdk.Fees.Sort.{insert_comm, length-sort}

-- A block's reward, put where it belongs among the sorted positive ones.
add : ℕ → List ℕ → List ℕ
add r s = if ltb 0 r then insert r s else s

step : List ℕ → Result (List ℕ) → Result (List ℕ)
step [] g = halt (panic "index out of bounds")
step (r ∷ _) g = map_ok (add r) g

gather : List (List ℕ) → Result (List ℕ)
gather [] = ok []
gather (row ∷ rows) = step row (gather rows)

gather_lem :
    (rows : List (List ℕ)) → gather rows ≡ map_ok (λ l. sort (positive l)) (first_rewards rows)
unfolding gather step add first_rewards positive sort
gather_lem [] = refl
gather_lem ([] ∷ rows) = refl
gather_lem ((r ∷ row) ∷ rows) = ground (arith, gather_lem rows)

step_comm : (a b : List ℕ) (g : Result (List ℕ)) → step a (step b g) ≡ step b (step a g)
unfolding step add
step_comm [] [] g = refl
step_comm [] (s ∷ b) g = refl
step_comm (r ∷ a) [] g = refl
step_comm (r ∷ a) (s ∷ b) (ok l) = ground (arith, insert_comm r s l)
step_comm (r ∷ a) (s ∷ b) (err e) = refl
step_comm (r ∷ a) (s ∷ b) (halt h) = refl

gather-permᴰ : (rows rows' : List (List ℕ)) → Permᴰ rows rows' → gather rows ≡ gather rows'
unfolding gather
gather-permᴰ _ _ Permᴰ.nil = refl
gather-permᴰ _ _ (Permᴰ.cons {l₁ = l} {l₂ = m} e p) = cc (e, gather-permᴰ l m p)
gather-permᴰ _ _ (Permᴰ.swap {a = a} {b = b} {l = l} e f) = cc (e, f, step_comm a b (gather l))
gather-permᴰ _ _ (Permᴰ.trans {l₁ = l} {l₂ = m} {l₃ = n} p q) =
    gather-permᴰ l m p ∙ gather-permᴰ m n q

String-discrete : Discrete String
String-discrete s t = elim (Bool-discrete (str_eq s t) true) [
  | yes same ↦ yes ((eq_iff s t).0 same)
  | no differ ↦ no (λ e. differ ((eq_iff s t).1 e))
]

Result-set : IsSet (Result ℕ)
Result-set = hlevel (ℕ_set, hedberg String-discrete)

module _ (I : Int256) (threshold : ℤ) where
  from_sorted : List ℕ → Result ℕ
  from_sorted [] = ok 0
  from_sorted (r ∷ []) = ok r
  from_sorted (r ∷ s ∷ rs) = estimate_sorted I threshold (r ∷ s ∷ rs)

  from_sorted-two : (l : List ℕ) → 2 ≤ length l → from_sorted l ≡ estimate_sorted I threshold l
  unfolding from_sorted
  from_sorted-two [] h = absurd (omega arith)
  from_sorted-two (r ∷ []) h = absurd (omega arith)
  from_sorted-two (r ∷ s ∷ rs) h = refl

  estimate_positive-sort : (l : List ℕ) → estimate_positive I threshold l ≡ from_sorted (sort l)
  unfolding estimate_positive from_sorted sort insert
  estimate_positive-sort [] = refl
  estimate_positive-sort (r ∷ []) = refl
  estimate_positive-sort (r ∷ s ∷ rs) =
      sym (from_sorted-two (sort (r ∷ s ∷ rs)) (omega (arith, length-sort (r ∷ s ∷ rs))))

  after_sort :
      (r : Result (List ℕ))
      → (r >>= λ l. estimate_positive I threshold (positive l))
        ≡ (map_ok (λ l. sort (positive l)) r >>= from_sorted)
  after_sort (ok l) = estimate_positive-sort (positive l)
  after_sort (err e) = refl
  after_sort (halt h) = refl

  estimate-gather :
      (rows : List (List ℕ))
      → estimate_priority_fee I threshold rows ≡ (gather rows >>= from_sorted)
  unfolding estimate_priority_fee
  estimate-gather rows = rw (gather_lem rows) (after_sort (first_rewards rows))

  -- Two histories with the same rows in another order have the same estimate, panics included.
  pub estimate-perm :
      (rows rows' : List (List ℕ))
      → Perm rows rows'
      → estimate_priority_fee I threshold rows ≡ estimate_priority_fee I threshold rows'
  estimate-perm rows rows' p = ∥∥₁_elim p (Result-set _ _) λ d.
      estimate-gather rows
      ∙ ap (λ g. g >>= from_sorted) (gather-permᴰ rows rows' d)
      ∙ sym (estimate-gather rows')
