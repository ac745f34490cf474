-- ===== src/Signer/Wallet/Clones.antt =====
-- signer/src/wallet.rs: concurrent calls of `transaction` on clones of a wallet, which share the
-- sequence behind the mutex. A call waits for the mutex, reads the sequence, advances it, and gives
-- the mutex back when it returns.
use basin.Prelude.{
  ℕ, zero, suc, ◌+◌, ◌%◌, ◌<◌, ◌≤◌, ◌≡◌, ◌≢◌, refl, List, [], ◌∷◌, arith, length, u64_mod,
  get_elem?, some,
}
use basin.Foreign.{Foreign}
use basin.Signer.Interface.{Request}
use basin.Signer.Wallet.{Wallet, transaction}

-- Who has the mutex, and how far the call is. A call is known by a number.
pub data Guard : Type 0 where
  free : Guard
  locked : ℕ → Guard
  has_read has_advanced : ℕ → ℕ → Guard

pub record Shared : Type 0 where
  pub sequence : ℕ
  pub guard : Guard
  -- the calls that have returned, the last one first, with the sequence of their message
  pub issued : List (ℕ × ℕ)

abbrev pub state_at : ℕ → Guard → List (ℕ × ℕ) → Shared
state_at n g l = record { sequence = n; guard = g; issued = l }

-- One step of some call.
pub data Step : Shared → Shared → Type 0 where
  lock_step : (t n : ℕ) (l : List (ℕ × ℕ)) → Step (state_at n free l) (state_at n (locked t) l)
  read_step :
      (t n : ℕ) (l : List (ℕ × ℕ)) → Step (state_at n (locked t) l) (state_at n (has_read t n) l)
  advance_step :
      (t k n : ℕ) (l : List (ℕ × ℕ))
      → Step (state_at n (has_read t k) l) (state_at ((n + 1) % u64_mod) (has_advanced t k) l)
  return_step :
      (t k n : ℕ) (l : List (ℕ × ℕ))
      → Step (state_at n (has_advanced t k) l) (state_at n free ((t, k) ∷ l))

-- Any number of steps, of any calls in any order.
pub data Steps : Shared → Shared → Type 0 where
  stay : (s : Shared) → Steps s s
  then_step : (r s t : Shared) → Steps r s → Step s t → Steps r t

-- The sequences of `n` calls from the sequence `s` on, the last one first.
abbrev pub run_from : ℕ → ℕ → List ℕ
run_from s zero = []
run_from s (suc n) = (s + n) % u64_mod ∷ run_from s n

abbrev pub sequences : List (ℕ × ℕ) → List ℕ
sequences [] = []
sequences ((t, k) ∷ l) = k ∷ sequences l

-- What holds in each phase.
abbrev IsPhase : ℕ → ℕ → ℕ → Guard → Type 0
IsPhase s n count free = n ≡ (s + count) % u64_mod
IsPhase s n count (locked t) = n ≡ (s + count) % u64_mod
IsPhase s n count (has_read t k) = (n ≡ (s + count) % u64_mod) × (k ≡ n)
IsPhase s n count (has_advanced t k) = (n ≡ (s + suc count) % u64_mod) × (k ≡ (s + count) % u64_mod)

abbrev IsRun : ℕ → Shared → Type 0
IsRun s x =
    IsPhase s x.sequence (length x.issued) x.guard
    × (sequences x.issued ≡ run_from s (length x.issued))

Step-IsRun : (s : ℕ) (x y : Shared) → Step x y → IsRun s x → IsRun s y
Step-IsRun s _ _ (lock_step t n l) h = h
Step-IsRun s _ _ (read_step t n l) h = ((h.0, refl), h.1)
Step-IsRun s _ _ (advance_step t k n l) h = ((omega arith, omega arith), h.1)
Step-IsRun s _ _ (return_step t k n l) h = (h.0.0, cc (h.0.1, h.1))

Steps-IsRun : (s : ℕ) (x y : Shared) → Steps x y → IsRun s x → IsRun s y
Steps-IsRun s _ _ (stay x) h = h
Steps-IsRun s _ _ (then_step r x y rest step) h = Step-IsRun s x y step (Steps-IsRun s r x rest h)

-- From a free mutex on, the sequences of the calls that have returned are consecutive, modulo 2^64,
-- in the order of their return, whatever the interleaving and with calls that are still under way.
pub clones_run :
    (s : ℕ) (x : Shared)
    → s < u64_mod
    → Steps (state_at s free []) x
    → sequences x.issued ≡ run_from s (length x.issued)
clones_run s x bound steps = (Steps-IsRun s (state_at s free []) x steps (omega arith, refl)).1

run_elem :
    (s n i a : ℕ)
    → get_elem? (run_from s n) i ≡ some a
    → (k : ℕ) × (k + suc i ≡ n) × (a ≡ (s + k) % u64_mod)
run_elem s zero i a h = cc
run_elem s (suc n) zero a h = (n, omega arith, ground arith)
run_elem s (suc n) (suc i) a h = let (k, e, f) = run_elem s n i a h in (k, omega arith, f)

-- Whatever the interleaving of concurrent calls, from a free mutex and a sequence below 2^64 on:
-- as long as at most 2^64 calls have returned, no two of them have the same sequence.
pub clones_distinct :
    (s i j a b : ℕ) (x : Shared)
    → s < u64_mod
    → Steps (state_at s free []) x
    → length x.issued ≤ u64_mod
    → get_elem? (sequences x.issued) i ≡ some a
    → get_elem? (sequences x.issued) j ≡ some b
    → i ≢ j
    → a ≢ b
clones_distinct s i j a b x bound steps few e f differ same =
    let run = clones_run s x bound steps in
    let (k, p, q) = run_elem s (length x.issued) i a (rw run at e) in
    let (m, p', q') = run_elem s (length x.issued) j b (rw run at f) in differ (omega arith)

module _ (F : Foreign) where
  -- The effect of `transaction` on the sequence is a round of steps from a free mutex to a free
  -- one, which issues the sequence that the wallet had and leaves the one that `transaction`
  -- leaves.
  pub transaction-Steps :
      (t : ℕ) (r : Request F) (w : Wallet F) (l : List (ℕ × ℕ))
      → Steps
          (state_at w.sequence free l)
          (state_at (transaction F r w).1.sequence free ((t, w.sequence) ∷ l))
  unfolding transaction
  transaction-Steps t r w l =
      let n = w.sequence in
      let n' = (n + 1) % u64_mod in
      then_step _ (state_at n' (has_advanced t n) l) _
        (then_step _ (state_at n (has_read t n) l) _
          (then_step _ (state_at n (locked t) l) _
            (then_step _ (state_at n free l) _ (stay (state_at n free l)) (lock_step t n l))
            (read_step t n l))
          (advance_step t n n l))
        (return_step t n n' l)
