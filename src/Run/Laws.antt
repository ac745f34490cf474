-- ===== src/Run/Laws.antt =====
-- Inversion of a step and what follows it.
use basin.Prelude.{◌≡◌, refl, ap}
use basin.Result.{Result, ok, err, halt, Halt}
use basin.Result.Laws.{Returns}
use basin.Run.{Run, proceed, done, lift, on_local, on_world, ◌>>=◌}

-- A run with a known result, and the state that it leaves.
pub run-eq {ℓ} :
    {S A : Type ℓ} (m : Run S A) (s : S) (a : A) → (m s).0 ≡ ok a → m s ≡ (ok a, (m s).1)
run-eq m s a h = ap (λ x. (x, (m s).1)) h

module _ {ℓ} {S A B : Type ℓ} where
  pub proceed-eq-ok :
      (r : Result A) (f : A → Run S B) (s : S) {b : B}
      → (proceed r f s).0 ≡ ok b
      → (a : A) × (r ≡ ok a) × ((f a s).0 ≡ ok b)
  proceed-eq-ok (ok a) f s h = (a, refl, h)
  proceed-eq-ok (err e) f s h = cc
  proceed-eq-ok (halt x) f s h = cc

  -- If the whole succeeds, so does the first step, and then the rest from where it left the state.
  pub >>=-eq-ok :
      (m : Run S A) (f : A → Run S B) (s : S) {b : B}
      → ((m >>= f) s).0 ≡ ok b
      → (a : A) × ((m s).0 ≡ ok a) × ((f a (m s).1).0 ≡ ok b)
  >>=-eq-ok m f s h = proceed-eq-ok (m s).0 f (m s).1 h

  -- If the first step succeeds, the whole is what follows, from where it left the state.
  pub >>=-ok :
      (m : Run S A) (f : A → Run S B) (s t : S) (a : A) → m s ≡ (ok a, t) → (m >>= f) s ≡ f a t
  >>=-ok m f s t a h = ap (λ x. proceed x.0 f x.1) h

  -- What is done after a step matters only where the step succeeds, and from where it leaves the state.
  proceed-cong :
      (r : Result A) (f g : A → Run S B) (s : S)
      → ((a : A) → r ≡ ok a → f a s ≡ g a s)
      → proceed r f s ≡ proceed r g s
  proceed-cong (ok a) f g s h = h a refl
  proceed-cong (err e) f g s h = refl
  proceed-cong (halt x) f g s h = refl

  pub >>=-cong :
      (m : Run S A) (f g : A → Run S B) (s : S)
      → ((a : A) → (m s).0 ≡ ok a → f a (m s).1 ≡ g a (m s).1)
      → (m >>= f) s ≡ (m >>= g) s
  >>=-cong m f g s h = proceed-cong (m s).0 f g (m s).1 h

  proceed-done : (r : Result A) (g : A → B) (s : S) → (proceed r (λ a. done (g a)) s).1 ≡ s
  proceed-done (ok a) g s = refl
  proceed-done (err e) g s = refl
  proceed-done (halt x) g s = refl

  -- What is made of a result at the end leaves the state alone.
  pub >>=-done : (m : Run S A) (g : A → B) (s : S) → ((m >>= λ a. done (g a)) s).1 ≡ (m s).1
  >>=-done m g s = proceed-done (m s).0 g (m s).1

  pub proceed-halts :
      (r : Result A) (f : A → Run S B) (s : S) (x : Halt)
      → Returns r
      → (proceed r f s).0 ≡ halt x
      → (a : A) × (r ≡ ok a) × ((f a s).0 ≡ halt x)
  proceed-halts (ok a) f s x n h = (a, refl, h)
  proceed-halts (err e) f s x n h = cc
  proceed-halts (halt y) f s x n h = absurd n

module _ {ℓ} {S W A B : Type ℓ} where
  pub on_world-ok :
      (m : Run W A) (f : A → Run (S × W) B) (s : S) (w v : W) (a : A)
      → m w ≡ (ok a, v)
      → (on_world m >>= f) (s, w) ≡ f a (s, v)
  on_world-ok m f s w v a h = >>=-ok (on_world m) f (s, w) (s, v) a (ap (λ x. (x.0, (s, x.1))) h)

-- The shape of a transaction: encode, sign on the local state, send on the world, read the receipt.
-- If each of the first three steps returns, only the reading can stop the process.
module _ {S W A B C D : Type 0} (e : Result A) (t : A → Run S B) (q : B → Run W C)
    (read : C → Result D) where
  abbrev pub transact : Run (S × W) D
  transact = lift e >>= λ a. on_local (t a) >>= λ b. on_world (q b) >>= λ c. lift (read c)

  pub transact-halts :
      (s : S) (w : W) (x : Halt)
      → Returns e
      → ((a : A) → Returns (t a s).0)
      → ((b : B) → Returns (q b w).0)
      → (transact (s, w)).0 ≡ halt x
      → (a : A) × (b : B) × (c : C) × (e ≡ ok a)
        × ((t a s).0 ≡ ok b)
        × ((q b w).0 ≡ ok c)
        × (read c ≡ halt x)
  transact-halts s w x re rt rq h =
      let (a, encoded, h₁) = proceed-halts e _ (s, w) x re h in
      let (b, signed, h₂) = proceed-halts (t a s).0 _ ((t a s).1, w) x (rt a) h₁ in
      let (c, sent, h₃) = proceed-halts (q b w).0 _ ((t a s).1, (q b w).1) x (rq b) h₂ in
      (a, b, c, encoded, signed, sent, h₃)

  -- If the first three steps return, the whole is what the reading gives.
  pub transact-eq :
      (s : S) (w : W) (a : A) (b : B) (c : C)
      → e ≡ ok a
      → (t a s).0 ≡ ok b
      → (q b w).0 ≡ ok c
      → (transact (s, w)).0 ≡ read c
  transact-eq s w a b c encoded signed sent = rw (encoded, signed, sent) refl
