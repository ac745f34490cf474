-- ===== src/Effects/Examples.antt =====
-- sdk/examples: how many transactions a program submits, at most and if it succeeds.
pub mod Account
pub mod Accumulator
pub mod Objectstore
pub mod Programs
use basin.Prelude.{ℕ, zero, suc, ◌≡◌, refl, true, String}
use basin.Result.{Result, ok, err, halt, is_ok}
use basin.Run.{Run, proceed, lift, on_world, ◌>>=◌}
use basin.Foreign.{Foreign}
use basin.Signer.Wallet.{Wallet}
use basin.Examples.{say, use_testnet, with_signer}
use basin.Effects.{
  Within, Reaches, stay, one_read, none-then, unmoved, one-then, widen, from_none, beside,
  network_step, none>>=, lift>>=, then_read,
}
use basin.Effects.Success.{Sends, Submitted}

-- So many transactions were submitted on the way from a world to another.
abbrev pub Submissions : (F : Foreign) → ℕ → F.World → F.World → Type 0
Submissions F zero u w = Reaches F 0 u w
Submissions F (suc n) u w = (v : F.World) × Submitted F u v × Submissions F n v w

-- Whatever its outcome, a run submits at most so many transactions, and if it succeeds, exactly so
-- many.
pub record Counts (F : Foreign) {S A : Type 0} (world : S → F.World) (n : ℕ) (m : Run S A)
    : Type 0 where
  pub at_most : Within F world n m
  pub exactly : (s : S) → is_ok (m s).0 ≡ true → Submissions F n (world s) (world (m s).1)

-- Where the world stands beside a wallet and the terminal.
abbrev pub inside : (F : Foreign) → F.Console × (Wallet F × F.World) → F.World
inside F s = s.1.1

none-Submissions :
    (F : Foreign) (n : ℕ) (u v w : F.World)
    → Reaches F 0 u v
    → Submissions F n v w
    → Submissions F n u w
none-Submissions F zero u v w h rest = none-then F 0 u v w h rest
none-Submissions F (suc n) u v w h (x, (y, z, before, submits, after), rest) =
    (x, (y, z, none-then F 0 u v y h before, submits, after), rest)

module _ (F : Foreign) {S A B : Type 0} (world : S → F.World) (n : ℕ) where
  proceed-none :
      (r : Result A) (f : A → Run S B) (s t : S)
      → Reaches F 0 (world s) (world t)
      → ((a : A) → Counts F world n (f a))
      → Reaches F n (world s) (world (proceed r f t).1)
        × (is_ok (proceed r f t).0 ≡ true → Submissions F n (world s) (world (proceed r f t).1))
  proceed-none (ok a) f s t h rest = (
    none-then F n _ _ _ h ((rest a).at_most t),
    λ done. none-Submissions F n _ _ _ h ((rest a).exactly t done),
  )
  proceed-none (err e) f s t h rest = (from_none F n _ _ h, λ done. cc)
  proceed-none (halt x) f s t h rest = (from_none F n _ _ h, λ done. cc)

  proceed-one :
      (r : Result A) (f : A → Run S B) (s t : S)
      → Reaches F 1 (world s) (world t)
      → (is_ok r ≡ true → Submitted F (world s) (world t))
      → ((a : A) → Counts F world n (f a))
      → Reaches F (suc n) (world s) (world (proceed r f t).1)
        × (is_ok (proceed r f t).0 ≡ true
            → Submissions F (suc n) (world s) (world (proceed r f t).1))
  proceed-one (ok a) f s t h sent rest = (
    one-then F n _ _ _ h ((rest a).at_most t),
    λ done. (world t, sent refl, (rest a).exactly t done),
  )
  proceed-one (err e) f s t h sent rest = (widen F n _ _ h, λ done. cc)
  proceed-one (halt x) f s t h sent rest = (widen F n _ _ h, λ done. cc)

  -- A run that submits nothing, and what follows it.
  pub none-Counts :
      (m : Run S A) (f : A → Run S B)
      → Within F world 0 m
      → ((a : A) → Counts F world n (f a))
      → Counts F world n (m >>= f)
  none-Counts m f h rest = record {
    at_most = λ s. (proceed-none (m s).0 f s (m s).1 (h s) rest).0;
    exactly = λ s. (proceed-none (m s).0 f s (m s).1 (h s) rest).1;
  }

  pub lift-Counts :
      (r : Result A) (f : A → Run S B)
      → ((a : A) → Counts F world n (f a))
      → Counts F world n (lift r >>= f)
  lift-Counts r f rest = record {
    at_most = λ s. (proceed-none r f s s (stay 0 (world s)) rest).0;
    exactly = λ s. (proceed-none r f s s (stay 0 (world s)) rest).1;
  }

  -- A run that submits one transaction, and what follows it.
  pub one-Counts :
      (m : Run S A) (f : A → Run S B)
      → Within F world 1 m
      → Sends F world m
      → ((a : A) → Counts F world n (f a))
      → Counts F world (suc n) (m >>= f)
  one-Counts m f h sends rest = record {
    at_most = λ s. (proceed-one (m s).0 f s (m s).1 (h s) (sends s) rest).0;
    exactly = λ s. (proceed-one (m s).0 f s (m s).1 (h s) (sends s) rest).1;
  }

module _ (F : Foreign) {S A : Type 0} (world : S → F.World) (m : Run S A) where
  pub Counts-none : Within F world 0 m → Counts F world 0 m
  Counts-none h = record { at_most = h; exactly = λ s done. h s }

module _ (F : Foreign) where
  -- Printing, and what follows it.
  pub say-Counts :
      {W A : Type 0} (world : F.Console × W → F.World)
      (same : (c d : F.Console) (w : W) → world (c, w) ≡ world (d, w)) (n : ℕ) (text : String)
      (rest : Run (F.Console × W) A)
      → Counts F world n rest
      → Counts F world n (say F text >>= λ _. rest)
  unfolding say
  say-Counts world same n text rest h =
      none-Counts F world n (say F text) (λ _. rest)
        (unmoved F world 0 (λ s. world (F.println text s.0, s.1)) λ s. same _ s.0 s.1) λ _. h

  -- Printing at the end.
  pub last-Counts :
      {W : Type 0} (world : F.Console × W → F.World)
      (same : (c d : F.Console) (w : W) → world (c, w) ≡ world (d, w)) (text : String)
      → Counts F world 0 (say F text)
  unfolding say
  last-Counts world same text =
      Counts-none F world _
        (unmoved F world 0 (λ s. world (F.println text s.0, s.1)) λ s. same _ s.0 s.1)

  pub step-Counts :
      {S A : Type 0} (world : S → F.World) (n : ℕ) (m : Run S (Unit {0})) (rest : Run S A)
      → Within F world 0 m
      → Counts F world n rest
      → Counts F world n (m >>= λ _. rest)
  step-Counts world n m rest h k = none-Counts F world n m (λ _. rest) h λ _. k

  pub testnet-Counts :
      {A : Type 0} (n : ℕ) (rest : Run (F.Console × F.World) A)
      → Counts F (beside F) n rest
      → Counts F (beside F) n (use_testnet F >>= λ _. rest)
  testnet-Counts n rest h =
      step-Counts (beside F) n (use_testnet F) rest
        (λ s. then_read 0 s.1 s.1 _ (stay 0 s.1) (network_step _ s.1)) h

  pub with_signer-Counts :
      {A : Type 0} (n : ℕ) (wallet : Wallet F) (m : Run (F.Console × (Wallet F × F.World)) A)
      → Counts F (inside F) n m
      → Counts F (beside F) n (with_signer F wallet m)
  with_signer-Counts n wallet m h = record {
    at_most = λ s. h.at_most (s.0, (wallet, s.1));
    exactly = λ s. h.exactly (s.0, (wallet, s.1));
  }
