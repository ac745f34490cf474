-- ===== src/Signer/Wallet/Uses.antt =====
-- signer/src/wallet.rs: code that does nothing with a wallet but what Signer/Wallet/Lifetime lists.
use basin.Prelude.{Bool, true, false, if◌then◌else◌}
use basin.Result.{Result, ok, err, halt}
use basin.Run.{Run, proceed, lift, on_local, on_world, ◌>>=◌}
use basin.Foreign.{Foreign}
use basin.Signer.Interface.{Request}
use basin.Signer.Wallet.{Wallet, wallet_signer}
use basin.Signer.Wallet.Lifetime.{Uses, unused, then_use, transacted, elsewhere}

module _ (F : Foreign) where
  pub Uses-trans : (r s t : Wallet F × F.World) → Uses F r s → Uses F s t → Uses F r t
  Uses-trans r _ _ before (unused s) = before
  Uses-trans r _ _ before (then_use s t u after one) =
      then_use r t u (Uses-trans r s t before after) one

  pub record Keeps {A : Type 0} (m : Run (Wallet F × F.World) A) : Type 0 where
    pub uses : (s : Wallet F × F.World) → Uses F s (m s).1

  pub lift-Keeps : {A : Type 0} (r : Result A) → Keeps (lift r)
  lift-Keeps r = record { uses = λ s. unused s }

  pub on_world-Keeps : {A : Type 0} (m : Run F.World A) → Keeps (on_world m)
  on_world-Keeps m = record { uses = λ s. then_use s s _ (unused s) (elsewhere s.0 s.1 (m s.1).1) }

  pub transaction-Keeps : (r : Request F) → Keeps (on_local ((wallet_signer F).transaction r))
  unfolding wallet_signer
  transaction-Keeps r = record { uses = λ s. then_use s s _ (unused s) (transacted r s.0 s.1) }

  proceed-Uses :
      {A B : Type 0} (r : Result A) (f : A → Run (Wallet F × F.World) B) (s t : Wallet F × F.World)
      → ((a : A) → Keeps (f a))
      → Uses F s t
      → Uses F s (proceed r f t).1
  proceed-Uses (ok a) f s t k before = Uses-trans s t _ before ((k a).uses t)
  proceed-Uses (err e) f s t k before = before
  proceed-Uses (halt x) f s t k before = before

  pub >>=-Keeps :
      {A B : Type 0} (m : Run (Wallet F × F.World) A) (f : A → Run (Wallet F × F.World) B)
      → Keeps m
      → ((a : A) → Keeps (f a))
      → Keeps (m >>= f)
  >>=-Keeps m f h k = record { uses = λ s. proceed-Uses (m s).0 f s (m s).1 k (h.uses s) }

  pub if-Keeps :
      {A : Type 0} (b : Bool) (m m' : Run (Wallet F × F.World) A)
      → Keeps m
      → Keeps m'
      → Keeps (if b then m else m')
  if-Keeps true m m' h k = h
  if-Keeps false m m' h k = k

  pub lift-Uses :
      {A B : Type 0} (r : Result A) (f : A → Run (Wallet F × F.World) B) (s : Wallet F × F.World)
      → ((a : A) → Uses F s (f a s).1)
      → Uses F s ((lift r >>= f) s).1
  lift-Uses (ok a) f s k = k a
  lift-Uses (err e) f s k = unused s
  lift-Uses (halt x) f s k = unused s
