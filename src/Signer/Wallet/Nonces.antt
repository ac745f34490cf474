-- ===== src/Signer/Wallet/Nonces.antt =====
-- signer/src/wallet.rs: the sequences of a wallet's transactions, for calls in any order that the
-- mutex gives them.
use basin.Prelude.{
  ℕ, zero, suc, ◌+◌, ◌%◌, ◌<◌, ◌≡◌, ◌∙◌, ap, List, [], ◌∷◌, some, arith, length, get_elem?, u64_mod,
}
use mathlib.Core.Option.{some-injective}
use basin.Result.{Result, map_ok}
use basin.Foreign.{Foreign}
use basin.Signer.Subnet.{chain_id}
use basin.Signer.Interface.{Request}
use basin.Signer.Wallet.{Wallet, transaction, message_of}

module _ (F : Foreign) where
  -- Transactions one after the other, whatever becomes of each.
  pub transactions : List (Request F) → Wallet F → List (Result F.ChainMessage) × Wallet F
  transactions [] w = ([], w)
  transactions (r ∷ rs) w =
      let (result, w') = transaction F r w in
      let (results, w'') = transactions rs w' in (result ∷ results, w'')

  -- The signed message that a request gives under a sequence.
  abbrev pub signed_with : Wallet F → ℕ → Request F → Result F.ChainMessage
  signed_with w n r = map_ok F.signed (
      F.sign_secp256k1 (record (message_of F w r) { sequence = n }) r.object w.sk
        (chain_id F w.subnet_id))

  -- From a sequence below 2^64 on, the call number `i`, counted from 0, is signed with the
  -- sequence that lies `i` behind that of the wallet, modulo 2^64, whether or not the signing of
  -- other calls fails.
  pub nth_transaction :
      (rs : List (Request F)) (w : Wallet F) (i : ℕ) (r : Request F)
      → w.sequence < u64_mod
      → get_elem? rs i ≡ some r
      → get_elem? (transactions rs w).0 i ≡ some (signed_with w ((w.sequence + i) % u64_mod) r)
  unfolding transactions transaction message_of
  nth_transaction [] w i r h e = cc
  nth_transaction (q ∷ rs) w zero r h e =
      ap (λ n. some (signed_with w n q)) (omega arith)
      ∙ ap (λ x. some (signed_with w ((w.sequence + 0) % u64_mod) x)) (some-injective q r e)
  nth_transaction (q ∷ rs) w (suc i) r h e =
      nth_transaction rs (transaction F q w).1 i r (omega arith) e
      ∙ ap (λ n. some (signed_with w n r)) (omega arith)

  -- From a sequence below 2^64 on, after any calls, failed ones included, the sequence has moved
  -- on by their number, modulo 2^64, and nothing else of the wallet has changed.
  pub sequence-transactions :
      (rs : List (Request F)) (w : Wallet F)
      → w.sequence < u64_mod
      → (transactions rs w).1 ≡ record w { sequence = (w.sequence + length rs) % u64_mod }
  unfolding transactions transaction
  sequence-transactions [] w h = ap (λ n. record w { sequence = n }) (omega arith)
  sequence-transactions (r ∷ rs) w h =
      sequence-transactions rs (transaction F r w).1 (omega arith)
      ∙ ap (λ n. record w { sequence = n }) (omega arith)
