-- ===== src/Signer/Wallet/Sequence.antt =====
-- Setting a wallet's sequence.
use basin.Prelude.{ℕ, ◌≡◌, refl, Bool, true, false, Option, none, some, arith}
use basin.Result.{Result, ok, err, halt, is_ok}
use basin.Foreign.{Foreign}
use basin.Foreign.Data.{ActorState, pending}
use basin.Provider.Query.{QueryProvider, QueryResponse, run_actor_state}
use basin.Signer.Wallet.{Wallet, set_sequence, init_sequence}

module _ (F : Foreign) where
  abbrev pub Found : Type 0
  Found = Result (QueryResponse F.Height (Option (ℕ × ActorState)))

  -- The sequence that is asked for, else that of the actor on the chain, else the old one.
  unfoldable pub chosen_sequence : Option ℕ → ℕ → Found → ℕ
  chosen_sequence (some n) old found = n
  chosen_sequence none old (ok res) = elim res.value [ some v ↦ v.1.sequence | none ↦ old ]
  chosen_sequence none old (err e) = old
  chosen_sequence none old (halt h) = old

  pub has_sequence : Option ℕ → Found → Bool
  has_sequence (some n) found = true
  has_sequence none (ok res) = elim res.value [ some v ↦ true | none ↦ false ]
  has_sequence none (err e) = false
  has_sequence none (halt h) = false

  module _ (p : QueryProvider F) (w : Wallet F) (world : F.World) where
    abbrev pub found : Found
    found = (run_actor_state F p w.addr pending world).0

    -- Setting the sequence succeeds exactly if a number is given, or the chain's pending state
    -- knows the wallet's actor. The wallet then has that sequence, and otherwise the one it had;
    -- nothing else of it changes. The network is asked only if no number is given.
    pub set_sequence_exact :
        (maybe : Option ℕ)
        → (is_ok (set_sequence F maybe p (w, world)).0 ≡ has_sequence maybe found)
          × ((set_sequence F maybe p (w, world)).1.0
              ≡ record w { sequence = chosen_sequence maybe w.sequence found })
          × ((set_sequence F maybe p (w, world)).1.1
              ≡ elim maybe [ some n ↦ world | none ↦ (run_actor_state F p w.addr pending world).1 ])
    unfolding set_sequence init_sequence chosen_sequence has_sequence
    set_sequence_exact (some n) = (refl, refl, refl)
    set_sequence_exact none = (ground arith, ground arith, ground arith)
