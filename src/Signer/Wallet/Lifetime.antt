-- ===== src/Signer/Wallet/Lifetime.antt =====
-- signer/src/wallet.rs: what is done with a wallet after it was made, in any order and with any
-- outcome, while the world is changed by others.
use basin.Prelude.{
  ℕ, ◌≡◌, ◌<◌, refl, ap, inl, inr, Option-cases, ◌∙◌, sym, Option, none, some, arith, u64_mod,
}
use basin.Result.{ok, err, halt}
use basin.Result.Laws.{ok-injective}
use basin.Foreign.{Foreign}
use basin.Foreign.Data.{ActorState, pending, actor_state}
use basin.Run.Laws.{proceed-eq-ok}
use basin.Provider.Extract.{extract_actor_state}
use basin.Provider.Extract.Laws.{HasWords, extract_actor_state-lt}
use basin.Provider.Query.{QueryProvider, QueryResponse, run_actor_state}
use basin.Signer.Subnet.{SubnetId}
use basin.Signer.Interface.{Request}
use basin.Signer.Wallet.Sequence.{Found, found, chosen_sequence, set_sequence_exact}
use basin.Signer.Wallet.{
  Wallet, AccountKind, transaction, set_sequence, init_sequence, new_secp256k1,
}

module _ (F : Foreign) where
  -- One operation on a wallet, or a change of the world beside it.
  pub data Use : Wallet F × F.World → Wallet F × F.World → Type 0 where
    transacted :
        (r : Request F) (w : Wallet F) (v : F.World) → Use (w, v) ((transaction F r w).1, v)
    set_given :
        (n : ℕ) (p : QueryProvider F) (s : Wallet F × F.World)
        → n < u64_mod
        → Use s (set_sequence F (some n) p s).1
    set_found : (p : QueryProvider F) (s : Wallet F × F.World) → Use s (set_sequence F none p s).1
    elsewhere : (w : Wallet F) (v v' : F.World) → Use (w, v) (w, v')

  pub data Uses : Wallet F × F.World → Wallet F × F.World → Type 0 where
    unused : (s : Wallet F × F.World) → Uses s s
    then_use : (r s t : Wallet F × F.World) → Uses r s → Use s t → Uses r t

  -- A wallet like the one that was made, but for a sequence in range.
  abbrev IsLike : Wallet F → Wallet F → Type 0
  IsLike made w = (record w { sequence = made.sequence } ≡ made) × (w.sequence < u64_mod)

  module _ (words : HasWords F) where
    found-lt :
        (p : QueryProvider F) (w : Wallet F) (v : F.World)
        (res : QueryResponse F.Height (Option (ℕ × ActorState))) (i : ℕ) (a : ActorState)
        → found F p w v ≡ ok res
        → res.value ≡ some (i, a)
        → a.sequence < u64_mod
    unfolding run_actor_state
    found-lt p w v res i a h e =
        let (q, answered, h₁) =
          proceed-eq-ok (p.query (actor_state w.addr) pending v).0 _
            (p.query (actor_state w.addr) pending v).1 h in
        let (value, read, h₂) = proceed-eq-ok (extract_actor_state F q) _ _ h₁ in
        extract_actor_state-lt F words q i a
          (read ∙ ap ok (ap (λ x. x.value) (ok-injective h₂) ∙ e))

    chosen-lt :
        (old : ℕ) (r : Found F)
        → old < u64_mod
        → ((res : QueryResponse F.Height (Option (ℕ × ActorState))) (i : ℕ) (a : ActorState)
            → r ≡ ok res
            → res.value ≡ some (i, a)
            → a.sequence < u64_mod)
        → chosen_sequence F none old r < u64_mod
    unfolding chosen_sequence
    chosen-lt old (ok res) below h = elim (Option-cases res.value) [
      | inl gone ↦ rw gone below
      | inr ((i, a), e) ↦ rw e (h res i a refl e)
    ]
    chosen-lt old (err e) below h = below
    chosen-lt old (halt x) below h = below

    Use-IsLike :
        (made : Wallet F) (s t : Wallet F × F.World) → Use s t → IsLike made s.0 → IsLike made t.0
    unfolding transaction set_sequence init_sequence
    Use-IsLike made _ _ (transacted r w v) h = (h.0, omega arith)
    Use-IsLike made _ _ (set_given n p s below) h = (h.0, below)
    Use-IsLike made _ _ (set_found p (w, v)) h =
        let (done, same, world) = set_sequence_exact F p w v none in
        rw same (h.0, chosen-lt w.sequence _ h.1 (found-lt p w v))
    Use-IsLike made _ _ (elsewhere w v v') h = h

    Uses-IsLike :
        (made : Wallet F) (s t : Wallet F × F.World) → Uses s t → IsLike made s.0 → IsLike made t.0
    Uses-IsLike made _ _ (unused s) h = h
    Uses-IsLike made _ _ (then_use r s t rest one) h =
        Use-IsLike made s t one (Uses-IsLike made r s rest h)

    fresh_made :
        (sk : F.SecretKey) (kind : AccountKind) (id : SubnetId F) (made : Wallet F)
        → new_secp256k1 F sk kind id ≡ ok made
        → made.sequence ≡ 0
    unfolding new_secp256k1
    fresh_made sk kind id made h = ground arith

    -- If decoded states of actors have sequences below 2^64: from the making of a wallet on, whatever
    -- transactions are made with it, whether their signing fails or not, and however often its
    -- sequence is set, to a given 64-bit number or to what a provider finds or fails to find, it has
    -- the key, the address and the subnet of a new wallet, and a sequence below 2^64.
    pub Uses-IsMade :
        (sk : F.SecretKey) (kind : AccountKind) (id : SubnetId F) (made w : Wallet F)
        (v v' : F.World)
        → new_secp256k1 F sk kind id ≡ ok made
        → Uses (made, v) (w, v')
        → (new_secp256k1 F sk kind id ≡ ok (record w { sequence = 0 })) × (w.sequence < u64_mod)
    unfolding new_secp256k1
    Uses-IsMade sk kind id made w v v' h uses =
        let fresh = fresh_made sk kind id made h in
        let (like, below) =
          Uses-IsLike made (made, v) (w, v') uses (refl, rw fresh (omega arith)) in
        (h ∙ ap ok (sym like ∙ ap (λ n. record w { sequence = n }) fresh), below)
