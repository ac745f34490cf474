-- ===== src/Provider/Extract/Laws.antt =====
-- provider/src/query.rs: what is known of an actor's state that was read.
use basin.Prelude.{
  ℕ, ◌≡◌, ◌∙◌, ap, Bool, true, false, Option, some, none, if◌then◌else◌, ◌<◌, arith, u64_mod,
}
use basin.Prelude.Bytes.{Bytes}
use basin.Result.{Result, ok, err, halt, map_ok, with_context}
use basin.Result.Laws.{>>=-eq-ok, ok-injective}
use basin.Foreign.{Foreign}
use basin.Foreign.Data.{ActorState, AbciQuery}
use basin.Provider.Extract.{extract_actor_state, extract_opt, extract, decode_actor}

with_context-eq-ok :
    {A : Type 0} (what : _) (r : Result A) {a : A} → with_context what r ≡ ok a → r ≡ ok a
with_context-eq-ok what (ok b) h = h
with_context-eq-ok what (err e) h = cc
with_context-eq-ok what (halt x) h = cc

map_some-eq-ok : {A : Type 0} (r : Result A) {a : A} → map_ok some r ≡ ok (some a) → r ≡ ok a
map_some-eq-ok (ok b) h = cc
map_some-eq-ok (err e) h = cc
map_some-eq-ok (halt x) h = cc

module _ (F : Foreign) where
  -- Decoded states of actors have 64-bit sequences.
  abbrev pub HasWords : Type 0
  HasWords =
      (b : Bytes) (a : ActorState) → F.actor_state_codec.decode b ≡ ok a → a.sequence < u64_mod

  if_none-eq :
      {A : Type 0} (b : Bool) (r : Result (Option A)) {a : A}
      → (if b then ok none else r) ≡ ok (some a)
      → r ≡ ok (some a)
  if_none-eq true r h = cc
  if_none-eq false r h = h

  extract-eq-ok :
      {A : Type 0} (q : AbciQuery F.types) (f : AbciQuery F.types → Result A) {a : A}
      → extract F q f ≡ ok a
      → f q ≡ ok a
  unfolding extract
  extract-eq-ok q f h = ground arith

  decode_actor-eq-ok :
      (q : AbciQuery F.types) (i : ℕ) (a : ActorState)
      → decode_actor F q ≡ ok (i, a)
      → F.actor_state_codec.decode q.value ≡ ok a
  unfolding decode_actor
  decode_actor-eq-ok q i a h =
      let (state, e, h₁) = >>=-eq-ok _ _ h in
      let (id, e', h₂) =
        >>=-eq-ok (with_context "failed to decode ID" (F.u64_codec.decode q.key))
          (λ id. ok (id, state)) h₁ in
      with_context-eq-ok _ _ (e ∙ ap ok (ap (λ x. x.1) (ok-injective h₂)))

  pub extract_actor_state-lt :
      (words : HasWords) (q : AbciQuery F.types) (i : ℕ) (a : ActorState)
      → extract_actor_state F q ≡ ok (some (i, a))
      → a.sequence < u64_mod
  unfolding extract_actor_state extract_opt
  extract_actor_state-lt words q i a h = words q.value a (
      decode_actor-eq-ok q i a
        (extract-eq-ok q (decode_actor F) (map_some-eq-ok _ (if_none-eq _ _ h))))
