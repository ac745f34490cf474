-- ===== src/Sdk/Machine/Laws.antt =====
-- sdk/src/machine.rs: the panics of deploying a machine.
use basin.Prelude.{◌≡◌, ◌↔◌, ◌⊎◌, inl, inr, refl, ◌∙◌, none, some, arith, Option-cases}
use basin.Prelude.Bytes.{Bytes}
use basin.Result.{ok, halt, Halt, panic}
use basin.Result.Laws.{Returns}
use basin.Run.Laws.{transact-halts, transact-eq}
use basin.Foreign.{Foreign}
use basin.Foreign.Data.{CreateReturn, WriteAccess}
use basin.Provider.Tx.{TxReceipt, commit}
use basin.Provider.Message.{GasParams}
use basin.Provider.Interface.{Provider, IsComplete}
use basin.Signer.Interface.{Signer, Request}
use basin.Sdk.Machine.{deployed, deploy_machine, create_request, decode_create}

module _ (F : Foreign) where
  -- What a receipt lacks, with the panic that says so: the data, else the address of the machine, else
  -- the height.
  abbrev pub Lacking : TxReceipt F.types (CreateReturn F.types) → Halt → Type 0
  Lacking tx x =
      ((tx.return_data ≡ none) × (x ≡ panic "data exists"))
      ⊎ ((created : CreateReturn F.types) × (tx.return_data ≡ some created)
          × (((created.robust_address ≡ none) × (x ≡ panic "address exists"))
              ⊎ ((address : F.Address) × (created.robust_address ≡ some address)
                  × (tx.height ≡ none)
                  × (x ≡ panic "height exists"))))

  deployed_halts :
      (tx : TxReceipt F.types (CreateReturn F.types)) (x : Halt)
      → deployed F tx ≡ halt x
      → Lacking tx x
  unfolding deployed
  deployed_halts tx x e = elim (Option-cases tx.return_data) [
    | inl gone ↦ inl (gone, ground (arith, gone))
    | inr (created, given) ↦ inr (
      created,
      given,
      elim (Option-cases created.robust_address) [
        | inl gone ↦ inl (gone, ground (arith, gone, given))
        | inr (address, found) ↦
            inr (address, found, ground (arith, given, found), ground (arith, given, found))
      ],
    )
  ]

  Lacking-halts :
      (tx : TxReceipt F.types (CreateReturn F.types)) (x : Halt)
      → Lacking tx x
      → deployed F tx ≡ halt x
  unfolding deployed
  Lacking-halts tx x (inl (gone, e)) = rw (gone, e) refl
  Lacking-halts tx x (inr (created, given, inl (gone, e))) = rw (given, gone, e) refl
  Lacking-halts tx x (inr (created, given, inr (address, found, low, e))) =
      rw (given, found, low, e) refl

  module _ {S : Type 0} (provider : Provider F) (signer : Signer F S) where
    -- If the encoding, the signing and the sending of the transaction return or fail, deploying a
    -- machine panics exactly if all three return and the receipt lacks the data, or else the address
    -- of the machine, or else the height; and the panic says which of them.
    pub deploy_machine-halts_iff :
        (kind : F.Kind) (access : WriteAccess) (gas : GasParams F) (s : S) (w : F.World) (x : Halt)
        → ((r : Request F) → Returns (signer.transaction r s).0)
        → ((m : F.ChainMessage) → Returns (provider.perform _ (decode_create F) m commit w).0)
        → Returns (F.create_params_codec.encode (record { kind = kind; write_access = access }))
        → ((deploy_machine F provider signer kind access gas (s, w)).0 ≡ halt x) ↔ (
            (params : Bytes) × (m : F.ChainMessage) × (tx : TxReceipt F.types
              (CreateReturn F.types))
            × (F.create_params_codec.encode (record { kind = kind; write_access = access })
                ≡ ok params)
            × ((create_request F signer gas params s).0 ≡ ok m)
            × ((provider.perform _ (decode_create F) m commit w).0 ≡ ok tx)
            × Lacking tx x)
    unfolding deploy_machine create_request
    deploy_machine-halts_iff kind access gas s w x signs performs encodes =
        let encode = F.create_params_codec.encode (record { kind = kind; write_access = access }) in
        let perform = λ (m : F.ChainMessage). provider.perform _ (decode_create F) m commit in
        (
          λ h.
              let (params, m, tx, encoded, signed, sent, stops) =
                transact-halts encode (create_request F signer gas) perform (deployed F) s w x
                  encodes (λ params. signs _) performs h in
              (params, m, tx, encoded, signed, sent, deployed_halts tx x stops),
          λ (params, m, tx, encoded, signed, sent, lacks).
              transact-eq encode (create_request F signer gas) perform (deployed F) s w params m tx
                encoded signed sent
              ∙ Lacking-halts tx x lacks,
        )

    -- With a provider whose committed receipts are complete it panics only if the chain created the
    -- machine without an address.
    pub deploy_machine-halts :
        (kind : F.Kind) (access : WriteAccess) (gas : GasParams F) (s : S) (w : F.World) (x : Halt)
        → IsComplete F provider
        → ((r : Request F) → Returns (signer.transaction r s).0)
        → ((m : F.ChainMessage) → Returns (provider.perform _ (decode_create F) m commit w).0)
        → Returns (F.create_params_codec.encode (record { kind = kind; write_access = access }))
        → (deploy_machine F provider signer kind access gas (s, w)).0 ≡ halt x
        → (tx : TxReceipt F.types (CreateReturn F.types)) × (created : CreateReturn F.types)
          × (tx.return_data ≡ some created)
          × (created.robust_address ≡ none)
          × (x ≡ panic "address exists")
    deploy_machine-halts kind access gas s w x complete signs performs encodes h =
        let (params, m, tx, _, _, sent, lacks) =
          (deploy_machine-halts_iff kind access gas s w x signs performs encodes).0 h in
        elim lacks [
          | inl (gone, _) ↦ absurd (complete.return_data _ _ m w tx sent gone)
          | inr (created, given, inl (gone, e)) ↦ (tx, created, given, gone, e)
          | inr (created, given, inr (address, found, low, e)) ↦
              absurd (complete.height _ _ m w tx sent low)
        ]
