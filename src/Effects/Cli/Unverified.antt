-- ===== src/Effects/Cli/Unverified.antt =====
-- cli/src/machine/objectstore.rs: `put`, where the object API does not confirm the content.
use basin.Prelude.{ℕ, ◌≡◌, ap, ◌∙◌, sym, subst, some, Bool, true, false, not, if◌then◌else◌}
use basin.Result.{ok, err, message}
use basin.Run.{Run, done, lift, on_world, ◌>>=◌}
use basin.Run.Laws.{on_world-ok, >>=-done}
use basin.Foreign.{Foreign}
use basin.Provider.Tx.{TxReceipt}
use basin.Provider.JsonRpc.{JsonRpcProvider}
use basin.Provider.JsonRpc.Complete.{as_provider}
use basin.Signer.Subnet.{SubnetId}
use basin.Signer.Wallet.{Wallet, wallet_signer}
use basin.Sdk.ObjectStore.{AddOptions, attach, add, chunk_size}
use basin.Sdk.ObjectStore.Content.{Generated, generate_cid}
use basin.Sdk.ObjectStore.Laws.{verified, upload_of, add_unverified}
use basin.Cli.Choice.{get_broadcast_mode}
use basin.Cli.{to_tx_params}
use basin.Cli.Command.{Document, receipt}
use basin.Cli.Command.Laws.{with_wallet-given, wallet_at}
use basin.Cli.Objectstore.{PutArgs, file_reader, put_file}
use basin.Effects.{Reads, Reaches, stay, then_read, none-then, open_step, is_file_step}
use basin.Effects.Provider.{as_provider-IsFrugal}
use basin.Effects.Sdk.{upload-Within}

module _ (F : Foreign) (p : JsonRpcProvider F) (id : SubnetId F) (a : PutArgs F) where
  abbrev pub put_options : AddOptions F
  put_options = record {
    overwrite = a.overwrite;
    broadcast_mode = get_broadcast_mode a.broadcast_mode;
    gas_params = (to_tx_params F a.tx_args).gas_params;
    metadata = F.hash_map_of a.metadata;
  }

  abbrev adding : F.File → Run (Wallet F × F.World) (TxReceipt F.types F.Cid)
  adding file =
      add F (as_provider F p) (wallet_signer F) (attach F a.address) a.key (file_reader F file)
        put_options

  -- With a given sequence: if the file can be opened and read, and the object API does not answer the
  -- upload with the CID of what was read, the command `put` submits no transaction.
  pub put_file-unverified :
      (n : ℕ) (sender : F.Address) (file : F.File) (g : Generated F) (w w₁ w₂ : F.World)
      → a.tx_args.sequence ≡ some n
      → F.ethereum_address a.private_key ≡ ok sender
      → F.file_open a.input w ≡ (ok file, w₁)
      → F.file_is_file file w₁ ≡ (ok true, w₂)
      → generate_cid F (F.adder_new chunk_size) (F.file_reads file) F.default_cid ≡ ok g
      → F.file_rewind file ≡ ok tt
      → verified F g.cid
          (upload_of F
            (as_provider F p)
            (wallet_signer F)
            (attach F a.address)
            a.key
            put_options
            (file_reader F file)
            g
            (wallet_at F a.private_key id sender n, w₂)).0
        ≡ false
      → Reaches F 0 w (put_file F p id a w).1
  unfolding put_file file_reader to_tx_params
  put_file-unverified n sender file g w w₁ w₂ given own opened is_file made rewound other =
      let finish : F.File → Run (Wallet F × F.World) (Document F) =
        λ f. adding f >>= λ tx. done (receipt tx) in
      let check : F.File → Bool → Run (Wallet F × F.World) (Document F) =
        λ f b. if not b then lift (err (message "input must be a file")) else finish f in
      let rest : F.File → Run (Wallet F × F.World) (Document F) =
        λ f. on_world (F.file_is_file f) >>= check f in
      let wallet = wallet_at F a.private_key id sender n in
      let end : (put_file F p id a w).1
          ≡ (upload_of F (as_provider F p) (wallet_signer F) (attach F a.address) a.key put_options
              (file_reader F file) g (wallet, w₂)).1.1 =
        ap (λ x. x.1)
          (with_wallet-given F p a.private_key id a.tx_args.sequence n sender
            (on_world (F.file_open a.input) >>= rest) w given own)
        ∙ ap (λ x. x.1.1)
            (on_world-ok (F.file_open a.input) rest wallet w w₁ file opened
              ∙ on_world-ok (F.file_is_file file) (check file) wallet w₁ w₂ true is_file)
        ∙ ap (λ x. x.1) (>>=-done (adding file) receipt (wallet, w₂))
        ∙ ap (λ x. x.1)
            (add_unverified F (as_provider F p) (wallet_signer F) (attach F a.address) a.key
              put_options (file_reader F file) (wallet, w₂) g made rewound other) in
      let opens = subst (Reads F w) (ap (λ x. x.1) opened) (open_step a.input w) in
      let asks = subst (Reads F w₁) (ap (λ x. x.1) is_file) (is_file_step file w₁) in
      subst (Reaches F 0 w) (sym end) (
        none-then F 0 w w₂ _ (then_read 0 w w₁ w₂ (then_read 0 w w w₁ (stay 0 w) opens) asks) (
          upload-Within F (as_provider F p) (as_provider-IsFrugal F p) (wallet_signer F)
            (attach F a.address) a.key (F.file_stream file) g.cid g.object_size
            (F.hash_map_of a.metadata) a.overwrite (wallet, w₂)))
