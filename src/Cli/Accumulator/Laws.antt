-- ===== src/Cli/Accumulator/Laws.antt =====
-- The transaction that the command `push` sends, from the arguments to the node.
use basin.Prelude.{
  ℕ, ◌≡◌, refl, ap, ◌∙◌, Bool-cases, inl, inr, ltb, if◌then◌else◌, length, none, some,
}
use basin.Prelude.Bytes.{Bytes}
use basin.Result.{Result, ok, err, halt, map_ok}
use basin.Run.{Run, done, proceed, on_local, on_world, ◌>>=◌}
use basin.Run.Laws.{on_world-ok, >>=-done}
use basin.Foreign.{Foreign}
use basin.Foreign.Data.{Message}
use basin.Provider.Message.{serialize}
use basin.Provider.JsonRpc.{JsonRpcProvider, perform}
use basin.Provider.JsonRpc.Complete.{as_provider}
use basin.Provider.JsonRpc.Perform.{broadcast_if_encoded, perform_world}
use basin.Signer.Subnet.{SubnetId, chain_id}
use basin.Signer.Wallet.{Wallet, wallet_signer}
use basin.Sdk.Accumulator.{push, attach, PushOptions, PushReturn, decode_push_return}
use basin.Cli.{unwrap_or, to_tx_params}
use basin.Cli.Choice.{get_broadcast_mode}
use basin.Cli.Command.{Document, pushed}
use basin.Cli.Command.Laws.{with_wallet-given, wallet_at}
use basin.Cli.Accumulator.{PushArgs, push_input}

module _ (F : Foreign) where
  -- The message of a push with the given sender, sequence and parameters.
  abbrev pub push_message : PushArgs F → F.Address → ℕ → Bytes → Message F.types
  push_message args sender n params = record {
    version = 0;
    from = sender;
    to = args.address;
    sequence = n;
    value = F.zero_tokens;
    method_num = F.push_method;
    params = params;
    gas_limit = unwrap_or args.tx_args.gas_limit F.block_gas_limit;
    gas_fee_cap = unwrap_or args.tx_args.gas_fee_cap F.zero_tokens;
    gas_premium = unwrap_or args.tx_args.gas_premium F.zero_tokens;
  }

  abbrev pub push_options : PushArgs F → PushOptions F
  push_options args = record {
    broadcast_mode = get_broadcast_mode args.broadcast_mode;
    gas_params = (to_tx_params F args.tx_args).gas_params;
  }

  module _ (p : JsonRpcProvider F) (id : SubnetId F) (args : PushArgs F) where
    -- One broadcast if the message could be signed, else none.
    abbrev pub broadcast_if_signed : Result F.SignedMessage → F.World → F.World
    broadcast_if_signed (ok m) w =
        broadcast_if_encoded F p (get_broadcast_mode args.broadcast_mode) (serialize F (F.signed m))
          w
    broadcast_if_signed (err e) w = w
    broadcast_if_signed (halt h) w = w

    abbrev pub signed_push : F.Address → ℕ → Bytes → Result F.SignedMessage
    signed_push sender n params =
        F.sign_secp256k1 (push_message args sender n params) none args.private_key (chain_id F id)

    abbrev pub push_if_encoded : F.Address → ℕ → Result Bytes → F.World → F.World
    push_if_encoded sender n (ok params) w = broadcast_if_signed (signed_push sender n params) w
    push_if_encoded sender n (err e) w = w
    push_if_encoded sender n (halt h) w = w

    signed-world :
        (r : Result F.SignedMessage) (wallet : Wallet F) (w : F.World)
        → (proceed
            (map_ok F.signed r)
            (λ m.
              on_world
                (perform F p (decode_push_return F) m (get_broadcast_mode args.broadcast_mode)))
            (wallet, w)).1.1
          ≡ broadcast_if_signed r w
    signed-world (ok m) wallet w =
        perform_world F (PushReturn F) p (decode_push_return F) (F.signed m)
          (get_broadcast_mode args.broadcast_mode) w
    signed-world (err e) wallet w = refl
    signed-world (halt h) wallet w = refl

    module _ (n : ℕ) (sender : F.Address) where
      encoded-world :
          (r : Result Bytes) (w : F.World)
          → (proceed r
              (λ params.
                on_local (
                  (wallet_signer F).transaction (record {
                    to = args.address;
                    value = F.zero_tokens;
                    method_num = F.push_method;
                    params = params;
                    object = none;
                    gas_params = (push_options args).gas_params;
                  }))
                >>= λ m.
                    on_world (
                      perform F p
                        (decode_push_return F)
                        m
                        (get_broadcast_mode args.broadcast_mode)))
              (wallet_at F args.private_key id sender n, w)).1.1
            ≡ push_if_encoded sender n r w
      unfolding wallet_signer to_tx_params
      encoded-world (ok params) w = signed-world (signed_push sender n params) _ w
      encoded-world (err e) w = refl
      encoded-world (halt h) w = refl

      push-world :
          (payload : Bytes) (w : F.World)
          → (push F
              (as_provider F p)
              (wallet_signer F)
              (attach F args.address)
              payload
              (push_options args)
              (wallet_at F args.private_key id sender n, w)).1.1
            ≡ (if ltb 512000 (length payload)
                then w
                else push_if_encoded sender n (F.bytes_ser_codec.encode payload) w)
      unfolding push as_provider attach
      push-world payload w = elim (Bool-cases (ltb 512000 (length payload))) [
        | inl long ↦ rw long refl
        | inr short ↦ rw short (encoded-world (F.bytes_ser_codec.encode payload) w)
      ]

    -- With a given sequence, and once the input has been read, the command `push` leaves the world
    -- as one broadcast of one message does, in the mode that is given: that with the sequence, the
    -- sender that belongs to the key, the encoded payload and the gas of the arguments, signed for
    -- the chain of the subnet. If the payload has more than 512,000 bytes, or the payload, the
    -- signature or the transaction cannot be made, nothing is sent.
    pub push_input-world :
        (n : ℕ) (sender : F.Address) (reader : F.InputReader) (payload : Bytes) (w w₁ w₂ : F.World)
        → args.tx_args.sequence ≡ some n
        → F.ethereum_address args.private_key ≡ ok sender
        → F.open_input args.input w ≡ (ok reader, w₁)
        → F.read_to_end reader w₁ ≡ (ok payload, w₂)
        → (push_input F p id args w).1 ≡ (
            if ltb 512000 (length payload)
            then w₂
            else push_if_encoded sender n (F.bytes_ser_codec.encode payload) w₂)
    unfolding push_input to_tx_params
    push_input-world n sender reader payload w w₁ w₂ given own opened read =
        let finish : Bytes → Run (Wallet F × F.World) (Document F) = λ bytes.
          push F (as_provider F p) (wallet_signer F) (attach F args.address) bytes
            (push_options args)
          >>= λ tx. done (pushed tx) in
        let read_on : F.InputReader → Run (Wallet F × F.World) (Document F) =
          λ r. on_world (F.read_to_end r) >>= finish in
        let wallet = wallet_at F args.private_key id sender n in
        ap (λ x. x.1)
          (with_wallet-given F p args.private_key id args.tx_args.sequence n sender
            (on_world (F.open_input args.input) >>= read_on) w given own)
        ∙ ap (λ x. x.1.1)
            (on_world-ok (F.open_input args.input) read_on wallet w w₁ reader opened
              ∙ on_world-ok (F.read_to_end reader) finish wallet w₁ w₂ payload read)
        ∙ ap (λ x. x.1)
            (>>=-done
              (push F (as_provider F p) (wallet_signer F) (attach F args.address) payload
                (push_options args))
              pushed (wallet, w₂))
        ∙ push-world n sender payload w₂
