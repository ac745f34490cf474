-- ===== src/Effects/Cli.antt =====
-- cli/src/main.rs and the handlers: what the commands share.
pub mod Account
pub mod Machines
pub mod Objectstore
pub mod Unverified
pub mod Main
use basin.Prelude.{ℕ, refl, String, Option}
use basin.Result.{Result}
use basin.Run.{Run, done, lift, on_world, ◌>>=◌}
use basin.Foreign.{Foreign}
use basin.Provider.JsonRpc.{JsonRpcProvider, as_query_provider}
use basin.Signer.Subnet.{SubnetId}
use basin.Signer.Wallet.{Wallet, ethereum, new_secp256k1, set_sequence}
use basin.Cli.Command.{Document, printing, with_wallet, with_state, listing}
use basin.Cli.{AddressArgs, get_address}
use basin.Sdk.Machine.{list_machines}
use basin.Signer.Void.{void_signer}
use basin.Effects.{
  Within, stay, alone, beside, lift>>=, none>>=, >>=none, unmoved, on_world-Reaches,
}
use basin.Effects.Provider.{as_query_provider-IsQuiet}
use basin.Effects.Queries.{list_machines-Within, set_sequence-Within}

module _ (F : Foreign) (n : ℕ) where
  pub printing-Within :
      (pretty : Document F → Result String) (m : Run F.World (Document F))
      → Within F (alone F) n m
      → Within F (beside F) n (printing F pretty m)
  unfolding printing
  printing-Within pretty m h =
      >>=none F (beside F) n (on_world m) _ (on_world-Reaches F n _ h) λ d s. stay 0 s.1

  pub with_wallet-Within :
      {A : Type 0} (p : JsonRpcProvider F) (sk : F.SecretKey) (id : SubnetId F) (o : Option ℕ)
      (action : Run (Wallet F × F.World) A)
      → Within F (beside F) n action
      → Within F (alone F) n (with_wallet F p sk id o action)
  unfolding with_wallet
  with_wallet-Within p sk id o action h =
      lift>>= F (alone F) n (new_secp256k1 F sk ethereum id) _ λ wallet w.
        none>>= F (beside F) n (set_sequence F o (as_query_provider F p)) _
          (set_sequence-Within F (as_query_provider F p) (as_query_provider-IsQuiet F p) o) (λ _. h)
          (wallet, w)

module _ (F : Foreign) (p : JsonRpcProvider F) (id : SubnetId F) where
  -- The listing of the machines of a kind.
  pub listed-Within :
      (a : AddressArgs F) (kind : F.Kind)
      → Within F (alone F) 0 (
          lift (get_address F a id) >>= λ address.
          with_state
            (record { address = address })
            (list_machines F (as_query_provider F p) (void_signer F) kind a.height)
          >>= λ ms. done (listing F ms))
  listed-Within a kind = lift>>= F (alone F) 0 (get_address F a id) _ λ address.
      none>>= F (alone F) 0
        (with_state (record { address = address })
          (list_machines F (as_query_provider F p) (void_signer F) kind a.height))
        _
        (λ w.
          list_machines-Within F _ (as_query_provider-IsQuiet F p) (void_signer F) kind a.height
            (record { address = address }, w))
        λ ms. unmoved F (alone F) 0 _ λ w. refl
