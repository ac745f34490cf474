-- ===== src/Cli/Laws.antt =====
-- On which networks the command line works, and when it ends the process.
use basin.Prelude.{◌≡◌, ◌↔◌, ◌⊎◌, inl, inr, refl, none, some, true, false, arith, Option-cases}
use basin.Result.{Result, ok, halt, err, exit, map_ok, is_ok, Halt, ◌>>=◌}
use basin.Result.Laws.{Returns}
use basin.Foreign.{Foreign}
use basin.Signer.Subnet.{SubnetId}
use basin.Signer.Wallet.{new_secp256k1}
use basin.Sdk.Network.{mainnet, EvmSubnet, evm_rpc_url, parent_evm_rpc_url, subnet_id, rpc_url}
use basin.Cli.Choice
use basin.Cli.Choice.{get_network}
use basin.Cli.{
  Cli, SubnetArgs, AddressArgs, get_subnet_config, get_parent_subnet_config, get_address,
  get_subnet_id, get_rpc_url,
}

module _ (F : Foreign) where
  -- If a configuration of the Ethereum endpoint of a subnet, or of its parent, is returned, the
  -- test network is chosen, whatever the arguments give, and the configuration has the ID of the
  -- subnet and the timeout of the arguments.
  pub subnet_config_testnet :
      (cli : Cli F) (id : SubnetId F) (args : SubnetArgs F) (c : EvmSubnet F)
      → (get_subnet_config F cli id args ≡ ok c) ⊎ (get_parent_subnet_config F cli id args ≡ ok c)
      → (cli.network ≡ Choice.testnet)
        × (c.id ≡ id)
        × (c.provider_timeout ≡ some args.evm_rpc_timeout)
  unfolding get_subnet_config get_parent_subnet_config evm_rpc_url parent_evm_rpc_url
  subnet_config_testnet cli id args c (inl h) = ground arith
  subnet_config_testnet cli id args c (inr h) = ground arith

  preset_first :
      {A : Type 0} (preset : Result A) (a : A)
      → ((preset >>= λ _. ok a) ≡ ok a) ↔ (is_ok preset ≡ true)
  preset_first (ok b) a = (λ h. refl, λ h. refl)
  preset_first (err e) a = (λ h. cc, λ h. cc)
  preset_first (halt x) a = (λ h. cc, λ h. cc)

  -- If the ID of the subnet and the URL of the node are given as arguments, each is used exactly
  -- if the preset of the chosen network can be read, and that of the main network cannot.
  pub override_iff :
      (cli : Cli F) (id : SubnetId F) (url : F.Url)
      → cli.subnet ≡ some id
      → cli.rpc_url ≡ some url
      → ((get_subnet_id F cli ≡ ok id) ↔ (is_ok (subnet_id F (get_network cli.network)) ≡ true))
        × ((get_rpc_url F cli ≡ ok url) ↔ (is_ok (rpc_url F (get_network cli.network)) ≡ true))
        × (is_ok (subnet_id F mainnet) ≡ false)
        × (is_ok (rpc_url F mainnet) ≡ false)
  unfolding get_subnet_id get_rpc_url subnet_id rpc_url
  override_iff cli id url given given' = (
    rw given (preset_first (subnet_id F (get_network cli.network)) id),
    rw given' (preset_first (rpc_url F (get_network cli.network)) url),
    refl,
    refl,
  )

  abbrev missing : Halt
  missing = exit "the following required arguments were not provided: --private-key OR --address"

  no_halt :
      {A B C : Type 0} (r : Result A) (f : A → B) (g : B → C) (x : Halt)
      → Returns r
      → map_ok g (map_ok f r) ≡ halt x
      → ⊥
  no_halt (ok a) f g x n h = cc
  no_halt (err e) f g x n h = cc
  no_halt (halt y) f g x n h = n

  exits-neither :
      (args : AddressArgs F) (id : SubnetId F)
      → ((sk : F.SecretKey) → Returns (F.ethereum_address sk))
      → get_address F args id ≡ halt missing
      → (args.address ≡ none) × (args.private_key ≡ none)
  unfolding get_address new_secp256k1
  exits-neither args id law h = elim (Option-cases args.address) [
    | inr (a, given) ↦ absurd (no_halt (ok a) (λ x. x) (λ x. x) missing tt (rw given at h))
    | inl gone ↦ elim (Option-cases args.private_key) [
      | inl keyless ↦ (gone, keyless)
      | inr (sk, given) ↦
          absurd (no_halt (F.ethereum_address sk) _ _ missing (law sk) (rw (gone, given) at h))
    ]
  ]

  -- If deriving an Ethereum address from a key returns or fails, asking for an address ends the
  -- process exactly if neither an address nor a key is given.
  pub get_address-exit_iff :
      (args : AddressArgs F) (id : SubnetId F)
      → ((sk : F.SecretKey) → Returns (F.ethereum_address sk))
      → (get_address F args id
          ≡ halt (
              exit
                "the following required arguments were not provided: --private-key OR --address"))
        ↔ ((args.address ≡ none) × (args.private_key ≡ none))
  unfolding get_address new_secp256k1
  get_address-exit_iff args id law = (exits-neither args id law, λ n. rw (n.0, n.1) refl)
