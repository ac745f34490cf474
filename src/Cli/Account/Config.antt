-- ===== src/Cli/Account/Config.antt =====
-- cli/src/account.rs: which endpoint and which gateway a command of the account uses.
use basin.Prelude.{String, ◌≡◌, refl, ap, Option, some}
use basin.Result.{Result, ok, err, halt, ◌>>=◌}
use basin.Result.Laws.{ok-injective}
use basin.Foreign.{Foreign}
use basin.Provider.Util.{parse_address}
use basin.Signer.Subnet.{SubnetId}
use basin.Sdk.Network.{
  EvmSubnet, evm_rpc_url, evm_registry, evm_gateway, parent_evm_rpc_url, parent_evm_registry,
  parent_evm_gateway,
}
use basin.Sdk.Evm.{eth_provider_polling_time}
use basin.Sdk.Evm.Endpoint.{IsHeader, get_eth_provider-made}
use basin.Sdk.Evm.{get_eth_provider}
use basin.Cli.Choice
use basin.Cli.{Cli, SubnetArgs, unwrap_or, overridden, get_subnet_config, get_parent_subnet_config}

-- The presets of the test network: of the subnet itself, and of its parent.
pub record Preset : Type 0 where
  pub url : String
  pub gateway : String

abbrev pub of_subnet : Preset
of_subnet = record {
  url = "https://evm-api.n1.testnet.basin.storage";
  gateway = "0x77aa40b105843728088c0132e43fc44348881da8";
}

abbrev pub of_parent : Preset
of_parent = record {
  url = "https://api.calibration.node.glif.io/rpc/v1";
  gateway = "0x129682c2ae89d8157Ad46Ea402E13f81C1C2e2d0";
}

module _ (F : Foreign) where
  -- A provider that speaks to the endpoint that is given, or else to the preset one, with the token
  -- and the timeout that are given.
  pub record IsEndpoint (preset : Preset) (args : SubnetArgs F) (provider : F.EthProvider)
      : Type 0 where
    pub url : F.Url
    pub header : Option F.HeaderValue
    pub client : F.WebClient
    pub preset_url : F.url_of_text preset.url ≡ ok url
    pub authorized : IsHeader F args.evm_rpc_auth_token header
    pub built : F.build_client header (some args.evm_rpc_timeout) ≡ ok client
    pub made :
        F.eth_provider (unwrap_or args.evm_rpc_url url) client eth_provider_polling_time ≡ provider

  -- The contract at the gateway's address that is given, or else at the preset one.
  pub record IsContract (preset : Preset) (args : SubnetArgs F) (contract : F.EthAddress)
      : Type 0 where
    pub gateway : F.Address
    pub preset_gateway : parse_address F preset.gateway ≡ ok gateway
    pub named : F.delegated (unwrap_or args.evm_gateway gateway) ≡ ok contract

  -- A configuration with these presets.
  pub record IsConfig (preset : Preset) (args : SubnetArgs F) (c : EvmSubnet F) : Type 0 where
    pub url : F.Url
    pub gateway : F.Address
    pub preset_url : F.url_of_text preset.url ≡ ok url
    pub preset_gateway : parse_address F preset.gateway ≡ ok gateway
    pub provider_http : unwrap_or args.evm_rpc_url url ≡ c.provider_http
    pub provider_timeout : some args.evm_rpc_timeout ≡ c.provider_timeout
    pub auth_token : args.evm_rpc_auth_token ≡ c.auth_token
    pub gateway_addr : unwrap_or args.evm_gateway gateway ≡ c.gateway_addr

  -- What a configuration is made of.
  abbrev configured :
      SubnetId F
      → SubnetArgs F
      → Result F.Url
      → Result F.Address
      → Result F.Address
      → Result (EvmSubnet F)
  configured id args url registry gateway = do
    u ← overridden F args.evm_rpc_url url
    r ← overridden F args.evm_registry registry
    g ← overridden F args.evm_gateway gateway
    ok (record {
      id = id;
      provider_http = u;
      provider_timeout = some args.evm_rpc_timeout;
      auth_token = args.evm_rpc_auth_token;
      registry_addr = r;
      gateway_addr = g;
    })

  configured-made :
      (id : SubnetId F) (args : SubnetArgs F) (url : Result F.Url)
      (registry gateway : Result F.Address) (c : EvmSubnet F)
      → configured id args url registry gateway ≡ ok c
      → (u : F.Url) × (r g : F.Address) × (url ≡ ok u)
        × (gateway ≡ ok g)
        × (record {
          id = id;
          provider_http = unwrap_or args.evm_rpc_url u;
          provider_timeout = some args.evm_rpc_timeout;
          auth_token = args.evm_rpc_auth_token;
          registry_addr = unwrap_or args.evm_registry r;
          gateway_addr = unwrap_or args.evm_gateway g;
        }
            ≡ c)
  unfolding overridden
  configured-made id args (ok u) (ok r) (ok g) c h = (u, r, g, refl, refl, ok-injective h)
  configured-made id args (ok u) (ok r) (err e) c h = cc
  configured-made id args (ok u) (ok r) (halt x) c h = cc
  configured-made id args (ok u) (err e) gateway c h = cc
  configured-made id args (ok u) (halt x) gateway c h = cc
  configured-made id args (err e) registry gateway c h = cc
  configured-made id args (halt x) registry gateway c h = cc

  configured-IsConfig :
      (preset : Preset) (id : SubnetId F) (args : SubnetArgs F) (registry : Result F.Address)
      (c : EvmSubnet F)
      → configured id args (F.url_of_text preset.url) registry (parse_address F preset.gateway)
        ≡ ok c
      → IsConfig preset args c
  configured-IsConfig preset id args registry c h =
      let (u, r, g, e, f, same) = configured-made id args _ registry _ c h in
      record {
        url = u;
        gateway = g;
        preset_url = e;
        preset_gateway = f;
        provider_http = ap (λ x. x.provider_http) same;
        provider_timeout = ap (λ x. x.provider_timeout) same;
        auth_token = ap (λ x. x.auth_token) same;
        gateway_addr = ap (λ x. x.gateway_addr) same;
      }

  module _ (cli : Cli F) (id : SubnetId F) (args : SubnetArgs F) (c : EvmSubnet F)
      (chosen : cli.network ≡ Choice.testnet) where
    pub get_subnet_config-IsConfig :
        get_subnet_config F cli id args ≡ ok c → IsConfig of_subnet args c
    unfolding get_subnet_config evm_rpc_url evm_registry evm_gateway overridden
    get_subnet_config-IsConfig h =
        configured-IsConfig of_subnet id args
          (parse_address F "0x74539671a1d2f1c8f200826baba665179f53a1b7") c (rw chosen at h)

    pub get_parent_subnet_config-IsConfig :
        get_parent_subnet_config F cli id args ≡ ok c → IsConfig of_parent args c
    unfolding get_parent_subnet_config parent_evm_rpc_url parent_evm_registry parent_evm_gateway
        overridden
    get_parent_subnet_config-IsConfig h =
        configured-IsConfig of_parent id args
          (parse_address F "0x7Eb0a3511BB5DB2b5f945e6EB801Cb3Be9238c42") c (rw chosen at h)

  pub get_eth_provider-IsEndpoint :
      (preset : Preset) (args : SubnetArgs F) (c : EvmSubnet F) (provider : F.EthProvider)
      → IsConfig preset args c
      → get_eth_provider F c ≡ ok provider
      → IsEndpoint preset args provider
  get_eth_provider-IsEndpoint preset args c provider config h =
      let (header, client, token, built, made) = get_eth_provider-made F c provider h in
      record {
        url = config.url;
        header = header;
        client = client;
        preset_url = config.preset_url;
        authorized = rw config.auth_token token;
        built = rw config.provider_timeout built;
        made = rw config.provider_http made;
      }

  pub delegated-IsContract :
      (preset : Preset) (args : SubnetArgs F) (c : EvmSubnet F) (contract : F.EthAddress)
      → IsConfig preset args c
      → F.delegated c.gateway_addr ≡ ok contract
      → IsContract preset args contract
  delegated-IsContract preset args c contract config h = record {
    gateway = config.gateway;
    preset_gateway = config.preset_gateway;
    named = rw config.gateway_addr h;
  }
