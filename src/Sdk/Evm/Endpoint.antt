-- ===== src/Sdk/Evm/Endpoint.antt =====
-- sdk/src/ipc/manager.rs: to which endpoint a client speaks, with whose key, and for which contract.
use basin.Prelude.{String, ◌≡◌, Option, none, some}
use basin.Result.{Result, ok, err, halt, map_ok}
use basin.Result.Laws.{>>=-eq-ok, ok-injective}
use basin.Foreign.{Foreign}
use basin.Sdk.Network.{EvmSubnet}
use basin.Sdk.Evm.{get_eth_provider, auth_value, eth_provider_polling_time}

abbrev IsSome : {A : Type 0} → Result A → Option A → Type 0
IsSome r none = ⊥
IsSome r (some a) = r ≡ ok a

map_some-IsSome : {A : Type 0} (r : Result A) (o : Option A) → map_ok some r ≡ ok o → IsSome r o
map_some-IsSome (ok a) none h = cc
map_some-IsSome (ok a) (some b) h = cc
map_some-IsSome (err e) o h = cc
map_some-IsSome (halt x) o h = cc

module _ (F : Foreign) where
  -- The header in which a token is sent, and none without a token.
  abbrev pub IsHeader : Option String → Option F.HeaderValue → Type 0
  IsHeader none none = Unit
  IsHeader none (some v) = ⊥
  IsHeader (some token) header = IsSome (F.header_of_text (F.bearer_text token)) header

  auth_value-IsHeader :
      (token : Option String) (header : Option F.HeaderValue)
      → auth_value F token ≡ ok header
      → IsHeader token header
  unfolding auth_value
  auth_value-IsHeader none none h = tt
  auth_value-IsHeader none (some v) h = cc
  auth_value-IsHeader (some token) header h = map_some-IsSome _ header h

  -- A provider of the endpoint of a subnet: with its URL, token and timeout.
  pub get_eth_provider-made :
      (subnet : EvmSubnet F) (provider : F.EthProvider)
      → get_eth_provider F subnet ≡ ok provider
      → (header : Option F.HeaderValue) × (client : F.WebClient) × IsHeader subnet.auth_token header
        × (F.build_client header subnet.provider_timeout ≡ ok client)
        × (F.eth_provider subnet.provider_http client eth_provider_polling_time ≡ provider)
  unfolding get_eth_provider
  get_eth_provider-made subnet provider h =
      let (header, e, h₁) = >>=-eq-ok (auth_value F subnet.auth_token) _ h in
      let (client, f, h₂) = >>=-eq-ok (F.build_client header subnet.provider_timeout) _ h₁ in
      (header, client, auth_value-IsHeader subnet.auth_token header e, f, ok-injective h₂)
