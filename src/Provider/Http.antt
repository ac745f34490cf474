-- ===== src/Provider/Http.antt =====
-- provider/src/json_rpc.rs: the proxy that an HTTP client goes through, and the constructors.
use basin.Prelude.{String, ◌<>◌, Option, none, some}
use basin.Result.{Result, ok, map_ok, with_context, ◌>>=◌}
use basin.Run.{Run}
use basin.Foreign.{Foreign}
use basin.Foreign.Data.{Scheme, http, https, other_scheme}
use basin.Provider.JsonRpc.{JsonRpcProvider}

module _ (F : Foreign) where
  -- The variable that holds the proxy's address, if one is to be read for the scheme.
  proxy_variable : Scheme → Option String
  proxy_variable http = F.env_var "HTTP_PROXY"
  proxy_variable https = elim (F.env_var "HTTPS_PROXY") [
    | some u ↦ some u
    | none ↦ F.env_var "HTTP_PROXY"
  ]
  proxy_variable other_scheme = none

  -- `.map(parse).transpose()`
  parse_proxy : Option String → Result (Option F.Url)
  parse_proxy none = ok none
  parse_proxy (some u) = map_ok some (F.url_of_text u)

  unfoldable pub get_http_proxy_url : Scheme → Option F.Url → Result (Option F.Url)
  unfolding proxy_variable parse_proxy
  get_http_proxy_url scheme (some u) = ok (some u)
  get_http_proxy_url scheme none = parse_proxy (proxy_variable scheme)

  client_through : F.Url → Option F.Url → Result F.HttpClient
  client_through url (some proxy) = F.client_new_with_proxy url proxy
  client_through url none = F.client_new url

  unfoldable pub http_client : F.Url → Option F.Url → Result F.HttpClient
  unfolding get_http_proxy_url client_through
  http_client url proxy = do
    chosen ← get_http_proxy_url (F.url_scheme url) proxy
    client_through url chosen

  -- `JsonRpcProvider::new_http`
  unfoldable pub new_http : F.Url → Option F.Url → Option F.Url → Result (JsonRpcProvider F)
  unfolding http_client
  new_http url proxy object_url = do
    inner ← http_client url proxy
    ok (record {
      inner = inner;
      objects = elim object_url [ none ↦ none | some u ↦ some (record { url = u }) ];
    })

  -- `TendermintClient::underlying`
  abbrev pub underlying : JsonRpcProvider F → F.HttpClient
  underlying p = p.inner

  -- A WebSocket client with its driver, which the caller has to start.
  pub ws_client : F.WsUrl → Run F.World F.WsClient
  ws_client url w = (
    with_context ("failed to create WS client to: " <> F.ws_text url) (F.ws_new url w).0,
    (F.ws_new url w).1,
  )
