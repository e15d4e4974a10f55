-- ===== src/Outbound/Vault/Client.antt =====
-- `VaultClient` of src/outbound/vault.rs: the KV store behind the `Storage` interface, with its
-- cache (moka, a parameter).
use Prim.Native.String as Str
use status_list_server.Base.{
  ℕ, ◌==◌, ◌||◌, String, Option, none, some, List, [], ◌∷◌, ◌++◌, if◌then◌else◌, Outcome, ok,
  map_err,
}
use status_list_server.Base.Chars.{into_bytes}
use status_list_server.Base.Action.{Action, ◌>>=◌, ◌>>◌, pure, throw, lift, answering}
use status_list_server.Certificates.Storage.{
  StorageError, backend, Storage, MaterialCache, put_cached, get_cached,
}
use status_list_server.Outbound.Vault.Paths.{
  VaultPlace, encode_path_segment, qualify_key, data_url, metadata_url,
}
use status_list_server.Outbound.Vault.Auth.{
  Method, get, post, delete, Body, no_body, secret_value, Request, Response, Http, VaultServer,
  TokenManager, namespace_header, is_success, ensure_valid,
}

module _ {S : Type 0} (http : Http S) (safe_window : ℕ → ℕ)
    (waits : TokenManager × S → TokenManager × S) (digest : List ℕ → String) (server : VaultServer)
    (place : VaultPlace) (cache : Option (MaterialCache (TokenManager × S))) where
  abbrev Client : Type 0 → Type 0
  Client A = Action StorageError (TokenManager × S) A

  abbrev with_token : Request → Client Request
  with_token request (m, s) = (
    ok (record request {
      headers = ("X-Vault-Token", m.token) ∷ namespace_header server.namespace;
    }),
    (m, s),
  )

  unfoldable pub add_auth_headers : Request → Client Request
  unfolding ensure_valid
  add_auth_headers request = ensure_valid http server safe_window waits >> with_token request

  abbrev beside :
      {A : Type 0} → TokenManager → Outcome String A × S → Outcome String A × (TokenManager × S)
  beside m (answer, s) = (answer, (m, s))

  abbrev sent : Request → Client Response
  sent request = answering backend (λ st. beside st.0 (http.send request st.1))

  abbrev call : Method → List ℕ → Body → Client Response
  call method url body =
      add_auth_headers (record { method = method; url = url; headers = []; body = body }) >>= sent

  abbrev failed_at : String → String → ℕ → StorageError
  failed_at what path status =
      backend (Str.◌++◌ what (Str.◌++◌ path (Str.◌++◌ "': HTTP " (http.show_status status))))

  abbrev denied_at : String → String → StorageError
  denied_at what path =
      backend
        (Str.◌++◌ "vault access denied for " (Str.◌++◌ what (Str.◌++◌ " '" (Str.◌++◌ path "'"))))

  abbrev path_of : String → String
  path_of key = http.from_ascii (qualify_key digest place key)

  abbrev refused : {A : Type 0} → String → String → ℕ → Client A
  refused what key status =
      if status == 403
      then throw (denied_at "path" (path_of key))
      else throw (failed_at what (path_of key) status)

  unfoldable pub store : String → String → Client (Unit {0})
  unfolding data_url qualify_key
  store key value = call post (data_url digest place key) (secret_value value) >>= λ response.
      if is_success response.status
      then put_cached cache key value
      else refused "vault store failed for path '" key response.status

  abbrev loaded : String → Response → Client (Option String)
  loaded key response = lift (map_err backend (http.value_of response)) >>= λ value.
      put_cached cache key value >> pure (some value)

  abbrev load_answer : String → Response → Client (Option String)
  load_answer key response =
      if response.status == 200
      then loaded key response
      else if response.status == 404
      then pure none
      else refused "vault load failed for path '" key response.status

  abbrev from_vault : String → Option String → Client (Option String)
  from_vault key (some value) = pure (some value)
  from_vault key none = call get (data_url digest place key) no_body >>= load_answer key

  unfoldable pub load : String → Client (Option String)
  unfolding data_url qualify_key
  load key = get_cached cache key >>= from_vault key

  abbrev forget : Option (MaterialCache (TokenManager × S)) → String → Client (Unit {0})
  forget none key = pure tt
  forget (some c) key = c.invalidate key

  unfoldable pub delete_secret : String → Client (Unit {0})
  unfolding metadata_url qualify_key
  delete_secret key = call delete (metadata_url digest place key) no_body >>= λ response.
      if is_success response.status || (response.status == 404)
      then forget cache key
      else refused "vault delete failed for path '" key response.status

  abbrev config_url : List ℕ
  config_url =
      into_bytes place.addr
      ++ (into_bytes "/v1/" ++ (encode_path_segment place.mount ++ into_bytes "/config"))

  unfoldable pub reachable : Client (Unit {0})
  unfolding into_bytes encode_path_segment
  reachable = call get config_url no_body >>= λ response.
      if is_success response.status
      then pure tt
      else if response.status == 403
      then throw (denied_at "mount" place.mount)
      else throw (failed_at "vault readiness check failed for mount '" place.mount response.status)

  -- `update` is the trait's own: it stores.
  unfoldable pub storage : Storage (TokenManager × S)
  unfolding store load delete_secret
  storage = record { store = store; load = load; update = store; delete = delete_secret }
