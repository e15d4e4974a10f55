-- ===== src/Server/Handlers.antt =====
-- src/server/handlers: publishing, updating, registration and aggregation. The parser of UUIDs and
-- the writer of a JSON key are parameters; a response without a body is its status.
pub mod Publication
use Prim.Native.String as Str
use status_list_server.Base.{ℕ, ℤ, String, Bool, List, map, Outcome, ok, err, panic, map_err}
use status_list_server.Base.Action.{answering, Action, ◌>>=◌, ◌>>◌, pure, lift}
use status_list_server.Domain.Model.{StatusListError, Issuer, PublicJwk, Credential, try_new}
use status_list_server.Domain.StatusList.{Codec}
use status_list_server.Domain.Service.{
  Service, Limits, publish_status_list, update_statuses, publish_credential, list_uris,
}
use status_list_server.Server.Error.{ApiError, bad_request, into_api_error, credential_api_error}
use status_list_server.Server.Request.{RequestEntry, into_entry}

module _ {S : Type 0} (service : Service S) (codec : Codec)
    (parse_uuid : String → Outcome String (Unit {0})) where
  abbrev pub check_list_id : String → Outcome ApiError (Unit {0})
  check_list_id list_id =
      map_err (λ e. bad_request "invalid_list_id" (Str.◌++◌ "Invalid list_id format: " e))
        (parse_uuid list_id)

  abbrev pub list_uri : String → String → String
  list_uri server_domain list_id =
      Str.◌++◌ "https://" (Str.◌++◌ server_domain (Str.◌++◌ "/api/v1/status-lists/" list_id))

  unfoldable pub publish_status :
      Issuer → String → List RequestEntry → String → Limits → ℤ → String → Action ApiError S ℕ
  publish_status principal list_id statuses server_domain limits now uuid = do
    lift (check_list_id list_id)
    answering into_api_error (
          publish_status_list service codec list_id principal (list_uri server_domain list_id)
            (map into_entry statuses) limits now uuid)
        >>= λ r. pure 201

  unfoldable pub update_status :
      Issuer → String → List RequestEntry → Limits → ℤ → String → Action ApiError S ℕ
  update_status principal list_id statuses limits now uuid = do
    lift (check_list_id list_id)
    answering into_api_error (
          update_statuses service codec principal list_id (map into_entry statuses) limits now uuid)
        >>= λ r. pure 200

  -- The bytes of the key, or the error of their writing, are given.
  unfoldable pub credential_handler :
      (List ℕ → Outcome String Bool) → String → Outcome String (List ℕ) → Action ApiError S ℕ
  credential_handler parse issuer written = do
    bytes ← lift (map_err (bad_request "invalid_public_jwk") written)
    key ← lift (map_err credential_api_error (try_new parse bytes))
    answering credential_api_error (
          publish_credential service codec
            (record { issuer = record { name = issuer }; public_key = key }))
        >> pure 202

  unfoldable pub get_aggregation : Action ApiError S (List String)
  get_aggregation = answering into_api_error (list_uris service codec)
