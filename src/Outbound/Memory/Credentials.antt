-- ===== src/Outbound/Memory/Credentials.antt =====
-- `MemoryCredentials` of src/outbound/memory.rs.
use status_list_server.Base.{String, Option, if◌then◌else◌, ok, err}
use status_list_server.Base.Action.{Action}
use status_list_server.Base.Dict
use status_list_server.Domain.Model.{Credential, CredentialError}
use status_list_server.Domain.Ports.{CredentialRepo}
use status_list_server.Outbound.Memory.{Store, occupied}

unfoldable pub find : String → Action CredentialError Store (Option Credential)
find issuer s = (ok (Dict.lookup issuer s.credentials), s)

unfoldable pub insert : Credential → Action CredentialError Store (Unit {0})
insert c s =
    if occupied (Dict.lookup c.issuer.name s.credentials)
    then (err CredentialError.already_exists, s)
    else (ok tt, record s { credentials = Dict.insert c.issuer.name c s.credentials })

abbrev pub adapter : CredentialRepo Store
adapter = record { find = find; insert = insert }
