-- ===== src/Server/Handlers/Publication.antt =====
-- What a publication over HTTP does to the records.
use status_list_server.Base.{ℕ, ℤ, String, none, List, map, Outcome, ok, err, panic, ◌≡◌}
use status_list_server.Domain.Model.{StatusListRecord, Issuer}
use status_list_server.Domain.StatusList.{Codec}
use status_list_server.Domain.Service.{Service, Limits}
use status_list_server.Domain.Service.Contract.{View, Keeps, Puts, IsRepo, IsApart}
use status_list_server.Domain.Service.Effects.{IsPublished}
use status_list_server.Server.Error.{ApiError}
use status_list_server.Server.Request.{RequestEntry, into_entry}
use status_list_server.Server.Handlers.{list_uri}

module _ {S : Type 0} (view : View S) (service : Service S) (codec : Codec)
    (repo : IsRepo view service.status_list_repo) (cache : IsApart view service.status_list_cache)
    (parse_uuid : String → Outcome String (Unit {0})) where
  -- 201 is a new record under an identifier that is a UUID; all else changes no record.
  abbrev pub Answers :
      Issuer
      → String
      → List RequestEntry
      → String
      → Limits
      → ℤ
      → S
      → Outcome ApiError ℕ × S
      → Type 0
  Answers principal list_id statuses server_domain limits now s (ok status, s') =
      (status ≡ 201)
      × (parse_uuid list_id ≡ ok tt)
      × ((r : StatusListRecord) × IsPublished view service codec repo cache list_id principal
            (list_uri service codec parse_uuid server_domain list_id) (map into_entry statuses)
            limits now r
          × (view s list_id ≡ none)
          × Puts view r s s')
  Answers principal list_id statuses server_domain limits now s (err e, s') = Keeps view s s'
  Answers principal list_id statuses server_domain limits now s (panic, s') = Keeps view s s'
