-- ===== src/Outbound/Memory/Cache.antt =====
-- `MemoryStatusListCache` of src/outbound/memory.rs.
use status_list_server.Base.{String, Option, ok}
use status_list_server.Base.Action.{Action}
use status_list_server.Base.Dict
use status_list_server.Domain.Model.{StatusListError, StatusListRecord}
use status_list_server.Domain.Ports.{StatusListCache}
use status_list_server.Outbound.Memory.{Store}

unfoldable pub get : String → Action StatusListError Store (Option StatusListRecord)
get id s = (ok (Dict.lookup id s.cached), s)

unfoldable pub put : StatusListRecord → Action StatusListError Store (Unit {0})
put r s = (ok tt, record s { cached = Dict.insert r.list_id r s.cached })

unfoldable pub invalidate : String → Action StatusListError Store (Unit {0})
invalidate id s = (ok tt, record s { cached = Dict.remove id s.cached })

abbrev pub adapter : StatusListCache Store
adapter = record { get = get; put = put; invalidate = invalidate }
