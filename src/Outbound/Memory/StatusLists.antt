-- ===== src/Outbound/Memory/StatusLists.antt =====
-- `MemoryStatusLists` of src/outbound/memory.rs.
use Prim.Native.Nat.{Ordering}
use Prim.Native.String.{compare}
use status_list_server.Base.{
  ℤ, String, Bool, true, false, Option, none, some, List, [], ◌∷◌, map, if◌then◌else◌, Outcome, ok,
  err,
}
use status_list_server.Base.Action.{Action, ◌>>◌, lift}
use status_list_server.Base.Dict
use status_list_server.Domain.Model.{StatusListError, StatusListRecord, StatusListSnapshot, backend}
use status_list_server.Domain.Ports.{StatusListRepo}
use status_list_server.Outbound.Memory.{Store, eq_ℤ, occupied}

-- Whether `with_snapshot` gave the adapter the map of the snapshots.
unfoldable pub require_snapshot : Bool → Outcome StatusListError (Unit {0})
require_snapshot true = ok tt
require_snapshot false = err (
    backend
      "MemoryStatusLists was built without shared snapshot storage; construct it with `.with_snapshot(..)`")

unfoldable pub find : String → Action StatusListError Store (Option StatusListRecord)
find id s = (ok (Dict.lookup id s.lists), s)

-- `Some(current) if current.updated_at == expected_updated_at`.
unfoldable pub is_version : Option StatusListRecord → ℤ → Bool
is_version none expected = false
is_version (some current) expected = eq_ℤ current.updated_at expected

abbrev write : StatusListRecord → Store → Store
write r s = record s { lists = Dict.insert r.list_id r s.lists }

abbrev snap : StatusListSnapshot → Store → Store
snap x s = record s { snapshots = Dict.insert x.snapshot_id x s.snapshots }

unfoldable pub insert : StatusListRecord → Action StatusListError Store (Unit {0})
insert r s =
    if occupied (Dict.lookup r.list_id s.lists)
    then (err StatusListError.already_exists, s)
    else (ok tt, write r s)

unfoldable pub update : StatusListRecord → ℤ → Action StatusListError Store Bool
unfolding is_version
update r expected s =
    if is_version (Dict.lookup r.list_id s.lists) expected
    then (ok true, write r s)
    else (ok false, s)

unfoldable pub update_with_snapshot :
    Bool → StatusListRecord → ℤ → StatusListSnapshot → Action StatusListError Store Bool
unfolding require_snapshot is_version
update_with_snapshot shared r expected x = lift (require_snapshot shared) >> λ s.
    if is_version (Dict.lookup r.list_id s.lists) expected
    then (ok true, write r (snap x s))
    else (ok false, s)

unfoldable pub insert_with_snapshot :
    Bool → StatusListRecord → StatusListSnapshot → Action StatusListError Store (Unit {0})
unfolding require_snapshot
insert_with_snapshot shared r x = lift (require_snapshot shared) >> λ s.
    if occupied (Dict.lookup r.list_id s.lists)
    then (err StatusListError.already_exists, s)
    else (ok tt, write r (snap x s))

-- `BTreeSet::insert`: the set as its sorted texts.
unfoldable pub insert_sorted : String → List String → List String
insert_sorted x [] = x ∷ []
insert_sorted x (y ∷ ys) = elim (compare x y) [
  | Ordering.lt ↦ x ∷ y ∷ ys
  | Ordering.eq ↦ y ∷ ys
  | Ordering.gt ↦ y ∷ insert_sorted x ys
]

unfoldable pub sorted_set : List String → List String
unfolding insert_sorted
sorted_set [] = []
sorted_set (x ∷ xs) = insert_sorted x (sorted_set xs)

unfoldable pub list_uris : Action StatusListError Store (List String)
unfolding sorted_set
list_uris s = (ok (sorted_set (map (λ r. r.sub) (Dict.values s.lists))), s)

-- The adapter as a port; `shared` says that it was built by `with_snapshot`.
abbrev pub adapter : Bool → StatusListRepo Store
adapter shared = record {
  find = find;
  insert = insert;
  update = update;
  update_with_snapshot = update_with_snapshot shared;
  insert_with_snapshot = insert_with_snapshot shared;
  list_uris = list_uris;
}
