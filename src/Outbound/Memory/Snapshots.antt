-- ===== src/Outbound/Memory/Snapshots.antt =====
-- `MemoryStatusListSnapshotRepo` of src/outbound/memory.rs.
pub mod Laws
use text.Mathlib.Text.{◌==◌ as str_eq}
use status_list_server.Base.{
  ℕ, ℤ, String, Bool, ◌&&◌, Option, none, some, List, [], ◌∷◌, map, length, if◌then◌else◌, ok,
  ltb_ℤ, leb_ℤ,
}
use status_list_server.Base.Action.{Action}
use status_list_server.Base.Dict
use status_list_server.Domain.Model.{StatusListError, StatusListSnapshot}
use status_list_server.Domain.Ports.{StatusListSnapshotRepo}
use status_list_server.Outbound.Memory.{Store}

unfoldable pub insert : StatusListSnapshot → Action StatusListError Store (Unit {0})
insert x s = (ok tt, record s { snapshots = Dict.insert x.snapshot_id x s.snapshots })

-- `Iterator::filter`.
unfoldable pub keep :
    (StatusListSnapshot → Bool) → List StatusListSnapshot → List StatusListSnapshot
keep p [] = []
keep p (x ∷ xs) = if p x then x ∷ keep p xs else keep p xs

-- `max_by_key(|r| r.iat)`: of equal ones the last.
unfoldable pub latest_from : StatusListSnapshot → List StatusListSnapshot → StatusListSnapshot
latest_from best [] = best
latest_from best (x ∷ xs) = latest_from (if leb_ℤ best.iat x.iat then x else best) xs

unfoldable pub latest : List StatusListSnapshot → Option StatusListSnapshot
unfolding latest_from
latest [] = none
latest (x ∷ xs) = some (latest_from x xs)

abbrev pub is_valid_at : String → ℤ → StatusListSnapshot → Bool
is_valid_at list_id time r = str_eq r.list_id list_id && leb_ℤ r.iat time && ltb_ℤ time r.exp

unfoldable pub find_valid_at : String → ℤ → Action StatusListError Store (Option StatusListSnapshot)
unfolding keep latest
find_valid_at list_id time s =
    (ok (latest (keep (is_valid_at list_id time) (Dict.values s.snapshots))), s)

unfoldable pub remove_all :
    List String → List (String × StatusListSnapshot) → List (String × StatusListSnapshot)
remove_all [] m = m
remove_all (id ∷ ids) m = remove_all ids (Dict.remove id m)

unfoldable pub delete_older_than : ℤ → Action StatusListError Store ℕ
unfolding keep remove_all
delete_older_than cutoff s =
    let to_remove =
      map (λ r. r.snapshot_id) (keep (λ r. ltb_ℤ r.exp cutoff) (Dict.values s.snapshots)) in
    (ok (length to_remove), record s { snapshots = remove_all to_remove s.snapshots })

abbrev pub adapter : StatusListSnapshotRepo Store
adapter = record {
  insert = insert;
  find_valid_at = find_valid_at;
  delete_older_than = delete_older_than;
}
