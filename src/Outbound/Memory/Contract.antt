-- ===== src/Outbound/Memory/Contract.antt =====
-- The adapters of src/outbound/memory.rs keep the contract that the service relies on.
use status_list_server.Base.{
  ℤ, Bool, true, false, Option, none, some, ◌≡◌, refl, arith, Bool-cases, inl, inr, pos, negsuc,
}
use status_list_server.Base.Dict
use status_list_server.Domain.Model.{StatusListRecord, StatusListSnapshot}
use status_list_server.Domain.Service.Contract.{View, Swaps, Inserts, IsRepo, IsApart}
use status_list_server.Outbound.Memory.{Store, eq_ℤ, occupied}
use status_list_server.Outbound.Memory.StatusLists.{
  find, insert, update, update_with_snapshot, insert_with_snapshot, require_snapshot, is_version,
}
use status_list_server.Outbound.Memory.StatusLists as Lists
use status_list_server.Outbound.Memory.Cache as Cache

-- The records of the store.
abbrev pub records : View Store
records s id = Dict.lookup id s.lists

eq_of_eq_ℤ : (a b : ℤ) → eq_ℤ a b ≡ true → a ≡ b
eq_of_eq_ℤ (pos a) (pos b) h = ground arith
eq_of_eq_ℤ (pos a) (negsuc b) h = ground arith
eq_of_eq_ℤ (negsuc a) (pos b) h = ground arith
eq_of_eq_ℤ (negsuc a) (negsuc b) h = ground arith

is_version_sound :
    (o : Option StatusListRecord) (expected : ℤ)
    → is_version o expected ≡ true
    → (current : StatusListRecord) × (o ≡ some current) × (current.updated_at ≡ expected)
unfolding is_version
is_version_sound none expected h = cc
is_version_sound (some current) expected h =
    (current, refl, eq_of_eq_ℤ current.updated_at expected h)

unoccupied : (o : Option StatusListRecord) → occupied o ≡ false → o ≡ none
unoccupied none h = refl
unoccupied (some r) h = cc

update-Swaps : (r : StatusListRecord) (t : ℤ) (s : Store) → Swaps records r t s (update r t s)
unfolding update
update-Swaps r t s = elim (Bool-cases (is_version (Dict.lookup r.list_id s.lists) t)) [
  | inl same ↦ rw same (is_version_sound _ t same, λ id. Dict.lookup-insert r.list_id id r s.lists)
  | inr other ↦ rw other (λ id. refl)
]

insert-Inserts : (r : StatusListRecord) (s : Store) → Inserts records r s (insert r s)
unfolding insert
insert-Inserts r s = elim (Bool-cases (occupied (Dict.lookup r.list_id s.lists))) [
  | inl taken ↦ rw taken (λ id. refl)
  | inr free ↦ rw free (unoccupied _ free, λ id. Dict.lookup-insert r.list_id id r s.lists)
]

update_with_snapshot-Swaps :
    (shared : Bool) (r : StatusListRecord) (t : ℤ) (x : StatusListSnapshot) (s : Store)
    → Swaps records r t s (update_with_snapshot shared r t x s)
unfolding update_with_snapshot
update_with_snapshot-Swaps false r t x s = λ id. refl
update_with_snapshot-Swaps true r t x s =
    elim (Bool-cases (is_version (Dict.lookup r.list_id s.lists) t)) [
      | inl same ↦
          rw same (is_version_sound _ t same, λ id. Dict.lookup-insert r.list_id id r s.lists)
      | inr other ↦ rw other (λ id. refl)
    ]

insert_with_snapshot-Inserts :
    (shared : Bool) (r : StatusListRecord) (x : StatusListSnapshot) (s : Store)
    → Inserts records r s (insert_with_snapshot shared r x s)
unfolding insert_with_snapshot
insert_with_snapshot-Inserts false r x s = λ id. refl
insert_with_snapshot-Inserts true r x s =
    elim (Bool-cases (occupied (Dict.lookup r.list_id s.lists))) [
      | inl taken ↦ rw taken (λ id. refl)
      | inr free ↦ rw free (unoccupied _ free, λ id. Dict.lookup-insert r.list_id id r s.lists)
    ]

-- The store in memory, built with or without the map of the snapshots, keeps the contract of the
-- store: finds answer what is stored, an insertion writes only under an identifier without a
-- record, a guarded update writes only over the expected version, and what is refused changes no
-- record.
pub adapter-IsRepo : (shared : Bool) → IsRepo records (Lists.adapter shared)
unfolding find
adapter-IsRepo shared = record {
  finds = λ id s. (refl, λ k. refl);
  inserts = insert-Inserts;
  inserts_with_snapshot = insert_with_snapshot-Inserts shared;
  swaps = update-Swaps;
  swaps_with_snapshot = update_with_snapshot-Swaps shared;
}

pub cache-IsApart : IsApart records Cache.adapter
unfolding Cache.get Cache.put Cache.invalidate
cache-IsApart = record {
  get_apart = λ id s k. refl;
  put_apart = λ r s k. refl;
  invalidate_apart = λ id s k. refl;
}
