-- ===== src/Outbound/Memory.antt =====
-- src/outbound/memory.rs: the adapters over hash maps behind locks. A method holds its lock from
-- its first read to its last write, so it is one step on the shared state.
pub mod StatusLists
pub mod Cache
pub mod Credentials
pub mod Snapshots
pub mod Contract
use status_list_server.Base.{
  ℤ, String, Bool, ◌&&◌, List, ◌==◌, pos_part, neg_part, Option, none, some, true, false,
}
use status_list_server.Domain.Model.{StatusListRecord, StatusListSnapshot, Credential}

-- The maps behind the locks, all of one process. The order of a map's entries is arbitrary.
pub record Store : Type 0 where
  pub lists : List (String × StatusListRecord)
  pub snapshots : List (String × StatusListSnapshot)
  pub cached : List (String × StatusListRecord)
  pub credentials : List (String × Credential)

-- Equality of two `i64`.
abbrev pub eq_ℤ : ℤ → ℤ → Bool
eq_ℤ a b = (pos_part a == pos_part b) && (neg_part a == neg_part b)

-- Whether a map has an entry: `Entry::Occupied`.
abbrev pub occupied {ℓ} : {V : Type ℓ} → Option V → Bool
occupied none = false
occupied (some v) = true
