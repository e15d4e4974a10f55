-- ===== src/Domain/Ports.antt =====
-- src/domain/ports.rs: the outbound interfaces, over the state `S` that the adapters share.
use status_list_server.Base.{ℕ, ℤ, String, Bool, Option, List}
use status_list_server.Base.Action.{Action}
use status_list_server.Domain.Model.{
  StatusListError, StatusListRecord, StatusListSnapshot, Credential, CredentialError,
}

pub record StatusListRepo (S : Type 0) : Type 0 where
  pub find : String → Action StatusListError S (Option StatusListRecord)
  pub insert : StatusListRecord → Action StatusListError S (Unit {0})
  pub update : StatusListRecord → ℤ → Action StatusListError S Bool
  pub update_with_snapshot :
      StatusListRecord → ℤ → StatusListSnapshot → Action StatusListError S Bool
  pub insert_with_snapshot :
      StatusListRecord → StatusListSnapshot → Action StatusListError S (Unit {0})
  pub list_uris : Action StatusListError S (List String)

pub record CredentialRepo (S : Type 0) : Type 0 where
  pub find : String → Action CredentialError S (Option Credential)
  pub insert : Credential → Action CredentialError S (Unit {0})

pub record StatusListCache (S : Type 0) : Type 0 where
  pub get : String → Action StatusListError S (Option StatusListRecord)
  pub put : StatusListRecord → Action StatusListError S (Unit {0})
  pub invalidate : String → Action StatusListError S (Unit {0})

pub record StatusListSnapshotRepo (S : Type 0) : Type 0 where
  pub insert : StatusListSnapshot → Action StatusListError S (Unit {0})
  pub find_valid_at : String → ℤ → Action StatusListError S (Option StatusListSnapshot)
  pub delete_older_than : ℤ → Action StatusListError S ℕ

pub record SigningMaterial : Type 0 where
  pub certificate_chain : Option (List String)
  pub signing_key_pem : String

pub record CertificateProvider (S : Type 0) : Type 0 where
  pub signing_material : Action StatusListError S SigningMaterial
