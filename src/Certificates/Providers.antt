-- ===== src/Certificates/Providers.antt =====
-- The providers of given material, src/outbound/cert.rs. The reader of files, the blocks of a PEM
-- text and base64 are parameters.
use status_list_server.Base.{String, some, List, [], ◌∷◌, Outcome, ok, err, map_err, ◌>>=◌, ◌>>◌, ℕ}
use status_list_server.Base.Action.{Action}
use status_list_server.Domain.Model.{StatusListError}
use status_list_server.Domain.Ports.{SigningMaterial}
use status_list_server.Certificates.Provision.{KeyMaterial, validate_signing_material}

module _ {Key : Type 0} (keys : KeyMaterial Key)
    (pem_blocks : String → List (Outcome String (List ℕ))) (encode64 : List ℕ → String) where
  unfoldable pub collect_chain :
      List (Outcome String (List ℕ)) → Outcome StatusListError (List String)
  collect_chain [] = ok []
  collect_chain (block ∷ blocks) = map_err StatusListError.backend block >>= λ contents.
      collect_chain blocks >>= λ certs. ok (encode64 contents ∷ certs)

  abbrev not_empty : List String → Outcome StatusListError (List String)
  not_empty [] = err (StatusListError.backend "certificate chain is empty")
  not_empty (cert ∷ certs) = ok (cert ∷ certs)

  unfoldable pub pem_chain_to_base64_der : String → Outcome StatusListError (List String)
  unfolding collect_chain
  pem_chain_to_base64_der cert_pem = collect_chain (pem_blocks cert_pem) >>= not_empty

  -- Material that was checked.
  unfoldable pub inline_material : String → String → Outcome StatusListError SigningMaterial
  unfolding pem_chain_to_base64_der
  inline_material cert_pem signing_key_pem =
      validate_signing_material keys cert_pem signing_key_pem
      >> (pem_chain_to_base64_der cert_pem >>= λ chain.
          ok (record { certificate_chain = some chain; signing_key_pem = signing_key_pem }))

  module _ (read_to_string : String → Outcome String String) where
    unfoldable pub load_and_validate : String → String → Outcome StatusListError SigningMaterial
    unfolding inline_material
    load_and_validate cert_path key_path =
        map_err StatusListError.backend (read_to_string cert_path) >>= λ cert_pem.
        map_err StatusListError.backend (read_to_string key_path) >>= λ signing_key_pem.
        inline_material cert_pem signing_key_pem

    abbrev replaced :
        Outcome StatusListError SigningMaterial
        → SigningMaterial
        → Outcome StatusListError (Unit {0}) × SigningMaterial
    replaced (ok material) active = (ok tt, material)
    replaced (err e) active = (err e, active)
    replaced Outcome.panic active = (Outcome.panic, active)

    -- The state is the active material.
    unfoldable pub reload_from_files :
        String → String → Action StatusListError SigningMaterial (Unit {0})
    unfolding load_and_validate
    reload_from_files cert_path key_path active =
        replaced (load_and_validate cert_path key_path) active
