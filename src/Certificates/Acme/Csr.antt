-- ===== src/Certificates/Acme/Csr.antt =====
-- `generate_csr` of src/utils/cert_manager.rs: the request that is signed with the key.
use status_list_server.Base.{
  ℕ, String, Option, none, some, List, [], ◌∷◌, Outcome, ok, panic, map_err, ◌>>=◌,
}
use status_list_server.Certificates.Manager.{CertError}
use status_list_server.Certificates.Acme.{CsrWriter, AcmeSettings}

module _ {Params Pair : Type 0} (csr : CsrWriter Params Pair) where
  abbrev with_eku : Option (List ℕ) → Params → Params
  with_eku none params = params
  with_eku (some eku) params = csr.extended_key_usages eku params

  -- `self.domains[0]` panics where there is no domain.
  abbrev common_name : List String → Outcome CertError String
  common_name [] = panic
  common_name (domain ∷ domains) = ok domain

  unfoldable pub generate_csr :
      {S Http Authz : Type 0} → AcmeSettings S Http Authz → String → Outcome CertError (List ℕ)
  generate_csr self signing_key = map_err CertError.parsing (csr.new self.domains) >>= λ params.
      common_name self.domains >>= λ name.
      map_err CertError.parsing (csr.from_pem signing_key) >>= λ keypair.
      map_err CertError.parsing (
        csr.serialize_request
          (csr.digital_signature
            (with_eku self.eku (csr.distinguished_name name self.organization params)))
          keypair)
