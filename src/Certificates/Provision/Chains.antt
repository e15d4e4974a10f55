-- ===== src/Certificates/Provision/Chains.antt =====
-- The loop over a chain in DER, with a parser that does not panic and answers a rest of its input.
use Prim.Native.String as Str
use status_list_server.Base.{
  ℕ, zero, suc, ◌-◌, ◌≤◌, ◌==◌, ℤ, String, Bool-cases, Option, List, [], ◌∷◌, ◌++◌, length,
  if◌then◌else◌, Outcome, ok, err, panic, map_err, ◌>>=◌, arith, inl, inr,
}
use status_list_server.Certificates.Manager.{CertError}
use status_list_server.Certificates.Provision.{KeyMaterial, ParsedDer, or_first, take, read_chain}

-- The loop has ended with a chain or with an error.
abbrev pub Ends : {A : Type 0} → Outcome CertError A → Type 0
Ends (ok a) = Unit {0}
Ends (err e) = Unit {0}
Ends panic = ⊥

module _ {Key : Type 0} (keys : KeyMaterial Key) where
  abbrev IsRest : List ℕ → Outcome String ParsedDer → Type 0
  IsRest bytes (ok cert) = length cert.next ≤ length bytes
  IsRest bytes (err e) = Unit {0}
  IsRest bytes panic = ⊥

  -- With the length of the input as its fuel, the loop comes to its end.
  pub read_chain-Ends :
      ((bytes : List ℕ) → IsRest bytes (keys.parse_x509_certificate bytes))
      → (fuel : ℕ) (bytes : List ℕ) (certs : List (List ℕ)) (validity : Option (ℤ × ℤ))
      → length bytes ≤ fuel
      → Ends (read_chain keys fuel bytes certs validity)
  unfolding read_chain
  read_chain-Ends laws fuel [] certs validity h = tt
  read_chain-Ends laws zero (b ∷ bytes) certs validity h = absurd (omega arith)
  read_chain-Ends laws (suc fuel) (b ∷ bytes) certs validity h =
      go (keys.parse_x509_certificate (b ∷ bytes)) (laws (b ∷ bytes))
        (λ next more v k. read_chain-Ends laws fuel next more v k)
    where
      go :
          (x : Outcome String ParsedDer)
          → IsRest (b ∷ bytes) x
          → ((next : List ℕ) (more : List (List ℕ)) (v : Option (ℤ × ℤ))
              → length next ≤ fuel
              → Ends (read_chain keys fuel next more v))
          → Ends (
              map_err (λ e. CertError.parsing (Str.◌++◌ "invalid DER certificate chain: " e)) x
              >>= λ cert.
                  let consumed_len = length (b ∷ bytes) - length cert.next in
                  let rest =
                    read_chain keys fuel cert.next
                      (certs ++ (take consumed_len (b ∷ bytes) ∷ []))
                      (or_first keys validity (cert.not_before, cert.not_after)) in
                  if consumed_len == 0
                  then err
                      (CertError.parsing "invalid DER certificate chain: parser made no progress")
                  else rest)
      go (err e) rest next = tt
      go panic rest next = absurd rest
      go (ok cert) rest next = elim (Bool-cases (length (b ∷ bytes) - length cert.next == 0)) [
        | inl stuck ↦ rw stuck tt
        | inr moved ↦ rw moved (next cert.next _ _ (ground arith))
      ]
