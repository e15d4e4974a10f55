-- ===== src/Tests/KeyVault.antt =====
-- The theorem on Azure Key Vault, for a deleted secret whose recovery takes two more writes.
use Prim.Native.Nat.{zero, suc}
use status_list_server.Base.{
  ℕ, String, Option, none, some, List, Outcome, ok, err, ◌≡◌, refl, arith, inl,
}
use status_list_server.Certificates.Storage.Keys.{normalize_key}
use status_list_server.Outbound.KeyVault.{AzureError, SecretClient, store}
use status_list_server.Outbound.KeyVault.Recovery.{IsRecovering, store-recovers}

-- The writes that are still refused, none while the secret is deleted; and the value.
abbrev Secret : Type 0
Secret = Option ℕ × Option String

abbrev conflict : AzureError
conflict = record { http_status = some 409; text = "Conflict" }

abbrev pending : Secret → Option ℕ
pending s = s.0

abbrev stored : Secret → String → Option String
stored s name = s.1

abbrev set : String → String → Secret → Outcome AzureError (Unit {0}) × Secret
set name value (none, old) = (err conflict, (none, old))
set name value (some zero, old) = (ok tt, (some zero, some value))
set name value (some (suc n), old) = (err conflict, (some n, old))

abbrev recover : Secret → Outcome AzureError (Unit {0}) × Secret
recover (none, old) = (ok tt, (some 2, old))
recover (some n, old) = (ok tt, (some n, old))

abbrev client : SecretClient Secret
client = record {
  set_secret = set;
  recover_deleted_secret = λ name s. recover s;
  get_secret = λ name s. (ok (ok s.1), s);
  delete_secret = λ name s. (ok tt, s);
  purge_deleted_secret = λ name s. (ok tt, s);
}

client-IsRecovering : IsRecovering client 2 pending stored
client-IsRecovering = record {
  sets = λ name value s e. ((some 0, some value), sets name value s.1 s.0 e, refl);
  refuses = λ name value s e. (conflict, (none, s.1), refuses name value s.1 s.0 e, refl, refl);
  waits = λ name value s n e. (conflict, (some n, s.1), waits name value s.1 n s.0 e, refl, refl);
  recovers = λ name s e. ((some 2, s.1), recovers s.1 s.0 e, refl);
}
  where
    sets :
        (name value : String) (old : Option String) (o : Option ℕ)
        → o ≡ some 0
        → set name value (o, old) ≡ (ok tt, (some 0, some value))
    sets name value old o e = rw e refl

    refuses :
        (name value : String) (old : Option String) (o : Option ℕ)
        → o ≡ none
        → set name value (o, old) ≡ (err conflict, (none, old))
    refuses name value old o e = rw e refl

    waits :
        (name value : String) (old : Option String) (n : ℕ) (o : Option ℕ)
        → o ≡ some (suc n)
        → set name value (o, old) ≡ (err conflict, (some n, old))
    waits name value old n o e = rw e refl

    recovers :
        (old : Option String) (o : Option ℕ) → o ≡ none → recover (o, old) ≡ (ok tt, (some 2, old))
    recovers old o e = rw e refl

abbrev digest : List ℕ → String
digest bytes = "00112233445566778899aabbccddeeff"

store-recovers_example :
    (s' : Secret) × (store client digest none "status-key" "secret" (none, none) ≡ (ok tt, s'))
    × (stored s' (normalize_key digest "status-key") ≡ some "secret")
store-recovers_example =
    store-recovers client 2 pending stored digest "status-key" "secret" client-IsRecovering
      (none, none) (inl refl) (omega arith)
