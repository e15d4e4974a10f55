-- ===== src/Config/Database/Redacted.antt =====
-- What `redacted_target` tells of the settings.
use Prim.Native.String as Str
use status_list_server.Base.{
  ℕ, Bool, true, false, String, Option, Option-cases, none, ◌≡◌, refl, ap, sym, ◌∙◌, inl, inr,
}
use status_list_server.Config.Database.{
  DatabaseBackend, memory, postgres, my_sql, sqlite, as_str, DatabaseConfig, trim_non_empty,
  has_split_connection_fields,
}
use status_list_server.Config.Database.Target.{target_of, redacted_target}
use status_list_server.Config.Database.Connection.{host-has_split}

-- Settings that differ at most in the URL, the user, the password, its file and the query.
pub record IsSameTarget (c d : DatabaseConfig) : Type 0 where
  pub backend : c.backend ≡ d.backend
  pub host : c.host ≡ d.host
  pub port : c.port ≡ d.port
  pub name : c.name ≡ d.name

no_host :
    (split : Bool) (backend : DatabaseBackend) (name : Option String) (port : Option ℕ)
    → target_of split backend none name port ≡ Str.◌++◌ "backend=" (as_str backend)
no_host false backend name port = refl
no_host true memory name port = refl
no_host true postgres name port = refl
no_host true my_sql name port = refl
no_host true sqlite name port = refl

same_split :
    (c d : DatabaseConfig) (name : Option String)
    → c.host ≡ d.host
    → target_of (has_split_connection_fields c) d.backend (trim_non_empty d.host) name d.port
      ≡ target_of (has_split_connection_fields d) d.backend (trim_non_empty d.host) name d.port
same_split c d name same = elim (Option-cases (trim_non_empty d.host)) [
  | inl missing ↦ rw missing (
      no_host (has_split_connection_fields c) d.backend name d.port
      ∙ sym (no_host (has_split_connection_fields d) d.backend name d.port))
  | inr (host, found) ↦
      ap (λ b. target_of b d.backend (trim_non_empty d.host) name d.port)
        (host-has_split c host (ap trim_non_empty same ∙ found) ∙ sym (host-has_split d host found))
]

-- Settings that differ at most in the URL, the user, the password, its file and the query have
-- the same redacted target.
pub redacted_target-no_leak :
    (c d : DatabaseConfig) → IsSameTarget c d → redacted_target c ≡ redacted_target d
unfolding redacted_target
redacted_target-no_leak c d same =
    rw (same.backend, same.port, ap trim_non_empty same.host, ap trim_non_empty same.name)
      (same_split c d (trim_non_empty d.name) same.host)
