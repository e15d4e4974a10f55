-- ===== src/Tests/Fixture.antt =====
-- A codec that meets the laws of the libraries, some lists, and a service over the store in memory.
use Prim.Native.String as Str
use Prim.Native.Char.{Char, char, code}
use native.Mathlib.Nat.{zero-add}
use status_list_server.Base.{
  ℕ, zero, suc, ◌+◌, ◌==◌, pos, String, true, false, none, some, List, [], ◌∷◌, ok, ◌≡◌, refl, ap,
  ◌∙◌, sym, arith,
}
use status_list_server.Domain.Model.{
  Status, invalid, suspended, StatusEntry, StatusListRecord, StatusListSnapshot, Issuer,
}
use status_list_server.Domain.Ports.{CertificateProvider}
use status_list_server.Domain.StatusList.{Codec, IsCodec}
use status_list_server.Domain.Bitpack.Width.{status_value}
use status_list_server.Domain.Bitpack.Width.Bounds.{IsRequest}
use status_list_server.Domain.Bitpack.Write.Updates.{All}
use status_list_server.Domain.Service.{Service, Limits}
use status_list_server.Outbound.Memory.{Store}
use status_list_server.Outbound.Memory.StatusLists as Lists
use status_list_server.Outbound.Memory.Cache as Cache
use status_list_server.Outbound.Memory.Credentials as Credentials
use status_list_server.Outbound.Memory.Snapshots as Snapshots

-- A byte as a run of marks and an end.
abbrev mark : Char
mark = char 97 tt

abbrev end : Char
end = char 98 tt

tally : ℕ → String → String
tally zero rest = Str.◌∷◌ end rest
tally (suc n) rest = Str.◌∷◌ mark (tally n rest)

pub write_tallies : List ℕ → String
unfolding tally
write_tallies [] = Str.[]
write_tallies (n ∷ bytes) = tally n (write_tallies bytes)

unfoldable pub read_tallies : ℕ → String → List ℕ
read_tallies n Str.[] = []
read_tallies n (Str.◌∷◌ c s) = elim (code c == 97) [
  | true ↦ read_tallies (suc n) s
  | false ↦ n ∷ read_tallies 0 s
]

read_tallies-tally :
    (k n : ℕ) (rest : String) → read_tallies k (tally n rest) ≡ (k + n) ∷ read_tallies 0 rest
unfolding read_tallies tally
read_tallies-tally k zero rest = ap (λ m. m ∷ read_tallies 0 rest) (omega arith)
read_tallies-tally k (suc n) rest =
    read_tallies-tally (suc k) n rest ∙ ap (λ m. m ∷ read_tallies 0 rest) (omega arith)

read-write_tallies : (bytes : List ℕ) → read_tallies 0 (write_tallies bytes) ≡ bytes
unfolding read_tallies write_tallies
read-write_tallies [] = refl
read-write_tallies (n ∷ bytes) =
    read_tallies-tally 0 n (write_tallies bytes)
    ∙ ap (λ m. m ∷ read_tallies 0 (write_tallies bytes)) (zero-add n)
    ∙ ap (λ b. n ∷ b) (read-write_tallies bytes)

abbrev pub tallies : Codec
tallies = record {
  write_all = λ bytes. ok tt;
  finish = λ bytes. ok bytes;
  inflate = λ bytes. ok bytes;
  base64_encode = write_tallies;
  base64_decode = λ s. ok (read_tallies 0 s);
}

pub tallies-IsCodec : IsCodec tallies
unfolding read_tallies
tallies-IsCodec = record {
  writes = λ bytes. refl;
  finishes = λ bytes. (bytes, refl);
  inflates = λ bytes z h e. sym e;
  decodes = λ bytes z h e. ap ok (read-write_tallies z);
  decodes_empty = refl;
  inflates_empty = refl;
}

abbrev pub entry : ℕ → Status → StatusEntry
entry i status = record { index = pos i; status = status }

-- A batch whose greatest number needs two bits.
abbrev pub batch : List StatusEntry
batch = entry 5 suspended ∷ entry 1 invalid ∷ []

pub batch-IsRequest : All IsRequest batch
batch-IsRequest = (
  record {
    natural = refl;
    index_bound = omega arith;
    coded = unfold status_value in refl;
    value_bound = omega arith;
  },
  (
    record {
      natural = refl;
      index_bound = omega arith;
      coded = unfold status_value in refl;
      value_bound = omega arith;
    },
    tt,
  ),
)

abbrev pub alice : Issuer
alice = record { name = "alice" }

abbrev pub limits : Limits
limits = record {
  token_exp_secs = 600;
  max_status_index = pos 1000;
  max_statuses_per_request = 100;
  max_serialized_list_size = 100000;
}

abbrev pub stored : StatusListRecord
stored = record {
  list_id = "l";
  issuer = alice;
  status_list = record { bits = 1; lst = "" };
  sub = "https://example.com/l";
  updated_at = pos 50;
}

abbrev pub revised : StatusListRecord
revised = record stored { status_list = record { bits = 1; lst = "aab" }; updated_at = pos 51 }

abbrev pub snapshot : String → ℕ → StatusListSnapshot
snapshot id time = record {
  snapshot_id = id;
  list_id = "l";
  issuer = alice;
  status_list = record { bits = 1; lst = "" };
  sub = "https://example.com/l";
  iat = pos time;
  exp = pos (time + 600);
}

abbrev pub one_list : Store
one_list = record {
  lists = ("l", stored) ∷ [];
  snapshots = ("a", snapshot "a" 20) ∷ ("b", snapshot "b" 50) ∷ ("c", snapshot "c" 90) ∷ [];
  cached = [];
  credentials = [];
}

abbrev certificates : CertificateProvider Store
certificates = record {
  signing_material = λ s. (ok (record { certificate_chain = none; signing_key_pem = "" }), s);
}

abbrev pub in_memory : Service Store
in_memory = record {
  status_list_repo = Lists.adapter true;
  credential_repo = Credentials.adapter;
  status_list_cache = Cache.adapter;
  snapshot_repo = some Snapshots.adapter;
  cert_provider = certificates;
}
