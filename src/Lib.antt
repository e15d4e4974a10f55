-- ===== src/Lib.antt =====
-- A verification library for the status list server: a service that publishes, updates and serves
-- Token Status Lists.
--
-- The parts and their files:
--   Domain/Model        the data of src/domain/models (StatusEntry, StatusList, StatusListRecord,
--                       StatusListError, Credential, PublicJwk).
--   Domain/Bitpack      the bit-packed array of src/domain/models/status_list.rs. Width has
--                       `determine_bits` and `calculate_array_size`, Byte the masks and shifts of
--                       one byte, Write `apply_updates`, Read `decode_status_array`. Their child
--                       modules hold the proofs.
--   Domain/StatusList   `StatusList::create` and `StatusList::update`, with the compression around
--                       the array. Update has the abstract view: a list denotes the function from
--                       an index to the number of its status.
--   Domain/Ports        the traits of src/domain/ports.rs, as records of actions on a state.
--   Domain/Service      src/domain/service.rs over the ports. Contract says what the service relies
--                       on of a store and a cache; Admission, Effects, Updates and Reads are about
--                       single operations, History about interleavings of requests.
--   Outbound/Memory     the adapters of src/outbound/memory.rs; Contract is about what the service
--                       relies on of them.
--   Outbound/Sql        the SQL adapter of src/outbound/sql. Database has the statements that the
--                       store runs, as a parameter, and what is relied on of them; Rows the tables'
--                       rows, Errors the classification of errors, Store the transactions of
--                       `SeaOrmStore` (Atomic and Guarded, by Endings, are about what a failure
--                       leaves, Lands about writes that succeed, Sweep about the loop of the
--                       deletion), and Adapter the ports, with the contract of the service in its
--                       Contract.
--   Server/Request      the entries of a request: src/server/handlers/status_list/utils/request.rs.
--   Server/Error        the answers to the errors of the domain: src/server/error.rs.
--   Server/Conditional  conditional requests and entity tags: conditional.rs and etag.rs of
--                       src/server/handlers/status_list/utils; Tags, by Splits, is
--                       about the tags of a client.
--   Server/Token        the tokens in both forms: utils/token.rs, with the names of
--                       utils/constants.rs in Server/Constants; Claims reads both forms.
--   Server/Reads        the handler of current and historical lists, get_status_list.rs; Conditions
--                       is about its answers to conditional requests, Encoding has Accept-Encoding.
--   Server/Auth         the claims of a management token, their policy, and in Guard the middleware:
--                       src/server/auth/mod.rs; Answers has the answers to its errors.
--   Server/Handlers     publishing, updating, registration and aggregation: src/server/handlers.
--   Certificates        the signing material of src/utils/cert_manager.rs. Storage has the storage
--                       with its caches (cert_manager/storage.rs) and the names of keys, with
--                       Coherence and Loads, by Told, about the cache of certificates, Manager the
--                       manager's own state and the storing of material, with Retries about the
--                       attempts to store a key and Persists about loads of certificate data after
--                       it is stored, and Provision the strategy that is given its material
--                       (cert_manager/strategy.rs), with Swaps about what a refresh leaves, by
--                       Manager/Served and Manager/Steps.
--                       Providers has the providers of given material (src/outbound/cert.rs).
--   Certificates/Challenge
--                       the challenges of cert_manager/challenge/dns01: Zones has the choice of a
--                       zone, with Best, by Covers, about it, AcmeDns the accounts of ACME-DNS,
--                       with Accounts about them, Token the cache of access tokens, Records the TXT
--                       records.
--   Certificates/Acme   the orders of ACME: `request_acme_certificate` of cert_manager.rs, with the
--                       handler of challenge/dns01/mod.rs. Csr has the request that is signed,
--                       Requests the account and the order; Swaps, by Serving, is about what is
--                       served after an order, Cleaning, by Tidy, about the TXT records, Accounts
--                       about the account.
--   Config              the settings of src/config.rs. Database has those of the database; its Target
--                       the connection URL and its redacted form for the log, Host, Reading and
--                       Connection are about reading the URL back, Redacted about the redacted form. Dns has the
--                       providers of DNS, with Usable and Resolve about which can be used;
--                       Settings the other rules.
--   Server/Health       liveness and readiness: src/server/health.rs; Verdict is about the answers.
--   Outbound/Vault      the secrets in Vault: src/outbound/vault.rs. Paths has the URLs, Auth the
--                       tokens (Leases is about their life, Cooldown about failed logins), Client
--                       the operations of the storage, Builder the settings.
--   Outbound/KeyVault   the secrets in Azure Key Vault: src/outbound/azure_kv.rs; Recovery is about
--                       the recovery of a deleted secret.
--   Base                shared types and lemmas: results with a panic, state-passing actions,
--                       signed integers over the native numbers, maps, binary digits,
--                       percent-encoding.
--   Tests               a concrete codec and service, and the theorems at concrete inputs.
--
-- A call of the source is a function that passes the state and answers with a value, an error or a
-- panic. A method of an adapter holds its lock, or its transaction, from its first read to its last
-- write, and is one step. The arithmetic is that of a release build: shifts take their amount
-- modulo the width, and sums of `i64` wrap.
--
-- The fuel of the loops: the writing of a value takes `bits + 1` rounds at most and its reading
-- `bits`, since each round handles a bit or more; `next_power_of_two` doubles 63 times at most and
-- `trailing_zeros` halves 64 times at most, the width of a `usize`; decimal text has 20 digits at
-- most. The deletion of expired snapshots takes its fuel as an argument: one round more than there
-- are full batches of expired rows is enough. The loop over a chain in DER takes a byte at least in
-- each round, so the length of the chain is enough.
--
-- Parameters: zlib and base64url (`Codec`, with `IsCodec` for what is relied on), the JSON parser,
-- the token library (`TokenLibrary`), the signing, CBOR and gzip of a token (`TokenSigner`), the
-- calendar (`TimeLibrary`), the keys and certificates (`KeyMaterial`, `Formats`), the caches of
-- material (`MaterialCache`) and its backend (`Storage`, with `IsKept` for both), the digest of an
-- entity tag, the statements of the database (`Database`, with `IsDatabase`, `IsSure`,
-- `IsAvailable` and `IsSweepable`), its errors
-- (`DatabaseErrors`), the parser of IPv6 addresses (`ReadsIpv6`) and that of forms, the
-- order in which tasks end (`IsJoinOrder`), the HTTP client of Vault with its clock (`Http`, with
-- `IsClock`), the window of a renewal (`IsWindow`), the client of Azure (`SecretClient`, with
-- `IsRecovering`), the client of ACME with what an authorization offers (`AcmeClient`,
-- `Challenges`, with `IsTidy` for what is relied on of them and of a DNS provider), the writer of
-- requests for a certificate (`CsrWriter`), the digest of a long key (`IsDigest`), the clock and the
-- UUIDs.
--
-- Not modelled: logging and metrics, the start-up and the secret stores of AWS and Google, which
-- only call libraries; the settings that are only data; the schema's migrations; the scheduler of
-- the renewal, the HTTP-01 server and the DNS clients of the clouds; the caches of moka; the key
-- extractor of the limiter and the validation of bits, which the program does not use; and the HTTP
-- layer but for the parts named above.
pub mod Base
pub mod Certificates
pub mod Config
pub mod Domain
pub mod Outbound
pub mod Server
mod Tests
