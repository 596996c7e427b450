-- ===== src/Log/Commit.antt =====
-- crates/tracedb-log/src/lib.rs and crates/tracedb-core/src/lib.rs: what the log stores and how it
-- is encoded. A checksum, `[u8; 32]`, is the list of its bytes.
use tracedb.Base.{
  ℕ, ◌+◌, ◌-◌, ◌%◌, ◌^◌, Text, codes, starts_with, Bool, true, false, Option, none, some, List, [],
  ◌∷◌, ◌≡◌, if◌then◌else◌, length, Result, ok, ok_or, ◌>>=◌,
}
use tracedb.Core.Error.{TraceDbError, crypto}
use tracedb.Core.Types.{Epoch, TableSchema, RecordInput, RecordDeletion, FeatureInvalidation}
use tracedb.Jobs.Catalog.{JobEvent}

abbrev pub Lsn : Type 0
Lsn = ℕ

-- `Lsn(self.0 + 1)` on a `u64`, which wraps in a release build.
abbrev pub next_lsn : Lsn → Lsn
next_lsn lsn = (lsn + 1) % 2 ^ 64

pub record ModuleCommitEvent : Type 0 where
  pub module_id : Text
  pub event : Text

pub record IdempotencyReceipt : Type 0 where
  pub method : Text
  pub path : Text
  pub key : Text
  pub body_hash : Text
  pub actor_tenant_id : Text
  pub database_id : Text
  pub branch_id : Text
  pub token_identity : Text
  pub response : Text

pub record CommitRecord (V : Type 0) : Type 0 where
  pub database_id : Text
  pub branch_id : Text
  pub transaction_id : ℕ
  pub epoch : Epoch
  pub parent_epoch : Epoch
  pub previous_commit_hash : List ℕ
  pub idempotency_key : Option Text
  pub schema_epoch : Epoch
  pub policy_epoch : Epoch
  pub schema_changes : List TableSchema
  pub replacements : List (RecordInput V)
  pub mutations : List (RecordInput V)
  pub deletions : List RecordDeletion
  pub feature_invalidations : List FeatureInvalidation
  pub module_events : List ModuleCommitEvent
  pub idempotency_receipts : List IdempotencyReceipt
  pub job_events : List JobEvent
  pub commit_marker : Text

-- `[0u8; 32]`.
abbrev pub zero_checksum : List ℕ
zero_checksum =
    0 ∷ 0 ∷ 0 ∷ 0 ∷ 0 ∷ 0 ∷ 0 ∷ 0 ∷ 0 ∷ 0 ∷ 0 ∷ 0 ∷ 0 ∷ 0 ∷ 0 ∷ 0 ∷ 0 ∷ 0 ∷ 0 ∷ 0 ∷ 0 ∷ 0 ∷ 0 ∷ 0
    ∷ 0 ∷ 0 ∷ 0 ∷ 0 ∷ 0 ∷ 0 ∷ 0 ∷ 0 ∷ []

abbrev pub empty_commit : {V : Type 0} → ℕ → Epoch → CommitRecord V
empty_commit transaction_id epoch = record {
  database_id = codes "local";
  branch_id = codes "main";
  transaction_id = transaction_id;
  epoch = epoch;
  parent_epoch = epoch - 1;
  previous_commit_hash = zero_checksum;
  idempotency_key = none;
  schema_epoch = epoch;
  policy_epoch = epoch;
  schema_changes = [];
  replacements = [];
  mutations = [];
  deletions = [];
  feature_invalidations = [];
  module_events = [];
  idempotency_receipts = [];
  job_events = [];
  commit_marker = codes "COMMITTED";
}

-- What the log takes from serde_json and sha2, and the cipher of an `EncryptionContext`.
pub record Codec (V : Type 0) : Type 0 where
  pub to_vec : CommitRecord V → Result TraceDbError (List ℕ)
  pub from_slice : List ℕ → Result TraceDbError (CommitRecord V)
  pub checksum_bytes : List ℕ → List ℕ

pub record EncryptionContext : Type 0 where
  pub encrypt_artifact : Text → List ℕ → Result TraceDbError (List ℕ)
  pub decrypt_artifact : Text → List ℕ → Result TraceDbError (List ℕ)

-- `ENCRYPTED_ARTIFACT_MAGIC`.
abbrev pub encrypted_artifact_magic : List ℕ
encrypted_artifact_magic = codes "TDBENC01"

abbrev pub is_encrypted_artifact : List ℕ → Bool
is_encrypted_artifact body = starts_with body encrypted_artifact_magic

unfoldable pub decrypt_artifact_if_needed :
    Option EncryptionContext → Text → List ℕ → Result TraceDbError (List ℕ)
decrypt_artifact_if_needed context artifact_kind body =
    if is_encrypted_artifact body
    then (do
      given ←
          ok_or context
            (crypto (codes "TRACEDB_MASTER_KEY_B64 is required to open encrypted TraceDB data"))
      given.decrypt_artifact artifact_kind body)
    else ok body

-- The documented behaviour of these libraries: a commit that is encoded is a JSON object and so no
-- encrypted artifact, a digest has 32 bytes, and what is encrypted says so and decrypts.
pub record IsLawful {V : Type 0} (codec : Codec V) (encryption : Option EncryptionContext)
    : Type 0 where
  pub plain :
      (c : CommitRecord V) (bytes : List ℕ)
      → codec.to_vec c ≡ ok bytes
      → is_encrypted_artifact bytes ≡ false
  pub digests : (bytes : List ℕ) → length (codec.checksum_bytes bytes) ≡ 32
  pub sealed :
      (context : EncryptionContext) (bytes body : List ℕ)
      → encryption ≡ some context
      → context.encrypt_artifact (codes "wal") bytes ≡ ok body
      → is_encrypted_artifact body ≡ true
  pub decrypts :
      (context : EncryptionContext) (bytes body : List ℕ)
      → encryption ≡ some context
      → context.encrypt_artifact (codes "wal") bytes ≡ ok body
      → context.decrypt_artifact (codes "wal") body ≡ ok bytes

-- The JSON of this commit, chained to any hash, decodes to the second one, which has its epochs and
-- its marker. The two need not be equal: serde_json may change a double.
pub record DecodesAs {V : Type 0} (codec : Codec V) (c d : CommitRecord V) : Type 0 where
  pub read :
      (hash bytes : List ℕ)
      → codec.to_vec (record c { previous_commit_hash = hash }) ≡ ok bytes
      → codec.from_slice bytes ≡ ok (record d { previous_commit_hash = hash })
  pub same_epoch : d.epoch ≡ c.epoch
  pub same_parent : d.parent_epoch ≡ c.parent_epoch
  pub same_marker : d.commit_marker ≡ c.commit_marker

-- What a JSON round trip makes of each commit.
abbrev pub Decodes :
    {V : Type 0} → Codec V → (CommitRecord V → CommitRecord V) → CommitRecord V → Type 0
Decodes codec image c = DecodesAs codec c (image c)
