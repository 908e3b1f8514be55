-- ===== src/Audit/Encoding.antt =====
-- internal/audit/hash.go: the canonical bytes of a record, which the digest is taken of. A byte is a
-- number, and a text is its bytes; the detail is given in the order of its sorted keys.
pub mod Injective
use phantom_traffic.Prelude.{ℕ, ◌/◌, ◌%◌, ◌^◌, List, [], ◌∷◌, ◌++◌, length}
pub use phantom_traffic.Prelude.Text.{Bytes}

-- binary.BigEndian.PutUint64
unfoldable pub be64 : ℕ → Bytes
be64 n =
    (n / 2 ^ 56 % 256)
    ∷ (n / 2 ^ 48 % 256)
    ∷ (n / 2 ^ 40 % 256)
    ∷ (n / 2 ^ 32 % 256)
    ∷ (n / 2 ^ 24 % 256)
    ∷ (n / 2 ^ 16 % 256)
    ∷ (n / 2 ^ 8 % 256)
    ∷ (n % 256)
    ∷ []

unfoldable pub write_field : Bytes → Bytes
unfolding be64
write_field b = be64 (length b) ++ b

-- The fields of a record in their order, as bytes: a Record without its own hash.
pub record Record : Type 0 where
  pub seq : ℕ
  pub unix_nano : ℕ
  pub agent_id : Bytes
  pub actor : Bytes
  pub action : Bytes
  pub resource : Bytes
  pub detail : List (Bytes × Bytes)
  pub prev_hash : Bytes

unfoldable pub detail_fields : List (Bytes × Bytes) → Bytes → List Bytes
detail_fields [] prev = prev ∷ []
detail_fields ((k, v) ∷ detail) prev = k ∷ v ∷ detail_fields detail prev

unfoldable pub fields : Record → List Bytes
unfolding be64 detail_fields
fields r =
    be64 r.seq
    ∷ be64 r.unix_nano
    ∷ r.agent_id
    ∷ r.actor
    ∷ r.action
    ∷ r.resource
    ∷ be64 (length r.detail)
    ∷ detail_fields r.detail r.prev_hash

unfoldable pub write_all : List Bytes → Bytes
unfolding write_field
write_all [] = []
write_all (b ∷ bs) = write_field b ++ write_all bs

-- What recordHash feeds to SHA-256.
unfoldable pub record_bytes : Record → Bytes
unfolding fields write_all
record_bytes r = write_all (fields r)
