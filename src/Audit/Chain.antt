-- ===== src/Audit/Chain.antt =====
-- internal/audit/filesink.go, with ValidateEvent of audit.go: the file sink and its chain of digests.
-- A log is its lines. json.Marshal and json.Unmarshal are taken to give a record back, so that a line
-- is a record, or is not JSON, or is blank. The last may be torn: a part of a record's JSON, which is
-- no JSON, without a newline.
pub mod Replay
use phantom_traffic.Prelude.{
  ℕ, ◌+◌, ◌^◌, ◌%◌, Bool, true, false, not, ◌&&◌, List, [], ◌∷◌, ◌⊎◌, inl, inr, String, leb, ◌==◌,
  if◌then◌else◌,
}
use phantom_traffic.Audit.Encoding.{Bytes, Record, record_bytes}

-- Record: the body that the digest is taken of, and the digest.
pub record Stored : Type 0 where
  pub body : Record
  pub hash : Bytes

pub data Line : Type 0 where
  blank : Line
  not_json : ℕ → Line
  torn : ℕ → Line
  written : Stored → Line

-- A file that is missing, one that cannot be opened, and one that can be read.
pub data Disk : Type 0 where
  missing unreadable : Disk
  lines : List Line → Disk

-- What the sink uses of the standard library: the hexadecimal SHA-256 digest, the bytes of a text, and
-- the length of the JSON of a record.
pub record Std : Type 0 where
  pub sum_hex : Bytes → Bytes
  pub bytes_of : String → Bytes
  pub json_size : Stored → ℕ

pub data SinkErr : Type 0 where
  open_err scan_err write_err sync_err closed_err tail_diverges : SinkErr
  empty_actor empty_resource secret_actor secret_resource secret_key secret_value : SinkErr
  bad_json bad_seq bad_prev bad_hash : ℕ → SinkErr

-- "phantomtraffic.audit.genesis.v1"
unfoldable pub genesis_text : Bytes
genesis_text =
    112 ∷ 104 ∷ 97 ∷ 110 ∷ 116 ∷ 111 ∷ 109 ∷ 116 ∷ 114 ∷ 97 ∷ 102 ∷ 102 ∷ 105 ∷ 99 ∷ 46 ∷ 97 ∷ 117
    ∷ 100 ∷ 105 ∷ 116 ∷ 46 ∷ 103 ∷ 101 ∷ 110 ∷ 101 ∷ 115 ∷ 105 ∷ 115 ∷ 46 ∷ 118 ∷ 49 ∷ []

unfoldable pub genesis_hash : Std → Bytes
unfolding genesis_text
genesis_hash std = std.sum_hex genesis_text

-- The comparison of two texts.
unfoldable pub same_bytes : Bytes → Bytes → Bool
same_bytes [] [] = true
same_bytes [] (b ∷ bs) = false
same_bytes (a ∷ as') [] = false
same_bytes (a ∷ as') (b ∷ bs) = (a == b) && same_bytes as' bs

-- The scanner's buffer holds a line and its newline up to 1 MiB.
unfoldable pub too_long : Std → Line → Bool
too_long std blank = false
too_long std (not_json size) = leb (2 ^ 20) size
too_long std (torn size) = leb (2 ^ 20) size
too_long std (written s) = leb (2 ^ 20) (std.json_size s)

-- One turn of replay's loop, from the position and the digest before it.
unfoldable pub replay_line : Std → ℕ → Bytes → Line → SinkErr ⊎ (ℕ × Bytes)
unfolding same_bytes
replay_line std seq prev blank = inr (seq, prev)
replay_line std seq prev (not_json size) = inl (bad_json seq)
replay_line std seq prev (torn size) = inl (bad_json seq)
replay_line std seq prev (written s) =
    if not (s.body.seq == seq)
    then inl (bad_seq seq)
    else if not (same_bytes s.body.prev_hash prev)
    then inl (bad_prev s.body.seq)
    else if not (same_bytes (std.sum_hex (record_bytes s.body)) s.hash)
    then inl (bad_hash s.body.seq)
    else inr ((seq + 1) % 2 ^ 64, s.hash)

unfoldable pub replay_lines : Std → List Line → SinkErr ⊎ (ℕ × Bytes) → SinkErr ⊎ (ℕ × Bytes)
unfolding replay_line too_long
replay_lines std ls (inl e) = inl e
replay_lines std [] (inr (seq, prev)) = inr (seq, prev)
replay_lines std (l ∷ ls) (inr (seq, prev)) =
    replay_lines std ls (if too_long std l then inl scan_err else replay_line std seq prev l)

unfoldable pub replay : Std → Disk → SinkErr ⊎ (ℕ × Bytes)
unfolding replay_lines genesis_hash
replay std missing = inr (0, genesis_hash std)
replay std unreadable = inl open_err
replay std (lines ls) = replay_lines std ls (inr (0, genesis_hash std))
