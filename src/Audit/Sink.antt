-- ===== src/Audit/Sink.antt =====
-- internal/audit/filesink.go and ValidateEvent of audit.go: the sink that appends to the log. Texts
-- are read as ASCII: their case, their blanks and their order are those of their bytes.
pub mod Lines
pub mod Synced
use phantom_traffic.Prelude.{
  ℕ, zero, suc, ◌+◌, ◌%◌, ◌^◌, Bool, true, false, not, ◌&&◌, ◌||◌, List, [], ◌∷◌, ◌++◌, map, Option,
  none, some, ◌⊎◌, inl, inr, String, ltb, ◌==◌, if◌then◌else◌,
}
use phantom_traffic.Prelude.Dict.{Dict}
use phantom_traffic.Prelude.Text.{to_lower, contains, is_blank}
use phantom_traffic.Audit.{
  Action, tls_verification_skipped, ssh_host_key_unverified, cap_override_enabled, scenario_started,
  scenario_stopped, scenario_patched, Event,
}
use phantom_traffic.Audit.Encoding.{Bytes, Record, record_bytes}
use phantom_traffic.Audit.Chain.{
  Stored, blank, not_json, torn, written, Line, Disk, missing, unreadable, lines, Std, SinkErr,
  write_err, sync_err, closed_err, tail_diverges, empty_actor, empty_resource, secret_actor,
  secret_resource, secret_key, secret_value, same_bytes, replay,
}

unfoldable pub action_text : Action → String
action_text tls_verification_skipped = "tls.verification_skipped"
action_text ssh_host_key_unverified = "ssh.host_key_unverified"
action_text cap_override_enabled = "safety.cap_override_enabled"
action_text scenario_started = "scenario.started"
action_text scenario_stopped = "scenario.stopped"
action_text scenario_patched = "scenario.patched"

unfoldable pub sensitive_substrings : List Bytes
sensitive_substrings =
    (97 ∷ 117 ∷ 116 ∷ 104 ∷ 111 ∷ 114 ∷ 105 ∷ 122 ∷ 97 ∷ 116 ∷ 105 ∷ 111 ∷ 110 ∷ [])
    ∷ (99 ∷ 111 ∷ 111 ∷ 107 ∷ 105 ∷ 101 ∷ [])
    ∷ (112 ∷ 97 ∷ 115 ∷ 115 ∷ 119 ∷ 111 ∷ 114 ∷ 100 ∷ [])
    ∷ (112 ∷ 97 ∷ 115 ∷ 115 ∷ 119 ∷ 100 ∷ [])
    ∷ (115 ∷ 101 ∷ 99 ∷ 114 ∷ 101 ∷ 116 ∷ [])
    ∷ (116 ∷ 111 ∷ 107 ∷ 101 ∷ 110 ∷ [])
    ∷ (97 ∷ 112 ∷ 105 ∷ 107 ∷ 101 ∷ 121 ∷ [])
    ∷ (97 ∷ 112 ∷ 105 ∷ 95 ∷ 107 ∷ 101 ∷ 121 ∷ [])
    ∷ (99 ∷ 114 ∷ 101 ∷ 100 ∷ 101 ∷ 110 ∷ 116 ∷ 105 ∷ 97 ∷ 108 ∷ [])
    ∷ (112 ∷ 114 ∷ 105 ∷ 118 ∷ 97 ∷ 116 ∷ 101 ∷ 95 ∷ 107 ∷ 101 ∷ 121 ∷ [])
    ∷ (98 ∷ 101 ∷ 97 ∷ 114 ∷ 101 ∷ 114 ∷ 32 ∷ [])
    ∷ []

unfoldable pub any_marker : List Bytes → Bytes → Bool
unfolding contains
any_marker [] low = false
any_marker (marker ∷ markers) low = contains low marker || any_marker markers low

unfoldable pub contains_sensitive : Bytes → Bool
unfolding any_marker to_lower sensitive_substrings
contains_sensitive s = any_marker sensitive_substrings (map to_lower s)

unfoldable pub validate_detail : List (Bytes × Bytes) → Option SinkErr
unfolding contains_sensitive
validate_detail [] = none
validate_detail ((k, v) ∷ detail) =
    if contains_sensitive k
    then some secret_key
    else if contains_sensitive v
    then some secret_value
    else validate_detail detail

unfoldable pub byte_detail : Std → Dict String → List (Bytes × Bytes)
byte_detail std [] = []
byte_detail std ((k, v) ∷ detail) = (std.bytes_of k, std.bytes_of v) ∷ byte_detail std detail

-- The action is always one of the known ones: its type is closed.
unfoldable pub validate_event : Std → Event → Option SinkErr
unfolding is_blank contains_sensitive validate_detail byte_detail
validate_event std e =
    if is_blank (std.bytes_of e.actor)
    then some empty_actor
    else if is_blank (std.bytes_of e.resource)
    then some empty_resource
    else if contains_sensitive (std.bytes_of e.actor)
    then some secret_actor
    else if contains_sensitive (std.bytes_of e.resource)
    then some secret_resource
    else validate_detail (byte_detail std e.detail)

-- sort.Strings, on the keys of the detail.
unfoldable pub leb_bytes : Bytes → Bytes → Bool
leb_bytes [] b = true
leb_bytes (x ∷ a) [] = false
leb_bytes (x ∷ a) (y ∷ b) = ltb x y || ((x == y) && leb_bytes a b)

unfoldable pub insert_key : Bytes × Bytes → List (Bytes × Bytes) → List (Bytes × Bytes)
unfolding leb_bytes
insert_key entry [] = entry ∷ []
insert_key (k, v) ((k', v') ∷ rest) =
    let later = insert_key (k, v) rest in
    if leb_bytes k k' then (k, v) ∷ (k', v') ∷ rest else (k', v') ∷ later

unfoldable pub sort_keys : List (Bytes × Bytes) → List (Bytes × Bytes)
unfolding insert_key
sort_keys [] = []
sort_keys (entry ∷ rest) = insert_key entry (sort_keys rest)

pub record FileSink : Type 0 where
  pub agent_id : Bytes
  pub next_seq : ℕ
  pub tail_hash : Bytes
  pub closed : Bool

-- What the file system answers: Write fails after so many bytes, less than the JSON of the record;
-- Sync fails after the write; or both succeed.
pub data Io : Type 0 where
  write_fails : ℕ → Io
  sync_fails io_ok : Io

-- os.OpenFile with O_CREATE.
unfoldable pub create : Disk → Disk
create missing = lines []
create unreadable = unreadable
create (lines ls) = lines ls

-- A line that is written behind a torn one continues it, and is not JSON then either.
unfoldable pub continue_line : Std → ℕ → Line → Line
continue_line std size blank = not_json size
continue_line std size (not_json more) = not_json (size + more)
continue_line std size (torn more) = torn (size + more)
continue_line std size (written r) = not_json (size + std.json_size r)

unfoldable pub add_line : Std → Line → List Line → List Line
unfolding continue_line
add_line std l [] = l ∷ []
add_line std l (torn size ∷ []) = continue_line std size l ∷ []
add_line std l (m ∷ ms) = m ∷ add_line std l ms

unfoldable pub append_line : Std → Line → Disk → Disk
unfolding add_line
append_line std l missing = missing
append_line std l unreadable = unreadable
append_line std l (lines ls) = lines (add_line std l ls)

unfoldable pub new_file_sink : Std → Bytes → Disk → Disk × (SinkErr ⊎ FileSink)
unfolding replay create
new_file_sink std agent_id d = elim (replay std d) [
  | inl e ↦ (d, inl e)
  | inr (next_seq, tail_hash) ↦ (
    create d,
    inr (record {
      agent_id = agent_id;
      next_seq = next_seq;
      tail_hash = tail_hash;
      closed = false;
    }),
  )
]

unfoldable pub new_record : Std → ℕ → Event → FileSink → Stored
unfolding byte_detail sort_keys action_text
new_record std now e s =
    let body : Record = record {
      seq = s.next_seq;
      unix_nano = now;
      agent_id = s.agent_id;
      actor = std.bytes_of e.actor;
      action = std.bytes_of (action_text e.action);
      resource = std.bytes_of e.resource;
      detail = sort_keys (byte_detail std e.detail);
      prev_hash = s.tail_hash;
    } in
    record { body = body; hash = std.sum_hex (record_bytes body) }

-- Write, Sync, and the advance of the chain.
unfoldable pub commit : Std → Io → Stored → FileSink → Disk → FileSink × Disk × Option SinkErr
unfolding append_line
commit std (write_fails zero) r s d = (s, d, some write_err)
commit std (write_fails (suc n)) r s d = (s, append_line std (torn (suc n)) d, some write_err)
commit std sync_fails r s d = (s, append_line std (written r) d, some sync_err)
commit std io_ok r s d = (
  record s { tail_hash = r.hash; next_seq = (s.next_seq + 1) % 2 ^ 64 },
  append_line std (written r) d,
  none,
)

unfoldable pub append : Std → Io → ℕ → Event → FileSink → Disk → FileSink × Disk × Option SinkErr
unfolding validate_event new_record commit
append std io now e s d = elim (validate_event std e) [
  | some err ↦ (s, d, some err)
  | none ↦ if s.closed then (s, d, some closed_err) else commit std io (new_record std now e s) s d
]

-- The cross-check of Verify with the outcome of the replay.
unfoldable pub verify_replayed : FileSink → SinkErr ⊎ (ℕ × Bytes) → Option SinkErr
unfolding same_bytes
verify_replayed s (inl e) = some e
verify_replayed s (inr (on_disk_seq, on_disk_tail)) =
    if not (on_disk_seq == s.next_seq) || not (same_bytes on_disk_tail s.tail_hash)
    then some tail_diverges
    else none

unfoldable pub verify : Std → Bool → FileSink → Disk → Option SinkErr
unfolding replay verify_replayed
verify std synced s d =
    if s.closed || not synced then some sync_err else verify_replayed s (replay std d)

unfoldable pub close : FileSink → FileSink
close s = record s { closed = true }
