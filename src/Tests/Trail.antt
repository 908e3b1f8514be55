-- ===== src/Tests/Trail.antt =====
-- Runs of the audit trail, with the identity for a digest.
use phantom_traffic.Prelude.{◌≡◌, refl, true, false, [], ◌∷◌, none, some, ◌⊎◌, inl, All, arith}
use phantom_traffic.Audit.{Event, scenario_started, scenario_stopped}
use phantom_traffic.Audit.Encoding.{detail_fields, record_bytes}
use phantom_traffic.Audit.Encoding.Injective.{IsEncodable}
use phantom_traffic.Audit.Chain.{
  Stored, Disk, lines, written, Std, bad_seq, sync_err, closed_err, SinkErr, genesis_text,
  genesis_hash, replay, too_long,
}
use phantom_traffic.Audit.Chain.Replay.{Collision, records}
use phantom_traffic.Audit.Sink.{
  FileSink, io_ok, sync_fails, write_fails, validate_event, new_record, append, verify, sort_keys,
  byte_detail,
}
use phantom_traffic.Audit.Sink.Synced.{
  Committed, append-Synced, verify_detects, sync_failure_breaks,
}

abbrev toy_std : Std
toy_std = record { sum_hex = λ b. b; bytes_of = λ s. 97 ∷ []; json_size = λ r. 200 }

abbrev started : Event
started = record {
  actor = "cli";
  action = scenario_started;
  resource = "run-1";
  detail = ("agent_count", "3") ∷ [];
}

abbrev stopped : Event
stopped = record { actor = "cli"; action = scenario_stopped; resource = "run-1"; detail = [] }

abbrev new_sink : FileSink
new_sink = record {
  agent_id = 97 ∷ [];
  next_seq = 0;
  tail_hash = genesis_hash toy_std;
  closed = false;
}

abbrev first_record : Stored
first_record = new_record toy_std 5 started new_sink

abbrev sink_after : FileSink
sink_after = record new_sink { next_seq = 1; tail_hash = first_record.hash }

abbrev one_record : Disk
one_record = lines (written first_record ∷ [])

append-Synced_example :
    let after = append toy_std (write_fails 20) 5 started new_sink (lines []) in
    ((err : SinkErr)
      → validate_event toy_std started ≡ some err
      → after ≡ (new_sink, lines [], some err))
    × (validate_event toy_std started ≡ none
        → new_sink.closed ≡ true
        → after ≡ (new_sink, lines [], some closed_err))
    × (validate_event toy_std started ≡ none
        → new_sink.closed ≡ false
        → Committed toy_std (write_fails 20) first_record new_sink [] after)
unfolding too_long replay
append-Synced_example = append-Synced toy_std (write_fails 20) 5 started new_sink [] refl refl

one_record-IsEncodable : All (λ r. IsEncodable r.body) (records one_record)
unfolding records new_record detail_fields sort_keys byte_detail genesis_hash genesis_text
one_record-IsEncodable = (
  (
    ground arith,
    ground arith,
    ground arith,
    ground arith,
    ground arith,
    ground arith,
    ground arith,
    (ground arith, (ground arith, (ground arith, tt))),
  ),
  tt,
)

verify_detects_example : (records one_record ≡ records one_record) ⊎ Collision toy_std
unfolding verify replay append new_record record_bytes
verify_detects_example =
    verify_detects toy_std sink_after one_record one_record one_record-IsEncodable
      one_record-IsEncodable refl refl

sync_failure_breaks_example :
    (append toy_std sync_fails 5 started new_sink (lines [])
      ≡ (new_sink, one_record, some sync_err))
    × ((append toy_std io_ok 6 stopped new_sink one_record).1
        ≡ lines (written first_record ∷ written (new_record toy_std 6 stopped new_sink) ∷ []))
    × ((append toy_std io_ok 6 stopped new_sink one_record).2 ≡ none)
    × (replay toy_std
          (lines (written first_record ∷ written (new_record toy_std 6 stopped new_sink) ∷ []))
        ≡ inl (bad_seq 1))
unfolding verify replay append new_record
sync_failure_breaks_example =
    sync_failure_breaks toy_std 5 6 started stopped new_sink [] refl (omega arith) refl refl refl
      refl refl
