-- ===== src/Audit/Sink/Synced.antt =====
-- internal/audit/filesink.go: where the sink stands in its log, through Append and Verify.
use phantom_traffic.Prelude.{
  ℕ, ◌+◌, ◌%◌, ◌^◌, ◌<◌, ◌≡◌, ◌∙◌, refl, sym, ap, subst, true, false, List, [], ◌∷◌, ◌++◌, Option,
  none, some, ◌⊎◌, inl, inr, arith, ◌==◌, if◌then◌else◌, All, zero, suc,
}
use phantom_traffic.Audit.{Event}
use phantom_traffic.Audit.Encoding.{Bytes}
use phantom_traffic.Audit.Encoding.Injective.{IsEncodable}
use phantom_traffic.Audit.Chain.{
  Stored, torn, written, Line, Disk, lines, Std, SinkErr, bad_seq, bad_json, closed_err, sync_err,
  write_err, same_bytes, too_long, replay_line, replay,
}
use phantom_traffic.Audit.Chain.Replay.{same_bytes→≡, Collision, records, replay_unique}
use phantom_traffic.Audit.Sink.{
  FileSink, Io, write_fails, sync_fails, io_ok, append_line, new_record, commit, append, verify,
  verify_replayed, validate_event,
}
use phantom_traffic.Audit.Sink.Lines.{
  Synced, append_invalid, append_valid, append_open, append_line_whole, commit_one, replay_one,
  accepted,
}

-- What Append does with an event that it does not refuse, by the answer of the file system.
abbrev pub Committed :
    Std → Io → Stored → FileSink → List Line → FileSink × Disk × Option SinkErr → Type 0
Committed std io_ok r s ls after =
    (after ≡ (
      record s { next_seq = (s.next_seq + 1) % 2 ^ 64; tail_hash = r.hash },
      lines (ls ++ written r ∷ []),
      none,
    ))
    × Synced std after.0 after.1
Committed std (write_fails zero) r s ls after = after ≡ (s, lines ls, some write_err)
Committed std (write_fails (suc n)) r s ls after =
    (after ≡ (s, lines (ls ++ torn (suc n) ∷ []), some write_err))
    × (suc n < std.json_size r → replay std after.1 ≡ inl (bad_json s.next_seq))
Committed std sync_fails r s ls after =
    (after ≡ (s, lines (ls ++ written r ∷ []), some sync_err))
    × (replay std after.1 ≡ inr ((s.next_seq + 1) % 2 ^ 64, r.hash))

commit-Committed :
    (std : Std) (io : Io) (now : ℕ) (e : Event) (s : FileSink) (ls : List Line)
    → too_long std (written (new_record std now e s)) ≡ false
    → Synced std s (lines ls)
    → let r = new_record std now e s in Committed std io r s ls (commit std io r s (lines ls))
unfolding commit too_long replay_line
commit-Committed std (write_fails zero) now e s ls short k = refl
commit-Committed std (write_fails (suc n)) now e s ls short k =
    let whole = append_line_whole std (torn (suc n)) ls (s.next_seq, s.tail_hash) k in
    (
      ap (λ d. (s, d, some write_err)) whole,
      λ part.
          ap (replay std) whole
          ∙ replay_one std ls (torn (suc n)) s.next_seq s.tail_hash (ground arith) k,
    )
commit-Committed std sync_fails now e s ls short k =
    let whole = append_line_whole std _ ls (s.next_seq, s.tail_hash) k in
    (ap (λ d. (s, d, some sync_err)) whole, commit_one std now e s ls short k)
commit-Committed std io_ok now e s ls short k =
    let r = new_record std now e s in
    let whole = append_line_whole std (written r) ls (s.next_seq, s.tail_hash) k in
    (
      ap (λ d. (record s { next_seq = (s.next_seq + 1) % 2 ^ 64; tail_hash = r.hash }, d, none))
          whole,
      commit_one std now e s ls short k,
    )

-- Append, on a sink that stands at the end of its log. A refused event and a closed sink change neither
-- the sink nor the log. Otherwise: when Write and Sync succeed, the log gains the one line of the new
-- record, and the sink takes its digest and the next number (modulo 2^64), which is the end of the log
-- again. A Write that fails leaves the sink as it is, and the log too if nothing was written; if a part
-- of the JSON was, the log no longer replays. A Sync that fails leaves the sink as it is, one record
-- behind the log. Condition: the record's line is within the scanner's limit.
pub append-Synced :
    (std : Std) (io : Io) (now : ℕ) (e : Event) (s : FileSink) (ls : List Line)
    → too_long std (written (new_record std now e s)) ≡ false
    → Synced std s (lines ls)
    → let after = append std io now e s (lines ls) in
      ((err : SinkErr) → validate_event std e ≡ some err → after ≡ (s, lines ls, some err))
      × (validate_event std e ≡ none → s.closed ≡ true → after ≡ (s, lines ls, some closed_err))
      × (validate_event std e ≡ none
          → s.closed ≡ false
          → Committed std io (new_record std now e s) s ls after)
append-Synced std io now e s ls short k = (
  λ err invalid. append_invalid std io now e s (lines ls) err invalid,
  λ valid shut.
      append_valid std io now e s (lines ls) valid
      ∙ ap
          (λ b.
            if b
            then (s, lines ls, some closed_err)
            else commit std io (new_record std now e s) s (lines ls))
          shut,
  λ valid still.
      let r = new_record std now e s in
      subst (Committed std io r s ls) (sym (append_open std io now e s (lines ls) valid still))
        (commit-Committed std io now e s ls short k),
)

verify-Synced : (std : Std) (s : FileSink) (d : Disk) → verify std true s d ≡ none → Synced std s d
unfolding verify verify_replayed
verify-Synced std s d h = go (replay std d) (ground arith)
  where
    go :
        (o : SinkErr ⊎ (ℕ × Bytes)) → verify_replayed s o ≡ none → o ≡ inr (s.next_seq, s.tail_hash)
    go (inl e) h = absurd cc
    go (inr (seq, prev)) h =
        let number : seq ≡ s.next_seq = ground arith in
        let tail : same_bytes prev s.tail_hash ≡ true = ground arith in
        λ i. inr (number i, same_bytes→≡ prev s.tail_hash tail i)

-- A sink that stands at the end of its log finds any other history: when Verify passes on the file as
-- it is now, the file holds the records it held, or there are two different texts with one digest.
-- Condition: in both, the numbers of a record and the lengths of its texts are below 2^64.
pub verify_detects :
    (std : Std) (s : FileSink) (before after : Disk)
    → All (λ r. IsEncodable r.body) (records before)
    → All (λ r. IsEncodable r.body) (records after)
    → Synced std s before
    → verify std true s after ≡ none
    → (records before ≡ records after) ⊎ Collision std
verify_detects std s before after a b h k =
    replay_unique std before after s.next_seq s.next_seq s.tail_hash a b h
      (verify-Synced std s after k)

out_of_order :
    (std : Std) (seq : ℕ) (prev : Bytes) (r : Stored)
    → (r.body.seq == seq) ≡ false
    → replay_line std seq prev (written r) ≡ inl (bad_seq seq)
unfolding replay_line
out_of_order std seq prev r h = rw (h, replay_line) refl

-- A record that was written but not synced is not counted. When a sink at the end of its log appends
-- an event whose Sync fails, and then another whose Write and Sync succeed, the second append returns
-- no error and the log no longer replays: both records carry the same number, and the replay refuses
-- the second. Conditions: the sink is open, its number is below the last one, both events are valid and
-- both lines are within the scanner's limit.
pub sync_failure_breaks :
    (std : Std) (now later : ℕ) (e f : Event) (s : FileSink) (ls : List Line)
    → s.closed ≡ false
    → s.next_seq + 1 < 2 ^ 64
    → validate_event std e ≡ none
    → validate_event std f ≡ none
    → too_long std (written (new_record std now e s)) ≡ false
    → too_long std (written (new_record std later f s)) ≡ false
    → Synced std s (lines ls)
    → let d = lines (ls ++ written (new_record std now e s) ∷ []) in
      let d' = lines (
        (ls ++ written (new_record std now e s) ∷ []) ++ written (new_record std later f s) ∷ []) in
      (append std sync_fails now e s (lines ls) ≡ (s, d, some sync_err))
      × ((append std io_ok later f s d).1 ≡ d')
      × ((append std io_ok later f s d).2 ≡ none)
      × (replay std d' ≡ inl (bad_seq (s.next_seq + 1)))
unfolding commit append_line replay_line new_record
sync_failure_breaks std now later e f s ls still small v w short short' h =
    let first = append_open std sync_fails now e s (lines ls) v still in
    let logged = lines (ls ++ written (new_record std now e s) ∷ []) in
    let second = append_open std io_ok later f s logged w still in
    let after_one =
      replay_one std ls (written (new_record std now e s)) s.next_seq s.tail_hash short h
      ∙ accepted std now e s in
    let after_two =
      replay_one std (ls ++ written (new_record std now e s) ∷ [])
        (written (new_record std later f s)) ((s.next_seq + 1) % 2 ^ 64)
        (new_record std now e s).hash short' after_one in
    let number : (s.next_seq + 1) % 2 ^ 64 ≡ s.next_seq + 1 = omega arith in
    let refused =
      out_of_order std ((s.next_seq + 1) % 2 ^ 64) (new_record std now e s).hash
        (new_record std later f s) (ground arith)
      ∙ ap (λ n. inl (bad_seq n)) number in
    (
      first
          ∙ ap (λ x. (s, x, some sync_err))
              (append_line_whole std _ ls (s.next_seq, s.tail_hash) h),
      ap (λ x. x.1) second ∙ append_line_whole std _ _ _ after_one,
      ap (λ x. x.2) second,
      after_two ∙ refused,
    )
