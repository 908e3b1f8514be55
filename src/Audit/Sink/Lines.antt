-- ===== src/Audit/Sink/Lines.antt =====
-- internal/audit/filesink.go: the lines that Append adds to the log.
use phantom_traffic.Prelude.{
  ℕ, ◌+◌, ◌%◌, ◌^◌, ◌≡◌, ◌∙◌, refl, sym, ap, true, false, List, [], ◌∷◌, ◌++◌, none, some, ◌⊎◌, inl,
  inr, arith, ◌==◌, if◌then◌else◌, Bool-cases,
}
use phantom_traffic.Audit.{Event}
use phantom_traffic.Audit.Encoding.{Bytes}
use phantom_traffic.Audit.Chain.{
  blank, not_json, torn, written, Line, Disk, lines, Std, SinkErr, bad_json, closed_err,
  genesis_hash, too_long, replay_line, replay_lines, replay, scan_err,
}
use phantom_traffic.Audit.Chain.Replay.{same_bytes_refl}
use phantom_traffic.Audit.Sink.{
  FileSink, Io, append_line, add_line, new_record, commit, append, validate_event,
}

-- The sink stands where a replay of its log ends.
abbrev pub Synced : Std → FileSink → Disk → Type 0
Synced std s d = replay std d ≡ inr (s.next_seq, s.tail_hash)

replay_lines_error :
    (std : Std) (ls : List Line) (e : SinkErr) → replay_lines std ls (inl e) ≡ inl e
unfolding replay_lines
replay_lines_error std [] e = refl
replay_lines_error std (l ∷ ls) e = refl

replay_append :
    (std : Std) (ls ms : List Line) (o : SinkErr ⊎ (ℕ × Bytes))
    → replay_lines std (ls ++ ms) o ≡ replay_lines std ms (replay_lines std ls o)
unfolding replay_lines
replay_append std ls ms (inl e) =
    replay_lines_error std (ls ++ ms) e
    ∙ sym (ap (replay_lines std ms) (replay_lines_error std ls e) ∙ replay_lines_error std ms e)
replay_append std [] ms (inr (seq, prev)) = refl
replay_append std (l ∷ ls) ms (inr (seq, prev)) =
    replay_append std ls ms (if too_long std l then inl scan_err else replay_line std seq prev l)

replay_lines-nil : (std : Std) (o : SinkErr ⊎ (ℕ × Bytes)) → replay_lines std [] o ≡ o
unfolding replay_lines
replay_lines-nil std (inl e) = refl
replay_lines-nil std (inr (seq, prev)) = refl

torn_stops :
    (std : Std) (size seq : ℕ) (prev : Bytes) (v : ℕ × Bytes)
    → replay_lines std (torn size ∷ []) (inr (seq, prev)) ≡ inr v
    → ⊥
unfolding replay_lines replay_line
torn_stops std size seq prev v h = elim (Bool-cases (too_long std (torn size))) [
  | inl long ↦ let bad : inl scan_err ≡ inr v = rw (long, replay_lines) at h in cc
  | inr short ↦ let bad : inl (bad_json seq) ≡ inr v = rw (short, replay_lines) at h in cc
]

-- The log after one more line.
pub replay_one :
    (std : Std) (ls : List Line) (l : Line) (seq : ℕ) (prev : Bytes)
    → too_long std l ≡ false
    → replay std (lines ls) ≡ inr (seq, prev)
    → replay std (lines (ls ++ l ∷ [])) ≡ replay_line std seq prev l
unfolding replay replay_lines
replay_one std ls l seq prev h e =
    let last : replay_lines std (l ∷ []) (inr (seq, prev)) ≡ replay_line std seq prev l =
      rw (h, replay_lines) (replay_lines-nil std (replay_line std seq prev l)) in
    replay_append std ls (l ∷ []) (inr (0, genesis_hash std))
    ∙ ap (replay_lines std (l ∷ [])) e
    ∙ last

pub accepted :
    (std : Std) (now : ℕ) (e : Event) (s : FileSink)
    → replay_line std s.next_seq s.tail_hash (written (new_record std now e s))
      ≡ inr ((s.next_seq + 1) % 2 ^ 64, (new_record std now e s).hash)
unfolding replay_line new_record
accepted std now e s =
    let number : (s.next_seq == s.next_seq) ≡ true = ground arith in
    let digest = (new_record std now e s).hash in
    rw (number, same_bytes_refl s.tail_hash, same_bytes_refl digest) refl

pub append_invalid :
    (std : Std) (io : Io) (now : ℕ) (e : Event) (s : FileSink) (d : Disk) (err : SinkErr)
    → validate_event std e ≡ some err
    → append std io now e s d ≡ (s, d, some err)
unfolding append
append_invalid std io now e s d err h = rw (h, append) refl

pub append_valid :
    (std : Std) (io : Io) (now : ℕ) (e : Event) (s : FileSink) (d : Disk)
    → validate_event std e ≡ none
    → append std io now e s d
      ≡ (if s.closed then (s, d, some closed_err) else commit std io (new_record std now e s) s d)
unfolding append
append_valid std io now e s d h = rw (h, append) refl

abbrev turn : Std → ℕ → Bytes → Line → SinkErr ⊎ (ℕ × Bytes)
turn std seq prev l = if too_long std l then inl scan_err else replay_line std seq prev l

pub append_open :
    (std : Std) (io : Io) (now : ℕ) (e : Event) (s : FileSink) (d : Disk)
    → validate_event std e ≡ none
    → s.closed ≡ false
    → append std io now e s d ≡ commit std io (new_record std now e s) s d
append_open std io now e s d valid still =
    append_valid std io now e s d valid
    ∙ ap (λ b. if b then (s, d, some closed_err) else commit std io (new_record std now e s) s d)
        still

-- A log that replays does not end in a torn line, so the next line is a line of its own.
add_line_whole :
    (std : Std) (l : Line) (ls : List Line) (o : SinkErr ⊎ (ℕ × Bytes)) (v : ℕ × Bytes)
    → replay_lines std ls o ≡ inr v
    → add_line std l ls ≡ ls ++ l ∷ []
unfolding replay_lines add_line
add_line_whole std l ls (inl e) v h =
    let bad : inl e ≡ inr v = sym (replay_lines_error std ls e) ∙ h in absurd cc
add_line_whole std l [] (inr (seq, prev)) v h = refl
add_line_whole std l (torn size ∷ []) (inr (seq, prev)) v h =
    absurd (torn_stops std size seq prev v h)
add_line_whole std l (torn size ∷ m ∷ ms) (inr (seq, prev)) v h =
    ap (λ ks. torn size ∷ ks) (add_line_whole std l (m ∷ ms) (turn std seq prev (torn size)) v h)
add_line_whole std l (blank ∷ ms) (inr (seq, prev)) v h =
    ap (λ ks. blank ∷ ks) (add_line_whole std l ms (turn std seq prev blank) v h)
add_line_whole std l (not_json size ∷ ms) (inr (seq, prev)) v h =
    ap (λ ks. not_json size ∷ ks) (add_line_whole std l ms (turn std seq prev (not_json size)) v h)
add_line_whole std l (written r ∷ ms) (inr (seq, prev)) v h =
    ap (λ ks. written r ∷ ks) (add_line_whole std l ms (turn std seq prev (written r)) v h)

pub append_line_whole :
    (std : Std) (l : Line) (ls : List Line) (v : ℕ × Bytes)
    → replay std (lines ls) ≡ inr v
    → append_line std l (lines ls) ≡ lines (ls ++ l ∷ [])
unfolding append_line replay
append_line_whole std l ls v h = ap lines (add_line_whole std l ls (inr (0, genesis_hash std)) v h)

pub commit_one :
    (std : Std) (now : ℕ) (e : Event) (s : FileSink) (ls : List Line)
    → too_long std (written (new_record std now e s)) ≡ false
    → Synced std s (lines ls)
    → replay std (append_line std (written (new_record std now e s)) (lines ls))
      ≡ inr ((s.next_seq + 1) % 2 ^ 64, (new_record std now e s).hash)
commit_one std now e s ls short k =
    let r = new_record std now e s in
    ap (replay std) (append_line_whole std (written r) ls (s.next_seq, s.tail_hash) k)
    ∙ replay_one std ls (written r) s.next_seq s.tail_hash short k
    ∙ accepted std now e s
