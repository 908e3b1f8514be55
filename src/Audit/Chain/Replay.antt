-- ===== src/Audit/Chain/Replay.antt =====
-- internal/audit/filesink.go: the records of a log and the digests that link them.
use phantom_traffic.Prelude.{
  ℕ, ◌%◌, ◌≡◌, ◌≢◌, ◌∙◌, refl, sym, subst, true, false, List, [], ◌∷◌, ◌⊎◌, inl, inr, arith,
  if◌then◌else◌, Bool-cases, All,
}
use phantom_traffic.Audit.Encoding.{
  Bytes, Record, record_bytes, fields, write_all, write_field, be64,
}
use phantom_traffic.Audit.Encoding.Injective.{IsEncodable, record_bytes_injective}
use phantom_traffic.Audit.Chain.{
  Stored, blank, not_json, torn, written, Line, Disk, missing, unreadable, lines, Std, SinkErr,
  scan_err, genesis_hash, genesis_text, same_bytes, too_long, replay_line, replay_lines, replay,
}

-- Two texts with one digest.
abbrev pub Collision : Std → Type 0
Collision std = (a : Bytes) × (b : Bytes) × (a ≢ b) × (std.sum_hex a ≡ std.sum_hex b)

unfoldable pub put : Line → List Stored → List Stored
put blank acc = acc
put (not_json size) acc = acc
put (torn size) acc = acc
put (written s) acc = s ∷ acc

-- The records of a log, the newest first.
unfoldable pub history : List Line → List Stored → List Stored
unfolding put
history [] acc = acc
history (l ∷ ls) acc = history ls (put l acc)

unfoldable pub records : Disk → List Stored
unfolding history
records missing = []
records unreadable = []
records (lines ls) = history ls []

-- Each record carries the digest of its body, and the digest of the one before it.
abbrev pub Linked : Std → List Stored → Bytes → Type 0
Linked std [] h = genesis_hash std ≡ h
Linked std (s ∷ older) h =
    (s.hash ≡ h) × (std.sum_hex (record_bytes s.body) ≡ h) × Linked std older s.body.prev_hash

pub same_bytes→≡ : (a b : Bytes) → same_bytes a b ≡ true → a ≡ b
unfolding same_bytes
same_bytes→≡ [] [] h = refl
same_bytes→≡ [] (y ∷ b) h = absurd cc
same_bytes→≡ (x ∷ a) [] h = absurd cc
same_bytes→≡ (x ∷ a) (y ∷ b) h =
    let first : x ≡ y = ground arith in
    let rest : same_bytes a b ≡ true = ground arith in λ i. first i ∷ same_bytes→≡ a b rest i

pub same_bytes_refl : (a : Bytes) → same_bytes a a ≡ true
unfolding same_bytes
same_bytes_refl [] = refl
same_bytes_refl (x ∷ a) = let rest = same_bytes_refl a in ground arith

replay_lines-inl :
    (std : Std) (ls : List Line) (e : SinkErr) (v : ℕ × Bytes)
    → replay_lines std ls (inl e) ≡ inr v
    → ⊥
unfolding replay_lines
replay_lines-inl std [] e v h = cc
replay_lines-inl std (l ∷ ls) e v h = cc

-- The digest of a record that the loop accepts.
written_lem :
    (std : Std) (s : Stored) (seq m : ℕ) (prev u : Bytes)
    → replay_line std seq prev (written s) ≡ inr (m, u)
    → (s.hash ≡ u)
      × (same_bytes s.body.prev_hash prev ≡ true)
      × (same_bytes (std.sum_hex (record_bytes s.body)) s.hash ≡ true)
unfolding replay_line
written_lem std s seq m prev u e = ground arith

replay_line-Linked :
    (std : Std) (l : Line) (acc : List Stored) (seq m : ℕ) (prev u : Bytes)
    → Linked std acc prev
    → replay_line std seq prev l ≡ inr (m, u)
    → Linked std (put l acc) u
unfolding replay_line put
replay_line-Linked std blank acc seq m prev u h e =
    let same : prev ≡ u = cc in subst (λ x. Linked std acc x) same h
replay_line-Linked std (not_json size) acc seq m prev u h e = absurd cc
replay_line-Linked std (torn size) acc seq m prev u h e = absurd cc
replay_line-Linked std (written s) acc seq m prev u h e =
    let (hash, before, digest) = written_lem std s seq m prev u e in
    (
      hash,
      same_bytes→≡ (std.sum_hex (record_bytes s.body)) s.hash digest ∙ hash,
      subst (λ x. Linked std acc x) (sym (same_bytes→≡ s.body.prev_hash prev before)) h,
    )

turn-Linked :
    (std : Std) (l : Line) (acc : List Stored) (seq m : ℕ) (prev u : Bytes)
    → Linked std acc prev
    → (if too_long std l then inl scan_err else replay_line std seq prev l) ≡ inr (m, u)
    → Linked std (put l acc) u
turn-Linked std l acc seq m prev u h e =
    let kept : replay_line std seq prev l ≡ inr (m, u) = ground arith in
    replay_line-Linked std l acc seq m prev u h kept

replay_lines-Linked :
    (std : Std) (ls : List Line) (acc : List Stored) (o : SinkErr ⊎ (ℕ × Bytes)) (n : ℕ) (t : Bytes)
    → ((m : ℕ) (u : Bytes) → o ≡ inr (m, u) → Linked std acc u)
    → replay_lines std ls o ≡ inr (n, t)
    → Linked std (history ls acc) t
unfolding replay_lines history
replay_lines-Linked std ls acc (inl x) n t h e = absurd (replay_lines-inl std ls x (n, t) e)
replay_lines-Linked std [] acc (inr (seq, prev)) n t h e = h n t e
replay_lines-Linked std (l ∷ ls) acc (inr (seq, prev)) n t h e =
    replay_lines-Linked std ls (put l acc)
      (if too_long std l then inl scan_err else replay_line std seq prev l) n t
      (λ m u q. turn-Linked std l acc seq m prev u (h seq prev refl) q) e

cons_head : (x y : ℕ) (a b : Bytes) → x ∷ a ≡ y ∷ b → x ≡ y
cons_head x y a b e = cc

genesis_apart : (r : Record) → genesis_text ≢ record_bytes r
unfolding genesis_text record_bytes fields write_all write_field be64
genesis_apart r e = let first : 112 ≡ 0 % 256 = cons_head 112 _ _ _ e in omega arith

differ : (a b : Bytes) → same_bytes a b ≡ false → a ≢ b
differ a b h e =
    let same = subst (λ x. same_bytes a x ≡ true) e (same_bytes_refl a) in
    let bad : true ≡ false = sym same ∙ h in cc

replay-Linked :
    (std : Std) (d : Disk) (n : ℕ) (t : Bytes)
    → replay std d ≡ inr (n, t)
    → Linked std (records d) t
unfolding replay records
replay-Linked std missing n t e = cc
replay-Linked std unreadable n t e = absurd cc
replay-Linked std (lines ls) n t e =
    replay_lines-Linked std ls [] (inr (0, genesis_hash std)) n t (λ m u q. cc) e

Linked-unique :
    (std : Std) (xs ys : List Stored) (h : Bytes)
    → All (λ s. IsEncodable s.body) xs
    → All (λ s. IsEncodable s.body) ys
    → Linked std xs h
    → Linked std ys h
    → (xs ≡ ys) ⊎ Collision std
unfolding genesis_hash
Linked-unique std [] [] h a b l k = inl refl
Linked-unique std [] (y ∷ ys) h a b l k =
    inr (genesis_text, record_bytes y.body, genesis_apart y.body, l ∙ sym k.1)
Linked-unique std (x ∷ xs) [] h a b l k =
    inr (genesis_text, record_bytes x.body, genesis_apart x.body, k ∙ sym l.1)
Linked-unique std (x ∷ xs) (y ∷ ys) h a b l k =
    elim (Bool-cases (same_bytes (record_bytes x.body) (record_bytes y.body))) [
      | inl same ↦
          let bodies =
            record_bytes_injective x.body y.body a.0 b.0
              (same_bytes→≡ (record_bytes x.body) (record_bytes y.body) same) in
          elim (Linked-unique std xs ys x.body.prev_hash a.1 b.1 l.2
            (subst (λ r. Linked std ys r.prev_hash) (sym bodies) k.2)) [
              | inl older ↦
                  inl (λ i. record { body = bodies i; hash = (l.0 ∙ sym k.0) i } ∷ older i)
              | inr collision ↦ inr collision
            ]
      | inr apart ↦ inr (
        record_bytes x.body,
        record_bytes y.body,
        (λ e. differ (record_bytes x.body) (record_bytes y.body) apart e),
        l.1 ∙ sym k.1,
      )
    ]

-- Two logs that replay to the same digest hold the same records in the same order, or there are two
-- different texts with one digest: a record changed, dropped, added or moved shows in the digest.
pub replay_unique :
    (std : Std) (d d' : Disk) (n n' : ℕ) (t : Bytes)
    → All (λ s. IsEncodable s.body) (records d)
    → All (λ s. IsEncodable s.body) (records d')
    → replay std d ≡ inr (n, t)
    → replay std d' ≡ inr (n', t)
    → (records d ≡ records d') ⊎ Collision std
replay_unique std d d' n n' t a b e e' =
    Linked-unique std (records d) (records d') t a b (replay-Linked std d n t e)
      (replay-Linked std d' n' t e')
