-- ===== src/Engine/Stats/Outcomes.antt =====
-- The counters against the outcomes of the results.
use phantom_traffic.Prelude.{ℕ, ◌+◌, ◌^◌, ◌≤◌, ◌<◌, ◌≡◌, ◌∙◌, refl, List, [], ◌∷◌, arith, length}
use phantom_traffic.Prelude.Int.{ℤ, pos, ◌+ℤ◌, int64}
use phantom_traffic.Protocols.{
  Outcome, outcome_success, outcome_failure, outcome_skipped, outcome_cancelled, outcome_panicked,
  outcome_reconnect, Result,
}
use phantom_traffic.Engine.Stats.{
  Shard, Collector, incr, new_shard, record_shard, record_result, count_outcome,
}
use phantom_traffic.Engine.Stats.Totals.{record_each}

abbrev pub count : (Outcome → ℕ) → List Result → ℕ
count w [] = 0
count w (r ∷ rs) = w r.outcome + count w rs

-- One for the outcome that a counter counts, none for the others.
abbrev pub succeeded : Outcome → ℕ
succeeded outcome_success = 1
succeeded _ = 0

abbrev pub failed : Outcome → ℕ
failed outcome_failure = 1
failed _ = 0

abbrev pub reconnected : Outcome → ℕ
reconnected outcome_reconnect = 1
reconnected _ = 0

abbrev pub crashed : Outcome → ℕ
crashed outcome_panicked = 1
crashed _ = 0

abbrev pub benign : Outcome → ℕ
benign outcome_skipped = 1
benign outcome_cancelled = 1
benign _ = 0

pub record Tally (n a b c d : ℕ) (s : Shard) : Type 0 where
  pub all_of : s.requests ≡ pos n
  pub good : s.successes ≡ pos a
  pub bad : s.failures ≡ pos b
  pub again : s.reconnects ≡ pos c
  pub panicked : s.panics ≡ pos d

incr_lem : (z : ℤ) (n : ℕ) → n + 1 < 2 ^ 63 → z ≡ pos n → incr z ≡ pos (n + 1)
unfolding int64 ◌+ℤ◌
incr_lem z n k e = rw e (ground arith)

same_count : (z : ℤ) (n : ℕ) → z ≡ pos n → z ≡ pos (n + 0)
same_count z n e = ground arith

count_outcome-Tally :
    (o : Outcome) (s : Shard) (m n a b c d : ℕ)
    → m + 1 < 2 ^ 63
    → a ≤ m
    → b ≤ m
    → c ≤ m
    → d ≤ m
    → Tally n a b c d s
    → Tally n
        (a + succeeded o)
        (b + failed o)
        (c + reconnected o)
        (d + crashed o)
        (count_outcome o s)
unfolding count_outcome
count_outcome-Tally outcome_success s m n a b c d k la lb lc ld t = record {
  all_of = t.all_of;
  good = incr_lem s.successes a (omega arith) t.good;
  bad = same_count s.failures b t.bad;
  again = same_count s.reconnects c t.again;
  panicked = same_count s.panics d t.panicked;
}
count_outcome-Tally outcome_failure s m n a b c d k la lb lc ld t = record {
  all_of = t.all_of;
  good = same_count s.successes a t.good;
  bad = incr_lem s.failures b (omega arith) t.bad;
  again = same_count s.reconnects c t.again;
  panicked = same_count s.panics d t.panicked;
}
count_outcome-Tally outcome_reconnect s m n a b c d k la lb lc ld t = record {
  all_of = t.all_of;
  good = same_count s.successes a t.good;
  bad = same_count s.failures b t.bad;
  again = incr_lem s.reconnects c (omega arith) t.again;
  panicked = same_count s.panics d t.panicked;
}
count_outcome-Tally outcome_panicked s m n a b c d k la lb lc ld t = record {
  all_of = t.all_of;
  good = same_count s.successes a t.good;
  bad = same_count s.failures b t.bad;
  again = same_count s.reconnects c t.again;
  panicked = incr_lem s.panics d (omega arith) t.panicked;
}
count_outcome-Tally _ s m n a b c d k la lb lc ld t = record {
  all_of = t.all_of;
  good = same_count s.successes a t.good;
  bad = same_count s.failures b t.bad;
  again = same_count s.reconnects c t.again;
  panicked = same_count s.panics d t.panicked;
}

count_request-Tally :
    (s : Shard) (n a b c d : ℕ)
    → n + 1 < 2 ^ 63
    → Tally n a b c d s
    → Tally (n + 1) a b c d (record s { requests = incr s.requests })
count_request-Tally s n a b c d k t = record {
  all_of = incr_lem s.requests n k t.all_of;
  good = t.good;
  bad = t.bad;
  again = t.again;
  panicked = t.panicked;
}

record_shard-Tally :
    (r : Result) (s : Shard) (n a b c d : ℕ)
    → n + 1 < 2 ^ 63
    → a ≤ n
    → b ≤ n
    → c ≤ n
    → d ≤ n
    → Tally n a b c d s
    → Tally
        (n + 1)
        (a + succeeded r.outcome)
        (b + failed r.outcome)
        (c + reconnected r.outcome)
        (d + crashed r.outcome)
        (record_shard r s)
unfolding record_shard
record_shard-Tally r s n a b c d k la lb lc ld t =
    let t' = count_request-Tally s n a b c d k t in
    let u = count_outcome-Tally r.outcome _ n (n + 1) a b c d k la lb lc ld t' in
    record { all_of = u.all_of; good = u.good; bad = u.bad; again = u.again; panicked = u.panicked }

retally :
    {n n' a a' b b' c c' d d' : ℕ} {s : Shard}
    → n ≡ n'
    → a ≡ a'
    → b ≡ b'
    → c ≡ c'
    → d ≡ d'
    → Tally n a b c d s
    → Tally n' a' b' c' d' s
retally en ea eb ec ed t = record {
  all_of = t.all_of ∙ (λ i. pos (en i));
  good = t.good ∙ (λ i. pos (ea i));
  bad = t.bad ∙ (λ i. pos (eb i));
  again = t.again ∙ (λ i. pos (ec i));
  panicked = t.panicked ∙ (λ i. pos (ed i));
}

at_most_one :
    (o : Outcome) → (succeeded o ≤ 1) × (failed o ≤ 1) × (reconnected o ≤ 1) × (crashed o ≤ 1)
at_most_one outcome_success = ground arith
at_most_one outcome_failure = ground arith
at_most_one outcome_reconnect = ground arith
at_most_one outcome_panicked = ground arith
at_most_one _ = ground arith

record_each-Tally :
    (rs : List Result) (s : Shard) (n a b c d : ℕ)
    → n + length rs < 2 ^ 63
    → a ≤ n
    → b ≤ n
    → c ≤ n
    → d ≤ n
    → Tally n a b c d s
    → Tally
        (n + length rs)
        (a + count succeeded rs)
        (b + count failed rs)
        (c + count reconnected rs)
        (d + count crashed rs)
        (record_each rs s)
unfolding record_each
record_each-Tally [] s n a b c d k la lb lc ld t =
    retally (omega arith) (omega arith) (omega arith) (omega arith) (omega arith) t
record_each-Tally (r ∷ rs) s n a b c d k la lb lc ld t =
    let ones = at_most_one r.outcome in
    retally (omega arith) (omega arith) (omega arith) (omega arith) (omega arith) (
      record_each-Tally rs (record_shard r s) (n + 1) (a + succeeded r.outcome)
        (b + failed r.outcome) (c + reconnected r.outcome) (d + crashed r.outcome) (omega arith)
        (omega (arith, ones.0)) (omega (arith, ones.1)) (omega (arith, ones.2))
        (omega (arith, ones.3)) (record_shard-Tally r s n a b c d (omega arith) la lb lc ld t))

partition :
    (rs : List Result)
    → length rs
      ≡ count succeeded rs
        + count failed rs
        + count reconnected rs
        + count crashed rs
        + count benign rs
partition [] = refl
partition (r ∷ rs) = ground (arith, partition rs)

new-Tally : Tally 0 0 0 0 0 new_shard
unfolding new_shard
new-Tally = record { all_of = refl; good = refl; bad = refl; again = refl; panicked = refl }

-- After fewer than 2^63 results every counter of a new shard holds how many results have its
-- outcome, `requests` holds how many there are, and the requests that no counter accounts for are
-- those skipped or cancelled.
pub record_each-new_shard :
    (rs : List Result)
    → length rs < 2 ^ 63
    → Tally
        (length rs)
        (count succeeded rs)
        (count failed rs)
        (count reconnected rs)
        (count crashed rs)
        (record_each rs new_shard)
      × (length rs
          ≡ count succeeded rs
            + count failed rs
            + count reconnected rs
            + count crashed rs
            + count benign rs)
record_each-new_shard rs k = (
  retally (omega arith) (omega arith) (omega arith) (omega arith) (omega arith) (
      record_each-Tally rs new_shard 0 0 0 0 0 (omega arith) (omega arith) (omega arith)
        (omega arith) (omega arith) new-Tally),
  partition rs,
)

count_outcome_requests : (o : Outcome) (s : Shard) → (count_outcome o s).requests ≡ s.requests
unfolding count_outcome
count_outcome_requests outcome_success s = refl
count_outcome_requests outcome_failure s = refl
count_outcome_requests outcome_reconnect s = refl
count_outcome_requests outcome_panicked s = refl
count_outcome_requests _ s = refl

pub record_result_requests :
    (r : Result) (c : Collector) (n : ℕ)
    → n + 1 < 2 ^ 63
    → c.global.requests ≡ pos n
    → (record_result r c).global.requests ≡ pos (n + 1)
unfolding record_result record_shard
record_result_requests r c n k e =
    count_outcome_requests r.outcome _ ∙ incr_lem c.global.requests n k e
