-- ===== src/Engine/Publisher.antt =====
-- internal/engine/publisher.go: the latest snapshot and the subscribers' one-place buffers. A receiver
-- does not take the publisher's mutex, so it can empty a buffer before any select of publish: `drains n`
-- says whether it does so before the select number `n`. A snapshot is handed on unread.
pub mod Delivery
use phantom_traffic.Prelude.{
  ℕ, zero, suc, ◌+◌, Bool, List, [], ◌∷◌, Option, none, some, if◌then◌else◌, ◌==◌,
}

-- A subscriber's channel: its name and its buffer.
pub record Subscriber (S : Type 0) : Type 0 where
  pub channel : ℕ
  pub buffer : Option S

pub record Publisher (S : Type 0) : Type 0 where
  pub cur : S
  pub subs : List (Subscriber S)
  pub next_channel : ℕ

module _ {S : Type 0} where
  unfoldable pub new_publisher : S → Publisher S
  new_publisher initial = record { cur = initial; subs = []; next_channel = 0 }

  abbrev pub drain : Bool → Option S → Option S
  drain taken buffer = if taken then none else buffer

  -- The loop for one subscriber: a free buffer takes the value; a full one is emptied and tried
  -- again, and if a receiver has emptied it in between the loop gives up.
  unfoldable pub deliver : ℕ → (ℕ → Bool) → ℕ → S → Option S → Option S
  deliver zero drains n s buffer = buffer
  deliver (suc fuel) drains n s buffer =
      let rest = deliver fuel drains (n + 2) s none in
      elim (drain (drains n) buffer) [
        | none ↦ some s
        | some old ↦ elim (drain (drains (n + 1)) (some old)) [ none ↦ none | some stale ↦ rest ]
      ]

  unfoldable pub deliver_all : (ℕ → ℕ → Bool) → S → List (Subscriber S) → List (Subscriber S)
  unfolding deliver
  deliver_all drains s [] = []
  deliver_all drains s (sub ∷ subs) =
      record sub { buffer = deliver 2 (drains sub.channel) 0 s sub.buffer }
      ∷ deliver_all drains s subs

  unfoldable pub publish : (ℕ → ℕ → Bool) → S → Publisher S → Publisher S
  unfolding deliver_all
  publish drains s p = record p { cur = s; subs = deliver_all drains s p.subs }

  unfoldable pub latest : Publisher S → S
  latest p = p.cur

  -- The new subscriber gets the latest snapshot and an empty buffer.
  unfoldable pub subscribe : Publisher S → Publisher S × (S × ℕ)
  unfolding latest
  subscribe p = (
    record p {
      subs = record { channel = p.next_channel; buffer = none } ∷ p.subs;
      next_channel = p.next_channel + 1;
    },
    (latest p, p.next_channel),
  )

  unfoldable pub remove : ℕ → List (Subscriber S) → List (Subscriber S)
  remove channel [] = []
  remove channel (sub ∷ subs) =
      if sub.channel == channel then remove channel subs else sub ∷ remove channel subs

  unfoldable pub unsubscribe : ℕ → Publisher S → Publisher S
  unfolding remove
  unsubscribe channel p = record p { subs = remove channel p.subs }
