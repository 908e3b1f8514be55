-- ===== src/Engine/Publisher/Delivery.antt =====
-- What a subscriber finds in its buffer after a publish.
use phantom_traffic.Prelude.{
  ℕ, suc, ◌≡◌, ◌⊎◌, inl, inr, refl, Bool, true, false, List, [], ◌∷◌, Option, none, some,
  Bool-cases,
}
use phantom_traffic.Engine.Publisher.{Subscriber, Publisher, deliver, deliver_all, publish, latest}

module _ {S : Type 0} where
  deliver_free :
      (fuel : ℕ) (drains : ℕ → Bool) (n : ℕ) (s : S) → deliver (suc fuel) drains n s none ≡ some s
  unfolding deliver
  deliver_free fuel drains n s = elim (Bool-cases (drains n)) [
    | inl taken ↦ rw (taken, deliver) refl
    | inr left ↦ rw (left, deliver) refl
  ]

  -- The receiver comes between the two selects of a buffer that was full.
  abbrev pub Overtaken : (ℕ → Bool) → Option S → Type 0
  Overtaken drains none = ⊥
  Overtaken drains (some old) = (drains 0 ≡ false) × (drains 1 ≡ true)

  -- Rounds that are left over are not used.
  deliver_two :
      (drains : ℕ → Bool) (s : S) (buffer : Option S)
      → (deliver 2 drains 0 s buffer ≡ some s)
        ⊎ ((deliver 2 drains 0 s buffer ≡ none) × Overtaken drains buffer)
  unfolding deliver
  deliver_two drains s none = inl (deliver_free 1 drains 0 s)
  deliver_two drains s (some old) = elim (Bool-cases (drains 0)) [
    | inl taken ↦ inl (rw (taken, deliver) refl)
    | inr full ↦ elim (Bool-cases (drains 1)) [
      | inl overtaken ↦ inr ((rw (full, overtaken, deliver) refl), (full, overtaken))
      | inr still ↦ inl (rw (full, still, deliver) (deliver_free 0 drains 2 s))
    ]
  ]

  -- Every subscriber has the new value, or its buffer is empty since its receiver took the old value
  -- at the wrong moment.
  abbrev pub Delivered : (ℕ → ℕ → Bool) → S → List (Subscriber S) → List (Subscriber S) → Type 0
  Delivered drains s [] [] = Unit {0}
  Delivered drains s [] (x ∷ new) = ⊥
  Delivered drains s (x ∷ old) [] = ⊥
  Delivered drains s (x ∷ old) (y ∷ new) =
      (y.channel ≡ x.channel)
      × ((y.buffer ≡ some s) ⊎ ((y.buffer ≡ none) × Overtaken (drains x.channel) x.buffer))
      × Delivered drains s old new

  deliver_all-Delivered :
      (drains : ℕ → ℕ → Bool) (s : S) (subs : List (Subscriber S))
      → Delivered drains s subs (deliver_all drains s subs)
  unfolding deliver_all
  deliver_all-Delivered drains s [] = tt
  deliver_all-Delivered drains s (sub ∷ subs) =
      (refl, deliver_two (drains sub.channel) s sub.buffer, deliver_all-Delivered drains s subs)

  -- publish always ends, makes its value the latest, and leaves it in every subscriber's buffer, whatever
  -- was there; the one exception is a receiver that empties a full buffer between the two selects,
  -- which leaves the buffer empty and the new value unseen.
  pub publish-Delivered :
      (drains : ℕ → ℕ → Bool) (s : S) (p : Publisher S)
      → (latest (publish drains s p) ≡ s) × Delivered drains s p.subs (publish drains s p).subs
  unfolding publish latest
  publish-Delivered drains s p = (refl, deliver_all-Delivered drains s p.subs)
