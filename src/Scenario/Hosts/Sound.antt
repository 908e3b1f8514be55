-- ===== src/Scenario/Hosts/Sound.antt =====
-- internal/scenario/validate.go: what an accepted target is.
use phantom_traffic.Prelude.{
  ℕ, ◌≤◌, ◌≡◌, ◌≢◌, refl, subst, Bool, true, false, ◌&&◌, List, [], ◌∷◌, Option, none, some, ◌⊎◌,
  inl, inr, String, arith, ◌==◌, length, All, Bool-cases, Option-cases,
}
use phantom_traffic.Prelude.Int.{ℤ, pos, ◌≤ℤ◌}
use phantom_traffic.Prelude.Text.{Bytes, codes, trim_space, contains, split, push_part, atoi}
use phantom_traffic.Protocols.{Target}
use phantom_traffic.Protocols.Allow.{has_byte}
use phantom_traffic.Scenario.Hosts.{
  alnum, label_bytes, valid_label, valid_labels, valid_name, valid_host, host_port, valid_port,
  check_parts, target_reason, validate_target,
}

-- A letter, a digit, a hyphen or a dot.
abbrev pub HostByte : ℕ → Type 0
HostByte c = (alnum c ≡ true) ⊎ ((c ≡ 45) ⊎ (c ≡ 46))

abbrev all_bytes : List Bytes → Bool
all_bytes [] = true
all_bytes (p ∷ ps) = label_bytes p && all_bytes ps

valid_labels-all_bytes : (ps : List Bytes) → valid_labels ps ≡ true → all_bytes ps ≡ true
unfolding valid_labels valid_label
valid_labels-all_bytes [] h = refl
valid_labels-all_bytes ([] ∷ ps) h = absurd (cc)
valid_labels-all_bytes ((c ∷ cs) ∷ ps) h = ground (arith, valid_labels-all_bytes ps)

push_part-all_bytes :
    (c : ℕ) (ps : List Bytes)
    → all_bytes (push_part c ps) ≡ true
    → ((alnum c ≡ true) ⊎ (c ≡ 45)) × (all_bytes ps ≡ true)
unfolding push_part label_bytes
push_part-all_bytes c [] h = (byte (Bool-cases (alnum c)), refl)
  where
    byte : (alnum c ≡ true) ⊎ (alnum c ≡ false) → (alnum c ≡ true) ⊎ (c ≡ 45)
    byte (inl yes') = inl yes'
    byte (inr other) = inr (ground arith)
push_part-all_bytes c (p ∷ ps) h = (byte (Bool-cases (alnum c)), ground arith)
  where
    byte : (alnum c ≡ true) ⊎ (alnum c ≡ false) → (alnum c ≡ true) ⊎ (c ≡ 45)
    byte (inl yes') = inl yes'
    byte (inr other) = inr (ground arith)

split-HostByte : (s : Bytes) → all_bytes (split 46 s) ≡ true → All HostByte s
unfolding split
split-HostByte [] h = tt
split-HostByte (c ∷ cs) h = elim (Bool-cases (c == 46)) [
  | inl dot ↦ (inr (inr (ground arith)), split-HostByte cs (ground arith))
  | inr other ↦
      let (byte, rest) = push_part-all_bytes c (split 46 cs) (rw (other, split) at h) in
      (widen byte, split-HostByte cs rest)
]
  where
    widen : (alnum c ≡ true) ⊎ (c ≡ 45) → HostByte c
    widen (inl a) = inl a
    widen (inr b) = inr (inl b)

module _ (is_ip : Bytes → Bool) where
  -- An IP address, or a name of at most 253 letters, digits, hyphens and dots.
  abbrev pub IsHost : Bytes → Type 0
  IsHost h = (h ≢ []) × ((is_ip h ≡ true) ⊎ ((length h ≤ 253) × All HostByte h))

  pub valid_host-IsHost : (h : Bytes) → valid_host is_ip h ≡ true → IsHost h
  unfolding valid_host valid_name
  valid_host-IsHost [] e = absurd (cc)
  valid_host-IsHost (c ∷ cs) e = (λ q. cc, kind (Bool-cases (is_ip (c ∷ cs))))
    where
      kind :
          (is_ip (c ∷ cs) ≡ true) ⊎ (is_ip (c ∷ cs) ≡ false)
          → (is_ip (c ∷ cs) ≡ true) ⊎ ((length (c ∷ cs) ≤ 253) × All HostByte (c ∷ cs))
      kind (inl ip) = inl ip
      kind (inr name) =
          let labels : valid_labels (split 46 (c ∷ cs)) ≡ true = ground arith in
          inr (
            ground arith,
            split-HostByte (c ∷ cs) (valid_labels-all_bytes (split 46 (c ∷ cs)) labels),
          )

  abbrev pub IsPort : Option Bytes → Type 0
  IsPort none = Unit
  IsPort (some p) = (n : ℤ) × (atoi p ≡ some n) × (pos 1 ≤ℤ n) × (n ≤ℤ pos 65535)

  valid_port-IsPort : (o : Option Bytes) → valid_port o ≡ true → IsPort o
  unfolding valid_port
  valid_port-IsPort none e = tt
  valid_port-IsPort (some p) e = elim (Option-cases (atoi p)) [
    | inl bad ↦ absurd (ground arith)
    | inr (n, good) ↦ (n, good, ground arith, ground arith)
  ]

  -- The parts of an address.
  abbrev pub IsAddr : Bytes → Type 0
  IsAddr s =
      (host : Bytes) × (port : Option Bytes) × (host_port s ≡ some (host, port))
      × IsHost host
      × IsPort port

  check_parts-none :
      (o : Option (Bytes × Option Bytes))
      → check_parts is_ip o ≡ none
      → (host : Bytes) × (port : Option Bytes) × (o ≡ some (host, port)) × IsHost host × IsPort port
  unfolding check_parts
  check_parts-none none e = absurd (cc)
  check_parts-none (some (host, port)) e = (
    host,
    port,
    refl,
    valid_host-IsHost host (ground arith),
    valid_port-IsPort port (ground arith),
  )

  target_reason-none :
      (s : Bytes)
      → target_reason is_ip s ≡ none
      → (contains s (58 ∷ 47 ∷ 47 ∷ []) ≡ false) × (has_byte 64 s ≡ false) × IsAddr s
  unfolding target_reason
  target_reason-none [] e = absurd (cc)
  target_reason-none (c ∷ cs) e =
      (ground arith, ground arith, check_parts-none (host_port (c ∷ cs)) (ground arith))

  -- A target that validateTarget accepts: its address and ID are the given text without the blanks
  -- around it, its protocol the block's. The address has no scheme and no '@', so no credentials; its
  -- host is an IP address, or a name of at most 253 letters, digits, hyphens and dots; its port, if it
  -- has one, is a number from 1 to 65535.
  pub validate_target-IsAddr :
      (addr proto : String) (t : Target)
      → validate_target is_ip addr proto ≡ inr t
      → (t.addr ≡ trim_space addr)
        × (t.id ≡ t.addr)
        × (t.proto ≡ proto)
        × (contains (codes t.addr) (58 ∷ 47 ∷ 47 ∷ []) ≡ false)
        × (has_byte 64 (codes t.addr) ≡ false)
        × IsAddr (codes t.addr)
  unfolding validate_target
  validate_target-IsAddr addr proto t e =
      elim (Option-cases (target_reason is_ip (codes (trim_space addr)))) [
        | inr (reason, bad) ↦ absurd (ground arith)
        | inl good ↦
            let (scheme, user, parts) = target_reason-none (codes (trim_space addr)) good in
            let same : record { id = trim_space addr; proto = proto; addr = trim_space addr } ≡ t =
              ground arith in
            subst
              (λ (x : Target).
                (x.addr ≡ trim_space addr)
                × (x.id ≡ x.addr)
                × (x.proto ≡ proto)
                × (contains (codes x.addr) (58 ∷ 47 ∷ 47 ∷ []) ≡ false)
                × (has_byte 64 (codes x.addr) ≡ false)
                × IsAddr (codes x.addr))
              same (refl, refl, refl, scheme, user, parts)
      ]
