-- ===== src/Scenario/Validate/Parts.antt =====
-- internal/scenario/validate.go, Validate: what its loops find, where they find no error.
use phantom_traffic.Prelude.{
  ℕ, ◌+◌, ◌≡◌, ◌≢◌, refl, subst, Bool, true, false, not, ◌&&◌, List, [], ◌∷◌, ◌⊎◌, inl, inr, String,
  str_eq, arith, All, Bool-cases,
}
use text.Mathlib.TextEquality.{eq_iff}
use phantom_traffic.Prelude.Dict.{Dict, AllValues, put-AllValues}
use phantom_traffic.Prelude.Float.{Float64}
use phantom_traffic.Prelude.Text.{Bytes, codes, trim_space, is_blank}
use phantom_traffic.Pterr.Fields.{FieldError, append-nil_parts, add_if-nil}
use phantom_traffic.Safety.Caps.{CapSpec, Violation}
use phantom_traffic.Behavior.{Rand, Math}
use phantom_traffic.Behavior.Fingerprint.{Fingerprint}
use phantom_traffic.Persona.{Library, RawPersona, Persona}
use phantom_traffic.Persona.Compile.{compile}
use phantom_traffic.Persona.Compile as PersonaCompile
use phantom_traffic.Persona.Builtins.{LoadErr, IsCompiled}
use phantom_traffic.Scenario.{RawBlock, Block}
use phantom_traffic.Scenario.Hosts.Sound.{IsHost, valid_host-IsHost}
use phantom_traffic.Scenario.Blocks.{Options}
use phantom_traffic.Scenario.Blocks.Sound.{IsSoundBlock, block_of-IsSoundBlock}
use phantom_traffic.Scenario.Validate.{
  put_persona, cap_errors, seen, see, customs, blocks_errors, blocks_of, domain_errors,
}

pub cap_errors-nil : {F : Type 0} (vs : List (Violation F)) → cap_errors vs ≡ [] → vs ≡ []
unfolding cap_errors
cap_errors-nil [] h = refl
cap_errors-nil (v ∷ vs) h = absurd (cc)

of_not : (b : Bool) → not b ≡ false → b ≡ true
of_not true h = refl
of_not false h = absurd (cc)

-- No id twice.
abbrev pub IsFresh : String → List String → Type 0
IsFresh id [] = Unit
IsFresh id (j ∷ js) = (j ≢ id) × IsFresh id js

abbrev pub AreDistinct : List String → Type 0
AreDistinct [] = Unit
AreDistinct (j ∷ js) = IsFresh j js × AreDistinct js

abbrev pub ids_of : List RawBlock → List String
ids_of [] = []
ids_of (rb ∷ rbs) = rb.id ∷ ids_of rbs

-- No member of the list is among the ids.
abbrev pub AreUnseen : List String → List String → Type 0
AreUnseen ids js = All (λ j. seen j ids ≡ false) js

unseen_parts :
    (id : String) (ids js : List String)
    → AreUnseen (id ∷ ids) js
    → IsFresh id js × AreUnseen ids js
unfolding seen
unseen_parts id ids [] h = (tt, tt)
unseen_parts id ids (j ∷ js) h =
    let (fresh, rest) = unseen_parts id ids js h.1 in ((other, fresh), (ground arith, rest))
  where
    other : j ≢ id
    other e = ground (arith, eq_iff id j, h.0)

named-see :
    (id : String) (ids : List String)
    → is_blank (codes id) ≡ false
    → (str_eq id "" ≡ false) × (see id ids ≡ id ∷ ids)
unfolding is_blank
named-see id ids h = elim (Bool-cases (str_eq id "")) [
  | inr other ↦ (other, rw other refl)
  | inl empty ↦ absurd (blank ((eq_iff id "").0 empty))
]
  where
    blank : id ≢ ""
    blank e = let q : true ≡ false = subst (λ j. is_blank (codes j) ≡ false) e h in absurd (cc)

module _ {R F : Type 0} (lib : Library) (rng : Rand R F) (math : Math F) (ops : Float64 F)
    (is_ip : Bytes → Bool) (table : List Fingerprint) (builtins : LoadErr ⊎ Dict (Persona F))
    (zero : Persona F) where
  abbrev pub AreCompiled : Dict (Persona F) → Type 0
  AreCompiled personas = AllValues (IsCompiled lib rng math ops table) personas

  put_persona-AreCompiled :
      (rp : RawPersona F) (o : List (FieldError PersonaCompile.Msg) ⊎ Persona F)
      (out : Dict (Persona F))
      → compile lib rng math ops table rp ≡ o
      → AreCompiled out
      → AreCompiled (put_persona o out)
  put_persona-AreCompiled rp (inl fes) out e h = h
  put_persona-AreCompiled rp (inr p) out e h =
      put-AllValues (IsCompiled lib rng math ops table) p.name p out (rp, e) h

  pub customs-AreCompiled :
      (rps : List (RawPersona F)) (out : Dict (Persona F))
      → AreCompiled out
      → AreCompiled (customs lib rng math ops is_ip table builtins zero rps out)
  unfolding customs
  customs-AreCompiled [] out h = h
  customs-AreCompiled (rp ∷ rps) out h =
      customs-AreCompiled rps (put_persona (compile lib rng math ops table rp) out)
        (put_persona-AreCompiled rp (compile lib rng math ops table rp) out refl h)

  -- The i-th block is the sound one of the i-th raw block.
  abbrev pub Each : (RawBlock → Block F → Type 0) → List RawBlock → List (Block F) → Type 0
  Each P [] [] = Unit
  Each P [] (b ∷ bs) = ⊥
  Each P (rb ∷ rbs) [] = ⊥
  Each P (rb ∷ rbs) (b ∷ bs) = P rb b × Each P rbs bs

  pub blocks_lem :
      (opts : Options) (personas : Dict (Persona F)) (caps : CapSpec F) (i : ℕ) (ids : List String)
      (rbs : List RawBlock)
      → blocks_errors lib rng math ops is_ip table builtins zero opts personas caps i ids rbs ≡ []
      → Each
          (IsSoundBlock lib is_ip opts personas caps.max_concurrent_sessions)
          rbs
          (blocks_of lib rng math ops is_ip table builtins zero personas rbs)
        × AreUnseen ids (ids_of rbs)
        × AreDistinct (ids_of rbs)
  unfolding blocks_errors blocks_of
  blocks_lem opts personas caps i ids [] h = (tt, tt, tt)
  blocks_lem opts personas caps i ids (rb ∷ rbs) h =
      let (own, h1) = append-nil_parts _ _ h in
      let (dup, rest) = append-nil_parts _ _ h1 in
      let sound =
        block_of-IsSoundBlock lib is_ip zero i rb opts personas caps.max_concurrent_sessions own in
      let (some', same) = named-see rb.id ids sound.named.1 in
      let (each, unseen, distinct) =
        blocks_lem opts personas caps (i + 1) (see rb.id ids) rbs rest in
      let (fresh, others) =
        unseen_parts rb.id ids (ids_of rbs) (subst (λ js. AreUnseen js (ids_of rbs)) same unseen) in
      (
        (sound, each),
        (not_seen (seen rb.id ids) (str_eq rb.id "") some' (add_if-nil _ _ _ dup), others),
        (fresh, distinct),
      )
    where
      not_seen : (b e : Bool) → e ≡ false → b && not e ≡ false → b ≡ false
      not_seen b e h k = ground arith

  pub domain_errors-nil :
      (i : ℕ) (ds : List String)
      → domain_errors lib rng math ops is_ip table builtins zero i ds ≡ []
      → All (λ d. IsHost is_ip (codes (trim_space d))) ds
  unfolding domain_errors
  domain_errors-nil i [] h = tt
  domain_errors-nil i (d ∷ ds) h =
      let (first, rest) = append-nil_parts _ _ h in
      (
        valid_host-IsHost is_ip (codes (trim_space d)) (of_not _ (add_if-nil _ _ _ first)),
        domain_errors-nil (i + 1) ds rest,
      )
