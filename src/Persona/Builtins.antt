-- ===== src/Persona/Builtins.antt =====
-- internal/persona/load.go: the built-in personas. The embedded files are an argument, as the name of
-- each and what the YAML decoder makes of it.
use phantom_traffic.Prelude.{
  ◌≡◌, refl, subst, arith, List, [], ◌∷◌, Option, none, some, ◌⊎◌, inl, inr, String,
}
use phantom_traffic.Prelude.Dict.{Dict, get, put, AllValues, put-AllValues}
use phantom_traffic.Prelude.Float.{Float64}
use phantom_traffic.Pterr.Fields.{FieldError}
use phantom_traffic.Behavior.{Rand, Math}
use phantom_traffic.Behavior.Fingerprint.{Fingerprint}
use phantom_traffic.Persona.{Library, RawPersona, Persona}
use phantom_traffic.Persona.Compile.{Msg, compile}

-- The name of the file, or of the persona that two files declare.
pub data LoadErr : Type 0 where
  decode_failed : String → String → LoadErr
  compile_failed : String → List (FieldError Msg) → LoadErr
  duplicate_name : String → LoadErr

pub record Entry (F : Type 0) : Type 0 where
  pub name : String
  pub decoded : String ⊎ RawPersona F

-- An entry that is not there yet.
abbrev pub add_new :
    {F : Type 0} → Dict (Persona F) → Persona F → Option (Persona F) → LoadErr ⊎ Dict (Persona F)
add_new out p none = inr (put p.name p out)
add_new out p (some dup) = inl (duplicate_name p.name)

module _ {R F : Type 0} (lib : Library) (rng : Rand R F) (math : Math F) (ops : Float64 F)
    (table : List Fingerprint) where
  abbrev pub add_compiled :
      Dict (Persona F) → String → List (FieldError Msg) ⊎ Persona F → LoadErr ⊎ Dict (Persona F)
  add_compiled out name (inl es) = inl (compile_failed name es)
  add_compiled out name (inr p) = add_new out p (get p.name out)

  abbrev pub add_decoded :
      Dict (Persona F) → String → String ⊎ RawPersona F → LoadErr ⊎ Dict (Persona F)
  add_decoded out name (inl e) = inl (decode_failed name e)
  add_decoded out name (inr raw) = add_compiled out name (compile lib rng math ops table raw)

  abbrev pub and_then :
      LoadErr ⊎ Dict (Persona F)
      → (Dict (Persona F) → LoadErr ⊎ Dict (Persona F))
      → LoadErr ⊎ Dict (Persona F)
  and_then (inl e) k = inl e
  and_then (inr out) k = k out

  -- The loop over the files, from the map that it has so far.
  unfoldable pub load_from : Dict (Persona F) → List (Entry F) → LoadErr ⊎ Dict (Persona F)
  unfolding compile
  load_from out [] = inr out
  load_from out (e ∷ es) = and_then (add_decoded out e.name e.decoded) (λ next. load_from next es)

  unfoldable pub load_builtins : List (Entry F) → LoadErr ⊎ Dict (Persona F)
  unfolding load_from
  load_builtins entries = load_from [] entries

  -- A persona that Compile made.
  abbrev pub IsCompiled : Persona F → Type 0
  IsCompiled p = (raw : RawPersona F) × (compile lib rng math ops table raw ≡ inr p)

  abbrev Holds : LoadErr ⊎ Dict (Persona F) → Type 0
  Holds (inl e) = Unit
  Holds (inr out) = AllValues IsCompiled out

  add_decoded-Holds :
      (out : Dict (Persona F)) (name : String) (o : String ⊎ RawPersona F)
      → AllValues IsCompiled out
      → Holds (add_decoded out name o)
  add_decoded-Holds out name (inl e) h = tt
  add_decoded-Holds out name (inr raw) h = made (compile lib rng math ops table raw) refl
    where
      fresh : (p : Persona F) (o : Option (Persona F)) → IsCompiled p → Holds (add_new out p o)
      fresh p none c = put-AllValues IsCompiled p.name p out c h
      fresh p (some dup) c = tt

      made :
          (m : List (FieldError Msg) ⊎ Persona F)
          → compile lib rng math ops table raw ≡ m
          → Holds (add_compiled out name m)
      made (inl es) e = tt
      made (inr p) e = fresh p (get p.name out) (raw, e)

  and_then-Holds :
      (m : LoadErr ⊎ Dict (Persona F)) (k : Dict (Persona F) → LoadErr ⊎ Dict (Persona F))
      → Holds m
      → ((out : Dict (Persona F)) → AllValues IsCompiled out → Holds (k out))
      → Holds (and_then m k)
  and_then-Holds (inl e) k h next = tt
  and_then-Holds (inr out) k h next = next out h

  load_from-Holds :
      (out : Dict (Persona F)) (entries : List (Entry F))
      → AllValues IsCompiled out
      → Holds (load_from out entries)
  unfolding load_from
  load_from-Holds out [] h = h
  load_from-Holds out (e ∷ es) h =
      and_then-Holds (add_decoded out e.name e.decoded) (λ next. load_from next es)
        (add_decoded-Holds out e.name e.decoded h) (λ next k. load_from-Holds next es k)

  pub load_builtins-AllValues :
      (entries : List (Entry F)) (out : Dict (Persona F))
      → load_builtins entries ≡ inr out
      → AllValues IsCompiled out
  unfolding load_builtins
  load_builtins-AllValues entries out e =
      kept (load_from [] entries) (load_from-Holds [] entries tt) e
    where
      kept : (m : LoadErr ⊎ Dict (Persona F)) → Holds m → m ≡ inr out → AllValues IsCompiled out
      kept (inl err) h e = absurd (cc)
      kept (inr more) h e = subst (AllValues IsCompiled) (ground arith) h
