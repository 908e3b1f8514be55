-- ===== src/Engine/Lifecycle/Terminal.antt =====
-- internal/engine/run.go: a run that has ended, however the goroutines interleave.
use phantom_traffic.Prelude.{
  ◌∙◌, ◌≡◌, refl, Bool, true, false, String, List, [], ◌∷◌, ◌++◌, map, Option, none, some, sym, ap,
  subst, arith, get_elem?, Option-cases, Bool-cases, inl, inr,
}
use phantom_traffic.Prelude.Clock.{Time}
use mathlib.Core.List.{append-nil, append_assoc}
use phantom_traffic.Audit.{Event}
use phantom_traffic.Engine.State.{Core, transition_to, is_terminal}
use phantom_traffic.Engine.Lifecycle.{
  Run, Pc, pause_begin, patch_audit, append_patch, PatchEvent, patch_event, Wake, step_pc, System,
  Slot, step, run_all,
}

-- A log after further events of patches.
abbrev pub Extends : String → Option (List Event) → Option (List Event) → Type 0
Extends id none later = later ≡ none
Extends id (some log) later =
    (es : List PatchEvent) × (later ≡ some (log ++ map (patch_event id) es))

Extends-refl : (id : String) (log : Option (List Event)) → Extends id log log
Extends-refl id none = refl
Extends-refl id (some log) = ([], ap some (sym (append-nil log)))

map-append :
    (f : PatchEvent → Event) (xs ys : List PatchEvent) → map f (xs ++ ys) ≡ map f xs ++ map f ys
map-append f [] ys = refl
map-append f (x ∷ xs) ys = ap (λ zs. f x ∷ zs) (map-append f xs ys)

Extends-trans :
    (id : String) (a b c : Option (List Event)) → Extends id a b → Extends id b c → Extends id a c
Extends-trans id none b c h k = subst (λ x. Extends id x c) h k
Extends-trans id (some log) b c (es, e) k =
    let (fs, f) = subst (λ x. Extends id x c) e k in
    (
      es ++ fs,
      f
          ∙ ap some (
              append_assoc log (map (patch_event id) es) (map (patch_event id) fs)
              ∙ ap (λ x. log ++ x) (sym (map-append (patch_event id) es fs))),
    )

-- A core that is only patched: the ID and the state are as they were.
record IsPatched (c c' : Core) : Type 0 where
  id_kept : c'.id ≡ c.id
  state_kept : c'.state ≡ c.state
  extended : Extends c.id c.audit c'.audit

IsPatched-refl : (c : Core) → IsPatched c c
IsPatched-refl c = record {
  id_kept = refl;
  state_kept = refl;
  extended = Extends-refl c.id c.audit;
}

IsPatched-trans : (a b c : Core) → IsPatched a b → IsPatched b c → IsPatched a c
IsPatched-trans a b c h k = record {
  id_kept = k.id_kept ∙ h.id_kept;
  state_kept = k.state_kept ∙ h.state_kept;
  extended =
      Extends-trans a.id a.audit b.audit c.audit h.extended
        (subst (λ x. Extends x b.audit c.audit) h.id_kept k.extended);
}

-- Whether the next step of a goroutine is an append of ApplyPatch.
abbrev patching : Pc → Bool
patching (patch_audit (e ∷ es)) = true
patching _ = false

terminal_step_pc :
    (now : Time) (wake : Wake) (pc : Pc) (r : Run)
    → patching pc ≡ false
    → is_terminal r.core.state ≡ true
    → (step_pc now wake pc r).0.core ≡ r.core
unfolding step_pc transition_to
terminal_step_pc now wake pause_begin r n h = ground arith
terminal_step_pc now wake (patch_audit []) r n h = refl
terminal_step_pc now wake (patch_audit (e ∷ es)) r n h = absurd cc
terminal_step_pc now wake _ r n h = ground arith

patch_step-IsPatched :
    (now : Time) (wake : Wake) (e : PatchEvent) (es : List PatchEvent) (r : Run)
    → IsPatched r.core (step_pc now wake (patch_audit (e ∷ es)) r).0.core
unfolding step_pc append_patch
patch_step-IsPatched now wake e es r = logged r.core.audit refl
  where
    logged :
        (o : Option (List Event))
        → r.core.audit ≡ o
        → IsPatched r.core (append_patch o e es r).0.core
    logged none nil = IsPatched-refl r.core
    logged (some log) found = record {
      id_kept = refl;
      state_kept = refl;
      extended =
          subst (λ a. Extends r.core.id a (some (log ++ patch_event r.core.id e ∷ []))) (sym found)
            (e ∷ [], refl);
    }

patching-form :
    (pc : Pc)
    → patching pc ≡ true
    → (e : PatchEvent) × (es : List PatchEvent) × (pc ≡ patch_audit (e ∷ es))
patching-form (patch_audit (e ∷ es)) h = (e, es, refl)
patching-form _ h = absurd cc

terminal_pc-IsPatched :
    (now : Time) (wake : Wake) (pc : Pc) (r : Run)
    → is_terminal r.core.state ≡ true
    → IsPatched r.core (step_pc now wake pc r).0.core
terminal_pc-IsPatched now wake pc r h = elim (Bool-cases (patching pc)) [
  | inl patches' ↦
      let (e, es, same) = patching-form pc patches' in
      subst (λ p. IsPatched r.core (step_pc now wake p r).0.core) (sym same)
        (patch_step-IsPatched now wake e es r)
  | inr other ↦
      subst (IsPatched r.core) (sym (terminal_step_pc now wake pc r other h))
        (IsPatched-refl r.core)
]

terminal_step :
    (slot : Slot) (s : System)
    → is_terminal s.run.core.state ≡ true
    → IsPatched s.run.core (step slot s).run.core
unfolding step
terminal_step slot s h = elim (Option-cases (get_elem? s.threads slot.thread)) [
  | inl e ↦ rw (e, step) (IsPatched-refl s.run.core)
  | inr (pc, e) ↦ rw (e, step) (terminal_pc-IsPatched slot.now slot.wake pc s.run h)
]

run_all-IsPatched :
    (slots : List Slot) (s : System)
    → is_terminal s.run.core.state ≡ true
    → IsPatched s.run.core (run_all slots s).run.core
unfolding run_all
run_all-IsPatched [] s h = IsPatched-refl s.run.core
run_all-IsPatched (slot ∷ slots) s h =
    let one = terminal_step slot s h in
    IsPatched-trans s.run.core (step slot s).run.core (run_all slots (step slot s)).run.core one
      (run_all-IsPatched slots (step slot s) (rw one.state_kept h))

-- A run that is Stopped or Completed stays so under every schedule of Pause, Resume, Stop, complete, the
-- scheduler's calls and ApplyPatch, those still under way or made later: its state does not change
-- again, and its audit log gains the events of ApplyPatch and no others.
pub terminal_absorbs :
    (slots : List Slot) (s : System)
    → is_terminal s.run.core.state ≡ true
    → let c = (run_all slots s).run.core in
      (c.state ≡ s.run.core.state) × Extends s.run.core.id s.run.core.audit c.audit
terminal_absorbs slots s h =
    let kept = run_all-IsPatched slots s h in (kept.state_kept, kept.extended)
