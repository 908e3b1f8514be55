-- ===== src/Pterr/Fields.antt =====
-- internal/pterr/field_error.go: what is wrong with one field, and the list of all that is wrong. The
-- message is a type of the validator's own.
use phantom_traffic.Prelude.{
  Bool, true, false, List, [], ◌∷◌, ◌++◌, ◌≡◌, refl, ◌⊎◌, inl, inr, String,
}

pub record FieldError (M : Type 0) : Type 0 where
  pub field : String
  pub msg : M

abbrev pub error : {M : Type 0} → String → M → List (FieldError M)
error field msg = record { field = field; msg = msg } ∷ []

-- The accumulator's `add` if the test holds.
abbrev pub add_if : {M : Type 0} → Bool → String → M → List (FieldError M)
add_if true field msg = error field msg
add_if false field msg = []

-- The accumulator's `result` with the value that is returned where it is nil.
abbrev pub result : {M A : Type 0} → List (FieldError M) → A → List (FieldError M) ⊎ A
result [] a = inr a
result (e ∷ es) a = inl (e ∷ es)

-- Nothing was added if nothing was added by either part.
pub append-nil_parts : {A : Type 0} (xs ys : List A) → xs ++ ys ≡ [] → (xs ≡ []) × (ys ≡ [])
append-nil_parts [] ys h = (refl, h)
append-nil_parts (x ∷ xs) ys h = absurd (cc)

pub result-inr :
    {M A : Type 0} (es : List (FieldError M)) (a b : A) → result es a ≡ inr b → (es ≡ []) × (a ≡ b)
result-inr [] a b h = (refl, cc)
result-inr (e ∷ es) a b h = absurd (cc)

pub add_if-nil :
    {M : Type 0} (b : Bool) (field : String) (msg : M) → add_if b field msg ≡ [] → b ≡ false
add_if-nil true field msg h = absurd (cc)
add_if-nil false field msg h = refl
