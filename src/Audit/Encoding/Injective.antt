-- ===== src/Audit/Encoding/Injective.antt =====
-- internal/audit/hash.go: the encoding of the fields of a record and its length prefixes.
use phantom_traffic.Prelude.{
  ℕ, ◌^◌, ◌<◌, ◌≡◌, ◌∙◌, refl, sym, List, [], ◌∷◌, ◌++◌, arith, length, All,
}
use phantom_traffic.Audit.Encoding.{
  Bytes, be64, write_field, Record, detail_fields, fields, write_all, record_bytes,
}

be64_injective : (n m : ℕ) → n < 2 ^ 64 → m < 2 ^ 64 → be64 n ≡ be64 m → n ≡ m
unfolding be64
be64_injective n m h k e = ground arith

-- Two texts of one length in front of the same bytes.
append_split : (a b c d : Bytes) → length a ≡ length b → a ++ c ≡ b ++ d → (a ≡ b) × (c ≡ d)
append_split [] [] c d l e = (refl, e)
append_split [] (y ∷ b) c d l e = absurd (omega arith)
append_split (x ∷ a) [] c d l e = absurd (omega arith)
append_split (x ∷ a) (y ∷ b) c d l e =
    let (first, rest) = cons_split x y (a ++ c) (b ++ d) e in
    let (same, after) = append_split a b c d (omega arith) rest in ((λ i. first i ∷ same i), after)
  where
    cons_split : (x y : ℕ) (a b : Bytes) → x ∷ a ≡ y ∷ b → (x ≡ y) × (a ≡ b)
    cons_split x y a b e = (cc, cc)

length-be64 : (n m : ℕ) → length (be64 n) ≡ length (be64 m)
unfolding be64
length-be64 n m = refl

abbrev pub IsShort : Bytes → Type 0
IsShort b = length b < 2 ^ 64

append_assoc : (a b c : Bytes) → (a ++ b) ++ c ≡ a ++ (b ++ c)
append_assoc [] b c = refl
append_assoc (x ∷ a) b c = λ i. x ∷ append_assoc a b c i

write_field_split :
    (a b c d : Bytes)
    → IsShort a
    → IsShort b
    → write_field a ++ c ≡ write_field b ++ d
    → (a ≡ b) × (c ≡ d)
unfolding write_field
write_field_split a b c d h k e =
    let e' = sym (append_assoc (be64 (length a)) a c) ∙ e ∙ append_assoc (be64 (length b)) b d in
    let (prefix, rest) =
      append_split (be64 (length a)) (be64 (length b)) (a ++ c) (b ++ d)
        (length-be64 (length a) (length b)) e' in
    append_split a b c d (be64_injective (length a) (length b) h k prefix) rest

write_all_nil : (b : Bytes) (bs : List Bytes) → write_all (b ∷ bs) ≡ [] → ⊥
unfolding write_all write_field be64
write_all_nil b bs e = cc

write_all_injective :
    (bs cs : List Bytes) → All IsShort bs → All IsShort cs → write_all bs ≡ write_all cs → bs ≡ cs
unfolding write_all
write_all_injective [] [] h k e = refl
write_all_injective [] (c ∷ cs) h k e = absurd (write_all_nil c cs (sym e))
write_all_injective (b ∷ bs) [] h k e = absurd (write_all_nil b bs e)
write_all_injective (b ∷ bs) (c ∷ cs) h k e =
    let (first, rest) = write_field_split b c (write_all bs) (write_all cs) h.0 k.0 e in
    λ i. first i ∷ write_all_injective bs cs h.1 k.1 rest i

one_not_more :
    (p k v : Bytes) (d : List (Bytes × Bytes)) (q : Bytes) → p ∷ [] ≡ k ∷ v ∷ detail_fields d q → ⊥
one_not_more p k v d q e = let rest : [] ≡ v ∷ detail_fields d q = cc in cc

detail_fields_injective :
    (d d' : List (Bytes × Bytes)) (p p' : Bytes)
    → detail_fields d p ≡ detail_fields d' p'
    → (d ≡ d') × (p ≡ p')
unfolding detail_fields
detail_fields_injective [] [] p p' e = (refl, cc)
detail_fields_injective [] ((k, v) ∷ d') p p' e = absurd (one_not_more p k v d' p' e)
detail_fields_injective ((k, v) ∷ d) [] p p' e = absurd (one_not_more p' k v d p (sym e))
detail_fields_injective ((k, v) ∷ d) ((k', v') ∷ d') p p' e =
    let (rest, prev) = detail_fields_injective d d' p p' (cc) in
    let keys : k ≡ k' = cc in let values : v ≡ v' = cc in ((λ i. (keys i, values i) ∷ rest i), prev)

IsShort-be64 : (n : ℕ) → IsShort (be64 n)
unfolding be64
IsShort-be64 n = omega arith

-- The texts of a record fit a length of 64 bits, its numbers fit 64 bits.
abbrev pub IsEncodable : Record → Type 0
IsEncodable r =
    (r.seq < 2 ^ 64)
    × (r.unix_nano < 2 ^ 64)
    × IsShort r.agent_id
    × IsShort r.actor
    × IsShort r.action
    × IsShort r.resource
    × (length r.detail < 2 ^ 64)
    × All IsShort (detail_fields r.detail r.prev_hash)

IsEncodable-fields : (r : Record) → IsEncodable r → All IsShort (fields r)
unfolding fields
IsEncodable-fields r (s, t, a, b, c, d, n, rest) = (
  IsShort-be64 r.seq,
  (IsShort-be64 r.unix_nano, (a, (b, (c, (d, (IsShort-be64 (length r.detail), rest)))))),
)

-- Two records that fit, whose bytes for the digest are the same, are the same record: no field can run
-- into the next, and no entry of the detail can pass for another field.
pub record_bytes_injective :
    (r r' : Record) → IsEncodable r → IsEncodable r' → record_bytes r ≡ record_bytes r' → r ≡ r'
unfolding record_bytes fields
record_bytes_injective r r' h h' e =
    let same =
      write_all_injective (fields r) (fields r') (IsEncodable-fields r h) (IsEncodable-fields r' h')
        e in
    let seqs = be64_injective r.seq r'.seq h.0 h'.0 cc in
    let times = be64_injective r.unix_nano r'.unix_nano h.1 h'.1 cc in
    let agents : r.agent_id ≡ r'.agent_id = cc in
    let actors : r.actor ≡ r'.actor = cc in
    let actions : r.action ≡ r'.action = cc in
    let resources : r.resource ≡ r'.resource = cc in
    let (details, prevs) = detail_fields_injective r.detail r'.detail r.prev_hash r'.prev_hash cc in
    λ i. record {
      seq = seqs i;
      unix_nano = times i;
      agent_id = agents i;
      actor = actors i;
      action = actions i;
      resource = resources i;
      detail = details i;
      prev_hash = prevs i;
    }
