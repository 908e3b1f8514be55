-- ===== src/Protocols/Allow/Permits.antt =====
-- internal/protocols/target.go: which hosts a target set permits.
use phantom_traffic.Prelude.{
  ◌≡◌, ◌≢◌, ◌∙◌, refl, sym, true, ◌||◌, List, [], ◌∷◌, ◌++◌, ◌⊎◌, ◌↔◌, inl, inr, String, arith,
  Bool-cases,
}
use phantom_traffic.Prelude.Text.{Bytes}
use phantom_traffic.Protocols.{Target}
use phantom_traffic.Protocols.Allow.{
  normalize_host, same_host, member, add_host, target_hosts, domain_hosts, new_target_set, permits,
}

-- There is an entry with the property.
abbrev pub Any : {A : Type 0} → (A → Type 0) → List A → Type 0
Any P [] = ⊥
Any P (x ∷ xs) = P x ⊎ Any P xs

same_host_iff : (a b : Bytes) → (same_host a b ≡ true) ↔ (a ≡ b)
unfolding same_host
same_host_iff [] [] = (λ h. refl, λ h. refl)
same_host_iff [] (y ∷ b) = (λ h. cc, λ h. cc)
same_host_iff (x ∷ a) [] = (λ h. cc, λ h. cc)
same_host_iff (x ∷ a) (y ∷ b) = ground (arith, same_host_iff a b)

member_iff : (h : Bytes) (xs : List Bytes) → (member h xs ≡ true) ↔ Any (λ x. x ≡ h) xs
unfolding member
member_iff h [] = (λ e. cc, λ e. elim e [ ])
member_iff h (x ∷ xs) = ground (arith, same_host_iff x h, member_iff h xs)

member-append :
    (h : Bytes) (xs ys : List Bytes) → member h (xs ++ ys) ≡ (member h xs || member h ys)
unfolding member
member-append h [] ys = refl
member-append h (x ∷ xs) ys = ground (arith, member-append h xs ys)

add_host_to :
    (h x : Bytes) (xs : List Bytes)
    → member h (add_host x xs) ≡ true
    → ((x ≢ []) × (x ≡ h)) ⊎ (member h xs ≡ true)
unfolding member
add_host_to h [] xs e = inr e
add_host_to h (c ∷ cs) xs e = elim (Bool-cases (same_host (c ∷ cs) h)) [
  | inl same ↦ inl (λ q. cc, (same_host_iff (c ∷ cs) h).0 same)
  | inr other ↦ inr (rw other at e)
]

add_host_from :
    (h x : Bytes) (xs : List Bytes)
    → ((x ≢ []) × (x ≡ h)) ⊎ (member h xs ≡ true)
    → member h (add_host x xs) ≡ true
unfolding member
add_host_from h [] xs (inl (ne, same)) = absurd (ne refl)
add_host_from h [] xs (inr e) = e
add_host_from h (c ∷ cs) xs (inl (ne, same)) = rw ((same_host_iff (c ∷ cs) h).1 same) refl
add_host_from h (c ∷ cs) xs (inr e) = ground arith

-- The hosts of targets are theirs, without the empty one; so are those of domains.
target_hosts_to :
    (h : Bytes) (ts : List Target)
    → member h (target_hosts ts) ≡ true
    → (h ≢ []) × Any (λ t. normalize_host t.addr ≡ h) ts
unfolding target_hosts
target_hosts_to h [] e = unfold member in absurd (cc)
target_hosts_to h (t ∷ ts) e = elim (add_host_to h (normalize_host t.addr) (target_hosts ts) e) [
  | inl (ne, same) ↦ (λ q. ne (same ∙ q), inl same)
  | inr later ↦ let (ne, any) = target_hosts_to h ts later in (ne, inr any)
]

target_hosts_from :
    (h : Bytes) (ts : List Target)
    → h ≢ []
    → Any (λ t. normalize_host t.addr ≡ h) ts
    → member h (target_hosts ts) ≡ true
unfolding target_hosts
target_hosts_from h [] ne any = elim any [ ]
target_hosts_from h (t ∷ ts) ne (inl same) =
    add_host_from h (normalize_host t.addr) (target_hosts ts) (inl (λ q. ne (sym same ∙ q), same))
target_hosts_from h (t ∷ ts) ne (inr any) =
    add_host_from h (normalize_host t.addr) (target_hosts ts) (inr (target_hosts_from h ts ne any))

domain_hosts_to :
    (h : Bytes) (ds : List String)
    → member h (domain_hosts ds) ≡ true
    → (h ≢ []) × Any (λ d. normalize_host d ≡ h) ds
unfolding domain_hosts
domain_hosts_to h [] e = unfold member in absurd (cc)
domain_hosts_to h (d ∷ ds) e = elim (add_host_to h (normalize_host d) (domain_hosts ds) e) [
  | inl (ne, same) ↦ (λ q. ne (same ∙ q), inl same)
  | inr later ↦ let (ne, any) = domain_hosts_to h ds later in (ne, inr any)
]

domain_hosts_from :
    (h : Bytes) (ds : List String)
    → h ≢ []
    → Any (λ d. normalize_host d ≡ h) ds
    → member h (domain_hosts ds) ≡ true
unfolding domain_hosts
domain_hosts_from h [] ne any = elim any [ ]
domain_hosts_from h (d ∷ ds) ne (inl same) =
    add_host_from h (normalize_host d) (domain_hosts ds) (inl (λ q. ne (sym same ∙ q), same))
domain_hosts_from h (d ∷ ds) ne (inr any) =
    add_host_from h (normalize_host d) (domain_hosts ds) (inr (domain_hosts_from h ds ne any))

-- The addresses that a target set was made for.
abbrev pub IsNamed : List Target → List String → Bytes → Type 0
IsNamed ts ds h =
    (h ≢ []) × (Any (λ t. normalize_host t.addr ≡ h) ts ⊎ Any (λ d. normalize_host d ≡ h) ds)

-- Permits says yes exactly to the addresses whose normalized host is not empty and is that of a target
-- or of an allowed domain that the set was made of: no other host gets through, and none of these is
-- kept out.
pub permits_iff :
    (ts : List Target) (ds : List String) (host : String)
    → (permits (new_target_set ts ds) host ≡ true) ↔ IsNamed ts ds (normalize_host host)
unfolding permits new_target_set
permits_iff ts ds host = (to, from)
  where
    h : Bytes
    h = normalize_host host

    to : member h (target_hosts ts ++ domain_hosts ds) ≡ true → IsNamed ts ds h
    to e = elim (Bool-cases (member h (target_hosts ts))) [
      | inl target ↦ let (ne, any) = target_hosts_to h ts target in (ne, inl any)
      | inr none ↦
          let rest : member h (domain_hosts ds) ≡ true =
            ground (arith, member-append h (target_hosts ts) (domain_hosts ds)) in
          let (ne, any) = domain_hosts_to h ds rest in (ne, inr any)
    ]

    from : IsNamed ts ds h → member h (target_hosts ts ++ domain_hosts ds) ≡ true
    from (ne, inl any) =
        let target = target_hosts_from h ts ne any in
        ground (arith, member-append h (target_hosts ts) (domain_hosts ds))
    from (ne, inr any) =
        let domain = domain_hosts_from h ds ne any in
        ground (arith, member-append h (target_hosts ts) (domain_hosts ds))
