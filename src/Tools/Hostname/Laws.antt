-- ===== src/Tools/Hostname/Laws.antt =====
-- Which names are accepted.
use mathlib.Core.Path.{subst}
use target_service.Prelude.{
  ℕ, ◌≤◌, ◌≡◌, ◌↔◌, refl, sym, ap, ◌∙◌, ◌⊎◌, inl, inr, true, false, Bool-cases, Option, none, some,
  [], ◌∷◌, any, ◌==◌, arith, length, ltb,
}
use target_service.Text.{
  Str, codes, str_eq, has_suffix, contains, index, has_prefix, split, map_suc, trim_space,
}
use target_service.Text.Laws.{str_eq_iff}
use target_service.Net.{parse_ip}
use target_service.Tools.Hostname.{
  valid, rejected, HostnameError, internal_suffixes, are_labels, matches_hostname, is_some_ip,
  is_empty, strip, validate, normalize_and_validate_hostname,
}

found_later :
    (o : Option ℕ)
    → (elim o [ none ↦ false | some n ↦ true ]) ≡ true
    → (elim (map_suc o) [ none ↦ false | some n ↦ true ]) ≡ true
found_later none h = h
found_later (some n) h = refl

-- A text without a dot is its own only part.
split_dot : (s : Str) → (contains s (codes ".") ≡ true) ⊎ (split b'.' s ≡ s ∷ [])
unfolding contains index has_prefix split
split_dot [] = inr refl
split_dot (c ∷ s) = elim (Bool-cases (c == b'.')) [
  | inl y ↦ inl (rw (contains, y) refl)
  | inr n ↦ elim (split_dot s) [
    | inl h ↦ inl (rw (contains, n) (found_later (index s (codes ".")) h))
    | inr e ↦ inr (rw (n, e) refl)
  ]
]

-- What is accepted: at most 253 bytes, labels of letters, digits and hyphens below a top label of
-- letters, all in lower case, not an IP address, and under no internal suffix.
pub record IsPublicName (v : Str) : Type 0 where
  pub bound : length v ≤ 253
  pub labels : matches_hostname v ≡ true
  pub no_ip : is_some_ip (parse_ip v) ≡ false
  pub no_internal : any (has_suffix v) internal_suffixes ≡ false

matches-not_empty : (v : Str) → matches_hostname v ≡ true → is_empty v ≡ false
unfolding matches_hostname split are_labels
matches-not_empty [] h = sym h
matches-not_empty (c ∷ s) h = refl

matches-contains : (v : Str) → matches_hostname v ≡ true → contains v (codes ".") ≡ true
unfolding matches_hostname are_labels
matches-contains v h = elim (split_dot v) [
  | inl t ↦ t
  | inr e ↦ absurd (no_labels (sym (ap are_labels e) ∙ h))
]
  where
    no_labels : false ≡ true → ⊥
    no_labels h = ground arith

matches-not_localhost : (v : Str) → matches_hostname v ≡ true → str_eq v (codes "localhost") ≡ false
unfolding matches_hostname split are_labels
matches-not_localhost v h = elim (Bool-cases (str_eq v (codes "localhost"))) [
  | inr n ↦ n
  | inl y ↦ absurd (single (ap matches_hostname (sym ((str_eq_iff _ _).0 y)) ∙ h))
]
  where
    single : matches_hostname (codes "localhost") ≡ true → ⊥
    single h = ground arith

validate_iff : (v h : Str) → (validate v ≡ valid h) ↔ ((v ≡ h) × IsPublicName v)
unfolding validate
validate_iff v h = (sound, λ (e, p). complete e p)
  where
    sound : validate v ≡ valid h → (v ≡ h) × IsPublicName v
    sound q = (
      ground arith,
      record {
        bound = ground arith;
        labels = ground arith;
        no_ip = ground arith;
        no_internal = ground arith;
      },
    )

    complete : v ≡ h → IsPublicName v → validate v ≡ valid h
    complete e p =
        let a = matches-not_empty v p.labels in
        let b = matches-contains v p.labels in
        let c = matches-not_localhost v p.labels in
        let d = p.bound in
        let short : ltb 253 (length v) ≡ false = ground arith in
        rw (a, short, p.no_ip, p.labels, b, c, p.no_internal) (ap valid e)

-- A name is accepted exactly when something was typed and what is left of it, without scheme, path,
-- userinfo, port, final dot and brackets, is the name and a public one. The guards against single
-- labels and against localhost refuse nothing that the pattern of host names lets pass.
pub normalize_and_validate_hostname-valid_iff :
    (raw h : Str)
    → (normalize_and_validate_hostname raw ≡ valid h)
      ↔ ((is_empty (trim_space raw) ≡ false) × (strip (trim_space raw) ≡ h) × IsPublicName h)
unfolding normalize_and_validate_hostname
normalize_and_validate_hostname-valid_iff raw h = (sound, λ (n, e, p). complete n e p)
  where
    v : Str
    v = strip (trim_space raw)

    refused : {x : HostnameError} → rejected x ≡ valid h → ⊥
    refused q = ground arith

    sound :
        normalize_and_validate_hostname raw ≡ valid h
        → (is_empty (trim_space raw) ≡ false) × (strip (trim_space raw) ≡ h) × IsPublicName h
    sound = elim (Bool-cases (is_empty (trim_space raw))) [
      | inl y ↦ rw y (λ q. absurd (refused q))
      | inr n ↦ rw n (λ q. let (e, p) = (validate_iff v h).0 q in (refl, e, subst IsPublicName e p))
    ]

    complete :
        is_empty (trim_space raw) ≡ false
        → strip (trim_space raw) ≡ h
        → IsPublicName h
        → normalize_and_validate_hostname raw ≡ valid h
    complete n e p = rw n ((validate_iff v h).1 (e, subst IsPublicName (sym e) p))
