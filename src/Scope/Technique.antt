-- ===== src/Scope/Technique.antt =====
-- The technique tables of internal/service/scope_service.go: phaseTechnique,
-- prohibitedPhaseTechnique, normalizeTechniques.
use mathlib.Core.List.{Memᴰ}
use target_service.Prelude.{
  ◌≡◌, ◌≢◌, refl, ◌↔◌, inl, inr, Bool, true, false, Option, none, some, List, [], ◌∷◌, arith,
  if◌then◌else◌, Bool-cases, any,
}
use target_service.Text.{Str, codes, to_lower, trim_space, replace_all, str_eq}
use target_service.Text.Laws.{str_eq_iff}

abbrev pub phase_technique_table : List (Str × Str)
phase_technique_table =
    (codes "cred", codes "brute_force")
    ∷ (codes "auth_register", codes "account_creation")
    ∷ (codes "auth_account_mgmt", codes "account_creation")
    ∷ (codes "network", codes "network_scanning")
    ∷ (codes "web_vuln", codes "automated_scanning")
    ∷ (codes "auth_crawl", codes "automated_scanning")
    ∷ (codes "agent", codes "automated_scanning")
    ∷ []

-- A map lookup: the empty string for a missing key.
unfoldable pub lookup_technique : Str → List (Str × Str) → Str
lookup_technique phase [] = []
lookup_technique phase ((p, t) ∷ table) = if str_eq p phase then t else lookup_technique phase table

unfoldable pub phase_technique : Str → Str
phase_technique phase = lookup_technique phase phase_technique_table

unfoldable pub normalize_technique : Str → Str
normalize_technique s =
    replace_all b' ' (codes "_") (replace_all b'-' (codes "_") (to_lower (trim_space s)))

abbrev pub is_empty : Str → Bool
is_empty [] = true
is_empty (_ ∷ _) = false

unfoldable pub normalize_techniques : List Str → List Str
normalize_techniques [] = []
normalize_techniques (s ∷ ss) =
    let rest = normalize_techniques ss in
    let n = normalize_technique s in if is_empty n then rest else n ∷ rest

-- `none` is the empty string that the source returns when nothing prohibits the phase.
unfoldable pub prohibited_phase_technique : Str → List Str → Option Str
prohibited_phase_technique phase prohibited =
    let tech = phase_technique phase in
    if is_empty tech
    then none
    else if any (λ p. str_eq p tech) (normalize_techniques prohibited)
    then some tech
    else none

-- A list of prohibited techniques forbids a phase: the phase performs some technique, and an entry
-- of the list, normalised, is that technique.
abbrev pub Forbids : List Str → Str → Type 0
Forbids prohibited phase =
    (phase_technique phase ≢ [])
    × ((entry : Str) × Memᴰ entry prohibited × (normalize_technique entry ≡ phase_technique phase))

module _ (t : Str) where
  listed_sound :
      (ss : List Str)
      → any (λ p. str_eq p t) (normalize_techniques ss) ≡ true
      → (s : Str) × Memᴰ s ss × (normalize_technique s ≡ t)
  unfolding normalize_techniques any
  listed_sound [] h = cc
  listed_sound (s ∷ ss) h = elim (Bool-cases (str_eq (normalize_technique s) t)) [
    | inl e ↦ (s, Memᴰ.head refl, (str_eq_iff (normalize_technique s) t).0 e)
    | inr e ↦ let (u, m, q) = listed_sound ss (ground arith) in (u, Memᴰ.tail m, q)
  ]

  listed_complete :
      {s : Str} (ss : List Str)
      → t ≢ []
      → Memᴰ s ss
      → normalize_technique s ≡ t
      → any (λ p. str_eq p t) (normalize_techniques ss) ≡ true
  unfolding normalize_techniques any
  listed_complete [] ne m q = elim m [ ]
  listed_complete (s ∷ ss) ne (Memᴰ.head e) q = ground (arith, str_eq_iff (normalize_technique s) t)
  listed_complete (s ∷ ss) ne (Memᴰ.tail m) q = ground (arith, listed_complete ss ne m q)

-- A phase is reported as prohibited exactly when it performs a technique that some entry of the
-- list names, up to case, surrounding space, "-" and " "; what is reported is the technique.
pub prohibited_phase_technique_iff :
    (phase : Str) (prohibited : List Str) (t : Str)
    → (prohibited_phase_technique phase prohibited ≡ some t)
      ↔ (Forbids prohibited phase × (t ≡ phase_technique phase))
unfolding prohibited_phase_technique
prohibited_phase_technique_iff phase prohibited t = (
  λ h.
      let (s, m, q) = listed_sound (phase_technique phase) prohibited (ground arith) in
      ((ground arith, (s, m, q)), ground arith),
  λ ((ne, (s, m, q)), e).
      let l = listed_complete (phase_technique phase) prohibited ne m q in ground arith,
)
