-- ===== src/Tools/Email.antt =====
-- internal/service/email_auth.go: the checks of a domain's SPF, DMARC and DKIM records.
pub mod Laws
use target_service.Prelude.{
  ℕ, suc, ◌+◌, Bool, true, false, not, ◌&&◌, ◌||◌, Option, none, some, List, [], ◌∷◌, ◌++◌, map,
  ltb, if◌then◌else◌, any, find, drop, take,
}
use target_service.Model.{Time}
use target_service.Text.{
  Str, codes, str_eq, to_lower, trim_space, has_prefix, split, fields, index, one_of,
}

abbrev pub is_blank : Str → Bool
is_blank s = str_eq (trim_space s) []

-- A warning, and a fix that is none, stand for their texts.
pub data Warning : Type 0 where
  no_spf no_all_mechanism allows_any soft_fail : Warning
  too_many_lookups : ℕ → Warning
  no_dmarc policy_none policy_quarantine no_rua : Warning

pub record SpfResult : Type 0 where
  pub present : Bool
  pub record_ : Str
  pub qualifier : Str
  pub lookup_count : ℕ
  pub warnings : List Warning

pub record DmarcResult : Type 0 where
  pub present : Bool
  pub record_ : Str
  pub policy : Str
  pub rua_present : Bool
  pub warnings : List Warning

abbrev starts_with : Str → Str → Bool
starts_with r prefix = has_prefix (to_lower (trim_space r)) prefix

abbrev trimmed_or_empty : Option Str → Str
trimmed_or_empty none = []
trimmed_or_empty (some r) = trim_space r

unfoldable pub find_record_with_prefix : List Str → Str → Str
find_record_with_prefix records prefix = trimmed_or_empty (find (λ r. starts_with r prefix) records)

abbrev all_qualifiers : List Str
all_qualifiers = codes "-all" ∷ codes "~all" ∷ codes "?all" ∷ codes "+all" ∷ []

-- The qualifier that a field sets.
unfoldable pub all_mechanism : Str → Option Str
all_mechanism lf =
    if one_of all_qualifiers lf
    then some lf
    else if str_eq lf (codes "all")
    then some (codes "+all")
    else none

-- The mechanisms that cost a DNS lookup.
unfoldable pub costs_lookup : Str → Bool
costs_lookup lf =
    one_of (codes "a" ∷ codes "mx" ∷ codes "ptr" ∷ []) lf
    || any (has_prefix lf) (
        codes "include:"
        ∷ codes "a:"
        ∷ codes "a/"
        ∷ codes "mx:"
        ∷ codes "mx/"
        ∷ codes "ptr:"
        ∷ codes "exists:"
        ∷ codes "redirect="
        ∷ [])

-- The cases of the switch exclude one another from the first on.
abbrev pub spf_step : Str → ℕ × Str → ℕ × Str
spf_step lf (lookups, qualifier) = elim (all_mechanism lf) [
  | some q ↦ (lookups, q)
  | none ↦ if costs_lookup lf then (lookups + 1, qualifier) else (lookups, qualifier)
]

unfoldable pub scan_spf : List Str → ℕ × Str → ℕ × Str
scan_spf [] acc = acc
scan_spf (f ∷ fs) acc = scan_spf fs (spf_step (to_lower f) acc)

unfoldable pub qualifier_warnings : Str → List Warning
qualifier_warnings q =
    if str_eq q []
    then no_all_mechanism ∷ []
    else if str_eq q (codes "+all")
    then allows_any ∷ []
    else if str_eq q (codes "~all")
    then soft_fail ∷ []
    else []

abbrev lookup_warnings : ℕ → List Warning
lookup_warnings lookups = if ltb 10 lookups then too_many_lookups lookups ∷ [] else []

spf_of : Str → ℕ × Str → SpfResult
unfolding qualifier_warnings
spf_of record_ (lookups, qualifier) = record {
  present = true;
  record_ = record_;
  qualifier = qualifier;
  lookup_count = lookups;
  warnings = qualifier_warnings qualifier ++ lookup_warnings lookups;
}

unfoldable pub parse_spf : Str → SpfResult
unfolding spf_of scan_spf
parse_spf record_ =
    if is_blank record_
    then record {
      present = false;
      record_ = [];
      qualifier = [];
      lookup_count = 0;
      warnings = no_spf ∷ [];
    }
    else spf_of record_ (scan_spf (fields record_) (0, []))

-- SplitN(tag, "=", 2).
abbrev key_value : Str → Option (Str × Str)
key_value tag = elim (index tag (codes "=")) [
  | none ↦ none
  | some i ↦ some (take i tag, drop (suc i) tag)
]

abbrev set_tag : Str → Str → Str × Bool → Str × Bool
set_tag key val (policy, rua) =
    if str_eq key (codes "p")
    then (to_lower val, rua)
    else if str_eq key (codes "rua")
    then (policy, not (str_eq val []))
    else (policy, rua)

abbrev dmarc_step : Str → Str × Bool → Str × Bool
dmarc_step tag acc = elim (key_value (trim_space tag)) [
  | none ↦ acc
  | some (k, v) ↦ set_tag (to_lower (trim_space k)) (trim_space v) acc
]

unfoldable pub scan_dmarc : List Str → Str × Bool → Str × Bool
scan_dmarc [] acc = acc
scan_dmarc (tag ∷ tags) acc = scan_dmarc tags (dmarc_step tag acc)

unfoldable pub policy_warnings : Str → List Warning
policy_warnings policy =
    if one_of (codes "none" ∷ [] ∷ []) policy
    then policy_none ∷ []
    else if str_eq policy (codes "quarantine")
    then policy_quarantine ∷ []
    else []

abbrev rua_warnings : Bool → List Warning
rua_warnings true = []
rua_warnings false = no_rua ∷ []

dmarc_of : Str → Str × Bool → DmarcResult
unfolding policy_warnings
dmarc_of record_ (policy, rua) = record {
  present = true;
  record_ = record_;
  policy = policy;
  rua_present = rua;
  warnings = policy_warnings policy ++ rua_warnings rua;
}

unfoldable pub parse_dmarc : Str → DmarcResult
unfolding dmarc_of scan_dmarc
parse_dmarc record_ =
    if is_blank record_
    then record {
      present = false;
      record_ = [];
      policy = [];
      rua_present = false;
      warnings = no_dmarc ∷ [];
    }
    else dmarc_of record_ (scan_dmarc (split b';' record_) (codes "none", false))

pub record DkimSelectorResult : Type 0 where
  pub selector : Str
  pub present : Bool
  pub record_ : Str

pub data Fix : Type 0 where
  add_spf add_dmarc : Str → Fix
  heed : Warning → Fix
  add_dkim : Fix

pub record EmailAuthResponse : Type 0 where
  pub domain : Str
  pub spf : SpfResult
  pub dmarc : DmarcResult
  pub dkim : List DkimSelectorResult
  pub fixes : List Fix
  pub checked_at : Time

unfoldable pub build_email_fixes : Str → EmailAuthResponse → List Fix
build_email_fixes domain resp =
    (if not resp.spf.present then add_spf domain ∷ [] else map heed resp.spf.warnings)
    ++ ((if not resp.dmarc.present then add_dmarc domain ∷ [] else map heed resp.dmarc.warnings)
        ++ (if any (λ d. d.present) resp.dkim then [] else add_dkim ∷ []))

abbrev pub dkim_selectors : List Str
dkim_selectors =
    codes "google"
    ∷ codes "selector1"
    ∷ codes "selector2"
    ∷ codes "default"
    ∷ codes "mail"
    ∷ codes "dkim"
    ∷ codes "k1"
    ∷ codes "s1"
    ∷ codes "s2"
    ∷ []

abbrev lookup_txt : (Str → Option (List Str)) → Str → List Str
lookup_txt resolver host = elim (resolver host) [ none ↦ [] | some recs ↦ recs ]

-- Some providers publish the record without its tag: the first one counts then.
abbrev or_first : Str → List Str → Str
or_first (c ∷ s) recs = c ∷ s
or_first [] [] = []
or_first [] (r ∷ recs) = r

abbrev dkim_result : Str → Str → DkimSelectorResult
dkim_result sel rec = record { selector = sel; present = not (str_eq rec []); record_ = rec }

unfoldable pub check_dkim : (Str → Option (List Str)) → Str → Str → DkimSelectorResult
unfolding find_record_with_prefix
check_dkim resolver domain sel =
    let recs = lookup_txt resolver (sel ++ (codes "._domainkey." ++ domain)) in
    dkim_result sel (or_first (find_record_with_prefix recs (codes "v=dkim1")) recs)

-- The resolver is a parameter: `none` is its error.
unfoldable pub check : (Str → Option (List Str)) → Time → Str → EmailAuthResponse
unfolding find_record_with_prefix check_dkim parse_spf parse_dmarc build_email_fixes
check resolver now domain =
    let resp : EmailAuthResponse = record {
      domain = domain;
      spf = parse_spf (find_record_with_prefix (lookup_txt resolver domain) (codes "v=spf1"));
      dmarc = parse_dmarc (
          find_record_with_prefix (lookup_txt resolver (codes "_dmarc." ++ domain))
            (codes "v=dmarc1"));
      dkim = map (check_dkim resolver domain) dkim_selectors;
      fixes = [];
      checked_at = now;
    } in
    record resp { fixes = build_email_fixes domain resp }
