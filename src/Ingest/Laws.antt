-- ===== src/Ingest/Laws.antt =====
-- What the HackerOne connector returns.
use mathlib.Core.Path.{subst}
use target_service.Prelude.{
  ℕ, suc, zero, ◌+◌, ◌≡◌, ◌≢◌, refl, inl, inr, Bool, true, false, ◌||◌, List, [], ◌∷◌, ◌++◌, arith,
  All, Bool-cases, if◌then◌else◌,
}
use target_service.Text.{Str, codes, trim_space, has_prefix}
use target_service.Text.Laws.{str_eq_refl}
use target_service.Model.{ProgramAssetType}
use target_service.Store.{Result, ok, err}
use target_service.Store.Programs.Sync.{NewAsset}
use target_service.Service.Programs.{ProgramPolicy}
use target_service.Ingest.{
  H1Program, H1Scope, H1StructuredScopes, HackerOne, hacker_one_max_scope_pages, is_empty,
  map_hacker_one_asset_type, assets_of, and_then, page_result, fetch_pages, policy_of, fetch_known,
  fetch_program,
}

-- An asset has an identifier, and one that begins with "*." is a wildcard.
abbrev pub IsUsable : NewAsset → Type 0
IsUsable a =
    (a.identifier ≢ [])
    × (has_prefix a.identifier (codes "*.") ≡ true → a.asset_type ≡ ProgramAssetType.wildcard)

All-append : (xs ys : List NewAsset) → All IsUsable xs → All IsUsable ys → All IsUsable (xs ++ ys)
All-append [] ys p q = q
All-append (x ∷ xs) ys (h, p) q = (h, All-append xs ys p q)

assets_of-IsUsable : (scopes : List H1Scope) → All IsUsable (assets_of scopes)
unfolding assets_of
assets_of-IsUsable [] = tt
assets_of-IsUsable (s ∷ scopes) = elim (Bool-cases (is_empty (trim_space s.asset_identifier))) [
  | inl y ↦ rw y (assets_of-IsUsable scopes)
  | inr n ↦ rw n (
    (
      λ e. absurd (ground (arith, e, str_eq_refl [])),
      λ w. unfold map_hacker_one_asset_type in rw w refl,
    ),
    assets_of-IsUsable scopes,
  )
]

-- Whatever assets there are, they are usable.
AreUsable : Result (List NewAsset) → Type 0
AreUsable (ok assets) = All IsUsable assets
AreUsable (err e) = Unit

page_result-AreUsable :
    (page : H1StructuredScopes) (rest : Result (List NewAsset))
    → AreUsable rest
    → AreUsable (page_result page rest)
unfolding AreUsable
page_result-AreUsable page rest h = by_scopes page.scopes (is_empty page.next) rest h
  where
    joined :
        (assets : List NewAsset) (rest : Result (List NewAsset))
        → All IsUsable assets
        → AreUsable rest
        → AreUsable (and_then assets rest)
    joined assets (ok more) p q = All-append assets more p q
    joined assets (err e) p q = tt

    by_scopes :
        (scopes : List H1Scope) (last : Bool) (rest : Result (List NewAsset))
        → AreUsable rest
        → AreUsable (elim scopes [
          | [] ↦ ok []
          | s ∷ scopes ↦
              if last then ok (assets_of (s ∷ scopes)) else and_then (assets_of (s ∷ scopes)) rest
        ])
    by_scopes [] last rest h = tt
    by_scopes (s ∷ scopes) true rest h = assets_of-IsUsable (s ∷ scopes)
    by_scopes (s ∷ scopes) false rest h =
        joined (assets_of (s ∷ scopes)) rest (assets_of-IsUsable (s ∷ scopes)) h

fetch_pages-AreUsable :
    (get : ℕ → Result H1StructuredScopes) (left page : ℕ) → AreUsable (fetch_pages get left page)
unfolding fetch_pages AreUsable
fetch_pages-AreUsable get zero page = tt
fetch_pages-AreUsable get (suc left) page =
    by_page (get page) (fetch_pages get left (page + 1)) (fetch_pages-AreUsable get left (page + 1))
  where
    by_page :
        (r : Result H1StructuredScopes) (rest : Result (List NewAsset))
        → AreUsable rest
        → AreUsable (elim r [ err e ↦ err e | ok scopes ↦ page_result scopes rest ])
    by_page (err e) rest h = tt
    by_page (ok scopes) rest h = page_result-AreUsable scopes rest h

policy_of-IsUsable :
    (api : HackerOne) (handle : Str) (program : H1Program) (r : Result (List NewAsset))
    {policy : ProgramPolicy}
    → AreUsable r
    → policy_of api handle program r ≡ ok policy
    → (policy.handle ≡ handle) × All IsUsable policy.assets
unfolding policy_of AreUsable
policy_of-IsUsable api handle program (err e) u h = absurd (ground arith)
policy_of-IsUsable api handle program (ok assets) u h =
    (ground arith, subst (All IsUsable) (ground arith) u)

fetch_known-IsUsable :
    (api : HackerOne) (handle : Str) (r : Result H1Program) {policy : ProgramPolicy}
    → fetch_known api handle r ≡ ok policy
    → (policy.handle ≡ handle) × All IsUsable policy.assets
unfolding fetch_known
fetch_known-IsUsable api handle (err e) h = absurd (ground arith)
fetch_known-IsUsable api handle (ok program) {policy} h =
    policy_of-IsUsable api handle program
      (fetch_pages (api.get_scopes handle) hacker_one_max_scope_pages 1) {policy = policy}
      (fetch_pages-AreUsable (api.get_scopes handle) hacker_one_max_scope_pages 1) h

-- The connector returns a policy only for a handle that is not blank and with both credentials set;
-- the policy carries the trimmed handle, every asset has an identifier, and an asset whose
-- identifier begins with "*." is a wildcard.
pub fetch_program_sound :
    (api : HackerOne) (raw : Str) (policy : ProgramPolicy)
    → fetch_program api raw ≡ ok policy
    → (is_empty (trim_space raw) ≡ false)
      × ((is_empty api.username || is_empty api.token) ≡ false)
      × (policy.handle ≡ trim_space raw)
      × All IsUsable policy.assets
unfolding fetch_program
fetch_program_sound api raw policy h = elim (Bool-cases (is_empty (trim_space raw))) [
  | inl y ↦ absurd (ground arith)
  | inr n ↦ elim (Bool-cases (is_empty api.username || is_empty api.token)) [
    | inl y ↦ absurd (ground arith)
    | inr m ↦
        let (e, u) =
          fetch_known-IsUsable api (trim_space raw) (api.get_program (trim_space raw))
            {policy = policy} (rw (n, m, fetch_program) at h) in
        (n, m, e, u)
  ]
]
