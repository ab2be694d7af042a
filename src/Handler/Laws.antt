-- ===== src/Handler/Laws.antt =====
-- Bounds of the paging parameters, and whose UUID is stored with a row.
use target_service.Prelude.{
  ℕ, suc, zero, ◌^◌, ◌≤◌, ◌<◌, ◌≡◌, inl, inr, Option, none, some, arith, Bool-cases, ◌==◌, ℤ, pos,
  negsuc,
}
use target_service.Text.{Str, atoi, atoi_value}
use target_service.Handler.{
  or_default, admin_max_page_size, max_page_size, admin_paging_params, validate_paging_params,
  positive, derive_user_id, bound_uid, user_uid_middleware, keycloak_uid,
}

or_default_bound : (n : ℤ) (d : ℕ) → 1 ≤ d → 1 ≤ or_default n d
or_default_bound (pos zero) d h = h
or_default_bound (pos (suc n)) d h = ground arith
or_default_bound (negsuc n) d h = h

-- Whatever text the query parameters hold, the page is at least 1 and the size is between 1 and the
-- greatest one: 200 for an administrator's list, 100 for another.
pub paging_params_bounds :
    (page_number page_size sort_by sort_order : Str)
    → ((1 ≤ (admin_paging_params page_number page_size).0)
        × (1 ≤ (admin_paging_params page_number page_size).1)
        × ((admin_paging_params page_number page_size).1 ≤ admin_max_page_size))
      × ((1 ≤ (validate_paging_params page_number page_size sort_by sort_order).0.0)
          × (1 ≤ (validate_paging_params page_number page_size sort_by sort_order).0.1)
          × ((validate_paging_params page_number page_size sort_by sort_order).0.1 ≤ max_page_size))
unfolding admin_paging_params validate_paging_params
paging_params_bounds page_number page_size sort_by sort_order =
    let p = or_default_bound (atoi_value page_number) 1 (ground arith) in
    let a = or_default_bound (atoi_value page_size) 50 (ground arith) in
    let u = or_default_bound (atoi_value page_size) 10 (ground arith) in
    ((p, ground arith, ground arith), (p, ground arith, ground arith))

-- The id that is derived from a subject is a positive number of 63 bits.
derive_user_id_bounds : (sub : Str) → (1 ≤ derive_user_id sub) × (derive_user_id sub < 2 ^ 63)
unfolding derive_user_id
derive_user_id_bounds sub = (ground arith, ground arith)

-- A UUID is stored with a row only if the request's own user owns the row, and that user's id is
-- the one that is derived from the UUID's header.
pub keycloak_uid_sound :
    (scan_uuid : Str → Option Str) (user_id raw : Str) (owner : ℕ) (uid : Str)
    → keycloak_uid (user_uid_middleware scan_uuid user_id raw) owner ≡ some uid
    → (owner ≡ derive_user_id raw)
      × (scan_uuid raw ≡ some uid)
      × (positive (atoi user_id) ≡ some owner)
unfolding keycloak_uid user_uid_middleware
keycloak_uid_sound scan_uuid user_id raw owner uid h =
    by_parts (positive (atoi user_id)) (scan_uuid raw) h
  where
    by_parts :
        (id : Option ℕ) (u : Option Str)
        → keycloak_uid (bound_uid id raw u) owner ≡ some uid
        → (owner ≡ derive_user_id raw) × (u ≡ some uid) × (id ≡ some owner)
    by_parts none u h = absurd (ground arith)
    by_parts (some id) none h = absurd (ground arith)
    by_parts (some id) (some u) h = elim (Bool-cases (id == derive_user_id raw)) [
      | inr n ↦ absurd (ground arith)
      | inl y ↦ elim (Bool-cases (id == owner)) [
        | inr n ↦ absurd (ground arith)
        | inl z ↦ (ground arith, ground arith, ground arith)
      ]
    ]
