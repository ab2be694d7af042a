-- ===== src/Store/Keys/Actions.antt =====
-- The keys of the targets table through the statements of the repositories.
use target_service.Prelude.{
  ℕ, refl, inl, inr, not, ◌&&◌, Option, none, ◌==◌, any, find, some, List, [], ◌∷◌, Bool-cases,
  Option-cases,
}
use target_service.Text.{Str, to_lower, trim_space}
use target_service.Model.{
  Asset, AssetUpsertItem, Time, TargetStatus, TargetKind, TargetSource, Evidence,
}
use target_service.Store.{World, query, is_failing}
use target_service.Store.Targets
use target_service.Store.Targets.{Etld, same_key, non_empty}
use target_service.Store.Authorizations
use target_service.Store.Rules.{spent}
use target_service.Store.Writes.{
  written-Keeps, update_status-Writes, delete-Writes, delete_by_uid-Writes, mark_verified-Writes,
  expire_active_authorizations-Writes,
}
use target_service.Store.Keeps.{Keeps, pure-Keeps, bind-Keeps, query-Keeps}
use target_service.Store.Kept.{Kept}
use target_service.Store.Assets
use target_service.Store.Keys.{
  HasKeys, IsKeyed-append, IsKeyed-suc, IsKeyed-filter, IsKeyed-set_status,
}

update_status-Keeps : (id : ℕ) (s : TargetStatus) → Keeps HasKeys (Targets.update_status id s)
update_status-Keeps id s =
    written-Keeps (Targets.update_status id s) _ (update_status-Writes id s)
      (λ w i. IsKeyed-set_status id s (spent w) w.db.targets i)

delete-Keeps : (user_id uid : ℕ) → Keeps HasKeys (Targets.delete user_id uid)
delete-Keeps user_id uid =
    written-Keeps (Targets.delete user_id uid) _ (delete-Writes user_id uid) (λ w i.
      unfold Targets.remove in
      IsKeyed-filter (λ t. not (t.uid == uid && t.user_id == user_id)) w.db.targets i)

delete_by_uid-Keeps : (uid : ℕ) → Keeps HasKeys (Targets.delete_by_uid uid)
delete_by_uid-Keeps uid =
    written-Keeps (Targets.delete_by_uid uid) _ (delete_by_uid-Writes uid)
      (λ w i. unfold Targets.remove in IsKeyed-filter (λ t. not (t.uid == uid)) w.db.targets i)

mark_verified-Keeps :
    (id : ℕ) (expires : Time) (evidence : Option Evidence)
    → Keeps HasKeys (Authorizations.mark_verified id expires evidence)
mark_verified-Keeps id expires evidence =
    written-Keeps (Authorizations.mark_verified id expires evidence) _
      (mark_verified-Writes id expires evidence) (λ w i. i)

expire_active_authorizations-Keeps :
    (id : ℕ) → Keeps HasKeys (Authorizations.expire_active_authorizations id)
expire_active_authorizations-Keeps id =
    written-Keeps (Authorizations.expire_active_authorizations id) _
      (expire_active_authorizations-Writes id) (λ w i. i)

create_authorization-Keeps :
    (a : Authorizations.NewAuthorization) → Keeps HasKeys (Authorizations.create a)
unfolding Authorizations.create query
create_authorization-Keeps a = record {
  kept = λ w i. elim (Option-cases (is_failing w.faults)) [
    | inl e ↦ rw (e, query) (IsKeyed-suc w.db.targets i)
    | inr (m, e) ↦ rw (e, query) i
  ];
}

module _ (etld : Etld) where
  insert-Keeps :
      (user_id : ℕ) (kind : TargetKind) (raw : Str) (status : TargetStatus) (source : TargetSource)
      (label : Option Str)
      → Keeps HasKeys (Targets.insert etld user_id kind raw status source label)
  unfolding Targets.insert query
  insert-Keeps user_id kind raw status source label = record {
    kept = λ w i. elim (Option-cases (is_failing w.faults)) [
      | inr (m, e) ↦ rw (e, query) i
      | inl e ↦
          elim (Bool-cases (any (same_key user_id kind (to_lower (trim_space raw))) w.db.targets)) [
            | inl y ↦ rw (e, query, y) i
            | inr n ↦ rw (e, query, n) (IsKeyed-append _ w.db.targets refl refl n i)
          ]
    ];
  }

upsert_row-HasKeys :
    (target_id : ℕ) (item : AssetUpsertItem) (w : World)
    → HasKeys w.db
    → HasKeys (Assets.upsert_row target_id item w).1.db
unfolding Assets.upsert_row Assets.upsert_found
upsert_row-HasKeys target_id item w i =
    by_found (find (Assets.has_key target_id item.asset_type item.value) w.db.assets)
  where
    by_found : (found : Option Asset) → HasKeys (Assets.upsert_found target_id item found w).1.db
    by_found none = IsKeyed-suc w.db.targets i
    by_found (some a) = i

upsert-Keeps :
    (target_id : ℕ) (items : List AssetUpsertItem) → Keeps HasKeys (Assets.upsert target_id items)
unfolding Assets.upsert
upsert-Keeps target_id [] = pure-Keeps []
upsert-Keeps target_id (item ∷ items) =
    bind-Keeps (query-Keeps (Assets.upsert_row target_id item) (upsert_row-HasKeys target_id item))
      (λ a. bind-Keeps (upsert-Keeps target_id items) (λ rest. pure-Keeps (a ∷ rest)))

-- The keys are an invariant of every write.
pub HasKeys-Kept : Kept HasKeys
HasKeys-Kept = record {
  auths = record {
    create = create_authorization-Keeps;
    mark_verified = mark_verified-Keeps;
    expire_active = expire_active_authorizations-Keeps;
  };
  insert = insert-Keeps;
  update_status = update_status-Keeps;
  delete = delete-Keeps;
  delete_by_uid = delete_by_uid-Keeps;
  upsert = upsert-Keeps;
}
