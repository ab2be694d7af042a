-- ===== src/Store/Writes.antt =====
-- What a write leaves behind when it fails, and when it succeeds.
use mathlib.Core.Path.{subst}
use target_service.Prelude.{ℕ, ◌≡◌, sym, inl, inr, ◌&&◌, Option, arith, ◌==◌, map}
use target_service.Model.{Time, TargetStatus, Evidence}
use target_service.Store.{Error, Result, ok, err, Db, World, M, query}
use target_service.Store.Rules.{spent, Result-cases}
use target_service.Store.Keeps.{Keeps}
use target_service.Store.Targets
use target_service.Store.Targets.{Etld, same_key}
use target_service.Store.Authorizations
use target_service.Store.Authorizations.{set_expired, set_verified}

-- A write that failed changed nothing; one that succeeded changed the database alone, to `db`.
pub record Writes {ℓ} {A : Type ℓ} (w : World) (db : Db) (r : Result A × World) : Type ℓ where
  pub failed : {e : Error} → r.0 ≡ err e → r.1.db ≡ w.db
  pub written : {a : A} → r.0 ≡ ok a → r.1.db ≡ db
  pub now : r.1.now ≡ w.now
  pub events : r.1.events ≡ w.events

module _ {ℓ} {Inv : Db → Type 0} {A : Type ℓ} where
  -- A write keeps what the database that it writes has, and a read keeps everything.
  pub written-Keeps :
      (m : M A) (to : World → Db)
      → ((w : World) → Writes w (to w) (m w))
      → ((w : World) → Inv w.db → Inv (to w))
      → Keeps Inv m
  written-Keeps m to writes keeps = record {
    kept = λ w i. elim (Result-cases (m w).0) [
      | inl (e, q) ↦ let v = writes w in subst Inv (sym (v.failed q)) i
      | inr (a, q) ↦ let v = writes w in subst Inv (sym (v.written q)) (keeps w i)
    ];
  }

pub expire_active_authorizations-Writes :
    (id : ℕ) (w : World)
    → Writes w
        (record (w.db) { auths = map (set_expired id w.now) w.db.auths })
        (Authorizations.expire_active_authorizations id w)
unfolding Authorizations.expire_active_authorizations query
expire_active_authorizations-Writes id w = record {
  failed = ground arith;
  written = ground arith;
  now = ground arith;
  events = ground arith;
}

pub update_status-Writes :
    (id : ℕ) (s : TargetStatus) (w : World)
    → Writes w
        (record (w.db) { targets = map (Targets.set_status id s (spent w)) w.db.targets })
        (Targets.update_status id s w)
unfolding Targets.update_status query
update_status-Writes id s w = record {
  failed = ground arith;
  written = ground arith;
  now = ground arith;
  events = ground arith;
}

pub delete-Writes :
    (user_id uid : ℕ) (w : World)
    → Writes w
        (Targets.remove (λ t. t.uid == uid && t.user_id == user_id) w.db)
        (Targets.delete user_id uid w)
unfolding Targets.delete query
delete-Writes user_id uid w = record {
  failed = ground arith;
  written = ground arith;
  now = ground arith;
  events = ground arith;
}

pub delete_by_uid-Writes :
    (uid : ℕ) (w : World)
    → Writes w (Targets.remove (λ t. t.uid == uid) w.db) (Targets.delete_by_uid uid w)
unfolding Targets.delete_by_uid query
delete_by_uid-Writes uid w = record {
  failed = ground arith;
  written = ground arith;
  now = ground arith;
  events = ground arith;
}

pub mark_verified-Writes :
    (id : ℕ) (expires : Time) (evidence : Option Evidence) (w : World)
    → Writes w
        (record (w.db) { auths = map (set_verified id expires evidence (spent w)) w.db.auths })
        (Authorizations.mark_verified id expires evidence w)
unfolding Authorizations.mark_verified query
mark_verified-Writes id expires evidence w = record {
  failed = ground arith;
  written = ground arith;
  now = ground arith;
  events = ground arith;
}
