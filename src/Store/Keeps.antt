-- ===== src/Store/Keeps.antt =====
-- Invariants of the database: what an action keeps, by the parts that it is made of.
use mathlib.Core.Path.{subst}
use target_service.Prelude.{ℕ, sym, inl, inr, Bool, true, false, Option, if◌then◌else◌}
use target_service.Store.{
  Error, Result, ok, err, EventType, Db, World, M, pure, raise, gets, attempt, continue, ◌>>=◌,
  ◌>>◌, query, emit,
}
use target_service.Store.Reads.{Same}
use target_service.Store.Rules.{query_cases}

-- The invariant holds after the action when it holds before, whatever the result.
pub record Keeps {ℓ} (Inv : Db → Type 0) {A : Type ℓ} (m : M A) : Type 0 where
  pub kept : (w : World) → Inv w.db → Inv (m w).1.db

module _ {Inv : Db → Type 0} where
  module _ {ℓ} {A : Type ℓ} where
    pub pure-Keeps : (a : A) → Keeps Inv (pure a)
    pure-Keeps a = record { kept = λ w i. i }

    pub raise-Keeps : (e : Error) → Keeps Inv (raise {A = A} e)
    raise-Keeps e = record { kept = λ w i. i }

    pub gets-Keeps : (f : World → A) → Keeps Inv (gets f)
    gets-Keeps f = record { kept = λ w i. i }

    pub attempt-Keeps : {m : M A} → Keeps Inv m → Keeps Inv (attempt m)
    attempt-Keeps k = record { kept = λ w i. k.kept w i }

    -- A statement that fails leaves the database as it was.
    pub query-Keeps :
        (run : World → Result A × World)
        → ((w : World) → Inv w.db → Inv (run w).1.db)
        → Keeps Inv (query run)
    query-Keeps run k = record {
      kept = λ w i. elim (query_cases run w) [
        | inl (m, e) ↦ subst (λ r. Inv r.1.db) (sym e) i
        | inr e ↦ subst (λ r. Inv r.1.db) (sym e) (k _ i)
      ];
    }

    pub read-Keeps : (m : M A) → ((w : World) → Same w (m w).1) → Keeps Inv m
    read-Keeps m same = record { kept = λ w i. let s = same w in subst Inv (sym s.db) i }

    -- A branch on a test keeps what both branches keep.
    pub if-Keeps :
        (b : Bool) {m n : M A} → Keeps Inv m → Keeps Inv n → Keeps Inv (if b then m else n)
    if-Keeps true k l = k
    if-Keeps false k l = l

  pub emit-Keeps :
      (type : EventType) (uid : ℕ) (actor : Option ℕ) (count : ℕ)
      → Keeps Inv (emit type uid actor count)
  unfolding emit
  emit-Keeps type uid actor count = record { kept = λ w i. i }

  module _ {ℓ κ} {A : Type ℓ} {B : Type κ} where
    pub bind-Keeps :
        {m : M A} {f : A → M B} → Keeps Inv m → ((a : A) → Keeps Inv (f a)) → Keeps Inv (m >>= f)
    bind-Keeps {m = m} {f = f} k l = record { kept = λ w i. by_result w i (m w).0 }
      where
        by_result : (w : World) (i : Inv w.db) (r : Result A) → Inv (continue r f (m w).1).1.db
        by_result w i (ok a) = let j = l a in j.kept (m w).1 (k.kept w i)
        by_result w i (err e) = k.kept w i

    pub then-Keeps : {m : M A} {n : M B} → Keeps Inv m → Keeps Inv n → Keeps Inv (m >> n)
    then-Keeps {m = m} {n = n} k l = bind-Keeps {m = m} {f = λ _. n} k (λ _. l)
