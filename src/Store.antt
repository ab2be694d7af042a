-- ===== src/Store.antt =====
-- The database behind internal/repository: its tables as lists of rows in the order of insertion,
-- and actions that may fail. An action gives its result and the world after it; what was written
-- before an error stays written. A wrapped error (%w) is the error that it wraps.
pub mod Targets
mod Tests
pub mod Search
pub mod Listing
pub mod Assets
pub mod Authorizations
pub mod Programs
pub mod Rules
pub mod Reads
pub mod Writes
pub mod Keeps
pub mod Kept
pub mod Keys
use target_service.Prelude.{
  ℕ, ◌+◌, Bool, true, false, ◌||◌, Option, none, some, List, [], ◌∷◌, ◌++◌, if◌then◌else◌,
}
use target_service.Text.{Str, codes, contains, to_lower}
use target_service.Model.{
  Time, Target, Authorization, Asset, BugbountyProgram, ProgramAsset, Detail,
}

pub data Error : Type 0 where
  -- internal/repository/interfaces.go
  err_not_found err_duplicate_target : Error
  -- a failure of the database driver, with its message
  db_failure : Str → Error
  -- crypto/rand
  random_failure : Error
  -- internal/service/target_service.go
  err_ip_targets_unsupported err_target_not_found err_target_admin_authorized err_target_exists :
      Error
  -- internal/service/verification_service.go
  unknown_method : Str → Error
  check_not_passed : Detail → Error
  -- internal/service/program_service.go, and a connector's own failure
  no_policy_connector policy_failure : Str → Error
  -- a nil pointer dereference
  panic : Error

pub data Result {ℓ} (A : Type ℓ) : Type ℓ where
  ok : A → Result A
  err : Error → Result A

pub data EventType : Type 0 where
  target_verified verification_failed scope_expanded : EventType
  admin_target_created admin_target_authorized admin_target_revoked admin_target_deleted : EventType

-- An audit event: what happened, to which target (its uid), by which admin if any.
pub record AuditEvent : Type 0 where
  pub type : EventType
  pub target_uid : ℕ
  pub actor : Option ℕ
  pub count : ℕ

pub record Db : Type 0 where
  pub targets : List Target
  pub auths : List Authorization
  pub assets : List Asset
  pub programs : List BugbountyProgram
  pub program_assets : List ProgramAsset
  pub next_id : ℕ

-- The database, the clock, what the driver will do with each call to come (`some` message is a
-- failure), the random bytes to come, and the audit events emitted so far.
pub record World : Type 0 where
  pub db : Db
  pub now : Time
  pub faults : List (Option Str)
  pub random : List ℕ
  pub events : List AuditEvent

abbrev pub M {ℓ} : Type ℓ → Type ℓ
M A = World → Result A × World

module _ {ℓ} {A : Type ℓ} where
  abbrev pub pure : A → M A
  pure a w = (ok a, w)

  abbrev pub raise : Error → M A
  raise e w = (err e, w)

  abbrev pub lift : Result A → M A
  lift r w = (r, w)

  abbrev pub gets : (World → A) → M A
  gets f w = (ok (f w), w)

  -- The result of an action as a value: `x, err := …`.
  abbrev pub attempt : M A → M (Result A)
  attempt m w = let (r, w') = m w in (ok r, w')

abbrev pub is_failing : List (Option Str) → Option Str
is_failing [] = none
is_failing (f ∷ fs) = f

abbrev pub later : List (Option Str) → List (Option Str)
later [] = []
later (f ∷ fs) = fs

module _ {ℓ κ} {A : Type ℓ} {B : Type κ} where
  abbrev pub continue : Result A → (A → M B) → M B
  continue (ok a) f w = f a w
  continue (err e) f w = (err e, w)

  infixl 5 ◌>>=◌ ◌>>◌
  abbrev pub ◌>>=◌ : M A → (A → M B) → M B
  ◌>>=◌ m f w = let (r, w') = m w in continue r f w'

  abbrev pub ◌>>◌ : M A → M B → M B
  ◌>>◌ m k w = let (r, w') = m w in continue r (λ _. k) w'

-- One statement sent to the database: a failure leaves it as it was.
unfoldable pub query {ℓ} : {A : Type ℓ} → (World → Result A × World) → M A
query run w =
    let w' = record w { faults = later w.faults } in
    elim (is_failing w.faults) [ some message ↦ (err (db_failure message), w') | none ↦ run w' ]

abbrev pub with_db : World → Db → World
with_db w db = record w { db = db }

-- An audit event is emitted at once; the callers ignore its error.
unfoldable pub emit : EventType → ℕ → Option ℕ → ℕ → M (Unit {0})
emit type uid actor count w = (
  ok tt,
  record w {
    events =
        w.events ++ record { type = type; target_uid = uid; actor = actor; count = count } ∷ [];
  },
)

-- isLookupMiss and the errors.Is test that stands before it.
unfoldable pub is_lookup_miss : Error → Bool
is_lookup_miss err_not_found = true
is_lookup_miss (db_failure message) = contains (to_lower message) (codes "not found")
is_lookup_miss _ = false
