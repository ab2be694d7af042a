-- ===== src/Handler/Http.antt =====
-- What a handler gets and answers, and the checks of internal/handler/helpers.go that handlers share.
pub mod Rules
use target_service.Prelude.{
  ℕ, ℤ, Bool, true, false, ◌||◌, not, Option, none, some, List, [], ◌∷◌, String, leb, if◌then◌else◌,
}
use target_service.Text.{Str, atoi, one_of}
use target_service.Store.{Error, Result, ok, err, World, M}
use target_service.Scope.Response.{ScopeCheckResponse}
use target_service.Scope.Verified.{VerifiedCheckResponse}
use target_service.Service.Dto.{TargetDto, TargetDetailDto, TargetAdminDto, AssetDto}
use target_service.Service.Listing.{Stats}
use target_service.Service.Programs.{ProgramDto}
use target_service.Handler.{user_id_from_header, positive}

-- The headers, the path parameter and the query parameters; what is missing is the empty text.
pub record Call : Type 0 where
  pub is_admin : Str
  pub user_roles : Str
  pub user_id : Str
  pub user_plan : Str
  pub target_uid : Option ℕ
  pub query_param : Str → Str

-- What Bind and the validator make of a body.
pub data Body {ℓ} (A : Type ℓ) : Type ℓ where
  no_body unreadable invalid : Body A
  given : A → Body A

-- The message of an answer: a fixed text, or one made of values or of an error's own text.
pub data Message : Type 0 where
  says : String → Message
  tells : Error → Message
  did_not_pass : Error → Message
  plan_allows : Str → ℤ → Message

-- The data of an answer.
pub data Payload : Type 0 where
  detail : TargetDetailDto → Payload
  targets : List TargetDto → Payload
  assets : List AssetDto → Payload
  admin_target : TargetAdminDto → Payload
  admin_targets : List TargetAdminDto → ℕ → ℕ → ℕ → Payload
  statistics : Stats → Payload
  program : ProgramDto → Payload
  scope : ScopeCheckResponse → Payload
  verified : VerifiedCheckResponse → Payload
  plan_upgrade_required : Str → ℤ → Payload

pub record Answer : Type 0 where
  pub status_code : ℕ
  pub is_success : Bool
  pub message : Message
  pub payload : Option Payload

abbrev pub Handler : Type 0
Handler = World → Answer × World

-- The flag says whether there is an error to be logged.
abbrev pub prepare_response : ℕ → Message → Bool → Option Payload → Answer
prepare_response status_code message failed payload = record {
  status_code = status_code;
  is_success = not (failed || leb 400 status_code);
  message = message;
  payload = payload;
}

-- An answer to an error, and one without an error.
abbrev pub refuse : ℕ → Message → Answer
refuse status_code message = prepare_response status_code message true none

abbrev pub retrieved : ℕ → String → Payload → Answer
retrieved status_code text payload = prepare_response status_code (says text) false (some payload)

abbrev pub stop : ℕ → Message → Handler
stop status_code message w = (refuse status_code message, w)

-- What the service did, as an answer.
unfoldable pub respond {ℓ} : {A : Type ℓ} → M A → (Error → Answer) → (A → Answer) → Handler
respond m failed done w = let (r, w') = m w in (elim r [ ok a ↦ done a | err e ↦ failed e ], w')

abbrev header_problem : Str → Message
header_problem [] = says "X-User-Id header is required"
header_problem (c ∷ s) = says "X-User-Id must be a positive integer"

-- UserIDFromHeader and the answer to its error.
unfoldable pub with_user : Call → (ℕ → Handler) → Handler
with_user call handler = elim (user_id_from_header call.user_id) [
  | none ↦ stop 400 (header_problem call.user_id)
  | some id ↦ handler id
]

-- ValidateUID and the answer to its error.
unfoldable pub with_uid : Call → (ℕ → Handler) → Handler
with_uid call handler = elim call.target_uid [
  | none ↦ stop 400 (says "target_uid is required")
  | some uid ↦ handler uid
]

-- Validate and the answer to its error.
unfoldable pub with_body {ℓ} : {A : Type ℓ} → Body A → (A → Handler) → Handler
with_body no_body handler = stop 400 (says "request body is required")
with_body unreadable handler = stop 400 (says "invalid request payload")
with_body invalid handler = stop 400 (says "invalid request payload")
with_body (given a) handler = handler a

-- An answer 400 without an error.
abbrev pub invalid_param : String → Handler
invalid_param text w = (prepare_response 400 (says text) false none, w)

-- The query parameter user_id: absent, no positive integer, or a user.
unfoldable pub with_user_param : Str → (Option ℕ → Handler) → Handler
with_user_param [] handler = handler none
with_user_param (c ∷ s) handler = elim (positive (atoi (c ∷ s))) [
  | none ↦ invalid_param "user_id must be a positive integer"
  | some id ↦ handler (some id)
]

-- A filter that is absent, or one of the values that there are.
unfoldable pub with_filter : List Str → String → Str → (Option Str → Handler) → Handler
with_filter valid problem [] handler w = handler none w
with_filter valid problem (c ∷ s) handler w =
    if one_of valid (c ∷ s) then handler (some (c ∷ s)) w else invalid_param problem w
