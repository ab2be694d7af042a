-- ===== src/Service/Dto.antt =====
-- The projections of internal/service/target_service.go and target_admin_service.go that leave
-- the service: targetToDTO, authorizationToDTO, authorizationToAdminDTO, targetToDetailDTO,
-- targetToAdminDTO, and assetToDTO of asset_service.go.
use target_service.Prelude.{ℕ, Option, none, some, List, [], ◌++◌, map}
use target_service.Text.{Str, codes}
use target_service.Model.{
  Time, Target, TargetKind, TargetStatus, TargetSource, Authorization, Evidence, Method, dns_txt,
  http_file, meta_tag, ip_registry, ScopeKind, Asset, AssetType, ScopeClass,
}
use target_service.Service.Verification.{normalize_host}

pub record TargetDto : Type 0 where
  pub uid : ℕ
  pub kind : TargetKind
  pub value : Str
  pub registrable_domain : Option Str
  pub status : TargetStatus
  pub source : TargetSource
  pub label : Option Str
  pub created_at : Time
  pub updated_at : Time

pub record AuthorizationDto : Type 0 where
  pub uid : ℕ
  pub method : Method
  pub scope_kind : ScopeKind
  pub scope_value : Str
  pub verified_at : Option Time
  pub expires_at : Option Time
  pub attested_by : Option ℕ
  pub evidence : Option Evidence

pub record TargetDetailDto : Type 0 where
  pub target : TargetDto
  pub authorization : Option AuthorizationDto
  pub verify_token : Option Str
  pub verify_instructions : Str

pub record AssetDto : Type 0 where
  pub uid : ℕ
  pub asset_type : AssetType
  pub value : Str
  pub scope_class : ScopeClass
  pub metadata : Str
  pub discovered_by : Option Str
  pub first_seen : Time
  pub last_seen : Time

pub record TargetAdminDto : Type 0 where
  pub user_id : ℕ
  pub target : TargetDto
  pub authorization : Option AuthorizationDto
  pub assets : Option (List AssetDto)

unfoldable pub target_to_dto : Target → TargetDto
target_to_dto t = record {
  uid = t.uid;
  kind = t.kind;
  value = t.value;
  registrable_domain = t.registrable_domain;
  status = t.status;
  source = t.source;
  label = t.label;
  created_at = t.created_at;
  updated_at = t.updated_at;
}

-- attested_by and evidence stay with the administrator.
unfoldable pub authorization_to_dto : Authorization → AuthorizationDto
authorization_to_dto a = record {
  uid = a.uid;
  method = a.method;
  scope_kind = a.scope_kind;
  scope_value = a.scope_value;
  verified_at = a.verified_at;
  expires_at = a.expires_at;
  attested_by = none;
  evidence = none;
}

unfoldable pub authorization_to_admin_dto : Authorization → AuthorizationDto
unfolding authorization_to_dto
authorization_to_admin_dto a = record (authorization_to_dto a) {
  attested_by = a.attested_by;
  evidence = a.evidence;
}

abbrev pub map_option {ℓ κ} : {A : Type ℓ} {B : Type κ} → (A → B) → Option A → Option B
map_option f none = none
map_option f (some a) = some (f a)

abbrev pub text_or_empty : Option Str → Str
text_or_empty none = []
text_or_empty (some s) = s

unfoldable pub target_to_detail_dto :
    Target → Option Authorization → Option Str → Option Str → TargetDetailDto
unfolding target_to_dto authorization_to_dto
target_to_detail_dto t auth token instructions = record {
  target = target_to_dto t;
  authorization = map_option authorization_to_dto auth;
  verify_token = token;
  verify_instructions = text_or_empty instructions;
}

unfoldable pub asset_to_dto : Asset → AssetDto
asset_to_dto a = record {
  uid = a.uid;
  asset_type = a.asset_type;
  value = a.value;
  scope_class = a.scope_class;
  metadata = a.metadata;
  discovered_by = a.discovered_by;
  first_seen = a.first_seen;
  last_seen = a.last_seen;
}

unfoldable pub target_to_admin_dto :
    Target → Option Authorization → Option (List Asset) → TargetAdminDto
unfolding target_to_dto authorization_to_admin_dto asset_to_dto
target_to_admin_dto t auth assets = record {
  user_id = t.user_id;
  target = target_to_dto t;
  authorization = map_option authorization_to_admin_dto auth;
  assets = map_option (map asset_to_dto) assets;
}

instructions_for : Method → Str → Str → Str → Str
instructions_for dns_txt token host value =
    codes "Add a DNS TXT record to " ++ (host ++ (codes " with value: scantinel-verify=" ++ token))
instructions_for http_file token host value =
    codes "Serve https://"
    ++ (host
        ++ (codes "/.well-known/scantinel-verify/"
            ++ (token ++ (codes " with the token as its only content: " ++ token))))
instructions_for meta_tag token host value =
    codes "Add to your homepage: <meta name=\"scantinel-verify\" content=\""
    ++ (token ++ codes "\">")
instructions_for ip_registry token host value =
    codes "Contact the RIR-registered abuse/registrant address for "
    ++ (value ++ (codes " and confirm ownership with token: " ++ token))
instructions_for _ token host value = codes "Use token " ++ (token ++ codes " to verify ownership")

unfoldable pub build_instructions : Method → Str → Target → Str
unfolding instructions_for
build_instructions method token t = instructions_for method token (normalize_host t.value) t.value
