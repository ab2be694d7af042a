-- ===== src/Model.antt =====
-- internal/model/target.go and internal/model/program.go: the rows and the requests. A string
-- constant is a constructor, and a string that is none of the constants is `other`. Times are
-- nanoseconds since Go's zero time; an id or a uid that the database makes is a number.
use target_service.Prelude.{ℕ, ◌*◌, Bool, true, false, Option, none, some, List}
use target_service.Text.{Str}

abbrev pub Time : Type 0
Time = ℕ

abbrev pub second : ℕ
second = 1000000000

abbrev pub hour : ℕ
hour = 3600 * second

pub data TargetKind : Type 0 where
  domain url ip cidr : TargetKind

pub data TargetStatus : Type 0 where
  unverified verifying verified revoked : TargetStatus

pub data TargetSource : Type 0 where
  customer program : TargetSource

pub data Method : Type 0 where
  dns_txt http_file meta_tag email ip_registry program manual : Method
  other : Str → Method

pub data ScopeKind : Type 0 where
  registrable_domain ip_range : ScopeKind

pub data AssetType : Type 0 where
  subdomain ip port service endpoint : AssetType

pub data ScopeClass : Type 0 where
  in_scope out_of_scope shared_infra unknown : ScopeClass

pub record Target : Type 0 where
  pub id : ℕ
  pub uid : ℕ
  pub user_id : ℕ
  pub kind : TargetKind
  pub value : Str
  pub registrable_domain : Option Str
  pub status : TargetStatus
  pub source : TargetSource
  pub label : Option Str
  pub created_at : Time
  pub updated_at : Time

-- authorizations.evidence: the keys that the service writes; `none` is a key that is not there.
pub record Evidence : Type 0 where
  pub platform : Option Str
  pub name : Option Str
  pub url : Option Str
  pub policy_url : Option Str
  pub scope_notes : Option Str
  pub handle : Option Str
  pub note : Option Str

pub record Authorization : Type 0 where
  pub id : ℕ
  pub uid : ℕ
  pub target_id : ℕ
  pub method : Method
  pub token : Str
  pub scope_kind : ScopeKind
  pub scope_value : Str
  pub verified_at : Option Time
  pub expires_at : Option Time
  pub attested_by : Option ℕ
  pub evidence : Option Evidence
  pub created_at : Time

pub record Asset : Type 0 where
  pub id : ℕ
  pub uid : ℕ
  pub target_id : ℕ
  pub asset_type : AssetType
  pub value : Str
  pub parent_asset_id : Option ℕ
  pub scope_class : ScopeClass
  pub metadata : Str
  pub discovered_by : Option Str
  pub first_seen : Time
  pub last_seen : Time

-- What an ownership check says when it does not pass.
pub data Detail : Type 0 where
  txt_lookup_failed : Str → Detail
  txt_not_found : Str → Str → ℕ → Detail
  get_failed homepage_failed : Str → Detail
  bad_status : Str → ℕ → Detail
  body_mismatch : Str → Str → Detail
  tag_not_found : Str → Detail
  pending_review : Detail

pub data ProgramStatus : Type 0 where
  active paused : ProgramStatus

pub data ProgramAssetType : Type 0 where
  domain wildcard url ip cidr other : ProgramAssetType

pub record BugbountyProgram : Type 0 where
  pub id : ℕ
  pub platform : Str
  pub handle : Str
  pub name : Str
  pub policy_url : Str
  pub automation_allowed : Bool
  pub rate_limit_rps : Option ℕ
  pub prohibited_techniques : List Str
  pub safe_harbor : Bool
  pub raw_policy : Str
  pub synced_at : Time
  pub stale_after_seconds : ℕ
  pub status : ProgramStatus
  pub created_at : Time
  pub updated_at : Time

pub record ProgramAsset : Type 0 where
  pub id : ℕ
  pub program_id : ℕ
  pub asset_type : ProgramAssetType
  pub identifier : Str
  pub in_scope : Bool
  pub created_at : Time

pub record CreateTargetRequest : Type 0 where
  pub kind : TargetKind
  pub value : Str

pub record AssetUpsertItem : Type 0 where
  pub asset_type : AssetType
  pub value : Str
  pub discovered_by : Option Str
  pub metadata : Str

pub record ProgramEvidence : Type 0 where
  pub platform : Str
  pub name : Str
  pub url : Str
  pub policy_url : Str
  pub scope_notes : Str
  pub authorized_days : ℕ
  pub handle : Str

pub record AdminCreateProgramTargetRequest : Type 0 where
  pub kind : TargetKind
  pub value : Str
  pub user_id : ℕ
  pub label : Str
  pub program : ProgramEvidence

pub record AdminAuthorizeTargetRequest : Type 0 where
  pub note : Str
  pub authorized_days : ℕ

pub data Layer : Type 0 where
  network application : Layer
  other : Str → Layer

pub record ScopeCheckRequest : Type 0 where
  pub target_uid : ℕ
  pub host : Str
  pub ip : Str
  pub phase : Str
  pub intrusive : Option Bool
  pub layer : Layer
  pub auth_scan_authorized : Option Bool

-- Absent means intrusive.
unfoldable pub is_intrusive : ScopeCheckRequest → Bool
is_intrusive r = elim (r.intrusive) [ none ↦ true | some b ↦ b ]

abbrev not_application : Layer → Bool
not_application application = false
not_application _ = true

-- Only an explicit "application" is not network-layer.
unfoldable pub is_network_layer : ScopeCheckRequest → Bool
is_network_layer r = not_application r.layer

-- The filters, the order and the page of a listing.
pub record SearchParameters : Type 0 where
  pub user_id : Option ℕ
  pub status : Option Str
  pub source : Option Str
  pub query : Option Str
  pub sort_by : Str
  pub sort_order : Str
  pub page_number : ℕ
  pub page_size : ℕ
