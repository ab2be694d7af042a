-- ===== src/Service/Verification.antt =====
-- internal/service/verification_service.go.
use target_service.Prelude.{
  ℕ, ◌+◌, Bool, false, ◌&&◌, not, Option, none, some, List, [], ◌∷◌, ◌++◌, leb, ◌==◌, if◌then◌else◌,
  length, any, take, drop,
}
use target_service.Text.{Str, codes, str_eq, to_lower, trim_space, index, contains, last_index}
use target_service.Model.{
  Target, TargetKind, ip, cidr, Authorization, Method, dns_txt, http_file, meta_tag, email,
  ip_registry, program, manual, ScopeKind, registrable_domain, ip_range, Detail, txt_lookup_failed,
  txt_not_found, get_failed, homepage_failed, bad_status, body_mismatch, tag_not_found,
  pending_review,
}
use target_service.Store.{Error, M, pure, ◌>>=◌}
use target_service.Store.Authorizations
use target_service.Store.Authorizations.{NewAuthorization}
use target_service.Service.Env.{Env}
use target_service.Service.Token.{generate_token}

abbrev or_value : Option Str → Str → Str
or_value none value = value
or_value (some []) value = value
or_value (some (c ∷ s)) value = c ∷ s

scope_of : TargetKind → Target → ScopeKind × Str
scope_of ip t = (ip_range, t.value)
scope_of cidr t = (ip_range, t.value)
scope_of _ t = (registrable_domain, or_value t.registrable_domain t.value)

unfoldable pub scope_for_target : Target → ScopeKind × Str
unfolding scope_of
scope_for_target t = scope_of t.kind t

-- The challenge row for a token.
unfoldable pub challenge : Target → Method → Str → Option ℕ → NewAuthorization
challenge t method token attested_by =
    let (scope_kind, scope_value) = scope_for_target t in
    record {
      target_id = t.id;
      method = method;
      token = token;
      scope_kind = scope_kind;
      scope_value = scope_value;
      verified_at = none;
      expires_at = none;
      attested_by = attested_by;
      evidence = none;
    }

unfoldable pub issue_challenge : Target → Method → ℕ → M (Authorization × Str)
unfolding challenge
issue_challenge t method attested_by = do
  token ← generate_token 32
  created ← Authorizations.create (challenge t method token (some attested_by))
  pure (created, token)

-- The new row keeps the token that the owner has published.
unfoldable pub switch_method : Target → Authorization → Method → M Authorization
unfolding challenge
switch_method t prev method = Authorizations.create (challenge t method prev.token prev.attested_by)

strip_scheme : Str → Str
strip_scheme value = elim (index value (codes "://")) [ none ↦ value | some i ↦ drop (i + 3) value ]

strip_path : Str → Str
strip_path value = elim (index value (codes "/")) [ none ↦ value | some i ↦ take i value ]

abbrev starts_with_digit : Str → Bool
starts_with_digit [] = false
starts_with_digit (c ∷ s) = leb b'0' c && leb c b'9'

-- A port only if a digit follows the last colon.
strip_port : Str → Str
strip_port value = elim (last_index b':' value) [
  | none ↦ value
  | some i ↦ if starts_with_digit (drop (i + 1) value) then take i value else value
]

unfoldable pub normalize_host : Str → Str
unfolding strip_scheme strip_path strip_port
normalize_host value = to_lower (trim_space (strip_port (strip_path (strip_scheme value))))

-- (passed, detail, err): `broken` is an error.
pub data Check : Type 0 where
  passed : Check
  failed : Detail → Check
  broken : Error → Check

abbrev pub expected_txt : Str → Str
expected_txt token = codes "scantinel-verify=" ++ token

dns_result : Str → Str → Option (List Str) → Check
dns_result host token none = failed (txt_lookup_failed host)
dns_result host token (some records) =
    if any (λ rec. str_eq (trim_space rec) (expected_txt token)) records
    then passed
    else failed (txt_not_found (expected_txt token) host (length records))

unfoldable pub verify_dns_txt : Env → Str → Str → Check
unfolding dns_result
verify_dns_txt env domain_ token =
    let host = normalize_host domain_ in dns_result host token (env.lookup_txt host)

abbrev pub file_url : Str → Str → Str
file_url host token =
    codes "https://" ++ (host ++ (codes "/.well-known/scantinel-verify/" ++ token))

-- At most 256 bytes of the body are read.
file_result : Str → Str → Option (ℕ × Str) → Check
file_result url_ token none = failed (get_failed url_)
file_result url_ token (some (status, content)) =
    let body = trim_space (take 256 content) in
    if not (status == 200)
    then failed (bad_status url_ status)
    else if str_eq body token
    then passed
    else failed (body_mismatch body url_)

unfoldable pub verify_http_file : Env → Str → Str → Check
unfolding file_result
verify_http_file env host token =
    let url_ = file_url (normalize_host host) token in file_result url_ token (env.http_get url_)

abbrev pub home_url : Str → Str
home_url host = codes "https://" ++ (host ++ codes "/")

-- The three spellings of the tag.
abbrev pub needles : Str → List Str
needles token =
    (codes "name=\"scantinel-verify\" content=\"" ++ (token ++ codes "\""))
    ∷ (codes "content=\"" ++ (token ++ codes "\" name=\"scantinel-verify\""))
    ∷ (codes "name='scantinel-verify' content='" ++ (token ++ codes "'"))
    ∷ []

-- At most 64 KB of the page are read; the status is not looked at.
tag_result : Str → Str → Option (ℕ × Str) → Check
tag_result url_ token none = failed (homepage_failed url_)
tag_result url_ token (some (status, content)) =
    let body = take 65536 content in
    if any (contains body) (needles token) then passed else failed (tag_not_found url_)

unfoldable pub verify_meta_tag : Env → Str → Str → Check
unfolding tag_result
verify_meta_tag env host token =
    let url_ = home_url (normalize_host host) in tag_result url_ token (env.http_get url_)

check_method : Env → Method → Str → Str → Check
check_method env dns_txt value token = verify_dns_txt env value token
check_method env http_file value token = verify_http_file env value token
check_method env meta_tag value token = verify_meta_tag env value token
check_method env email value token = failed pending_review
check_method env ip_registry value token = failed pending_review
check_method env program value token = broken (Error.unknown_method (codes "program"))
check_method env manual value token = broken (Error.unknown_method (codes "manual"))
check_method env (Method.other m) value token = broken (Error.unknown_method m)

unfoldable pub run_check : Env → Target → Authorization → Check
unfolding check_method
run_check env t auth = check_method env auth.method t.value auth.token
