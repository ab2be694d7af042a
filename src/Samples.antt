-- ===== src/Samples.antt =====
-- Sample data for the tests: one verified domain, its authorization, and the network around it.
use target_service.Prelude.{Bool, true, false, none, some, [], ◌∷◌, ◌==◌}
use target_service.Text.{Str, codes}
use target_service.Net.{Ip, v4, v6}
use target_service.Model.{
  Target, domain, verified, customer, Authorization, dns_txt, registrable_domain, ScopeCheckRequest,
  application,
}
use target_service.Store.{World}
use target_service.Service.Env.{Env, resolved}

abbrev pub server : Ip
server = v4 1572395042

abbrev pub is_loopback : Ip → Bool
is_loopback (v4 n) = n == 2130706433
is_loopback (v6 n) = n == 1

abbrev pub internet : Env
internet = record {
  ip_targets_enabled = false;
  etld = λ host. some host;
  lookup_txt = λ host. some (codes "scantinel-verify=ab" ∷ []);
  http_get = λ url. none;
  resolve_strict = λ host. resolved (server ∷ []);
  is_denied_ip = is_loopback;
  ilike = λ pattern_ value. true;
  collate = λ s t. false;
}

abbrev pub site : Target
site = record {
  id = 1;
  uid = 11;
  user_id = 7;
  kind = domain;
  value = codes "example.com";
  registrable_domain = some (codes "example.com");
  status = verified;
  source = customer;
  label = none;
  created_at = 0;
  updated_at = 0;
}

abbrev pub grant : Authorization
grant = record {
  id = 2;
  uid = 22;
  target_id = 1;
  method = dns_txt;
  token = codes "ab";
  scope_kind = registrable_domain;
  scope_value = codes "example.com";
  verified_at = some 5;
  expires_at = some 1000;
  attested_by = none;
  evidence = none;
  created_at = 1;
}

abbrev pub world : World
world = record {
  db = record {
    targets = site ∷ [];
    auths = grant ∷ [];
    assets = [];
    programs = [];
    program_assets = [];
    next_id = 23;
  };
  now = 100;
  faults = [];
  random = [];
  events = [];
}

abbrev pub ask : Str → Str → ScopeCheckRequest
ask host ip = record {
  target_uid = 11;
  host = host;
  ip = ip;
  phase = codes "crawl";
  intrusive = some true;
  layer = application;
  auth_scan_authorized = none;
}
