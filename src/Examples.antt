-- ===== src/Examples.antt =====
-- A concrete platform (fixed-point numbers in hundredths for the doubles), and the demo engine with
-- the default policies, for the tests of the other modules.
mod Program
mod Decisions
mod Components
mod Histories
mod Services
mod Sandboxes
mod Credentials
mod Fixes
mod Pentests
mod Analyses
mod Deliveries
use zerra.Prelude.{
  ℕ, ◌+◌, ◌-◌, ◌*◌, ◌/◌, ◌≤◌, ◌≡◌, refl, String, Bool, true, false, Option, none, some, List, [],
  ◌∷◌, arith, ltb, leb, ◌&&◌, if◌then◌else◌, length, show,
}
use zerra.Platform.{Platform}
use zerra.ScanModels.{
  Severity, ScanMode, ScanStatus, FindingStatus, VulnerabilityType, Finding, ScanResult,
}
use zerra.Contracts.{CallEvent, IdentityType, Identity}
use zerra.Identity
use zerra.Sequence.{init_scorer}
use zerra.Policy.{default_policies}
use zerra.Engine.{ZerraEngine}

ltb_asymm : (a b : ℕ) → ltb a b ≡ true → ltb b a ≡ false
ltb_asymm a b h = ground arith

ltb_ge_trans : (a b c : ℕ) → ltb a b ≡ false → ltb b c ≡ false → ltb a c ≡ false
ltb_ge_trans a b c h k = ground arith

scaled_mono : (a b n : ℕ) → ltb a b ≡ false → ltb (a * n / 100) (b * n / 100) ≡ false
scaled_mono a b n h =
    let le : b ≤ a = ground arith in
    let scaled : b * n ≤ a * n = grind arith in
    let divided : b * n / 100 ≤ a * n / 100 = omega arith in ground arith

scaled-one : (n : ℕ) → 100 * n / 100 ≡ n
scaled-one n = omega arith

scaled-zero : (n : ℕ) → 0 * n / 100 ≡ 0
scaled-zero n = omega arith

abbrev sum : List ℕ → ℕ
sum [] = 0
sum (n ∷ ns) = n + sum ns

abbrev fixed_point : Platform
fixed_point = record {
  Float = ℕ;
  lit = λ n. n;
  add = λ a b. a + b;
  sub = λ a b. a - b;
  mul = λ a b. a * b / 100;
  div = λ a b. a * 100 / b;
  lt = ltb;
  mean = λ ns. sum ns / length ns;
  ceil = λ a. (a + 99) / 100;
  floor = λ a. a / 100;
  uuid5 = λ name. name;
  round1 = λ a. a;
  format2 = show;
  digit_value = λ c. if leb b'0' c && leb c b'9' then some (c - b'0') else none;
  lower = λ s. s;
  upper = λ s. s;
  lt_asymm = ltb_asymm;
  ge_trans = ltb_ge_trans;
  lt-lit = λ m n. refl;
  ge-mul_lit = scaled_mono;
  mul-zero = scaled-zero;
  mul-one = scaled-one;
}

-- The engine of the demo, with nothing recorded yet.
abbrev demo_engine : ZerraEngine ℕ
demo_engine = record {
  registry = Identity.init fixed_point;
  graph_store = [];
  scorer = init_scorer;
  trust_store = [];
  policies = default_policies fixed_point;
}

abbrev alice : Identity ℕ
alice = record {
  id = "human-alice";
  type = IdentityType.human;
  tenant_id = "tenant-a";
  auth_strength = 95;
  scope_contract = [];
  trust_score = 10_000;
  is_revoked = false;
  display_name = some "Alice";
}

-- An agent that may call the invoices only.
abbrev pub agent : Identity ℕ
agent = record {
  id = "finance-agent";
  type = IdentityType.agent;
  tenant_id = "tenant-a";
  auth_strength = 92;
  scope_contract = "/invoices/*" ∷ [];
  trust_score = 10_000;
  is_revoked = false;
  display_name = some "Finance Agent";
}

-- The demo engine with one identity in place of its registry.
abbrev engine_with : Identity ℕ → ZerraEngine ℕ
engine_with identity = record demo_engine {
  registry = record {
    identities = (identity.id, identity) ∷ [];
    tokens = ("token", identity.id) ∷ [];
  };
}

-- A GET of an endpoint by an identity.
abbrev pub call : String → String → Option String → Option String → CallEvent
call identity_id endpoint object_id tenant_id = record {
  id = "call-1";
  identity_id = identity_id;
  identity_type = IdentityType.human;
  timestamp = 1_000_000_000;
  endpoint = endpoint;
  method = "GET";
  object_id = object_id;
  object_type = some "invoice";
  tenant_id = tenant_id;
  home_tenant_id = none;
  status_code = 200;
  response_fields = [];
  sensitive_fields_touched = [];
  scope_contract = none;
  metadata = [];
}

-- A scan that found a secret.
abbrev leaked : Finding ℕ
leaked = record {
  id = "f1";
  title = "Hardcoded token";
  description = "A token in the source";
  severity = Severity.critical;
  vulnerability_type = VulnerabilityType.secret;
  cwe_id = some "CWE-798";
  cvss_score = none;
  owasp_category = none;
  file_path = some "src/app.py";
  line_start = some 3;
  line_end = none;
  code_snippet = none;
  rule_id = some "token";
  confidence = 80;
  is_reachable = none;
  status = FindingStatus.open_finding;
  fix_suggestion = none;
  references = [];
  metadata = [];
  first_seen = 0;
  package_name = none;
  package_version = none;
  fixed_version = none;
  cve_id = none;
}

abbrev scan : ScanResult ℕ
scan = record {
  id = "scan-1";
  repo_url = "https://example.org/r.git";
  branch = none;
  commit_sha = none;
  mode = ScanMode.quick;
  status = ScanStatus.completed;
  started_at = none;
  completed_at = none;
  duration_seconds = none;
  findings = leaked ∷ [];
  files_scanned = 1;
  languages_detected = [];
  error_message = none;
}
