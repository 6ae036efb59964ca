-- ===== src/Examples/Pentests.antt =====
-- The penetration tests against a concrete target.
use zerra.Prelude.{ℕ, ◌≡◌, refl, false, none, [], ◌∷◌, show, ◌+++◌}
use zerra.Prelude.Results.{ok, is_ok}
use zerra.Pentest.{Target, Pentest, PentestScanConfig}
use zerra.Pentest.Engagement.{run}
use zerra.Pentest.Ledger.{IsSound}
use zerra.Pentest.Streams.{IsOver, run-IsOver, run-fails}

-- Every path answers with an invoice.
abbrev leaky : Target ℕ
leaky = record {
  respond = λ before request. ok (record { status_code = 200; body = "{\"amount\": 10}" });
  parse_openapi_spec = λ text. ok (record { title = "Invoices"; endpoints = [] });
  generate_contract_fuzz_probes = λ ep. [];
  upper = λ text. text;
  lower = λ text. text;
  uuid = λ n. "finding-" +++ show n;
  message = λ e. "failed";
}

abbrev two_skills : PentestScanConfig
two_skills = record {
  job_id = "job-1";
  target_url = "http://localhost:8000/";
  mode_name = "STANDARD";
  request_budget = 50;
  enabled_skills = "api_bola_idor" ∷ "api_bfla" ∷ [];
  known_endpoints = [];
  openapi_spec = none;
}

abbrev all_skills : PentestScanConfig
all_skills = record two_skills {
  enabled_skills =
      "api_bola_idor" ∷ "api_broken_auth" ∷ "api_bfla" ∷ "api_resource_exhaustion"
      ∷ "ssrf_and_cloud" ∷ "agentic_mcp_security" ∷ "injection_sql_nosql" ∷ [];
}

abbrev fresh : Pentest ℕ
fresh = record {
  coverage_ledger = [];
  findings_ledger = [];
  request_history = [];
  events = [];
  status = "initialized";
  parsed_spec = none;
  contract_probes = [];
  discovered = [];
}

fresh-IsSound : IsSound fresh
fresh-IsSound = record { unique = tt; proved = tt; unfinished = tt }

run-IsOver_example : IsOver (run leaky two_skills fresh).1
run-IsOver_example = run-IsOver leaky two_skills fresh fresh-IsSound

run-fails_example :
    (is_ok (run leaky all_skills fresh).0 ≡ false)
    × ((run leaky all_skills fresh).1.status ≡ "failed")
run-fails_example = run-fails leaky all_skills fresh refl
