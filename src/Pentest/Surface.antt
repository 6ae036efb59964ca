-- ===== src/Pentest/Surface.antt =====
-- The phases of agent/pentest/orchestrator.py keep the ledgers sound.
use zerra.Prelude.{
  refl, String, not, ◌||◌, Option, none, some, List, ◌++◌, ◌==◌, truthy, ◌+++◌, show, length,
}
use zerra.Prelude.Results.{Result}
use zerra.Prelude.Effects.{Keeps, Keeps-return, Keeps->>=, Keeps-attempt, Keeps-if, Keeps-for_each}
use zerra.Pentest.{PentestScanConfig, Response, Endpoint, ParsedApiSpec, Target}
use zerra.Pentest.Phases.{
  base_paths, current, set_status, set_spec, discover, add_probes, from_result, ingest_route,
  ingest_spec, ingest_live, found_path, probe_path, run_recon_phase,
}
use zerra.Pentest.Engagement.{run_synthesis_phase, phases}
use zerra.Pentest.Ledger.{
  IsSound, emit_event-Keeps, http_probe-Keeps, record_coverage-Keeps, run_assessment_phase-Keeps,
}

module _ {P : Type 0} where
  current-Keeps : Keeps (IsSound {P = P}) current
  unfolding current
  current-Keeps = record { kept = λ s h. h }

  pub set_status-Keeps : (status : String) → Keeps (IsSound {P = P}) (set_status status)
  unfolding set_status
  set_status-Keeps status = record {
    kept = λ s h. record { unique = h.unique; proved = h.proved; unfinished = h.unfinished };
  }

  set_spec-Keeps : (spec : ParsedApiSpec) → Keeps (IsSound {P = P}) (set_spec spec)
  unfolding set_spec
  set_spec-Keeps spec = record {
    kept = λ s h. record { unique = h.unique; proved = h.proved; unfinished = h.unfinished };
  }

  discover-Keeps : (path : String) → Keeps (IsSound {P = P}) (discover path)
  unfolding discover
  discover-Keeps path = record {
    kept = λ s h. record { unique = h.unique; proved = h.proved; unfinished = h.unfinished };
  }

  add_probes-Keeps : (probes : List P) → Keeps IsSound (add_probes probes)
  unfolding add_probes
  add_probes-Keeps probes = record {
    kept = λ s h. record { unique = h.unique; proved = h.proved; unfinished = h.unfinished };
  }

  from_result-Keeps : {V : Type 0} (r : Result V) → Keeps (IsSound {P = P}) (from_result r)
  unfolding from_result
  from_result-Keeps r = record { kept = λ s h. h }

module _ {P : Type 0} (target : Target P) (config : PentestScanConfig) where
  ingest_route-Keeps : (ep : Endpoint) → Keeps IsSound (ingest_route target config ep)
  unfolding ingest_route
  ingest_route-Keeps ep = Keeps->>= (discover-Keeps ep.path) (λ found.
      Keeps->>= (add_probes-Keeps (target.generate_contract_fuzz_probes ep))
        (λ added. record_coverage-Keeps target config _ _ _ _ _))

  ingest_spec-Keeps : (spec : Option String) → Keeps IsSound (ingest_spec target config spec)
  unfolding ingest_spec
  ingest_spec-Keeps none = Keeps-return tt
  ingest_spec-Keeps (some text) = Keeps-if (not (truthy (some text))) (Keeps-return tt) (
      Keeps-attempt
        (Keeps->>= (from_result-Keeps (target.parse_openapi_spec text)) (λ spec.
          Keeps->>= (set_spec-Keeps spec) (λ done.
            Keeps->>= (emit_event-Keeps target config "thought" _ _ refl)
              (λ told. Keeps-for_each ingest_route-Keeps spec.endpoints))))
        (λ e. Keeps-return tt))

  ingest_live-Keeps : (path text : String) → Keeps IsSound (ingest_live target config path text)
  unfolding ingest_live
  ingest_live-Keeps path text =
      Keeps-attempt
        (Keeps->>= (from_result-Keeps (target.parse_openapi_spec text)) (λ spec.
          Keeps->>= (set_spec-Keeps spec) (λ done.
            Keeps->>=
              (emit_event-Keeps target config "recon" "Recon Specialist"
                ("Auto-discovered and parsed live OpenAPI specification at "
                  +++ path
                  +++ " ("
                  +++ show (length spec.endpoints)
                  +++ " routes).")
                refl)
              (λ told.
                Keeps-for_each (λ ep. add_probes-Keeps (target.generate_contract_fuzz_probes ep))
                  spec.endpoints))))
        (λ e. Keeps-return tt)

  found_path-Keeps :
      (path : String) (probe : Response) → Keeps IsSound (found_path target config path probe)
  unfolding found_path
  found_path-Keeps path probe = Keeps->>= (discover-Keeps path) (λ found.
      Keeps->>= (record_coverage-Keeps target config _ _ _ _ _) (λ covered.
        Keeps->>= (emit_event-Keeps target config "coverage" _ _ refl) (λ told.
          Keeps->>= current-Keeps
            (λ s. Keeps-if _ (ingest_live-Keeps path probe.body) (Keeps-return tt)))))

  probe_path-Keeps : (path : String) → Keeps IsSound (probe_path target config path)
  unfolding probe_path
  probe_path-Keeps path = Keeps->>= (http_probe-Keeps target config path "GET") (λ probe.
      Keeps-if ((probe.status_code == 404) || (probe.status_code == 0)) (Keeps-return tt)
        (found_path-Keeps path probe))

  run_recon_phase-Keeps : Keeps IsSound (run_recon_phase target config)
  unfolding run_recon_phase
  run_recon_phase-Keeps = Keeps->>= (emit_event-Keeps target config "recon" _ _ refl) (λ told.
      Keeps->>= (ingest_spec-Keeps config.openapi_spec) (λ ingested.
        Keeps->>= (Keeps-for_each probe_path-Keeps (base_paths ++ config.known_endpoints))
          (λ probed.
            Keeps->>= current-Keeps (λ s. emit_event-Keeps target config "thought" _ _ refl))))

  pub phases-Keeps : Keeps IsSound (phases target config)
  unfolding phases run_synthesis_phase
  phases-Keeps = Keeps->>= run_recon_phase-Keeps (λ mapped.
      Keeps->>= (run_assessment_phase-Keeps target config config.enabled_skills)
        (λ tested. emit_event-Keeps target config "thought" _ _ refl))
