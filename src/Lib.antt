-- ===== src/Lib.antt =====
-- Zerra: a runtime security layer in front of an API, with a scanner's services beside it. This
-- library models its decision core and the stateful services in agent/.
--
-- The decision pipeline. A call event goes through the identity registry, the intent graph, the
-- sequence scorer, the trust calculation and the policies to a decision, and an allow decision
-- opens the protected records.
--   Contracts, PolicyModels   agent/contracts/models.py, agent/policy/models.py: the data.
--   Identity                  agent/identity/registry.py: IdentityRegistry, its state a Registry.
--   Graph                     agent/graph/store.py: IntentGraphStore.
--   Sequence                  agent/sequential: window_manager.py (Events), feature_extractor.py
--                             (Features), patterns, state_machine_scorer.py and ensemble.py
--                             (Detectors), scorer_service.py and metrics.py (Service).
--   Trust                     agent/trust/store.py: TrustScoreStore.
--   Policy                    agent/policy/engine.py: the rules (Rules), PolicyEngine, simulate
--                             (Simulation).
--   RiskCards                 agent/risk_cards/builder.py.
--   Engine                    agent/orchestrator/engine.py: ZerraEngine.evaluate is evaluate_event,
--                             which takes the engine's state and returns it with the decision.
--   MockData                  agent/mock_data/store.py.
--   Metrics, AttackSim        agent/metrics/metrics.py; agent/attack_sim/simulator.py and
--                             scenarios.py.
--   Recommendations           agent/policy_recommendations/service.py, agent/agents/threat_hunter.py.
--
-- The services.
--   Zones                     agent/trust/score_store.py and the files that it stands on: zones with
--                             smoothing and hysteresis.
--   ScanModels, ScanPolicy    agent/scanner/models.py, agent/policy_engine.py: the grade of a scan and
--                             the gate of a zerra.yml file.
--   Queue                     agent/queue.py: the state under the lock, and its steps as a relation.
--   Notifications             agent/notifications/dispatcher.py.
--   Webhooks                  agent/webhook_security.py, agent/integrations/webhook_handler.py;
--                             the comment on a scan (Comments).
--   PrEngine                  agent/pr_engine.py: the patching of a file (PrEngine), the test run and
--                             the git commands (Commands), the texts (Bodies), PREngine (Process).
--   Sandbox                   agent/sandbox.py: the commands (Sandbox), SandboxOrchestrator (Verify).
--   Pentest                   agent/pentest: agent_types.py and tools.py (Pentest),
--                             skills_registry.py (Skills), orchestrator.py: the reconnaissance
--                             (Phases), the tests (Assessments), the run (Engagement).
--   Analysis                  agent/orchestrator/analysis.py: AnalysisOrchestrator, over the scanner,
--                             Vault and PrEngine.
--   Vault                     agent/vault.py: the backends and the index (Vault), CredentialVault
--                             (Facade).
--
-- How code becomes definitions. A method that changes its object takes the state and returns the
-- new one; an exception is an err of Result; a dict with text keys is an association list in the
-- order of insertion (Prelude/Dict); a log line is nothing. The time, a generated identifier and a
-- measured latency are arguments. Timestamps are microseconds. Code with effects is an Action
-- (Prelude/Effects): it takes the state, for the engine and the sandbox the list of what was done,
-- the latest first, and comes to a result or an exception and the new state; try, except and
-- finally are combinators. Loops are structural recursion over the list that they run through, so
-- no fuel occurs.
--
-- What is assumed. Doubles, their formatting, case mapping and the decimal digits of Unicode are
-- the fields of the record Platform; its laws are those of IEEE doubles that are no NaN: a strict
-- weak order, monotone multiplication by a constant, exact products with 0.0 and 1.0. The keyed
-- digest of a webhook, the JSON parser, the sending of a notification and the outcome of a scan are
-- arguments; what `float`, `int` and `str` of a policy's parameters come to is part of the policy.
-- What an external command, the file system, the GitHub client, a tested API, the keyring and the
-- ciphers answer is a field of a record (Host, Target, Library), a function of what was done
-- before; no law is assumed but for the keyring, where a write or a removal that returns has taken
-- effect on its own key only, and the JSON of the vault's index (IsLibrary), and for the memory
-- limit of the key derivation (IsLimited). fnmatchcase (Fnmatch) is written out from the
-- documentation of the standard library. A sum of doubles runs from the left.
--
-- What is not modelled. Pydantic's range checks on fields; the graph store on networkx and the
-- machine learning scorer, which the pipeline does not use; the repository scanner's rules, the
-- parser of OpenAPI documents, the generation of fixes, the database, the HTTP handlers, the
-- channels' message formats and the TypeScript front ends. A job's thread writes several attributes
-- of its job in a row; the steps of Queue take each group of them as one.
--
-- Examples holds a concrete platform of fixed-point numbers and the runs of concrete inputs.
pub mod Prelude
pub mod Platform
pub mod Fnmatch
pub mod PolicyModels
pub mod Contracts
pub mod Identity
pub mod Graph
pub mod Policy
pub mod Trust
pub mod Zones
pub mod ScanModels
pub mod Vault
pub mod Sandbox
pub mod PrEngine
pub mod Pentest
pub mod Analysis
pub mod ScanPolicy
pub mod Queue
pub mod Notifications
pub mod Webhooks
pub mod Sequence
pub mod RiskCards
pub mod Engine
pub mod Metrics
pub mod MockData
pub mod AttackSim
pub mod Recommendations
pub mod Examples
