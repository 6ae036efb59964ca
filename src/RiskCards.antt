-- ===== src/RiskCards.antt =====
-- Risk cards, agent/risk_cards/builder.py: the evidence of a decision that is not an allow.
use zerra.Prelude.{
  false, ℕ, String, Bool, ◌||◌, Option, none, some, List, [], ◌∷◌, ◌++◌, map, if◌then◌else◌, any,
  filter, ◌+++◌, show, occurs_in, join, is_empty, str_eq,
}
use zerra.Prelude.Results.{Result, ok, err, value_error}
use zerra.Platform.{Platform, max, min}
use zerra.PolicyModels.{PolicyEvaluation}
use zerra.Contracts.{CallEvent, Verdict, is_allow, verdict_value, RiskCard, Factor}
use zerra.Graph.{GraphScoreResult}
use zerra.Sequence.{SequenceRiskScore, PatternMatch}
use zerra.Trust.{TrustScoreResult}

-- `pattern == name`, where the pattern may be None.
abbrev is_pattern : Option String → String → Bool
is_pattern none name = false
is_pattern (some pattern) name = str_eq pattern name

-- `_tags`: the OWASP and the ATT&CK tag, by the texts of the policies, the pattern and the graph.
tags : String → Option String → String → String × String
tags policy_text pattern graph_text =
    if occurs_in "revok" policy_text
    then ("OWASP API2: Broken Authentication", "T1078-adjacent: Valid Accounts")
    else if occurs_in "scope" policy_text
    then ("OWASP API5: Broken Function Level Authorization", "T1078-adjacent: Valid Accounts")
    else if occurs_in "cross-tenant" policy_text || occurs_in "cross-tenant" graph_text
    then (
      "OWASP API1: Broken Object Level Authorization",
      "T1190-adjacent: Exploit Public-Facing Application",
    )
    else if is_pattern pattern "credential_probing"
    then ("OWASP API2: Broken Authentication", "T1110-adjacent: Brute Force")
    else if is_pattern pattern "enumeration_exfil" || occurs_in "distinct objects" graph_text
    then (
      "OWASP API1: Broken Object Level Authorization",
      "T1190-adjacent: Exploit Public-Facing Application",
    )
    else ("OWASP API4: Unrestricted Resource Consumption", "T1496-adjacent: Resource Hijacking")

module _ (p : Platform) where
  open p use {Float, lit, lower, uuid5}

  -- `sequence_result.triggered_pattern`, through both tests for None.
  triggered : Option (SequenceRiskScore Float) → Option (PatternMatch Float)
  triggered none = none
  triggered (some s) = s.triggered_pattern

  pattern_name : Option (PatternMatch Float) → Option String
  pattern_name none = none
  pattern_name (some m) = some m.pattern_name

  unfoldable pub graph_score : Option (GraphScoreResult Float) → Float
  graph_score none = lit 0
  graph_score (some g) = g.graph_risk_score

  unfoldable pub sequence_score : Option (SequenceRiskScore Float) → Float
  sequence_score none = lit 0
  sequence_score (some s) = s.sequence_risk_score

  unfoldable pub trust_score_of : Option (TrustScoreResult Float) → Float
  trust_score_of none = lit 0
  trust_score_of (some t) = t.trust_score

  graph_text : Option (GraphScoreResult Float) → String
  graph_text none = ""
  graph_text (some g) = lower g.evidence

  graph_evidence : Option (GraphScoreResult Float) → List String
  graph_evidence none = []
  graph_evidence (some g) = ("graph: " +++ g.evidence) ∷ []

  -- `if pattern and …`: a pattern with an empty name would be left out too.
  pattern_evidence : Option (PatternMatch Float) → List String
  pattern_evidence none = []
  pattern_evidence (some m) =
      if is_empty m.pattern_name
      then []
      else ("sequence: " +++ m.pattern_name +++ " at call index " +++ show m.matched_at_call_index)
        ∷ []

  trust_evidence : Option (TrustScoreResult Float) → List String
  trust_evidence none = []
  trust_evidence (some t) = ("trust: " +++ t.evidence) ∷ []

  graph_factors : Option (GraphScoreResult Float) → List (Factor Float)
  graph_factors none = []
  graph_factors (some g) = Factor.graph g.evidence ∷ []

  pattern_factors : Option (PatternMatch Float) → List (Factor Float)
  pattern_factors none = []
  pattern_factors (some m) =
      if is_empty m.pattern_name then [] else Factor.sequence_pattern m.pattern_name ∷ []

  trust_factors : Option (TrustScoreResult Float) → List (Factor Float)
  trust_factors none = []
  trust_factors (some t) = Factor.trust t.evidence ∷ []

  policy_names : List (PolicyEvaluation Float) → String
  policy_names policies =
      lower
        (join " " (map (λ (e : PolicyEvaluation Float). e.policy_id +++ " " +++ e.reason) policies))

  is_hard : String → Bool
  is_hard names = any (λ key. occurs_in key names) ("revok" ∷ "scope" ∷ "cross-tenant" ∷ [])

  pub card_of :
      CallEvent
      → Verdict
      → Option (GraphScoreResult Float)
      → Option (SequenceRiskScore Float)
      → Option (TrustScoreResult Float)
      → List (PolicyEvaluation Float)
      → ℕ
      → RiskCard Float
  unfolding tags triggered pattern_name graph_score sequence_score trust_score_of graph_text
      graph_evidence pattern_evidence trust_evidence graph_factors pattern_factors trust_factors
      policy_names is_hard max min
  card_of event verdict graph sequence trust policy_results now =
      let policies = filter (λ (e : PolicyEvaluation Float). e.matched) policy_results in
      let names = policy_names policies in
      let match = triggered sequence in
      let tag = tags names (pattern_name match) (graph_text graph) in
      record {
        id = uuid5 (event.id +++ ":" +++ verdict_value verdict);
        identity_id = event.identity_id;
        call_ids = event.id ∷ [];
        verdict = verdict;
        confidence = min p (lit 100) (
            max p (max p (graph_score graph) (sequence_score sequence))
              (if is_hard names then lit 95 else lit 0));
        graph_risk_score = graph_score graph;
        sequence_risk_score = sequence_score sequence;
        trust_score = trust_score_of trust;
        owasp_tag = tag.0;
        mitre_tag = tag.1;
        evidence = join "; " (
            ("call " +++ event.id)
            ∷ (graph_evidence graph
                ++ (pattern_evidence match
                    ++ (trust_evidence trust
                        ++ map
                            (λ (e : PolicyEvaluation Float).
                              "policy " +++ e.policy_name +++ ": " +++ e.reason)
                            policies))));
        timestamp = now;
        factors =
            graph_factors graph
            ++ (pattern_factors match ++ (trust_factors trust ++ map Factor.policy policies));
      }

  -- `RiskCardBuilder.build`.
  unfoldable pub build :
      CallEvent
      → Verdict
      → Option (GraphScoreResult Float)
      → Option (SequenceRiskScore Float)
      → Option (TrustScoreResult Float)
      → List (PolicyEvaluation Float)
      → ℕ
      → Result (RiskCard Float)
  build event verdict graph sequence trust policy_results now =
      if is_allow verdict
      then err (value_error "Risk cards are only created for step_up or block decisions")
      else ok (card_of event verdict graph sequence trust policy_results now)
