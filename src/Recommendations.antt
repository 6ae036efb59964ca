-- ===== src/Recommendations.antt =====
-- What follows a risk card: the policy that agent/policy_recommendations/service.py proposes, and
-- the investigation of agent/agents/threat_hunter.py. The language model's answer is a parameter.
pub mod Approval
use zerra.Prelude.Results.{ok}
use zerra.Prelude.{
  ℕ, String, Bool, true, false, not, ◌||◌, Option, none, some, List, [], ◌∷◌, if◌then◌else◌, str_eq,
  occurs_in, ◌+++◌, or_else,
}
use zerra.Platform.{Platform, of_ℕ}
use zerra.Contracts.{Policy, PolicyStatus, Parameters, RiskCard, verdict_value}

pub record PolicyRecommendation (F : Type 0) : Type 0 where
  pub id : String
  pub policy : Policy F
  pub reason : String
  pub risk_card_id : String
  pub approved : Bool
  pub created_at : ℕ

pub record Investigation (F : Type 0) : Type 0 where
  pub risk_card_id : String
  pub severity : String
  pub confidence : F
  pub incident_summary : String
  pub attack_hypothesis : String
  pub owasp : List String
  pub mitre : List String
  pub recommended_actions : List String
  pub human_review_required : Bool
  pub source : String
  pub created_at : ℕ

-- The keys of the model's answer, `none` for a missing one.
pub record Output (F : Type 0) : Type 0 where
  pub severity : Option String
  pub confidence : Option F
  pub incident_summary : Option String
  pub attack_hypothesis : Option String
  pub owasp : Option (List String)
  pub mitre : Option (List String)
  pub recommended_actions : Option (List String)

abbrev no_parameters : {F : Type 0} → Parameters F
no_parameters = record {
  step_up_below = none;
  block_below = none;
  max_distinct_novel_objects = none;
  window_seconds = none;
  action = none;
  target_pattern = none;
  target_method = none;
  condition_has_get = true;
  require_tenant_match = false;
  check = none;
}

module _ (p : Platform) where
  open p use {Float, lower}

  -- The rule type and the parameters that a card asks for.
  proposed_rule : RiskCard Float → String × Parameters Float
  proposed_rule card =
      if occurs_in "API1" card.owasp_tag
      then ("cross_tenant_access", record no_parameters { action = some "block" })
      else if occurs_in "API4" card.owasp_tag || occurs_in "enumeration" (lower card.evidence)
      then (
        "novel_object_rate",
        record no_parameters {
          max_distinct_novel_objects = some (ok 5);
          window_seconds = some (ok 60);
          action = some "step_up";
        },
      )
      else (
        "trust_score_threshold",
        record no_parameters {
          step_up_below = some (ok (of_ℕ p 70));
          block_below = some (ok (of_ℕ p 40));
        },
      )

  -- `propose`, with the two generated identifiers and the time.
  pub propose : RiskCard Float → String → String → ℕ → PolicyRecommendation Float
  propose card policy_uuid id now =
      let (rule_type, parameters) = proposed_rule card in
      record {
        id = id;
        policy = record {
          id = "llm-" +++ policy_uuid;
          name = "Recommended response for " +++ card.owasp_tag;
          description = "Generated from a Risk Card; requires human approval.";
          rule_type = rule_type;
          parameters = parameters;
          version = 1;
          status = PolicyStatus.draft;
        };
        reason = "Derived from Risk Card " +++ card.id +++ ": " +++ card.evidence;
        risk_card_id = card.id;
        approved = false;
        created_at = now;
      }

  recommended : RiskCard Float → List String
  recommended card =
      ("Keep " +++ card.identity_id +++ " restricted pending review.")
      ∷ "Review the affected request timeline and tenant access logs."
      ∷ "Simulate a tighter policy before any activation."
      ∷ []

  -- `investigate`: `none` is a model that cannot be reached.
  investigate : RiskCard Float → Option (Output Float) → ℕ → Investigation Float
  unfolding recommended
  investigate card none now = record {
    risk_card_id = card.id;
    severity = if str_eq (verdict_value card.verdict) "block" then "critical" else "high";
    confidence = card.confidence;
    incident_summary = card.evidence;
    attack_hypothesis =
        "Observed " +++ card.owasp_tag +++ " associated with " +++ card.identity_id +++ ".";
    owasp = card.owasp_tag ∷ [];
    mitre = card.mitre_tag ∷ [];
    recommended_actions = recommended card;
    human_review_required = true;
    source = "deterministic-fallback";
    created_at = now;
  }
  investigate card (some output) now = record {
    risk_card_id = card.id;
    severity = or_else output.severity "high";
    confidence = or_else output.confidence card.confidence;
    incident_summary = or_else output.incident_summary card.evidence;
    attack_hypothesis = or_else output.attack_hypothesis card.owasp_tag;
    owasp = or_else output.owasp (card.owasp_tag ∷ []);
    mitre = or_else output.mitre (card.mitre_tag ∷ []);
    recommended_actions = or_else output.recommended_actions (recommended card);
    human_review_required = true;
    source = "ollama";
    created_at = now;
  }
