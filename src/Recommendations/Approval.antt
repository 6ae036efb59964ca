-- ===== src/Recommendations/Approval.antt =====
-- A proposed policy among the active ones: agent/policy_recommendations/service.py and agent/policy.
use zerra.Prelude.{ℕ, ◌≡◌, refl, String, Option, List, [], ◌∷◌, arith}
use zerra.Platform.{Platform}
use zerra.Contracts.{CallEvent, Identity, Policy, RiskCard}
use zerra.Graph.{GraphScoreResult}
use zerra.Policy.{evaluate, add_policy}
use zerra.Recommendations.{propose}

module _ (p : Platform) where
  open p use {Float}

  -- A recommended policy that is added as it was proposed changes no evaluation.
  pub evaluate-propose :
      (policies : List (Policy Float)) (card : RiskCard Float) (policy_uuid id : String)
      (event : CallEvent) (identity : Identity Float) (trust : Float)
      (graph : Option (GraphScoreResult Float)) (now : ℕ)
      → evaluate p
          (add_policy policies (propose p card policy_uuid id now).policy)
          event
          identity
          trust
          graph
          now
        ≡ evaluate p policies event identity trust graph now
  unfolding evaluate add_policy propose
  evaluate-propose [] card policy_uuid id event identity trust graph now = refl
  evaluate-propose (q ∷ policies) card policy_uuid id event identity trust graph now =
      ground (arith, evaluate-propose policies card policy_uuid id event identity trust graph now)
