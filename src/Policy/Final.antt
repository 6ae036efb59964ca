-- ===== src/Policy/Final.antt =====
-- PolicyEngine.final_action, agent/policy/engine.py, and policies whose evaluation always blocks.
use zerra.Prelude.{
  ℕ, ◌≤◌, ◌≡◌, refl, Bool, true, ◌&&◌, Option, List, [], ◌∷◌, arith, any, filter, map, All,
  if◌then◌else◌,
}
use zerra.Prelude.Results.{ok}
use zerra.Platform.{Platform}
use zerra.PolicyModels.{PolicyAction, PolicyEvaluation, is_block, is_step_up}
use zerra.Contracts.{CallEvent, Identity, Policy}
use zerra.Graph.{GraphScoreResult}
use zerra.Policy.{evaluate, evaluate_one, final_action, is_active}

-- How strict an action is.
abbrev pub rank : PolicyAction → ℕ
rank PolicyAction.allow = 0
rank PolicyAction.step_up = 1
rank PolicyAction.block = 2

module _ {F : Type 0} where
  -- The evaluations that match and block.
  abbrev pub blocks : PolicyEvaluation F → Bool
  blocks e = e.matched && is_block e.action

  abbrev pub steps_up : PolicyEvaluation F → Bool
  steps_up e = e.matched && is_step_up e.action

  any_matched :
      (test : PolicyAction → Bool) (es : List (PolicyEvaluation F))
      → any test (
          map
            (λ (e : PolicyEvaluation F). e.action)
            (filter (λ (e : PolicyEvaluation F). e.matched) es))
        ≡ any (λ (e : PolicyEvaluation F). e.matched && test e.action) es
  any_matched test [] = refl
  any_matched test (e ∷ es) = ground (arith, any_matched test es)

  pub final_action_lem :
      (es : List (PolicyEvaluation F))
      → final_action es ≡ (
          if any blocks es
          then PolicyAction.block
          else if any steps_up es
          then PolicyAction.step_up
          else PolicyAction.allow)
  unfolding final_action
  final_action_lem es = rw (any_matched is_block es, any_matched is_step_up es)

  above :
      (a : PolicyAction) (es : List (PolicyEvaluation F))
      → (any blocks es ≡ true → a ≡ PolicyAction.block)
      → (any steps_up es ≡ true → 1 ≤ rank a)
      → All (λ (e : PolicyEvaluation F). e.matched ≡ true → rank e.action ≤ rank a) es
  above a [] hb hs = tt
  above a (e ∷ es) hb hs = (ground arith, above a es (λ h. ground arith) (λ h. ground arith))

  -- The final action is the strictest action of the matched evaluations: none of them asks for
  -- more, and one of them asks for it, unless it is `allow`.
  pub final_action-strictest :
      (es : List (PolicyEvaluation F))
      → All
          (λ (e : PolicyEvaluation F). e.matched ≡ true → rank e.action ≤ rank (final_action es))
          es
        × (final_action es ≡ PolicyAction.block → any blocks es ≡ true)
        × (final_action es ≡ PolicyAction.step_up → any steps_up es ≡ true)
  final_action-strictest es = (
    above (final_action es) es (λ h. ground (arith, final_action_lem es))
        (λ h. ground (arith, final_action_lem es)),
    λ h. ground (arith, final_action_lem es),
    λ h. ground (arith, final_action_lem es),
  )

  pub final_action-block :
      (es : List (PolicyEvaluation F)) → any blocks es ≡ true → final_action es ≡ PolicyAction.block
  final_action-block es h = rw (final_action_lem, h)

module _ (p : Platform) where
  open p use {Float}

  module _ (event : CallEvent) (identity : Identity Float) (trust : Float)
      (graph : Option (GraphScoreResult Float)) (now : ℕ) where
    -- One active policy whose evaluation always blocks decides the whole.
    pub evaluate-blocks :
        (test : Policy Float → Bool)
        → ((q : Policy Float) (e : PolicyEvaluation Float)
            → test q ≡ true
            → evaluate_one p q event identity trust graph now ≡ ok e
            → blocks e ≡ true)
        → (policies : List (Policy Float)) {es : List (PolicyEvaluation Float)}
        → any (λ (q : Policy Float). is_active q.status && test q) policies ≡ true
        → evaluate p policies event identity trust graph now ≡ ok es
        → any blocks es ≡ true
    unfolding evaluate
    evaluate-blocks test always [] h e = cc
    evaluate-blocks test always (q ∷ policies) {es} h e =
        grind (arith, always q, evaluate-blocks test always policies)
