-- ===== src/StateMachine/Paths.antt =====
-- Whole runs of transitions (state_machine.py), from one state to another.
use inno_scalping_crawling.Common.{
  ◌+◌, ◌≤◌, ◌≡◌, true, Option, none, some, List, [], ◌∷◌, arith, Result, ok, ◌>>=◌, length,
  Bool-cases, inl, inr,
}
use inno_scalping_crawling.StateMachine.{
  PipelineState, discovered, collected, normalized, deduplicated, classified, extracted, validated,
  needs_review, approved, is_listed, enum, InvalidTransition, transition,
}
use inno_scalping_crawling.StateMachine.Table.{rank, rank-is_listed}

-- `for target in targets: state = transition(state, target)`
unfoldable pub transitions :
    PipelineState → List PipelineState → Result InvalidTransition PipelineState
unfolding transition
transitions s [] = ok s
transitions s (t ∷ targets) =
    let rest = transitions t targets in (transition (enum s) (enum t) >>= λ _. rest)

pub transitions-cons :
    (s t u : PipelineState) (targets : List PipelineState)
    → transitions s (t ∷ targets) ≡ ok u
    → (is_listed s t ≡ true) × (transitions t targets ≡ ok u)
unfolding transitions
transitions-cons s t u targets h = elim (Bool-cases (is_listed s t)) [
  | inl listed ↦ ground arith
  | inr missing ↦ ground arith
]

-- A run from one state to another is no longer than the rank of the last state, which is 8 at most.
pub length-transitions :
    (s u : PipelineState) (targets : List PipelineState)
    → transitions s targets ≡ ok u
    → rank s + length targets ≤ rank u
unfolding transitions
length-transitions s u [] h = ground arith
length-transitions s u (t ∷ targets) h =
    let (listed, rest) = transitions-cons s t u targets h in
    omega (arith, rank-is_listed s t listed, length-transitions t u targets rest)

-- The way to approval.
unfoldable pub approval_path : PipelineState → Option (List PipelineState)
approval_path discovered = some (
    collected ∷ normalized ∷ deduplicated ∷ classified ∷ extracted ∷ validated ∷ needs_review
    ∷ approved ∷ [])
approval_path collected =
    some (
      normalized ∷ deduplicated ∷ classified ∷ extracted ∷ validated ∷ needs_review ∷ approved ∷ [])
approval_path normalized =
    some (deduplicated ∷ classified ∷ extracted ∷ validated ∷ needs_review ∷ approved ∷ [])
approval_path deduplicated =
    some (classified ∷ extracted ∷ validated ∷ needs_review ∷ approved ∷ [])
approval_path classified = some (extracted ∷ validated ∷ needs_review ∷ approved ∷ [])
approval_path extracted = some (validated ∷ needs_review ∷ approved ∷ [])
approval_path validated = some (needs_review ∷ approved ∷ [])
approval_path needs_review = some (approved ∷ [])
approval_path approved = some []
approval_path _ = none

approval_path-step :
    (s t : PipelineState) (targets : List PipelineState)
    → is_listed s t ≡ true
    → approval_path t ≡ some targets
    → approval_path s ≡ some (t ∷ targets)
unfolding approval_path is_listed
approval_path-step s t targets h k = ground arith

-- Whatever the state, the targets that lead from it to `approved` are those of its approval path;
-- from a state with no approval path, none do.
pub transitions-approval_path :
    (s : PipelineState) (targets : List PipelineState)
    → transitions s targets ≡ ok approved
    → approval_path s ≡ some targets
transitions-approval_path s [] h = unfold transitions approval_path in ground arith
transitions-approval_path s (t ∷ targets) h =
    let (listed, rest) = transitions-cons s t approved targets h in
    approval_path-step s t targets listed (transitions-approval_path t targets rest)
