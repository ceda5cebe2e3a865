-- ===== src/Model/Interactions.antt =====
-- Interaction windows, backend/game/internal/game/model.go.
use munchkin.Shared.{String, ℕ, ℤ, List, Map, Time}
use munchkin.Model.Kinds.{Phase}
use munchkin.Model.InteractionKinds.{
  InteractionKind, InteractionSubjectKind, InteractionEligibilityPolicy, InteractionIntent,
  InteractionResponseRequirement, InteractionResponseState, InteractionWindowStatus,
  InteractionCloseReason,
}

pub record InteractionParent : Type 0 where
  pub phase : Phase
  pub subject_kind : InteractionSubjectKind
  pub subject_id : String
  pub parent_interaction_id : String

pub record InteractionDeadlinePolicy : Type 0 where
  pub base_seconds : ℤ
  pub late_threshold_seconds : ℤ
  pub extension_step_seconds : ℤ
  pub max_seconds : ℤ

pub record InteractionResponse : Type 0 where
  pub requirement : InteractionResponseRequirement
  pub timeout_intent : InteractionIntent
  pub state : InteractionResponseState
  pub intent : InteractionIntent
  pub accepted_at : Time

-- `deadline_revision` is a uint32.
pub record InteractionWindow : Type 0 where
  pub id : String
  pub kind : InteractionKind
  pub parent : InteractionParent
  pub initiator_actor_id : String
  pub eligibility_policy : InteractionEligibilityPolicy
  pub allowed_intents : List InteractionIntent
  pub eligible_actor_ids : List String
  pub opened_at : Time
  pub deadline_at : Time
  pub deadline_revision : ℕ
  pub deadline_policy : InteractionDeadlinePolicy
  pub extension_budget_seconds : ℤ
  pub responses : Map InteractionResponse
  pub status : InteractionWindowStatus
  pub close_reason : InteractionCloseReason
  pub closed_at : Time
