-- ===== src/Model/InteractionKinds.antt =====
-- The string types of interaction windows, backend/game/internal/game/model.go.
-- Each type is a Go string type: a constructor for each constant, and `other` for any other text,
-- the empty one (an unset value) among them.
use munchkin.Shared.{String, String-discrete, Eq}

-- `InteractionKind`.
pub data InteractionKind : Type 0 where
  combat_response addressed_response private_choice target_response run_away_response economy_offer
        charity_transfer theft_response death_loot_priority :
      InteractionKind
  other : String → InteractionKind

unfoldable pub InteractionKind-discrete : Discrete InteractionKind
InteractionKind-discrete = hlevel String-discrete

instance abbrev pub InteractionKind-Eq : Eq InteractionKind
InteractionKind-Eq = record { same = InteractionKind-discrete }

-- `InteractionSubjectKind`.
pub data InteractionSubjectKind : Type 0 where
  turn encounter effect interaction : InteractionSubjectKind
  other : String → InteractionSubjectKind

unfoldable pub InteractionSubjectKind-discrete : Discrete InteractionSubjectKind
InteractionSubjectKind-discrete = hlevel String-discrete

instance abbrev pub InteractionSubjectKind-Eq : Eq InteractionSubjectKind
InteractionSubjectKind-Eq = record { same = InteractionSubjectKind-discrete }

-- `InteractionEligibilityPolicy`.
pub data InteractionEligibilityPolicy : Type 0 where
  public_predicate actor_private opaque_public_set : InteractionEligibilityPolicy
  other : String → InteractionEligibilityPolicy

unfoldable pub InteractionEligibilityPolicy-discrete : Discrete InteractionEligibilityPolicy
InteractionEligibilityPolicy-discrete = hlevel String-discrete

instance abbrev pub InteractionEligibilityPolicy-Eq : Eq InteractionEligibilityPolicy
InteractionEligibilityPolicy-Eq = record { same = InteractionEligibilityPolicy-discrete }

-- `InteractionIntent`.
pub data InteractionIntent : Type 0 where
  pass respond accept decline auto_resolve offer_help cancel_help cancel_offer : InteractionIntent
  other : String → InteractionIntent

unfoldable pub InteractionIntent-discrete : Discrete InteractionIntent
InteractionIntent-discrete = hlevel String-discrete

instance abbrev pub InteractionIntent-Eq : Eq InteractionIntent
InteractionIntent-Eq = record { same = InteractionIntent-discrete }

-- `InteractionResponseRequirement`.
pub data InteractionResponseRequirement : Type 0 where
  optional mandatory : InteractionResponseRequirement
  other : String → InteractionResponseRequirement

unfoldable pub InteractionResponseRequirement-discrete : Discrete InteractionResponseRequirement
InteractionResponseRequirement-discrete = hlevel String-discrete

instance abbrev pub InteractionResponseRequirement-Eq : Eq InteractionResponseRequirement
InteractionResponseRequirement-Eq = record { same = InteractionResponseRequirement-discrete }

-- `InteractionResponseState`.
pub data InteractionResponseState : Type 0 where
  pending passed acted accepted declined timed_out auto_resolved : InteractionResponseState
  other : String → InteractionResponseState

unfoldable pub InteractionResponseState-discrete : Discrete InteractionResponseState
InteractionResponseState-discrete = hlevel String-discrete

instance abbrev pub InteractionResponseState-Eq : Eq InteractionResponseState
InteractionResponseState-Eq = record { same = InteractionResponseState-discrete }

-- `InteractionWindowStatus`; `opened` is "open".
pub data InteractionWindowStatus : Type 0 where
  opened closed : InteractionWindowStatus
  other : String → InteractionWindowStatus

unfoldable pub InteractionWindowStatus-discrete : Discrete InteractionWindowStatus
InteractionWindowStatus-discrete = hlevel String-discrete

instance abbrev pub InteractionWindowStatus-Eq : Eq InteractionWindowStatus
InteractionWindowStatus-Eq = record { same = InteractionWindowStatus-discrete }

-- `InteractionCloseReason`.
pub data InteractionCloseReason : Type 0 where
  all_responded accepted declined cancelled superseded deadline_expired auto_skipped
        subject_invalidated parent_closed game_finished :
      InteractionCloseReason
  other : String → InteractionCloseReason

unfoldable pub InteractionCloseReason-discrete : Discrete InteractionCloseReason
InteractionCloseReason-discrete = hlevel String-discrete

instance abbrev pub InteractionCloseReason-Eq : Eq InteractionCloseReason
InteractionCloseReason-Eq = record { same = InteractionCloseReason-discrete }
