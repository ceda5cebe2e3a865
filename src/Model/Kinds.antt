-- ===== src/Model/Kinds.antt =====
-- The string types of backend/game/internal/game/model.go that do not concern interactions.
-- Each type is a Go string type: a constructor for each constant, and `other` for any other text,
-- the empty one (an unset value) among them.
use munchkin.Shared.{String, String-discrete, Eq}

-- `Status`.
pub data Status : Type 0 where
  lobby active finished : Status
  other : String → Status

unfoldable pub Status-discrete : Discrete Status
Status-discrete = hlevel String-discrete

instance abbrev pub Status-Eq : Eq Status
Status-Eq = record { same = Status-discrete }

-- `Phase`.
pub data Phase : Type 0 where
  setup preparation door_choice combat run_away resolve_effect charity end_turn : Phase
  other : String → Phase

unfoldable pub Phase-discrete : Discrete Phase
Phase-discrete = hlevel String-discrete

instance abbrev pub Phase-Eq : Eq Phase
Phase-Eq = record { same = Phase-discrete }

-- `CombatHelpRewardStatus`.
pub data CombatHelpRewardStatus : Type 0 where
  accepted settled voided : CombatHelpRewardStatus
  other : String → CombatHelpRewardStatus

unfoldable pub CombatHelpRewardStatus-discrete : Discrete CombatHelpRewardStatus
CombatHelpRewardStatus-discrete = hlevel String-discrete

instance abbrev pub CombatHelpRewardStatus-Eq : Eq CombatHelpRewardStatus
CombatHelpRewardStatus-Eq = record { same = CombatHelpRewardStatus-discrete }

-- `EconomyOfferKind`.
pub data EconomyOfferKind : Type 0 where
  trade gift : EconomyOfferKind
  other : String → EconomyOfferKind

unfoldable pub EconomyOfferKind-discrete : Discrete EconomyOfferKind
EconomyOfferKind-discrete = hlevel String-discrete

instance abbrev pub EconomyOfferKind-Eq : Eq EconomyOfferKind
EconomyOfferKind-Eq = record { same = EconomyOfferKind-discrete }

-- `RunAwayEffectKind`.
pub data RunAwayEffectKind : Type 0 where
  modifier counter : RunAwayEffectKind
  other : String → RunAwayEffectKind

unfoldable pub RunAwayEffectKind-discrete : Discrete RunAwayEffectKind
RunAwayEffectKind-discrete = hlevel String-discrete

instance abbrev pub RunAwayEffectKind-Eq : Eq RunAwayEffectKind
RunAwayEffectKind-Eq = record { same = RunAwayEffectKind-discrete }

-- The two `PendingDecision` types.
pub data PendingType : Type 0 where
  effect_choice run_away_monster : PendingType
  other : String → PendingType

unfoldable pub PendingType-discrete : Discrete PendingType
PendingType-discrete = hlevel String-discrete

instance abbrev pub PendingType-Eq : Eq PendingType
PendingType-Eq = record { same = PendingType-discrete }
