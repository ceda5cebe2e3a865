-- ===== src/Content/Kinds.antt =====
-- The string types of a card's definition, backend/game/internal/game/content.go.
-- Each type is a Go string type: a constructor for each constant, and `other` for any other text,
-- the empty one (an unset value) among them.
use munchkin.Shared.{String, String-discrete, Eq}

-- `DeckKind`.
pub data DeckKind : Type 0 where
  door treasure : DeckKind
  other : String → DeckKind

unfoldable pub DeckKind-discrete : Discrete DeckKind
DeckKind-discrete = hlevel String-discrete

instance abbrev pub DeckKind-Eq : Eq DeckKind
DeckKind-Eq = record { same = DeckKind-discrete }

-- `CardKind`.
pub data CardKind : Type 0 where
  monster curse class race trait_attachment item one_shot level_up cheat : CardKind
  other : String → CardKind

unfoldable pub CardKind-discrete : Discrete CardKind
CardKind-discrete = hlevel String-discrete

instance abbrev pub CardKind-Eq : Eq CardKind
CardKind-Eq = record { same = CardKind-discrete }

-- `InteractionScope`; `nobody` is "none".
pub data InteractionScope : Type 0 where
  self nobody other_players : InteractionScope
  other : String → InteractionScope

unfoldable pub InteractionScope-discrete : Discrete InteractionScope
InteractionScope-discrete = hlevel String-discrete

instance abbrev pub InteractionScope-Eq : Eq InteractionScope
InteractionScope-Eq = record { same = InteractionScope-discrete }

-- `ItemSlot`; `slotless` is "none".
pub data ItemSlot : Type 0 where
  slotless headgear armor footgear hands : ItemSlot
  other : String → ItemSlot

unfoldable pub ItemSlot-discrete : Discrete ItemSlot
ItemSlot-discrete = hlevel String-discrete

instance abbrev pub ItemSlot-Eq : Eq ItemSlot
ItemSlot-Eq = record { same = ItemSlot-discrete }

-- `ItemSize`.
pub data ItemSize : Type 0 where
  small big : ItemSize
  other : String → ItemSize

unfoldable pub ItemSize-discrete : Discrete ItemSize
ItemSize-discrete = hlevel String-discrete

instance abbrev pub ItemSize-Eq : Eq ItemSize
ItemSize-Eq = record { same = ItemSize-discrete }

-- `TraitGroup`.
pub data TraitGroup : Type 0 where
  class race : TraitGroup
  other : String → TraitGroup

unfoldable pub TraitGroup-discrete : Discrete TraitGroup
TraitGroup-discrete = hlevel String-discrete

instance abbrev pub TraitGroup-Eq : Eq TraitGroup
TraitGroup-Eq = record { same = TraitGroup-discrete }

-- `ConditionKind`.
pub data ConditionKind : Type 0 where
  always character_has_tag character_lacks_tag monster_has_tag : ConditionKind
  other : String → ConditionKind

unfoldable pub ConditionKind-discrete : Discrete ConditionKind
ConditionKind-discrete = hlevel String-discrete

instance abbrev pub ConditionKind-Eq : Eq ConditionKind
ConditionKind-Eq = record { same = ConditionKind-discrete }

-- `ModifierTarget`.
pub data ModifierTarget : Type 0 where
  player_combat monster_combat escape hand_limit treasure_reward : ModifierTarget
  other : String → ModifierTarget

unfoldable pub ModifierTarget-discrete : Discrete ModifierTarget
ModifierTarget-discrete = hlevel String-discrete

instance abbrev pub ModifierTarget-Eq : Eq ModifierTarget
ModifierTarget-Eq = record { same = ModifierTarget-discrete }

-- `AbilityKind`.
pub data AbilityKind : Type 0 where
  discard_for_combat steal_random_card : AbilityKind
  other : String → AbilityKind

unfoldable pub AbilityKind-discrete : Discrete AbilityKind
AbilityKind-discrete = hlevel String-discrete

instance abbrev pub AbilityKind-Eq : Eq AbilityKind
AbilityKind-Eq = record { same = AbilityKind-discrete }

-- `SelectorKind`.
pub data SelectorKind : Type 0 where
  hand equipment trait owned_card : SelectorKind
  other : String → SelectorKind

unfoldable pub SelectorKind-discrete : Discrete SelectorKind
SelectorKind-discrete = hlevel String-discrete

instance abbrev pub SelectorKind-Eq : Eq SelectorKind
SelectorKind-Eq = record { same = SelectorKind-discrete }

-- `EffectKind`.
pub data EffectKind : Type 0 where
  gain_level lose_level modify_combat modify_escape modify_hand_limit modify_treasure_reward discard
        change_character_tag death draw tie_wins :
      EffectKind
  other : String → EffectKind

unfoldable pub EffectKind-discrete : Discrete EffectKind
EffectKind-discrete = hlevel String-discrete

instance abbrev pub EffectKind-Eq : Eq EffectKind
EffectKind-Eq = record { same = EffectKind-discrete }

-- `EffectTarget`.
pub data EffectTarget : Type 0 where
  player monster : EffectTarget
  other : String → EffectTarget

unfoldable pub EffectTarget-discrete : Discrete EffectTarget
EffectTarget-discrete = hlevel String-discrete

instance abbrev pub EffectTarget-Eq : Eq EffectTarget
EffectTarget-Eq = record { same = EffectTarget-discrete }

-- `CombatCapabilityKind`.
pub data CombatCapabilityKind : Type 0 where
  add_monster enhance_monster counter_combat_effect force_combat_helper : CombatCapabilityKind
  other : String → CombatCapabilityKind

unfoldable pub CombatCapabilityKind-discrete : Discrete CombatCapabilityKind
CombatCapabilityKind-discrete = hlevel String-discrete

instance abbrev pub CombatCapabilityKind-Eq : Eq CombatCapabilityKind
CombatCapabilityKind-Eq = record { same = CombatCapabilityKind-discrete }

-- `TheftCapabilityKind`.
pub data TheftCapabilityKind : Type 0 where
  counter_theft : TheftCapabilityKind
  other : String → TheftCapabilityKind

unfoldable pub TheftCapabilityKind-discrete : Discrete TheftCapabilityKind
TheftCapabilityKind-discrete = hlevel String-discrete

instance abbrev pub TheftCapabilityKind-Eq : Eq TheftCapabilityKind
TheftCapabilityKind-Eq = record { same = TheftCapabilityKind-discrete }
