-- ===== src/Content/Cards.antt =====
-- The structs of a card's definition and of a pack, backend/game/internal/game/content.go.
use munchkin.Shared.{String, Bool, ℤ, List, Option, Map, lookup}
use munchkin.Content.Kinds.{
  DeckKind, CardKind, InteractionScope, ItemSlot, ItemSize, TraitGroup, ConditionKind,
  ModifierTarget, AbilityKind, SelectorKind, EffectKind, EffectTarget, CombatCapabilityKind,
  TheftCapabilityKind,
}

pub record Condition : Type 0 where
  pub kind : ConditionKind
  pub tag : String

pub record Modifier : Type 0 where
  pub target : ModifierTarget
  pub amount : ℤ
  pub condition : Condition

pub record Restrictions : Type 0 where
  pub required_tags : List String
  pub forbidden_tags : List String

pub record ItemSpec : Type 0 where
  pub slot : ItemSlot
  pub hands : ℤ
  pub size : ItemSize
  pub value : ℤ
  pub bonus : ℤ
  pub escape_bonus : ℤ
  pub hand_limit_bonus : ℤ
  pub big_allowance : ℤ
  pub restrictions : Option Restrictions
  pub modifiers : List Modifier

pub record TraitSpec : Type 0 where
  pub group : TraitGroup
  pub tags : List String
  pub tie_wins : Bool
  pub big_allowance : ℤ
  pub modifiers : List Modifier

pub record AttachmentSpec : Type 0 where
  pub group : TraitGroup
  pub extra_traits : ℤ

pub record Ability : Type 0 where
  pub kind : AbilityKind
  pub amount : ℤ
  pub discard_count : ℤ
  pub cooldown_turns : ℤ

pub record Effect : Type 0 where
  pub kind : EffectKind
  pub amount : ℤ
  pub selector : SelectorKind
  pub count : ℤ
  pub tag : String
  pub replace_tag : String
  pub target : EffectTarget
  pub deck : DeckKind
  pub persistent : Bool
  pub can_win : Bool

pub record CombatCapability : Type 0 where
  pub kind : CombatCapabilityKind
  pub amount : ℤ

pub record TheftCapability : Type 0 where
  pub kind : TheftCapabilityKind

pub record MonsterSpec : Type 0 where
  pub strength : ℤ
  pub treasures : ℤ
  pub levels : ℤ
  pub bad_stuff_text : String
  pub pursuit_min_level : ℤ
  pub tags : List String
  pub modifiers : List Modifier
  pub auto_defeat_character_tags : List String
  pub auto_escape_character_tags : List String
  pub bad_stuff : List Effect

pub record Card : Type 0 where
  pub id : String
  pub name : String
  pub deck : DeckKind
  pub kind : CardKind
  pub copies : ℤ
  pub interaction_scope : InteractionScope
  pub monster : Option MonsterSpec
  pub item : Option ItemSpec
  pub trait : Option TraitSpec
  pub attachment : Option AttachmentSpec
  pub effects : List Effect
  pub abilities : List Ability
  pub combat_capability : Option CombatCapability
  pub theft_capability : Option TheftCapability
  pub rules_text : String
  pub flavor_text : String
  pub image : String
  pub alt_text : String

pub record Pack : Type 0 where
  pub schema_version : ℤ
  pub set_id : String
  pub version : ℤ
  pub author : String
  pub license : String
  pub source : String
  pub content_digest : String
  pub cards : List Card
  pub index : Map Card

-- `Pack.Card`.
unfoldable pub card_by_id : Pack → String → Option Card
card_by_id pack card_id = lookup card_id pack.index
