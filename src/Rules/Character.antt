-- ===== src/Rules/Character.antt =====
-- The tags, modifiers and limits of a player, backend/game/internal/game/rules.go.
pub mod Frames
use munchkin.Shared.{
  Bool, Error, List, Result, String, String-Eq, [], all, any, concat, contains, false, get_elem?,
  if◌then◌else◌, ltb_ℤ, none, not, ok, or_fail, pos, some, suc, sum_over, true, ℕ, ℕ-Eq, ℤ, ℤ-Eq,
  ◌&&◌, ◌++◌, ◌+ℤ◌, ◌==◌, ◌>>=◌, ◌>>◌, ◌∷◌,
}
use munchkin.Shared.{panic, unknown_card}
use munchkin.Cards.{append_unique}
use munchkin.Content.{
  Card, ConditionKind, ConditionKind-Eq, Effect, EffectKind, EffectKind-Eq, EffectTarget,
  EffectTarget-Eq, ItemSpec, Modifier, ModifierTarget, ModifierTarget-Eq, Pack, TraitGroup,
  TraitGroup-Eq, TraitSpec,
}
use munchkin.Model.{Encounter, Phase-Eq, Player, State, Status-Eq, definition_for_instance}
use munchkin.Profile.{profile}

-- `Players[index]`; Go panics at an index that does not exist.
abbrev pub player_at : State → ℕ → Result Player
player_at s i = or_fail (get_elem? s.players i) panic

-- The card of an instance, or an error.
abbrev pub card_of : Pack → State → String → Error → Result Card
card_of pack s i e = do found ← or_fail (definition_for_instance pack s i) e; ok found.0

unfoldable pub definitions_of : State → Pack → List String → Result (List Card)
definitions_of s pack [] = ok []
definitions_of s pack (i ∷ is) = do
  card ← card_of pack s i unknown_card
  rest ← definitions_of s pack is
  ok (card ∷ rest)

-- `playerDefinitions`; its parameter `player` is not used.
unfoldable pub player_definitions : State → Pack → List (List String) → Result (List Card)
player_definitions s pack zones_ = definitions_of s pack (concat zones_)

-- The loop that adds the tags which are not suppressed.
unfoldable pub add_tags : List String → List String → List String → List String
add_tags suppressed tags [] = tags
add_tags suppressed tags (t ∷ ts) =
    add_tags suppressed (if contains suppressed t then tags else append_unique tags t) ts

-- The tags that the traits of a player bear.
unfoldable pub trait_tags : List Card → List String
trait_tags [] = []
trait_tags (c ∷ cs) = elim c.trait [ none ↦ trait_tags cs | some t ↦ t.tags ++ trait_tags cs ]

-- `characterTags`. The two loops are one over the tags of the player and those of the traits.
unfoldable pub character_tags : State → Player → Pack → Result (List String)
character_tags s p pack = do
  cards ← player_definitions s pack (p.traits ∷ [])
  ok (add_tags p.suppressed_tags [] (p.character_tags ++ trait_tags cards))

unfoldable pub condition_holds : ConditionKind → String → List String → List String → Bool
condition_holds ConditionKind.always tag character monster = true
condition_holds ConditionKind.character_has_tag tag character monster = contains character tag
condition_holds ConditionKind.character_lacks_tag tag character monster =
    not (contains character tag)
condition_holds ConditionKind.monster_has_tag tag character monster = contains monster tag
condition_holds (ConditionKind.other _) tag character monster = false

unfoldable pub modifier_applies : Modifier → List String → List String → Bool
modifier_applies m character monster =
    condition_holds m.condition.kind m.condition.tag character monster

-- The modifiers of a card that is an item or a trait.
unfoldable pub card_modifiers : Card → List Modifier
card_modifiers c = elim c.item [
  | some i ↦ i.modifiers
  | none ↦ elim c.trait [ some t ↦ t.modifiers | none ↦ [] ]
]

-- What one modifier adds for a target.
unfoldable pub modifier_amount : ModifierTarget → List String → List String → Modifier → ℤ
modifier_amount target character monster m =
    if m.target == target && modifier_applies m character monster then m.amount else pos 0

-- Whether a persistent effect counts for a target.
unfoldable pub effect_counts : ModifierTarget → EffectKind → EffectTarget → Bool
effect_counts ModifierTarget.player_combat kind target =
    kind == EffectKind.modify_combat && target == EffectTarget.player
effect_counts ModifierTarget.monster_combat kind target =
    kind == EffectKind.modify_combat && target == EffectTarget.monster
effect_counts ModifierTarget.escape kind target = kind == EffectKind.modify_escape
effect_counts ModifierTarget.hand_limit kind target = kind == EffectKind.modify_hand_limit
effect_counts ModifierTarget.treasure_reward kind target = kind == EffectKind.modify_treasure_reward
effect_counts (ModifierTarget.other _) kind target = false

unfoldable pub effect_amount : ModifierTarget → Effect → ℤ
effect_amount target e =
    if e.persistent && effect_counts target e.kind e.target then e.amount else pos 0

-- What the curses of a player add for a target.
unfoldable pub curse_amount : ModifierTarget → List Card → ℤ
curse_amount target cards = sum_over (λ c. sum_over (effect_amount target) c.effects) cards

unfoldable pub active_player_modifiers :
    State → Player → Pack → ModifierTarget → List String → Result ℤ
active_player_modifiers s p pack target monster_tags = do
  tags ← character_tags s p pack
  cards ← player_definitions s pack (p.equipped ∷ p.traits ∷ [])
  curses ← definitions_of s pack p.persistent_curses
  ok (
      sum_over (λ c. sum_over (modifier_amount target tags monster_tags) (card_modifiers c)) cards
      +ℤ curse_amount target curses)

-- A value of the item or the trait of a card, 0 where there is none.
unfoldable pub item_amount : (ItemSpec → ℤ) → Card → ℤ
item_amount f c = elim c.item [ none ↦ pos 0 | some i ↦ f i ]

unfoldable pub trait_amount : (TraitSpec → ℤ) → Card → ℤ
trait_amount f c = elim c.trait [ none ↦ pos 0 | some t ↦ f t ]

-- The encounter of the turn; Go panics where there is none.
abbrev pub encounter_of : State → Result Encounter
encounter_of s = or_fail s.turn.encounter panic

unfoldable pub escape_bonus : State → ℕ → Pack → Result ℤ
escape_bonus s i pack = do
  p ← player_at s i
  e ← encounter_of s
  cards ← player_definitions s pack (p.equipped ∷ p.traits ∷ [])
  modifier ← active_player_modifiers s p pack ModifierTarget.escape []
  ok (e.escape_modifier +ℤ sum_over (item_amount (λ x. x.escape_bonus)) cards +ℤ modifier)

unfoldable pub hand_limit : State → ℕ → Pack → Result ℤ
hand_limit s i pack = do
  p ← player_at s i
  profile_ ← profile s
  cards ← player_definitions s pack (p.equipped ∷ p.traits ∷ [])
  modifier ← active_player_modifiers s p pack ModifierTarget.hand_limit []
  ok (
      let limit =
        profile_.hand_limit +ℤ sum_over (item_amount (λ x. x.hand_limit_bonus)) cards +ℤ modifier in
      if ltb_ℤ limit (pos 0) then pos 0 else limit)

unfoldable pub treasure_reward_modifier : State → ℕ → Pack → List String → Result ℤ
treasure_reward_modifier s i pack monster_tags = do
  p ← player_at s i
  value ← active_player_modifiers s p pack ModifierTarget.treasure_reward monster_tags
  e ← encounter_of s
  ok (value +ℤ e.treasure_reward_modifier)

-- How many big items a player may have.
unfoldable pub allowance_of : State → Player → Pack → Result ℤ
allowance_of s p pack = do
  cards ← player_definitions s pack (p.equipped ∷ p.traits ∷ [])
  ok (
      pos 1
      +ℤ (sum_over (item_amount (λ x. x.big_allowance)) cards
          +ℤ sum_over (trait_amount (λ t. t.big_allowance)) cards))

unfoldable pub big_allowance : State → ℕ → Pack → Result ℤ
big_allowance s i pack = do p ← player_at s i; allowance_of s p pack

unfoldable pub item_restrictions_satisfied : State → Player → ItemSpec → Pack → Result Bool
item_restrictions_satisfied s p item pack = elim item.restrictions [
  | none ↦ ok true
  | some r ↦ do
    tags ← character_tags s p pack
    ok (all (contains tags) r.required_tags && not (any (contains tags) r.forbidden_tags))
]

extra_traits : TraitGroup → Card → ℤ
extra_traits group c = elim c.attachment [
  | none ↦ pos 0
  | some a ↦ if a.group == group then a.extra_traits else pos 0
]

unfoldable pub trait_capacity : State → Player → TraitGroup → Pack → Result ℤ
unfolding extra_traits
trait_capacity s p group pack = do
  cards ← definitions_of s pack p.attachments
  ok (pos 1 +ℤ sum_over (extra_traits group) cards)

unfoldable pub count_traits : State → TraitGroup → Pack → List String → Result ℕ
count_traits s group pack [] = ok 0
count_traits s group pack (i ∷ is) = do
  card ← card_of pack s i unknown_card
  t ← or_fail card.trait unknown_card
  rest ← count_traits s group pack is
  ok (if t.group == group then suc rest else rest)

unfoldable pub trait_count : State → Player → TraitGroup → Pack → Result ℕ
trait_count s p group pack = count_traits s group pack p.traits
