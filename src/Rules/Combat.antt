-- ===== src/Rules/Combat.antt =====
-- The two sides of a combat, backend/game/internal/game/rules.go.
pub mod Strength
use munchkin.Shared.{
  Bool, List, Option, Result, String, String-Eq, [], any, false, if◌then◌else◌, ltb_ℤ, none, not,
  ok, or_fail, pos, some, sum_over, ℕ, ℕ-Eq, ℤ, ℤ-Eq, ◌&&◌, ◌+ℤ◌, ◌==◌, ◌>>=◌, ◌>>◌, ◌||◌, ◌∷◌,
}
use munchkin.Shared.{illegal_command, invalid_content}
use munchkin.Cards.{contains_any}
use munchkin.Content.{
  Card, Effect, EffectKind, EffectKind-Eq, ModifierTarget, ModifierTarget-Eq, MonsterSpec, Pack,
}
use munchkin.Model.{
  CombatHelpAgreement, CombatHelpRewardStatus, CombatHelpRewardStatus-Eq, Encounter, Phase-Eq,
  Player, State, Status-Eq, player_by_id,
}
use munchkin.Rules.Character.{
  active_player_modifiers, card_of, character_tags, definitions_of, item_amount, modifier_amount,
  player_at, player_definitions,
}

pub record CombatTotals : Type 0 where
  pub player_strength : ℤ
  pub monster_strength : ℤ
  pub player_wins : Bool
  pub tie_wins : Bool
  pub automatic_defeat : Bool

-- What one player brings to the two sides, level, items and modifiers.
pub record Side : Type 0 where
  pub strength : ℤ
  pub modifier : ℤ
  pub monster_modifier : ℤ

unfoldable pub side_of : State → Player → Pack → List String → Result Side
side_of s p pack monster_tags = do
  cards ← player_definitions s pack (p.equipped ∷ p.traits ∷ [])
  modifier ← active_player_modifiers s p pack ModifierTarget.player_combat monster_tags
  monster_modifier ← active_player_modifiers s p pack ModifierTarget.monster_combat monster_tags
  ok (record {
    strength = p.level +ℤ sum_over (item_amount (λ x. x.bonus)) cards;
    modifier = modifier;
    monster_modifier = monster_modifier;
  })

abbrev pub no_side : Side
no_side = record { strength = pos 0; modifier = pos 0; monster_modifier = pos 0 }

-- The helper, whose reward is still only accepted.
unfoldable pub helper_side : State → Option CombatHelpAgreement → Pack → List String → Result Side
unfolding side_of
helper_side s none pack monster_tags = ok no_side
helper_side s (some a) pack monster_tags =
    if a.reward_status == CombatHelpRewardStatus.accepted
    then (do
      helper ← or_fail (player_by_id s a.helper_player_id) illegal_command
      side_of s helper pack monster_tags)
    else ok no_side

-- The modifiers of the monster itself.
unfoldable pub monster_amount : ModifierTarget → List String → MonsterSpec → ℤ
monster_amount target tags m = sum_over (modifier_amount target tags m.tags) m.modifiers

abbrev pub card_ties : Card → Bool
card_ties c = elim c.trait [ none ↦ false | some t ↦ t.tie_wins ]

abbrev pub effect_ties : Effect → Bool
effect_ties e = e.kind == EffectKind.tie_wins && e.persistent

unfoldable pub curse_ties : Card → Bool
curse_ties c = any effect_ties c.effects

-- The monster of the encounter.
unfoldable pub monster_of : State → Encounter → Pack → Result MonsterSpec
monster_of s e pack = do
  card ← card_of pack s e.monster_instance_id invalid_content
  or_fail card.monster invalid_content

unfoldable pub wins : Bool → Bool → ℤ → ℤ → Bool
wins automatic_defeat tie_wins player monster =
    not automatic_defeat && (ltb_ℤ monster player || (player == monster && tie_wins))

-- The end of `combatTotals`, when all is read.
unfoldable pub totals_from :
    Encounter → Side → Side → MonsterSpec → List String → List Card → List Card → CombatTotals
totals_from e own help m tags cards curses =
    let player_strength =
      own.strength
      +ℤ e.player_combat_modifier
      +ℤ own.modifier
      +ℤ (help.strength +ℤ help.modifier)
      +ℤ monster_amount ModifierTarget.player_combat tags m in
    let monster_strength =
      m.strength
      +ℤ e.monster_combat_modifier
      +ℤ own.monster_modifier
      +ℤ help.monster_modifier
      +ℤ monster_amount ModifierTarget.monster_combat tags m in
    let tie_wins = any card_ties cards || any curse_ties curses in
    let automatic_defeat = contains_any tags m.auto_defeat_character_tags in
    record {
      player_strength = player_strength;
      monster_strength = monster_strength;
      player_wins = wins automatic_defeat tie_wins player_strength monster_strength;
      tie_wins = tie_wins;
      automatic_defeat = automatic_defeat;
    }

-- `combatTotals` from the encounter on.
unfoldable pub totals_in : State → Encounter → ℕ → Pack → Result CombatTotals
totals_in s e i pack = do
  p ← player_at s i
  m ← monster_of s e pack
  tags ← character_tags s p pack
  cards ← player_definitions s pack (p.equipped ∷ p.traits ∷ [])
  own ← side_of s p pack m.tags
  help ← helper_side s e.combat_help pack m.tags
  curses ← definitions_of s pack p.persistent_curses
  ok (totals_from e own help m tags cards curses)

-- `combatTotals`.
unfoldable pub combat_totals : State → ℕ → Pack → Result CombatTotals
combat_totals s i pack = do e ← or_fail s.turn.encounter illegal_command; totals_in s e i pack
