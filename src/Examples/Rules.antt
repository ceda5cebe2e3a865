-- ===== src/Examples/Rules.antt =====
-- Combats, loadouts, levels and deaths at concrete tables.
use munchkin.Shared.{
  String, String-Eq, String-discrete, [], all, any, arith, contains, count, err, false, find_index,
  hit, if◌then◌else◌, lookup, ok, pos, refl, some, sum_over, true, ℕ-Eq, ℕ_discrete, ℤ-Eq,
  ℤ-discrete, ◌+ℤ◌, ◌+◌, ◌-ℤ◌, ◌==◌, ◌∷◌, ◌≡◌, ◌≢◌, ◌≤◌,
}
use munchkin.Shared.{illegal_command}
use munchkin.Cards.{append_unique, contains_any}
use munchkin.Cards.Piles.{append_discard, discard_to}
use munchkin.Cards.Transfers.{is_cheated}
use munchkin.Content.{
  Card, CardKind, CardKind-Eq, CardKind-discrete, Effect, EffectKind, EffectKind-Eq,
  EffectKind-discrete, EffectTarget-discrete, ItemSize-discrete, ItemSlot-discrete,
  ModifierTarget-discrete, MonsterSpec, Pack, TraitGroup-discrete, card_by_id,
}
use munchkin.DeathLoot.{death_loot_seat_order}
use munchkin.DeathLoot.Counts.{pooled}
use munchkin.Effects.Death.{
  corpse, kill_player, leave_cards, leave_loot, new_loot, split_attachments,
}
use munchkin.Effects.Death.Conservation.{kill_player-cards}
use munchkin.Effects.Immediate.{after_gain, gain_level}
use munchkin.Effects.Immediate.Levels.{Gained, gain_level-Gained}
use munchkin.Effects.Queue.{no_effect}
use munchkin.Examples.Packs.{door_card, door_pack, hat_pack}
use munchkin.Examples.Table.{fight, player, table}
use munchkin.Model.{
  CombatHelpRewardStatus-discrete, Phase-Eq, Player, State, Status, Status-Eq, Status-discrete,
  definition_for_instance, player_by_id, player_index,
}
use munchkin.Profile.{
  death_loot_profile, first_edition_core_profile, lobby_multiplayer_profile, profile, rules_profile,
}
use munchkin.Rules.Character.{
  active_player_modifiers, add_tags, allowance_of, card_modifiers, character_tags, condition_holds,
  count_traits, curse_amount, definitions_of, effect_amount, effect_counts, item_amount,
  item_restrictions_satisfied, modifier_amount, modifier_applies, player_definitions, trait_amount,
  trait_capacity, trait_count, trait_tags,
}
use munchkin.Rules.Combat.{
  CombatTotals, combat_totals, curse_ties, helper_side, monster_amount, monster_of, side_of,
  totals_from, totals_in, wins,
}
use munchkin.Rules.Combat.Strength.{
  Strengthens, combat_totals-Strengthens, in_encounter, strengthened,
}
use munchkin.Rules.Discarding.{
  discard_owned_all, discard_owned_instance, owns_instance, remove_owned_instance,
}
use munchkin.Rules.Discarding.Cheated.{held_times}
use munchkin.Rules.Discarding.Ownership.{RemovedFrom, remove_owned_instance-RemovedFrom}
use munchkin.Rules.Discarding.Refused.{discard_owned_all-refused}
use munchkin.Rules.Loadout.{
  settled, big_conflict, big_items, big_options, check_cheat, check_slots, hands_used, keep_as,
  keep_attachment, keep_attachments, keep_while, reconcile_equipment, reconcile_player,
  split_equipped, trait_conflict, trait_conflicts, trait_options,
}
use munchkin.Rules.Loadout.Legal.{Legal, reconcile_player-Legal}
use munchkin.Validation.Zones.Exactness.{all_cards}

abbrev rat : MonsterSpec
rat = record {
  strength = pos 2;
  treasures = pos 1;
  levels = pos 1;
  bad_stuff_text = "";
  pursuit_min_level = pos 0;
  tags = [];
  modifiers = [];
  auto_defeat_character_tags = [];
  auto_escape_character_tags = [];
  bad_stuff = [];
}

abbrev rat_card : Card
rat_card = record door_card { kind = CardKind.monster; monster = some rat }

abbrev rat_pack : Pack
rat_pack = record door_pack { cards = rat_card ∷ []; index = ("card", rat_card) ∷ [] }

abbrev rat_fight : CombatTotals
rat_fight = record {
  player_strength = pos 1;
  monster_strength = pos 2;
  player_wins = false;
  tie_wins = false;
  automatic_defeat = false;
}

rat_run : combat_totals table 0 rat_pack ≡ ok rat_fight
unfolding String-discrete any combat_totals contains append_unique contains_any EffectKind-discrete
    EffectTarget-discrete ModifierTarget-discrete card_by_id CombatHelpRewardStatus-discrete
    definition_for_instance player_by_id player_index active_player_modifiers add_tags
    card_modifiers character_tags condition_holds curse_amount definitions_of effect_amount
    effect_counts item_amount modifier_amount modifier_applies player_definitions trait_tags
    curse_ties helper_side monster_amount monster_of side_of totals_from wins ℤ-discrete find_index
    lookup sum_over ◌+ℤ◌ totals_in ℕ_discrete
rat_run = refl

combat_totals-Strengthens_example :
    (t' : CombatTotals) × (combat_totals (in_encounter table (strengthened fight 4)) 0 rat_pack
      ≡ ok t')
    × Strengthens 4 rat_fight t'
combat_totals-Strengthens_example =
    combat_totals-Strengthens table 0 rat_pack fight 4 rat_fight refl rat_run

-- Ann wears the hat.
abbrev dressed_ann : Player
dressed_ann = record (player "ann" []) { equipped = "t1" ∷ [] }

dressed_run : reconcile_player table dressed_ann hat_pack ≡ ok (settled dressed_ann table)
unfolding String-discrete any contains append_discard discard_to append_unique is_cheated
    CardKind-discrete ItemSize-discrete ItemSlot-discrete TraitGroup-discrete card_by_id
    definition_for_instance add_tags allowance_of character_tags count_traits definitions_of
    item_amount item_restrictions_satisfied player_definitions trait_amount trait_capacity
    trait_count trait_tags big_conflict big_items big_options check_cheat check_slots hands_used
    keep_as keep_attachment keep_attachments keep_while reconcile_equipment split_equipped
    trait_conflict trait_conflicts trait_options all lookup sum_over ◌+ℤ◌ ◌-ℤ◌ reconcile_player
dressed_run = refl

reconcile_player-Legal_example : Legal table dressed_ann hat_pack
reconcile_player-Legal_example = reconcile_player-Legal table dressed_ann hat_pack dressed_run

-- Nine levels that may win.
abbrev victory : Effect
victory = record no_effect { kind = EffectKind.gain_level; amount = pos 9; can_win = true }

abbrev won : State
won = after_gain table 0 (player "ann" ("t1" ∷ [])) victory (pos 10)

gain_runs :
    (profile table ≡ ok lobby_multiplayer_profile)
    × (gain_level table 0 (player "ann" ("t1" ∷ [])) victory ≡ ok won)
unfolding profile rules_profile gain_level lobby_multiplayer_profile first_edition_core_profile
    String-discrete ℤ-discrete ℕ_discrete
gain_runs = (refl, refl)

open_game : (table.status == Status.finished) ≡ false
unfolding Status-discrete
open_game = refl

gain_level-Gained_example : Gained won 0 victory lobby_multiplayer_profile.winning_level
gain_level-Gained_example =
    gain_level-Gained table 0 (player "ann" ("t1" ∷ [])) victory lobby_multiplayer_profile won refl
      gain_runs.0 open_game gain_runs.1

-- Ann dies where the others share out her cards.
abbrev sharing : State
sharing = record table { rules_profile_id = "lobby-multiplayer-v4" }

abbrev mourned : State
mourned = record sharing {
  players = corpse (player "ann" ("t1" ∷ [])) [] ∷ player "bob" ("d3" ∷ []) ∷ player "cid" [] ∷ [];
  death_loot = some (new_loot "ann" ("t1" ∷ []) ("bob" ∷ "cid" ∷ []));
}

death_runs :
    (profile sharing ≡ ok death_loot_profile) × (kill_player sharing 0 door_pack ≡ ok mourned)
unfolding String-discrete death_loot_profile kill_player death_loot_seat_order leave_cards
    leave_loot split_attachments profile rules_profile ℕ_discrete ℤ-discrete
death_runs = (refl, refl)

kill_player-cards_example :
    count "t1" (all_cards mourned)
      + (if death_loot_profile.death_loot then pooled "t1" sharing.death_loot else 0)
    ≡ count "t1" (all_cards sharing)
kill_player-cards_example =
    kill_player-cards "t1" sharing 0 door_pack death_loot_profile mourned death_runs.0 death_runs.1

remove_owned_instance-RemovedFrom_example :
    RemovedFrom "t1"
      (player "ann" ("t1" ∷ []))
      (remove_owned_instance (player "ann" ("t1" ∷ [])) "t1").0
    × ((remove_owned_instance (player "ann" ("t1" ∷ [])) "t1").1
        ≡ owns_instance (player "ann" ("t1" ∷ [])) "t1")
remove_owned_instance-RemovedFrom_example =
    remove_owned_instance-RemovedFrom (player "ann" ("t1" ∷ [])) "t1"

-- Ann wears an item and has the cheat on it.
abbrev cheater : Player
cheater = record (player "ann" []) {
  equipped = "t1" ∷ [];
  attachments = "d3" ∷ [];
  cheat_targets = ("d3", "t1") ∷ [];
}

abbrev cheating : State
cheating = record table { players = cheater ∷ player "cid" [] ∷ [] }

abbrev honest : State
honest = record cheating {
  players =
      record cheater { equipped = []; attachments = []; cheat_targets = [] } ∷ player "cid" [] ∷ [];
  door_discard = "d2" ∷ "d4" ∷ "t1" ∷ "d3" ∷ [];
}

honest_run : discard_owned_instance cheating 0 "t1" door_pack ≡ ok honest
unfolding String-discrete append_discard card_by_id definition_for_instance discard_owned_instance
    lookup munchkin.Cards.remove_string munchkin.Rules.Discarding.discard_cheats
    munchkin.Rules.Discarding.discard_round munchkin.Rules.Discarding.discard_rounds
    munchkin.Shared.delete remove_owned_instance
honest_run = refl

cheater_once : held_times "d3" cheater ≤ 1
unfolding hit String-discrete
cheater_once = omega arith

differ : (a b : String) → (a == b) ≡ false → a ≢ b
differ a b h q = ground arith

apart : ◌≢◌ {A = String} "d3" "t1"
unfolding String-discrete
apart = differ "d3" "t1" refl

discard_owned_all-refused_example :
    discard_owned_all cheating 0 ("t1" ∷ "d3" ∷ []) door_pack ≡ err illegal_command
unfolding String-discrete lookup
discard_owned_all-refused_example =
    discard_owned_all-refused cheating 0 "t1" "d3" [] door_pack cheater honest refl refl apart
      cheater_once honest_run
