-- ===== src/Commands/Dealing.antt =====
-- The cards that a game starts with, backend/game/internal/game/content.go and effects.go.
pub mod Exactness
use munchkin.Shared.{
  Bool, List, Map, Option, Result, String, String-Eq, [], any, err, fail_when, has_key,
  if◌then◌else◌, insert, is_empty, is_none, is_some, none, not, ok, pos_part, some, suc, zero, ℕ,
  ℕ-Eq, ℤ-Eq, ◌!=◌, ◌&&◌, ◌++◌, ◌==◌, ◌>>=◌, ◌>>◌, ◌||◌, ◌∷◌,
}
use munchkin.Shared.{invalid_content}
use munchkin.Content.{
  AbilityKind, AbilityKind-Eq, Card, CardKind, CardKind-Eq, DeckKind, DeckKind-Eq, Effect,
  EffectKind, EffectKind-Eq, EffectTarget, EffectTarget-Eq, InteractionScope, InteractionScope-Eq,
  Pack,
}
use munchkin.Model.{CardInstance, Phase-Eq, Status-Eq}
use munchkin.Profile.{RulesProfile, RulesProfile-Eq}
use Prim.Native.String.{◌++◌ as str_append}

-- The instances and the two decks, as the loops build them.
pub record Deal : Type 0 where
  pub instances : Map CardInstance
  pub doors : List String
  pub treasures : List String

abbrev pub no_cards : Deal
no_cards = record { instances = []; doors = []; treasures = [] }

-- `combatInterventionEffect` of rules.go, with `none` for false.
unfoldable pub combat_intervention_effect : Card → Option Effect
combat_intervention_effect card =
    if card.interaction_scope != InteractionScope.other_players || card.kind != CardKind.one_shot
    then none
    else elim card.effects [
      | [] ↦ none
      | e ∷ es ↦
          if not (is_empty es)
            || (e.kind != EffectKind.modify_combat
                || (e.persistent
                    || (e.target != EffectTarget.player && e.target != EffectTarget.monster)))
          then none
          else some e
    ]

unfoldable pub targetable_effect_card : Card → Bool
targetable_effect_card card =
    card.interaction_scope == InteractionScope.other_players
    && (card.kind == CardKind.curse
        && (not (is_empty card.effects) && is_none card.combat_capability))

abbrev pub put_instance : String → Card → Deal → Deal
put_instance id card d = record d {
  instances = insert id (record { id = id; definition_id = card.id }) d.instances;
}

-- The `switch` over the deck.
unfoldable pub put_in_deck : DeckKind → String → Deal → Result Deal
put_in_deck DeckKind.door id d = ok (record d { doors = d.doors ++ id ∷ [] })
put_in_deck DeckKind.treasure id d = ok (record d { treasures = d.treasures ++ id ∷ [] })
put_in_deck (DeckKind.other _) id d = err invalid_content

-- `itoa` is `strconv.Itoa`.
module _ (itoa : ℕ → String) where
  abbrev pub instance_name : Card → ℕ → String
  instance_name card n = str_append card.id (str_append "-" (itoa n))

  -- One round of the loop over the copies.
  unfoldable pub deal_copy : Card → ℕ → Deal → Result Deal
  deal_copy card n d = do
    fail_when (has_key (instance_name card n) d.instances) invalid_content
    put_in_deck card.deck (instance_name card n) (put_instance (instance_name card n) card d)

  -- The loop over the copies, from a copy on.
  unfoldable pub deal_copies : Card → ℕ → ℕ → Deal → Result Deal
  deal_copies card n zero d = ok d
  deal_copies card n (suc left) d = do d' ← deal_copy card n d; deal_copies card (suc n) left d'

  -- The loop over the cards that a test selects.
  unfoldable pub deal_cards : (Card → Bool) → List Card → Deal → Result Deal
  deal_cards wanted [] d = ok d
  deal_cards wanted (card ∷ cards) d =
      if wanted card
      then (deal_copies card 1 (pos_part card.copies) d >>= λ d'. deal_cards wanted cards d')
      else deal_cards wanted cards d

  -- `Pack.Materialize`.
  unfoldable pub materialize : Pack → Result Deal
  materialize pack =
      deal_cards (λ card. card.interaction_scope != InteractionScope.other_players) pack.cards
        no_cards

  -- The cards that a profile adds.
  unfoldable pub selected_by : RulesProfile → Card → Bool
  selected_by r card =
      (is_some (combat_intervention_effect card) && is_none card.combat_capability)
      || ((r.advanced_combat && is_some card.combat_capability)
          || (r.target_and_run_away && targetable_effect_card card))

  -- `materializeSelectedProfile`.
  unfoldable pub materialize_selected_profile : Pack → RulesProfile → Result Deal
  materialize_selected_profile pack r = do
    d ← materialize pack
    if not r.combat_responses then ok d else deal_cards (selected_by r) pack.cards d

  -- The theft cards, of `handleStart`: an instance that is there already is left out.
  unfoldable pub deal_missing : Card → ℕ → ℕ → Deal → Result Deal
  deal_missing card n zero d = ok d
  deal_missing card n (suc left) d =
      if has_key (instance_name card n) d.instances
      then deal_missing card (suc n) left d
      else (put_in_deck card.deck (instance_name card n)
            (put_instance (instance_name card n) card d)
          >>= λ d'. deal_missing card (suc n) left d')

  unfoldable pub is_theft_card : Card → Bool
  is_theft_card card =
      is_some card.theft_capability
      || any (λ a. a.kind == AbilityKind.steal_random_card) card.abilities

  unfoldable pub deal_theft : List Card → Deal → Result Deal
  deal_theft [] d = ok d
  deal_theft (card ∷ cards) d =
      if is_theft_card card
      then (deal_missing card 1 (pos_part card.copies) d >>= λ d'. deal_theft cards d')
      else deal_theft cards d

  -- The cards of a new game, before they are shuffled.
  unfoldable pub starting_deal : Pack → RulesProfile → Result Deal
  starting_deal pack r = do
    d ← materialize_selected_profile pack r
    if r.theft then deal_theft pack.cards d else ok d
