-- ===== src/Effects/Sequences.antt =====
-- A card's effects one after the other, backend/game/internal/game/effects.go.
use munchkin.Shared.{
  Bool, List, Result, String, String-Eq, [], all, any, concat, contains, err, fail_when,
  if◌then◌else◌, ltb_ℤ, none, not, ok, or_fail, pos, signed_length, true, ℕ, ℕ-Eq, ℤ, ℤ-Eq, ◌!=◌,
  ◌++◌, ◌==◌, ◌>>=◌, ◌>>◌, ◌||◌, ◌∷◌,
}
use munchkin.Shared.{illegal_command, invalid_content, unknown_card}
use munchkin.Cards.{remove_string, unique_strings}
use munchkin.Cards.Piles.{RandomOutcome, discard_resolving_instance}
use munchkin.Content.{
  CardKind, CardKind-Eq, Effect, EffectKind, EffectKind-Eq, Pack, SelectorKind, SelectorKind-Eq,
}
use munchkin.Effects.Flight.{advance_run_away_sequence, discard_encounter_set}
use munchkin.Effects.Immediate.{apply_immediate_effect, closed_turn, min_ℤ, undrawn}
use munchkin.Effects.Queue.{queue_loadout_resolution, set_turn_phase, with_pending}
use munchkin.Model.{
  PendingDecision, PendingFinalize, PendingType, PendingType-Eq, Phase, Phase-Eq, Player, State,
  Status, Status-Eq, all_owned_zones,
}
use munchkin.Rules.Character.{card_of, player_at}
use munchkin.Rules.Discarding.{discard_owned_all, discard_owned_instance, owns_instance}
use munchkin.Rules.Loadout.{set_player}

-- The attachments that may be chosen as traits.
unfoldable pub trait_attachments : State → Pack → List String → Result (List String)
trait_attachments s pack [] = ok []
trait_attachments s pack (i ∷ is) = do
  card ← card_of pack s i unknown_card
  rest ← trait_attachments s pack is
  ok (if card.kind == CardKind.trait_attachment then i ∷ rest else rest)

-- `effectOptions`, on the player of the state.
unfoldable pub effect_options : State → Player → SelectorKind → Pack → Result (List String)
effect_options s p SelectorKind.hand pack = ok p.hand
effect_options s p SelectorKind.equipment pack = ok (p.carried ++ p.equipped)
effect_options s p SelectorKind.trait pack = do
  more ← trait_attachments s pack p.attachments
  ok (p.traits ++ more)
effect_options s p SelectorKind.owned_card pack = ok (concat (all_owned_zones p))
effect_options s p (SelectorKind.other _) pack = err invalid_content

-- The source of a sequence leaves the resolving cards.
unfoldable pub file_source : State → ℕ → String → PendingFinalize → Pack → Result State
file_source s i source f pack =
    if source == "" || not (contains s.turn.resolving source)
    then ok s
    else if f.discard_source
    then discard_resolving_instance s source pack
    else (player_at s i >>= λ p. ok (
        set_player
          (record s {
            turn = record s.turn { resolving = (remove_string s.turn.resolving source).0 };
          })
          i (record p { persistent_curses = p.persistent_curses ++ source ∷ [] })))

abbrev pub without_target_effect : Bool → State → State
without_target_effect clear s =
    if clear then record s { turn = record s.turn { target_effect = none } } else s

-- The turn after a sequence that leaves the game open.
unfoldable pub next_phase : State → ℕ → PendingFinalize → Pack → Result State
next_phase s i f pack =
    if f.continue_run_away
    then advance_run_away_sequence s pack
    else (player_at s i >>= λ p. ok (set_turn_phase s (if p.dead then Phase.charity else f.phase)))

-- `finalizeEffectSequence`.
unfoldable pub finalize_effect_sequence : State → ℕ → String → PendingFinalize → Pack → Result State
finalize_effect_sequence s i source f pack = do
  s1 ← file_source (record s { turn = record s.turn { pending = none } }) i source f pack
  s2 ← (if f.clear_encounter then discard_encounter_set s1 pack else ok s1)
  if s2.status == Status.finished
      then ok (record (without_target_effect f.clear_target_effect s2) {
        turn = closed_turn (without_target_effect f.clear_target_effect s2).turn;
      })
      else next_phase (without_target_effect f.clear_target_effect s2) i f pack

-- What one effect leaves: the state, the outcomes, and whether the sequence goes on.
pub data Progress : Type 0 where
  onward : State → List RandomOutcome → Progress
  waiting : State → List RandomOutcome → Progress

-- The state after an effect, with a choice left where the loadout is in conflict.
unfoldable pub settle_loadout :
    State → ℕ → String → List Effect → PendingFinalize → Pack → List RandomOutcome → Result Progress
settle_loadout s i source remaining f pack out = do
  queued ← queue_loadout_resolution s i source remaining f pack
  ok (if queued.1 then waiting queued.0 out else onward queued.0 out)

abbrev pub discard_choice :
    Player → String → List String → ℤ → Effect → List Effect → PendingFinalize → PendingDecision
discard_choice p source options required e remaining f = record {
  decision_type = PendingType.effect_choice;
  actor_id = p.id;
  source_instance_id = source;
  options = options;
  minimum = required;
  maximum = required;
  effect = e;
  remaining_effects = remaining;
  finalize = f;
}

-- A discard effect: nothing to discard, a choice, or all of the options.
unfoldable pub discard_step :
    State
    → ℕ
    → String
    → Effect
    → List Effect
    → PendingFinalize
    → Pack
    → List RandomOutcome
    → Result Progress
discard_step s i source e remaining f pack out = do
  p ← player_at s i
  options ← effect_options s p e.selector pack
  if min_ℤ e.count (signed_length options) == pos 0
      then ok (onward s out)
      else if ltb_ℤ (min_ℤ e.count (signed_length options)) (signed_length options)
      then ok (
          waiting
            (set_turn_phase
              (with_pending s (
                discard_choice p source options (min_ℤ e.count (signed_length options)) e remaining
                  f))
              Phase.resolve_effect)
            out)
      else (discard_owned_all s i options pack >>= λ s'.
          settle_loadout s' i source remaining f pack out)

-- Any other effect.
unfoldable pub immediate_step :
    State
    → ℕ
    → String
    → Effect
    → List Effect
    → PendingFinalize
    → Pack
    → List RandomOutcome
    → Result Progress
immediate_step s i source e remaining f pack out = do
  applied ← apply_immediate_effect s i e pack out
  settle_loadout applied.0 i source remaining f pack applied.1

-- The sequence breaks off when the game is won or the player dead.
unfoldable pub breaks_off : State → ℕ → Result Bool
breaks_off s i = if s.status == Status.finished then ok true else (player_at s i >>= λ p. ok p.dead)

unfoldable pub begin_effect_sequence :
    State
    → ℕ
    → String
    → List Effect
    → PendingFinalize
    → Pack
    → List RandomOutcome
    → Result (State × List RandomOutcome)
begin_effect_sequence s i source [] f pack out =
    undrawn out (finalize_effect_sequence s i source f pack)
begin_effect_sequence s i source (e ∷ es) f pack out =
    if e.kind == EffectKind.discard
    then (discard_step s i source e es f pack out >>= λ step. elim step [
      | waiting s' out' ↦ ok (s', out')
      | onward s' out' ↦ begin_effect_sequence s' i source es f pack out'
    ])
    else (immediate_step s i source e es f pack out >>= λ step. elim step [
      | waiting s' out' ↦ ok (s', out')
      | onward s' out' ↦ breaks_off s' i >>= λ stop.
          if stop
          then undrawn out' (finalize_effect_sequence s' i source f pack)
          else begin_effect_sequence s' i source es f pack out'
    ])

-- The chosen cards that the player still owns are discarded.
unfoldable pub discard_selected : State → ℕ → List String → Pack → Result State
discard_selected s i [] pack = ok s
discard_selected s i (x ∷ xs) pack = do
  p ← player_at s i
  s' ← (if owns_instance p x then discard_owned_instance s i x pack else ok s)
  discard_selected s' i xs pack

abbrev pub bad_selection : PendingDecision → List String → Bool
bad_selection d selected =
    ltb_ℤ (signed_length selected) d.minimum
    || (ltb_ℤ d.maximum (signed_length selected) || not (unique_strings selected))

-- `resolvePendingEffect`.
unfoldable pub resolve_pending_effect :
    State → ℕ → List String → Pack → List RandomOutcome → Result (State × List RandomOutcome)
resolve_pending_effect s i selected pack out = do
  d ← or_fail s.turn.pending illegal_command
  fail_when (d.decision_type != PendingType.effect_choice) illegal_command
  p ← player_at s i
  fail_when (d.actor_id != p.id) illegal_command
  fail_when (bad_selection d selected) illegal_command
  fail_when (not (all (contains d.options) selected)) illegal_command
  s' ← discard_selected (record s { turn = record s.turn { pending = none } }) i selected pack
  queued ← queue_loadout_resolution s' i d.source_instance_id d.remaining_effects d.finalize pack
  if queued.1
      then ok (queued.0, out)
      else begin_effect_sequence queued.0 i d.source_instance_id d.remaining_effects d.finalize pack
          out

unfoldable pub effects_persist : List Effect → Bool
effects_persist es = any (λ e. e.persistent) es
