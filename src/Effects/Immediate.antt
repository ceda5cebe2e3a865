-- ===== src/Effects/Immediate.antt =====
-- Effects that need no choice, backend/game/internal/game/effects.go.
pub mod Levels
use munchkin.Shared.{
  Bool, List, Result, String, String-Eq, [], err, fail_when, if◌then◌else◌, leb_ℤ, ltb_ℤ, negsuc,
  not, ok, or_fail, pos, some, ℕ, ℕ-Eq, ℤ, ℤ-Eq, ◌&&◌, ◌++◌, ◌+ℤ◌, ◌-ℤ◌, ◌==◌, ◌>>=◌, ◌>>◌,
}
use munchkin.Shared.{illegal_command, invalid_content, panic}
use munchkin.Cards.{append_unique, remove_string}
use munchkin.Cards.Piles.{Draw, RandomOutcome, take_cards}
use munchkin.Content.{
  DeckKind, DeckKind-Eq, Effect, EffectKind, EffectKind-Eq, EffectTarget, EffectTarget-Eq, Pack,
}
use munchkin.Effects.Death.{kill_player}
use munchkin.Model.{Encounter, Phase, Phase-Eq, Player, State, Status, Status-Eq, Turn}
use munchkin.Profile.{profile}
use munchkin.Rules.Character.{character_tags, player_at, treasure_reward_modifier}
use munchkin.Rules.Loadout.{set_player}

abbrev pub min_ℤ : ℤ → ℤ → ℤ
min_ℤ a b = if ltb_ℤ b a then b else a

abbrev pub max_ℤ : ℤ → ℤ → ℤ
max_ℤ a b = if ltb_ℤ a b then b else a

-- `ActionWindow{}` and no phase.
abbrev pub closed_turn : Turn → Turn
closed_turn t = record t {
  phase = Phase.other "";
  action_window = record { kind = Phase.other ""; eligible_actor_ids = [] };
}

-- The level after a gain: a gain that may not win stops below the winning level.
unfoldable pub gained_level : ℤ → ℤ → Bool → ℤ → ℤ
gained_level level amount can_win winning =
    min_ℤ
      (if not can_win && leb_ℤ winning (level +ℤ amount) then winning -ℤ pos 1 else level +ℤ amount)
      winning

-- The state after the gain, for a winning level.
unfoldable pub after_gain : State → ℕ → Player → Effect → ℤ → State
after_gain s i p e winning =
    let level = gained_level p.level e.amount e.can_win winning in
    let next = set_player s i (record p { level = level }) in
    if e.can_win && leb_ℤ winning level
    then record next {
      status = Status.finished;
      winner_player_id = p.id;
      turn = closed_turn s.turn;
    }
    else next

unfoldable pub gain_level : State → ℕ → Player → Effect → Result State
gain_level s i p e = do r ← profile s; ok (after_gain s i p e r.winning_level)

abbrev pub with_encounter : State → Encounter → State
with_encounter s e = record s { turn = record s.turn { encounter = some e } }

unfoldable pub modify_combat : State → Effect → Result State
modify_combat s e =
    if e.persistent
    then ok s
    else (or_fail s.turn.encounter illegal_command >>= λ c. elim e.target [
      | EffectTarget.player ↦ ok (
          with_encounter s
            (record c { player_combat_modifier = c.player_combat_modifier +ℤ e.amount }))
      | EffectTarget.monster ↦ ok (
          with_encounter s
            (record c { monster_combat_modifier = c.monster_combat_modifier +ℤ e.amount }))
      | EffectTarget.other _ ↦ err invalid_content
    ])

unfoldable pub modify_escape : State → Effect → Result State
modify_escape s e =
    if e.persistent
    then ok s
    else (or_fail s.turn.encounter illegal_command >>= λ c.
        ok (with_encounter s (record c { escape_modifier = c.escape_modifier +ℤ e.amount })))

unfoldable pub modify_reward : State → Effect → Result State
modify_reward s e =
    if e.persistent
    then ok s
    else (or_fail s.turn.encounter illegal_command >>= λ c. ok (
        with_encounter s
          (record c { treasure_reward_modifier = c.treasure_reward_modifier +ℤ e.amount })))

-- The tags of a player before a new one is added.
abbrev pub replaced : Player → String → Player
replaced p tag = if tag == "" then p else record p {
  character_tags = (remove_string p.character_tags tag).0;
  suppressed_tags = append_unique p.suppressed_tags tag;
}

unfoldable pub change_tag : Player → Effect → Player
change_tag p e =
    let q = replaced p e.replace_tag in
    record q {
      suppressed_tags = (remove_string q.suppressed_tags e.tag).0;
      character_tags = append_unique q.character_tags e.tag;
    }

-- `takeCards` at a signed count; Go panics at a negative one.
unfoldable pub take_signed : State → DeckKind → ℤ → List RandomOutcome → Result Draw
take_signed s deck (pos n) outcomes = take_cards s deck n outcomes
take_signed s deck (negsuc n) outcomes = err panic

unfoldable pub draw_effect :
    State → ℕ → Effect → List RandomOutcome → Result (State × List RandomOutcome)
draw_effect s i e outcomes = do
  d ← take_signed s e.deck e.amount outcomes
  p ← player_at d.state i
  ok (set_player d.state i (record p { hand = p.hand ++ d.result }), d.outcomes)

-- A result of a function that draws nothing.
abbrev pub undrawn : List RandomOutcome → Result State → Result (State × List RandomOutcome)
undrawn outcomes r = r >>= λ s. ok (s, outcomes)

-- `applyImmediateEffect`.
unfoldable pub apply_immediate :
    EffectKind
    → State
    → ℕ
    → Player
    → Effect
    → Pack
    → List RandomOutcome
    → Result (State × List RandomOutcome)
apply_immediate EffectKind.gain_level s i p e pack out = undrawn out (gain_level s i p e)
apply_immediate EffectKind.lose_level s i p e pack out =
    ok (set_player s i (record p { level = max_ℤ (pos 1) (p.level -ℤ e.amount) }), out)
apply_immediate EffectKind.modify_combat s i p e pack out = undrawn out (modify_combat s e)
apply_immediate EffectKind.modify_escape s i p e pack out = undrawn out (modify_escape s e)
apply_immediate EffectKind.modify_hand_limit s i p e pack out = do
  fail_when (not e.persistent) invalid_content
  ok (s, out)
apply_immediate EffectKind.modify_treasure_reward s i p e pack out = undrawn out (modify_reward s e)
apply_immediate EffectKind.change_character_tag s i p e pack out =
    ok (set_player s i (change_tag p e), out)
apply_immediate EffectKind.death s i p e pack out = undrawn out (kill_player s i pack)
apply_immediate EffectKind.draw s i p e pack out = draw_effect s i e out
apply_immediate EffectKind.tie_wins s i p e pack out = do
  fail_when (not e.persistent) invalid_content
  ok (s, out)
apply_immediate EffectKind.discard s i p e pack out = err invalid_content
apply_immediate (EffectKind.other _) s i p e pack out = err invalid_content

unfoldable pub apply_immediate_effect :
    State → ℕ → Effect → Pack → List RandomOutcome → Result (State × List RandomOutcome)
apply_immediate_effect s i e pack out = do
  p ← player_at s i
  apply_immediate e.kind s i p e pack out
