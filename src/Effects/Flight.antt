-- ===== src/Effects/Flight.antt =====
-- The flight from several monsters goes on, backend/game/internal/game/effects.go.
use munchkin.Shared.{
  List, Result, String, String-Eq, [], drop, elem_at, err, fail_when, if◌then◌else◌, leb_ℤ, ltb_ℤ,
  negsuc, none, ok, or_fail, pos, signed_length, some, true, ℕ-Eq, ℤ, ℤ-Eq, ◌&&◌, ◌+ℤ◌, ◌-ℤ◌, ◌==◌,
  ◌>>=◌, ◌>>◌, ◌∷◌,
}
use munchkin.Shared.{illegal_command, panic}
use munchkin.Content.{Pack}
use munchkin.DeathLoot.{discard_all}
use munchkin.Effects.Queue.{no_effect, no_finalize, set_turn_phase, with_pending}
use munchkin.Model.{
  PendingDecision, PendingType, PendingType-Eq, Phase, Phase-Eq, RunAwaySequence, State, Status-Eq,
  encounter_monster_instance_ids, player_by_id,
}

-- `discardEncounterSet`.
unfoldable pub discard_encounter_set : State → Pack → Result State
discard_encounter_set s pack = elim s.turn.encounter [
  | none ↦ ok s
  | some e ↦
      discard_all (record s { turn = record s.turn { encounter = none } })
        (encounter_monster_instance_ids e) pack
]

-- The loop that skips the dead: the indices of the participant and the monster. `rest` are the
-- participants from the index on.
unfoldable pub skip_dead : State → List String → ℤ → ℤ → Result (ℤ × ℤ)
skip_dead s [] participant monster = ok (participant, monster)
skip_dead s (id ∷ rest) participant monster =
    let skipped = skip_dead s rest (participant +ℤ pos 1) (pos 0) in
    elim (player_by_id s id) [
      | none ↦ err illegal_command
      | some p ↦ if p.dead then skipped else ok (participant, monster)
    ]

-- The participants from a signed index on; Go panics at a negative one.
abbrev pub drop_signed : {A : Type 0} → ℤ → List A → Result (List A)
drop_signed (pos n) xs = ok (drop n xs)
drop_signed (negsuc n) xs = err panic

-- The sequence after the step to the next monster, or to the next participant.
abbrev pub stepped : RunAwaySequence → RunAwaySequence
stepped q =
    if leb_ℤ (signed_length q.monster_instance_ids) (q.monster_index +ℤ pos 1)
    then record q {
      effects = [];
      participant_index = q.participant_index +ℤ pos 1;
      monster_index = pos 0;
    }
    else record q { effects = []; monster_index = q.monster_index +ℤ pos 1 }

abbrev pub with_run_away : State → RunAwaySequence → State
with_run_away s q = record s { turn = record s.turn { run_away = some q } }

-- The choice of the next monster; the fields that are not set are Go's zero values.
abbrev pub monster_choice : String → List String → PendingDecision
monster_choice actor options = record {
  decision_type = PendingType.run_away_monster;
  actor_id = actor;
  source_instance_id = "";
  options = options;
  minimum = pos 1;
  maximum = pos 1;
  effect = no_effect;
  remaining_effects = [];
  finalize = no_finalize;
}

unfoldable pub finish_flight : State → RunAwaySequence → Pack → Result State
finish_flight s q pack = do
  s' ←
      discard_encounter_set
        (with_run_away s (record q {
          participant_index = signed_length q.participant_player_ids;
          monster_index = pos 0;
          completed = true;
        }))
        pack
  ok (set_turn_phase s' Phase.charity)

unfoldable pub continue_flight : State → RunAwaySequence → ℤ → Result State
continue_flight s q previous =
    let fleeing = set_turn_phase (with_run_away s q) Phase.run_away in
    if q.participant_index == previous
      && (ltb_ℤ (pos 0) q.monster_index
          && ltb_ℤ (pos 1) (signed_length q.monster_instance_ids -ℤ q.monster_index))
    then (or_fail (elem_at q.participant_player_ids q.participant_index) panic >>= λ actor.
        drop_signed q.monster_index q.monster_instance_ids >>= λ options.
        ok (with_pending fleeing (monster_choice actor options)))
    else ok fleeing

-- `advanceRunAwaySequence`.
unfoldable pub advance_run_away_sequence : State → Pack → Result State
advance_run_away_sequence s pack = do
  q ← or_fail s.turn.run_away illegal_command
  fail_when q.completed illegal_command
  rest ← drop_signed (stepped q).participant_index q.participant_player_ids
  found ← skip_dead s rest (stepped q).participant_index (stepped q).monster_index
  if leb_ℤ (signed_length q.participant_player_ids) found.0
      then finish_flight s (stepped q) pack
      else continue_flight s
          (record (stepped q) { participant_index = found.0; monster_index = found.1 })
          q.participant_index
