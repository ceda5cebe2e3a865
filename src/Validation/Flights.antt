-- ===== src/Validation/Flights.antt =====
-- Target effects and running away, backend/game/internal/game/model.go.
use munchkin.Shared.{
  ℕ, ℕ-Eq, suc, ◌+◌, ◌*◌, ltb, leb, String, String-Eq, Bool, true, false, not, ◌&&◌, ◌||◌, ◌==◌,
  ◌!=◌, if◌then◌else◌, List, [], ◌∷◌, Option, none, some, is_none, is_some, is_empty, contains,
  index_of, any, all, length, signed_length, elem_at, drop, same_list, has_key, distinct_from, pos,
  negsuc, ltb_ℤ, leb_ℤ, ℤ-Eq, Check, done, fail_when, err, ◌>>◌,
}
use munchkin.Shared.{illegal_command}
use munchkin.Model.{
  State, Phase, Phase-Eq, Encounter, TargetEffectState, RunAwaySequence, RunAwayEffect,
  RunAwayEffectKind, RunAwayEffectKind-Eq, RunAwayAttempt, PendingDecision, PendingType,
  PendingType-Eq, InteractionSubjectKind-Eq, InteractionEligibilityPolicy-Eq,
  InteractionWindowStatus-Eq, InteractionResponseRequirement-Eq, player_index,
  encounter_monster_instance_ids,
}
use munchkin.Validation.Responses.{valid_phase}

-- Whether a decision is pending and belongs to another actor.
pending_of_other : Option PendingDecision → String → Bool
pending_of_other none actor_id = false
pending_of_other (some p) actor_id = p.actor_id != actor_id

unfoldable pub check_target : State → TargetEffectState → Check
unfolding pending_of_other
check_target s t = do
  fail_when
      (t.id == ""
        || (t.initiator_player_id == t.target_player_id
            || (is_none (player_index s t.initiator_player_id)
                || (is_none (player_index s t.target_player_id)
                    || (t.source_instance_id == ""
                        || (not (contains s.turn.resolving t.source_instance_id)
                            || not (valid_phase t.parent_phase)))))))
      illegal_command
  fail_when (pending_of_other s.turn.pending t.target_player_id) illegal_command

malformed_flight_effect : RunAwayEffectKind → RunAwayEffect → Bool
malformed_flight_effect RunAwayEffectKind.modifier f = f.amount == pos 0 || f.target_effect_id != ""
malformed_flight_effect RunAwayEffectKind.counter f =
    f.amount != pos 0 || (f.target_effect_id == "" || not f.active)
malformed_flight_effect (RunAwayEffectKind.other _) f = true

check_flight_effects : List String → List RunAwayEffect → Check
unfolding malformed_flight_effect
check_flight_effects seen [] = done
check_flight_effects seen (f ∷ fs) =
    let rest = check_flight_effects (f.id ∷ seen) fs in
    do
      fail_when (f.id == "" || (f.actor_player_id == "" || f.source_instance_id == ""))
          illegal_command
      fail_when (contains seen f.id) illegal_command
      fail_when (malformed_flight_effect f.kind f) illegal_command
      rest

-- A counter aims at a modifier of the sequence.
lacks_target : List RunAwayEffect → RunAwayEffect → Bool
lacks_target fs f =
    f.kind == RunAwayEffectKind.counter
    && not (any (λ g. g.id == f.target_effect_id && g.kind == RunAwayEffectKind.modifier) fs)

flight_counters_of : String → List RunAwayEffect → ℕ
flight_counters_of id [] = 0
flight_counters_of id (f ∷ fs) =
    let rest = flight_counters_of id fs in
    if f.kind == RunAwayEffectKind.counter && f.target_effect_id == id then suc rest else rest

miscounted : List RunAwayEffect → RunAwayEffect → Bool
unfolding flight_counters_of
miscounted fs f =
    f.kind == RunAwayEffectKind.modifier
    && flight_counters_of f.id fs != (if f.active then 0 else 1)

unfoldable pub validate_run_away_effects : List RunAwayEffect → Check
unfolding check_flight_effects lacks_target miscounted
validate_run_away_effects fs = do
  check_flight_effects [] fs
  fail_when (any (lacks_target fs) fs) illegal_command
  fail_when (any (miscounted fs) fs) illegal_command

-- An attempt, at its position in the order of participants and monsters. A missing participant or
-- monster is refused, so its position does not matter.
malformed_attempt : RunAwayAttempt → Bool
malformed_attempt a =
    ltb_ℤ a.roll (pos 0)
    || (ltb_ℤ (pos 6) a.roll
        || ((not a.automatic && a.roll == pos 0)
            || ((a.automatic && a.roll != pos 0)
                || ((a.escaped && a.bad_stuff_applied)
                    || (not a.escaped && not a.bad_stuff_applied)))))

-- The loop over the attempts; `next` is the least position that the next one may have.
unfoldable pub check_attempts : RunAwaySequence → ℕ → List RunAwayAttempt → Check
unfolding malformed_attempt
check_attempts q next [] = done
check_attempts q next (a ∷ as_) = elim (index_of q.participant_player_ids a.player_id) [
  | none ↦ err illegal_command
  | some p ↦ elim (index_of q.monster_instance_ids a.monster_instance_id) [
    | none ↦ err illegal_command
    | some m ↦
        let position = p * length q.monster_instance_ids + m in
        let rest = check_attempts q (suc position) as_ in
        do fail_when (ltb position next || malformed_attempt a) illegal_command; rest
  ]
]

-- Participants are players, monsters are card instances, and none stands twice.
check_roster : State → RunAwaySequence → Check
check_roster s q = do
  fail_when
      (is_empty q.participant_player_ids
        || (is_empty q.monster_instance_ids
            || (ltb_ℤ q.participant_index (pos 0) || ltb_ℤ q.monster_index (pos 0))))
      illegal_command
  fail_when
      (not (all (λ p. is_some (player_index s p)) q.participant_player_ids)
        || not (distinct_from [] q.participant_player_ids))
      illegal_command
  fail_when
      (not (all (λ m. has_key m s.instances) q.monster_instance_ids)
        || not (distinct_from [] q.monster_instance_ids))
      illegal_command

check_completed : State → RunAwaySequence → Check
check_completed s q =
    fail_when
      (is_some s.turn.encounter
        || (q.participant_index != signed_length q.participant_player_ids
            || (s.turn.phase != Phase.charity && s.turn.phase != Phase.end_turn)))
      illegal_command

-- The pending choice among the monsters that are left.
check_choice : RunAwaySequence → PendingDecision → Check
check_choice q p =
    let expected : List String = elim q.monster_index [
      | pos i ↦ drop i q.monster_instance_ids
      | negsuc _ ↦ []
    ] in
    do
      fail_when
          (not (elim (elem_at q.participant_player_ids q.participant_index) [
            | none ↦ false
            | some actor ↦ p.actor_id == actor
          ]))
          illegal_command
      fail_when
          (p.decision_type == PendingType.run_away_monster
            && (p.minimum != pos 1
                || (p.maximum != pos 1
                    || (leb (length expected) 1 || not (same_list p.options expected)))))
          illegal_command

same_encounter_set : RunAwaySequence → Encounter → Bool
same_encounter_set q e =
    length q.monster_instance_ids == length (encounter_monster_instance_ids e)
    && all (contains (encounter_monster_instance_ids e)) q.monster_instance_ids

check_active : State → RunAwaySequence → Check
unfolding check_choice same_encounter_set
check_active s q = elim s.turn.encounter [
  | none ↦ err illegal_command
  | some e ↦ do
    fail_when
        (leb_ℤ (signed_length q.participant_player_ids) q.participant_index
          || (leb_ℤ (signed_length q.monster_instance_ids) q.monster_index
              || ((s.turn.phase != Phase.run_away && s.turn.phase != Phase.resolve_effect)
                  || not (same_encounter_set q e))))
        illegal_command
    elim s.turn.pending [ none ↦ done | some p ↦ check_choice q p ]
]

unfoldable pub check_sequence : State → RunAwaySequence → Check
unfolding check_roster check_completed check_active
check_sequence s q = do
  check_roster s q
  if q.completed then check_completed s q else check_active s q
  validate_run_away_effects q.effects
  fail_when
      (ltb (length q.participant_player_ids * length q.monster_instance_ids) (length q.attempts))
      illegal_command
  check_attempts q 0 q.attempts
