-- ===== src/Validation/Help.antt =====
-- Offers and agreements of combat help, backend/game/internal/game/model.go.
use munchkin.Shared.{
  String-Eq, Bool, true, not, ◌&&◌, ◌||◌, ◌==◌, ◌!=◌, Option, none, some, is_some, is_sole, pos,
  ltb_ℤ, ℤ-Eq, Check, done, fail_when, err, ◌>>◌, after,
}
use munchkin.Shared.{illegal_command}
use munchkin.Model.{
  State, Status, Status-Eq, Phase, Phase-Eq, InteractionWindow, InteractionKind, InteractionKind-Eq,
  InteractionSubjectKind, InteractionSubjectKind-Eq, InteractionWindowStatus,
  InteractionWindowStatus-Eq, CombatHelpOffer, CombatHelpAgreement, CombatHelpRewardStatus,
  Encounter, Player, player_by_id,
}

-- The agreement's status against the phase, for a helper who is a player.
malformed_reward_status : CombatHelpRewardStatus → State → Encounter → Player → Bool
malformed_reward_status CombatHelpRewardStatus.accepted s e helper =
    s.turn.phase != Phase.combat || (e.combat_closed || helper.dead)
malformed_reward_status CombatHelpRewardStatus.settled s e helper = s.turn.phase != Phase.combat
malformed_reward_status CombatHelpRewardStatus.voided s e helper =
    s.turn.phase != Phase.combat && s.turn.phase != Phase.run_away
malformed_reward_status (CombatHelpRewardStatus.other _) s e helper = true

check_agreement : State → Encounter → CombatHelpAgreement → Check
unfolding malformed_reward_status
check_agreement s e a = elim (player_by_id s a.helper_player_id) [
  | none ↦ err illegal_command
  | some helper ↦ do
    fail_when
        (a.helper_player_id == s.turn.player_id
          || (ltb_ℤ a.reward_treasures (pos 0)
              || ((not a.forced && ltb_ℤ a.reward_treasures (pos 1))
                  || (a.forced && a.reward_treasures != pos 0))))
        illegal_command
    fail_when (malformed_reward_status a.reward_status s e helper) illegal_command
]

unfoldable pub validate_combat_help_agreement : State → Check
unfolding check_agreement
validate_combat_help_agreement s = elim s.turn.encounter [
  | none ↦ done
  | some e ↦ elim e.combat_help [ none ↦ done | some a ↦ check_agreement s e a ]
]

-- No offer and no suspended window: then no window of an offer either.
check_no_offer : State → Option InteractionWindow → Check
check_no_offer s none = validate_combat_help_agreement s
check_no_offer s (some w) = do
  fail_when
      (w.status == InteractionWindowStatus.opened
        && (w.kind == InteractionKind.addressed_response
            && w.parent.subject_kind == InteractionSubjectKind.interaction))
      illegal_command
  validate_combat_help_agreement s

malformed_parent : State → Encounter → InteractionWindow → Bool
malformed_parent s e parent =
    parent.status != InteractionWindowStatus.opened
    || (parent.kind != InteractionKind.combat_response
        || (parent.parent.subject_kind != InteractionSubjectKind.encounter
            || (parent.parent.phase != Phase.combat
                || (parent.parent.subject_id != e.monster_instance_id
                    || parent.initiator_actor_id != s.turn.player_id))))

malformed_offer : State → InteractionWindow → CombatHelpOffer → InteractionWindow → Bool
malformed_offer s parent offer w =
    w.status != InteractionWindowStatus.opened
    || (w.kind != InteractionKind.addressed_response
        || (w.parent.subject_kind != InteractionSubjectKind.interaction
            || (w.parent.parent_interaction_id != parent.id
                || (w.parent.subject_id != parent.id
                    || (w.initiator_actor_id != s.turn.player_id
                        || (w.id != offer.id
                            || (offer.parent_interaction_id != parent.id
                                || (offer.combatant_player_id != s.turn.player_id
                                    || (ltb_ℤ offer.reward_treasures (pos 1)
                                        || (not
                                              (is_sole w.eligible_actor_ids offer.helper_player_id)
                                            || after w.deadline_at parent.deadline_at))))))))))

check_offer : State → InteractionWindow → CombatHelpOffer → InteractionWindow → Check
unfolding malformed_parent malformed_offer
check_offer s parent offer w = elim s.turn.encounter [
  | none ↦ err illegal_command
  | some e ↦ do
    fail_when
        (s.status != Status.active
          || (s.turn.phase != Phase.combat
              || (e.combat_closed
                  || (is_some e.combat_help
                      || (malformed_parent s e parent || malformed_offer s parent offer w)))))
        illegal_command
    elim (player_by_id s offer.helper_player_id) [
      | none ↦ err illegal_command
      | some helper ↦
          fail_when (offer.helper_player_id == s.turn.player_id || helper.dead) illegal_command
    ]
]

-- The window, the suspended window and the offer, if there are any.
check_help :
    State → Option InteractionWindow → Option CombatHelpOffer → Option InteractionWindow → Check
unfolding check_no_offer check_offer
check_help s none none w = check_no_offer s w
check_help s (some parent) (some offer) (some w) = check_offer s parent offer w
check_help s _ _ _ = err illegal_command

-- `State.validateCombatHelp`.
unfoldable pub validate_combat_help : State → Check
unfolding check_help
validate_combat_help s =
    check_help s s.suspended_interaction_window s.combat_help_offer s.interaction_window
