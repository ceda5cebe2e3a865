-- ===== src/Validation/Players.antt =====
-- The whole check of a state, backend/game/internal/game/model.go.
use munchkin.Shared.{
  ℕ-Eq, String, String-Eq, Bool, true, not, ◌&&◌, ◌||◌, ◌==◌, ◌!=◌, if◌then◌else◌, List, [], ◌∷◌,
  Option, none, some, is_none, is_empty, is_sole, contains, any, signed_length, pos, ltb_ℤ, ℤ-Eq,
  Check, err, done, fail_when, ◌>>◌, ◌>>=◌,
}
use munchkin.Shared.{illegal_command}
use munchkin.Cards.{unique_strings}
use munchkin.Model.{
  State, Player, Status, Status-Eq, Phase, Phase-Eq, PendingDecision, PendingType, player_index,
}
use munchkin.Profile.{RulesProfile, profile}
use munchkin.Validation.Responses.{valid_phase}
use munchkin.Validation.Windows.{validate_interaction_window}
use munchkin.Validation.Help.{validate_combat_help}
use munchkin.Validation.Encounters.{validate_advanced_encounter}
use munchkin.Validation.FlightWindows.{validate_target_and_run_away}
use munchkin.Validation.Trades.{validate_player_economy}
use munchkin.Validation.Loot.{validate_theft, validate_death_loot}
use munchkin.Validation.Zones.{validate_instance_zones}

-- A cheat attachment whose target the player does not carry or wear.
bad_cheat : Player → String × String → Bool
bad_cheat p (attachment, target) =
    not (contains p.attachments attachment)
    || (not (contains p.carried target) && not (contains p.equipped target))

malformed_player : RulesProfile → Player → Bool
malformed_player r p =
    p.id == ""
    || (p.name == ""
        || (ltb_ℤ p.level (pos 1) || (ltb_ℤ r.winning_level p.level || p.credential_hash == "")))

-- The loop over the players, with the names and the credentials seen.
unfoldable pub check_players : RulesProfile → List String → List String → List Player → Check
unfolding bad_cheat malformed_player
check_players r ids hashes [] = done
check_players r ids hashes (p ∷ ps) =
    let rest = check_players r (p.id ∷ ids) (p.credential_hash ∷ hashes) ps in
    do
      fail_when (malformed_player r p) illegal_command
      fail_when (contains ids p.id) illegal_command
      fail_when (contains hashes p.credential_hash) illegal_command
      fail_when (p.dead && not p.needs_redraw) illegal_command
      fail_when (p.setup_done && p.setup_discard_pending) illegal_command
      fail_when (any (bad_cheat p) p.cheat_targets) illegal_command
      rest

wrong_phase : PendingType → Phase → Bool
wrong_phase PendingType.effect_choice phase = phase != Phase.resolve_effect
wrong_phase PendingType.run_away_monster phase = phase != Phase.run_away
wrong_phase (PendingType.other _) phase = true

check_pending : State → RulesProfile → Option PendingDecision → Check
unfolding wrong_phase
check_pending s r none = done
check_pending s r (some d) = do
  fail_when
      (is_none (player_index s d.actor_id)
        || (d.actor_id != s.turn.player_id && not r.target_and_run_away))
      illegal_command
  fail_when
      (is_empty d.options
        || (not (unique_strings d.options)
            || (ltb_ℤ d.minimum (pos 0)
                || (ltb_ℤ d.maximum d.minimum || ltb_ℤ (signed_length d.options) d.maximum))))
      illegal_command
  fail_when (wrong_phase d.decision_type s.turn.phase) illegal_command

unfoldable pub check_active_turn : State → RulesProfile → Check
unfolding check_pending
check_active_turn s r = do
  fail_when
      (is_none (player_index s s.turn.player_id)
        || (not (valid_phase s.turn.phase)
            || not (is_sole s.turn.action_window.eligible_actor_ids s.turn.player_id)))
      illegal_command
  check_pending s r s.turn.pending
  fail_when
      (any
        (λ p. p.setup_discard_pending && (s.turn.phase != Phase.setup || s.turn.player_id != p.id))
        s.players)
      illegal_command

-- The `switch` over the status.
unfoldable pub check_status : Status → State → RulesProfile → Check
check_status Status.lobby s r =
    fail_when (s.turn.player_id != "" || s.turn.phase != Phase.other "") illegal_command
check_status Status.active s r = check_active_turn s r
check_status Status.finished s r =
    fail_when (is_none (player_index s s.winner_player_id)) illegal_command
check_status (Status.other _) s r = err illegal_command

-- What concerns the players and the turn.
unfoldable pub check_table : State → Check
unfolding check_players check_status
check_table s = do
  fail_when (s.game_id == "" || s.owner_player_id == "") illegal_command
  r ← profile s
  fail_when (is_empty s.players || ltb_ℤ r.max_players (signed_length s.players)) illegal_command
  check_players r [] [] s.players
  fail_when (is_none (player_index s s.owner_player_id)) illegal_command
  check_status s.status s r

-- `State.Validate`.
unfoldable pub validate : State → Check
validate s = do
  check_table s
  validate_interaction_window s
  validate_combat_help s
  validate_advanced_encounter s
  validate_target_and_run_away s
  validate_player_economy s
  validate_theft s
  validate_death_loot s
  if s.status != Status.lobby then validate_instance_zones s else done
