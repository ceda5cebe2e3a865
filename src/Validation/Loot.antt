-- ===== src/Validation/Loot.antt =====
-- Theft attempts and the cards of the dead, backend/game/internal/game/model.go.
use munchkin.Shared.{
  ℕ, ℕ-Eq, ltb, leb, ◌+◌, String, String-Eq, Bool, true, false, not, ◌&&◌, ◌||◌, ◌==◌, ◌!=◌,
  if◌then◌else◌, List, [], ◌∷◌, Option, none, some, is_some, is_empty, is_sole, contains, any, all,
  length, elem_at, take, suc, zero, distinct_from, map, pos, negsuc, ◌-ℤ◌, ltb_ℤ, ℤ-Eq, Check, done,
  fail_when, err, ◌>>◌, ◌>>=◌,
}
use munchkin.Shared.{illegal_command}
use munchkin.Cards.{unique_strings}
use munchkin.Model.{
  State, Player, Phase, Phase-Eq, TheftAttempt, DeathLoot, DeathLootPick, InteractionWindow,
  InteractionKind, InteractionKind-Eq, InteractionEligibilityPolicy,
  InteractionEligibilityPolicy-Eq, InteractionWindowStatus, InteractionWindowStatus-Eq,
  player_by_id,
}
use munchkin.Profile.{profile}
use munchkin.Validation.Trades.{orphan_window}

abbrev pub is_dead : Option Player → Bool
is_dead none = true
is_dead (some p) = p.dead

sole_cost_in : List String → List String → Bool
sole_cost_in (c ∷ []) hand = c != "" && contains hand c
sole_cost_in _ hand = false

theft_window_fits : TheftAttempt → InteractionWindow → Bool
theft_window_fits a w =
    w.id == a.interaction_id
    && (w.kind == InteractionKind.theft_response
        && (w.initiator_actor_id == a.thief_player_id
            && w.eligibility_policy == InteractionEligibilityPolicy.opaque_public_set))

check_theft : State → TheftAttempt → Player → Player → InteractionWindow → Check
unfolding sole_cost_in theft_window_fits
check_theft s a thief victim w = do
  fail_when
      (a.interaction_id == ""
        || (a.resolved
            || (a.thief_player_id == a.victim_player_id
                || (thief.dead
                    || (victim.dead
                        || (a.thief_player_id != s.turn.player_id
                            || (a.parent_phase != Phase.preparation
                                || (s.turn.phase != a.parent_phase
                                    || (not s.turn.theft_used
                                        || (not (contains thief.traits a.source_instance_id)
                                            || (not (sole_cost_in a.cost_instance_ids thief.hand)
                                                || (is_empty victim.hand
                                                    || not (theft_window_fits a w)))))))))))))
      illegal_command
  fail_when
      (ltb_ℤ a.ability_index (pos 0)
        || ((w.status != InteractionWindowStatus.opened
              && w.status != InteractionWindowStatus.closed)
            || length w.eligible_actor_ids != length w.responses))
      illegal_command
  fail_when (any (λ e. is_dead (player_by_id s e) || e == a.thief_player_id) w.eligible_actor_ids)
      illegal_command

check_attempt : State → Option TheftAttempt → Check
unfolding check_theft
check_attempt s none =
    fail_when (orphan_window InteractionKind.theft_response s.interaction_window) illegal_command
check_attempt s (some a) = elim (player_by_id s a.thief_player_id) [
  | none ↦ err illegal_command
  | some thief ↦ elim (player_by_id s a.victim_player_id) [
    | none ↦ err illegal_command
    | some victim ↦ elim s.interaction_window [
      | none ↦ err illegal_command
      | some w ↦ check_theft s a thief victim w
    ]
  ]
]

-- `State.validateTheft`.
unfoldable pub validate_theft : State → Check
unfolding check_attempt
validate_theft s = do
  p ← profile s
  if not p.theft
      then fail_when (is_some s.theft_attempt) illegal_command
      else check_attempt s s.theft_attempt

picked_by : List DeathLootPick → String → Bool
picked_by picks player_id = any (λ k. k.player_id == player_id) picks

same_bool : Bool → Bool → Bool
same_bool true b = b
same_bool false b = not b

-- The loop over the seats; `past` counts the seats that have had their turn, each of which has
-- either picked or passed.
unfoldable pub check_seats : State → DeathLoot → ℕ → List String → Check
unfolding picked_by same_bool
check_seats s l past [] = done
check_seats s l zero (p ∷ ps) = do
  fail_when (is_dead (player_by_id s p) || p == l.dead_player_id) illegal_command
  check_seats s l zero ps
check_seats s l (suc past) (p ∷ ps) = do
  fail_when (is_dead (player_by_id s p) || p == l.dead_player_id) illegal_command
  fail_when (same_bool (picked_by l.picks p) (contains l.passed_player_ids p)) illegal_command
  check_seats s l past ps

holds : Option Player → String → Bool
holds none card = false
holds (some p) card = contains p.hand card

check_pick : State → List String → DeathLootPick → Bool
unfolding holds
check_pick s seated k =
    contains seated k.player_id && holds (player_by_id s k.player_id) k.instance_id

-- The window of a pool that still waits, at the seat with the given index.
check_loot_window : State → ℕ → DeathLoot → InteractionWindow → Check
check_loot_window s i l w =
    if w.status == InteractionWindowStatus.closed
    then fail_when
        (i == 0
          || not (elim (elem_at l.seat_order (l.seat_index -ℤ pos 1)) [
            | none ↦ false
            | some last ↦ w.initiator_actor_id == last
          ]))
        illegal_command
    else elim (elem_at l.seat_order l.seat_index) [
      | none ↦ err illegal_command
      | some seat ↦
          fail_when
            (w.status != InteractionWindowStatus.opened
              || (w.eligibility_policy != InteractionEligibilityPolicy.actor_private
                  || (w.parent.phase != s.turn.phase
                      || (not (is_sole w.eligible_actor_ids seat)
                          || w.initiator_actor_id != seat))))
            illegal_command
    ]

-- Without a priority window only a pool that nobody has been asked about may wait.
check_waiting : State → ℕ → DeathLoot → Option InteractionWindow → Check
unfolding check_loot_window
check_waiting s i l none = fail_when (i != 0) illegal_command
check_waiting s i l (some w) =
    if w.kind != InteractionKind.death_loot_priority
    then fail_when (not (i == 0 && w.status == InteractionWindowStatus.closed)) illegal_command
    else check_loot_window s i l w

check_progress : State → ℕ → DeathLoot → Check
unfolding check_waiting
check_progress s i l =
    if l.completed
    then fail_when
        (not (is_empty l.pool)
          || orphan_window InteractionKind.death_loot_priority s.interaction_window)
        illegal_command
    else (do
      fail_when (is_empty l.pool || leb (length l.seat_order) i) illegal_command
      check_waiting s i l s.interaction_window)

unfoldable pub check_loot : State → ℕ → DeathLoot → Player → Check
unfolding check_pick check_progress
check_loot s i l dead_player = do
  fail_when
      (not dead_player.dead
        || (ltb_ℤ l.initial_count (pos 0)
            || (ltb (length l.seat_order) i
                || (not (unique_strings l.pool)
                    || (not (unique_strings l.seat_order)
                        || (not (unique_strings l.passed_player_ids)
                            || l.initial_count
                              != pos (
                                  length l.pool
                                  + length l.picks
                                  + length l.discarded_instance_ids)))))))
      illegal_command
  check_seats s l i l.seat_order
  fail_when (not (all (check_pick s (take i l.seat_order)) l.picks)) illegal_command
  fail_when (not (distinct_from [] (map (λ k. k.instance_id) l.picks))) illegal_command
  check_progress s i l

unfoldable pub check_death_loot : State → Option DeathLoot → Check
unfolding check_loot
check_death_loot s none =
    fail_when (orphan_window InteractionKind.death_loot_priority s.interaction_window)
      illegal_command
check_death_loot s (some l) = elim (player_by_id s l.dead_player_id) [
  | none ↦ err illegal_command
  | some p ↦ elim l.seat_index [ pos i ↦ check_loot s i l p | negsuc _ ↦ err illegal_command ]
]

-- `State.validateDeathLoot`.
unfoldable pub validate_death_loot : State → Check
validate_death_loot s = do
  p ← profile s
  if not p.death_loot
      then fail_when
          (is_some s.death_loot
            || orphan_window InteractionKind.death_loot_priority s.interaction_window)
          illegal_command
      else check_death_loot s s.death_loot
