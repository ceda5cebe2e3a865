-- ===== src/Validation/Trades.antt =====
-- Economy offers and charity transfers, backend/game/internal/game/model.go.
use munchkin.Shared.{
  ℕ-Eq, ◌+◌, String-Eq, Bool, false, not, ◌&&◌, ◌||◌, ◌==◌, ◌!=◌, if◌then◌else◌, ◌++◌, map, Option,
  none, some, is_none, is_some, is_empty, is_sole, contains, any, all, length, signed_length, pos,
  ltb_ℤ, ℤ-Eq, Check, fail_when, err, ◌>>◌, ◌>>=◌,
}
use munchkin.Shared.{illegal_command}
use munchkin.Cards.{unique_strings}
use munchkin.Model.{
  State, Player, Phase, Phase-Eq, EconomyOffer, EconomyOfferKind, EconomyOfferKind-Eq,
  CharityTransfer, InteractionWindow, InteractionKind, InteractionKind-Eq, InteractionWindowStatus,
  InteractionWindowStatus-Eq, player_index, player_by_id,
}
use munchkin.Profile.{profile}

-- Whether an open window of that kind stands without the data it is about.
unfoldable pub orphan_window : InteractionKind → Option InteractionWindow → Bool
orphan_window kind none = false
orphan_window kind (some w) = w.status == InteractionWindowStatus.opened && w.kind == kind

malformed_clauses : EconomyOffer → Bool
malformed_clauses o =
    is_empty o.offered_instance_ids
    || (not (unique_strings o.offered_instance_ids)
        || (not (unique_strings o.requested_instance_ids)
            || ((o.kind == EconomyOfferKind.gift && not (is_empty o.requested_instance_ids))
                || ((o.kind == EconomyOfferKind.trade && is_empty o.requested_instance_ids)
                    || (o.kind != EconomyOfferKind.gift && o.kind != EconomyOfferKind.trade)))))

offer_window_fits : EconomyOffer → Option InteractionWindow → Bool
offer_window_fits o none = false
offer_window_fits o (some w) =
    w.status == InteractionWindowStatus.opened
    && (w.id == o.id
        && (w.kind == InteractionKind.economy_offer
            && (w.initiator_actor_id == o.offerer_player_id
                && is_sole w.eligible_actor_ids o.recipient_player_id)))

-- An offer between two players of the game.
check_offer_of : State → EconomyOffer → Player → Player → Check
unfolding malformed_clauses offer_window_fits
check_offer_of s o offerer recipient = do
  fail_when
      (o.id == ""
        || (o.offerer_player_id == o.recipient_player_id
            || (recipient.dead
                || ((o.parent_phase != Phase.preparation && o.parent_phase != Phase.charity)
                    || (o.parent_phase != s.turn.phase
                        || (o.offerer_player_id != s.turn.player_id
                            || (malformed_clauses o
                                || not (offer_window_fits o s.interaction_window))))))))
      illegal_command
  fail_when (not (all (contains offerer.carried) o.offered_instance_ids)) illegal_command
  fail_when (not (all (contains recipient.carried) o.requested_instance_ids)) illegal_command

check_economy_offer : State → EconomyOffer → Check
unfolding check_offer_of
check_economy_offer s o = elim (player_by_id s o.offerer_player_id) [
  | none ↦ err illegal_command
  | some offerer ↦ elim (player_by_id s o.recipient_player_id) [
    | none ↦ err illegal_command
    | some recipient ↦ check_offer_of s o offerer recipient
  ]
]

unfoldable pub check_economy : State → Option EconomyOffer → Check
unfolding check_economy_offer
check_economy s none =
    fail_when (orphan_window InteractionKind.economy_offer s.interaction_window) illegal_command
check_economy s (some o) = check_economy_offer s o

active_window_fits : CharityTransfer → Option InteractionWindow → Bool
active_window_fits t none = false
active_window_fits t (some w) =
    w.status == InteractionWindowStatus.opened
    && (w.id == t.interaction_id
        && (w.kind == InteractionKind.charity_transfer
            && is_sole w.eligible_actor_ids t.allocator_player_id))

check_active_transfer : State → CharityTransfer → Player → Check
unfolding active_window_fits
check_active_transfer s t allocator = do
  fail_when
      (s.turn.phase != Phase.charity
        || (s.turn.player_id != t.allocator_player_id
            || (not (active_window_fits t s.interaction_window)
                || (not (is_empty t.allocations) || not (is_empty t.discarded_instance_ids)))))
      illegal_command
  fail_when (not (all (contains allocator.hand) t.stable_hand_order)) illegal_command

closed_window_fits : CharityTransfer → Option InteractionWindow → Bool
closed_window_fits t none = false
closed_window_fits t (some w) =
    w.id == t.interaction_id && w.status == InteractionWindowStatus.closed

-- Allocated and discarded cards have names, none twice, and the recipients are eligible. The two
-- loops of the source share one set of cards seen.
check_completed_transfer : State → CharityTransfer → Check
unfolding closed_window_fits
check_completed_transfer s t = do
  fail_when
      (not (closed_window_fits t s.interaction_window)
        || pos (length t.allocations + length t.discarded_instance_ids) != t.excess)
      illegal_command
  fail_when (not (all (λ a. contains t.eligible_recipient_ids a.recipient_player_id) t.allocations))
      illegal_command
  fail_when
      (not (unique_strings (map (λ a. a.instance_id) t.allocations ++ t.discarded_instance_ids)))
      illegal_command

check_transfer : State → CharityTransfer → Player → Check
unfolding check_active_transfer check_completed_transfer
check_transfer s t allocator = do
  fail_when
      (t.interaction_id == ""
        || (ltb_ℤ t.excess (pos 0)
            || (ltb_ℤ (signed_length t.stable_hand_order) t.excess
                || (not (unique_strings t.stable_hand_order)
                    || not (unique_strings t.eligible_recipient_ids)))))
      illegal_command
  fail_when
      (any (λ r. r == t.allocator_player_id || is_none (player_index s r)) t.eligible_recipient_ids)
      illegal_command
  if t.completed then check_completed_transfer s t else check_active_transfer s t allocator

unfoldable pub check_charity : State → Option CharityTransfer → Check
unfolding check_transfer
check_charity s none =
    fail_when (orphan_window InteractionKind.charity_transfer s.interaction_window) illegal_command
check_charity s (some t) = elim (player_by_id s t.allocator_player_id) [
  | none ↦ err illegal_command
  | some allocator ↦ check_transfer s t allocator
]

-- `State.validatePlayerEconomy`.
unfoldable pub validate_player_economy : State → Check
validate_player_economy s = do
  p ← profile s
  if not p.player_economy
      then fail_when (is_some s.economy_offer || is_some s.charity_transfer) illegal_command
      else (do check_economy s s.economy_offer; check_charity s s.charity_transfer)
