-- ===== src/Commands/Turns/Passing.antt =====
-- The turn passes on, backend/game/internal/game/engine.go.
use munchkin.Shared.{
  >>=-eq-ok, Bool-cases, List, [], ap, arith, get_elem?, if_fails, if_holds, inl, inr, length,
  negsuc, not, ok, ok_injective, pos, some, suc, sym, ℕ, ℕ-Eq, ℤ, ℤ-Eq, ◌%◌, ◌^◌, ◌∙◌, ◌∷◌, ◌≡◌,
}
use munchkin.Cards.Draws.{Drawable, Drawn, take_cards-inv}
use munchkin.Cards.Piles.{Draw, RandomOutcome}
use munchkin.Commands.Guards.{new_turn, require_phase}
use munchkin.Commands.Guards.Transitions.{require_phase-turn, transition-state}
use munchkin.Commands.Kinds.{Command, EventType, StateChanged}
use munchkin.Commands.Turns.{handle_end_turn, next_turn_state, redraw}
use munchkin.Content.{DeckKind, DeckKind-Eq}
use munchkin.Effects.Immediate.{take_signed}
use munchkin.Effects.Queue.{set_turn_phase}
use munchkin.Model.{Phase, Phase-Eq, Player, State, Turn, player_index}
use munchkin.Profile.{profile}
use munchkin.Rules.Character.{player_at}
use munchkin.Rules.Character.Frames.{player_at-found}

turn_after_draw :
    (deck : DeckKind) (n : ℕ) (d d' : Draw)
    → Drawable deck
    → Drawn deck n d d'
    → d'.state.turn ≡ d.state.turn
turn_after_draw DeckKind.door n d d' u made = ap (λ s. s.turn) made.frame
turn_after_draw DeckKind.treasure n d d' u made = ap (λ s. s.turn) made.frame
turn_after_draw (DeckKind.other _) n d d' u made = absurd u

take_signed-turn :
    (s : State) (deck : DeckKind) (n : ℤ) (out : List RandomOutcome) {d : Draw}
    → Drawable deck
    → take_signed s deck n out ≡ ok d
    → d.state.turn ≡ s.turn
unfolding take_signed
take_signed-turn s deck (negsuc n) out u h = absurd (ground arith)
take_signed-turn s deck (pos n) out {d} u h =
    turn_after_draw deck n (record { result = []; state = s; outcomes = out }) d u
      (take_cards-inv s deck n out d u h)

redraw-turn :
    (s : State) (i : ℕ) {r : State × List RandomOutcome} → redraw s i ≡ ok r → r.0.turn ≡ s.turn
unfolding redraw
redraw-turn s i {r} h =
    let (p, _, k) = >>=-eq-ok (player_at s i) _ h in
    elim (Bool-cases (not p.needs_redraw)) [
      | inl q ↦ sym (ap (λ x. x.0.turn) (ok_injective (if_holds (not p.needs_redraw) _ q k)))
      | inr q ↦
          let (profile_, _, l) = >>=-eq-ok (profile s) _ (if_fails (not p.needs_redraw) _ q k) in
          let (doors, e1, m) =
            >>=-eq-ok (take_signed s DeckKind.door profile_.initial_door_cards []) _ l in
          let (treasures, e2, n) =
            >>=-eq-ok
              (take_signed doors.state DeckKind.treasure profile_.initial_treasure_cards
                doors.outcomes)
              _ m in
          let (last, _, o) = >>=-eq-ok (player_at treasures.state i) _ n in
          sym (ap (λ x. x.0.turn) (ok_injective o))
          ∙ take_signed-turn doors.state DeckKind.treasure profile_.initial_treasure_cards
              doors.outcomes {d = treasures} tt e2
          ∙ take_signed-turn s DeckKind.door profile_.initial_door_cards [] {d = doors} tt e1
    ]

-- When ending a turn succeeds, the player to move is the next one around the table, with the turn's
-- number one larger (modulo 2 ^ 32), and the new turn starts with its preparation: without a
-- combat, without a choice to make, and open to that player alone.
pub handle_end_turn-turn :
    (s : State) (c : Command) (ev : StateChanged)
    → handle_end_turn s c ≡ ok ev
    → (i : ℕ) × (p : Player) × (player_index s s.turn.player_id ≡ some i)
      × (get_elem? s.players (suc i % length s.players) ≡ some p)
      × (ev.state.turn ≡ record (new_turn p.id (suc s.turn.number % 2 ^ 32)) {
        phase = Phase.preparation;
        action_window = record { kind = Phase.preparation; eligible_actor_ids = p.id ∷ [] };
      })
unfolding handle_end_turn set_turn_phase
handle_end_turn-turn s c ev h =
    let (i, e1, h1) = >>=-eq-ok (require_phase s c (Phase.end_turn ∷ [])) _ h in
    let (p, e2, h2) = >>=-eq-ok (player_at s (suc i % length s.players)) _ h1 in
    let (r, e3, h3) = >>=-eq-ok (redraw (next_turn_state s p.id) (suc i % length s.players)) _ h2 in
    let (same, _) =
      transition-state EventType.turn_advanced c (set_turn_phase r.0 Phase.preparation) r.1
        {ev = ev} h3 in
    let kept = redraw-turn (next_turn_state s p.id) (suc i % length s.players) {r = r} e3 in
    (
      i,
      p,
      require_phase-turn s c (Phase.end_turn ∷ []) e1,
      player_at-found s (suc i % length s.players) e2,
      ap (λ u. u.turn) same
          ∙ ap {A = Turn}
              (λ t. record t {
                phase = Phase.preparation;
                action_window = record {
                  kind = Phase.preparation;
                  eligible_actor_ids = t.player_id ∷ [];
                };
              })
              kept,
    )
