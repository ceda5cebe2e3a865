-- ===== src/Commands/Guards/Transitions.antt =====
-- What an accepted transition and an accepted guard say, backend/game/internal/game/engine.go.
use munchkin.Shared.{
  >>-eq-ok, List, ap, arith, done, ok, ok_injective, some, subst, sym, ℕ, ℕ-Eq, ◌≡◌,
}
use munchkin.Cards.Piles.{RandomOutcome}
use munchkin.Commands.Guards.{new_state_event, require_active_actor, require_phase, transition}
use munchkin.Commands.Kinds.{Command, EventType, StateChanged}
use munchkin.Model.{Phase, Phase-Eq, State, player_index}
use munchkin.Validation.Players.{validate}

pub transition-state :
    (ty : EventType) (c : Command) (next : State) (out : List RandomOutcome) {ev : StateChanged}
    → transition ty c next out ≡ ok ev
    → (ev.state ≡ next) × (validate ev.state ≡ done)
unfolding transition new_state_event
transition-state ty c next out {ev} h =
    let (v, k) = >>-eq-ok (validate next) _ h in
    let e : next ≡ ev.state = ap (λ x. x.state) (ok_injective k) in
    (sym e, subst (λ s. validate s ≡ done) e v)

pub require_phase-turn :
    (s : State) (c : Command) (phases : List Phase) {i : ℕ}
    → require_phase s c phases ≡ ok i
    → player_index s s.turn.player_id ≡ some i
unfolding require_phase require_active_actor
require_phase-turn s c phases h = ground arith
