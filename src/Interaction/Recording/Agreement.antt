-- ===== src/Interaction/Recording/Agreement.antt =====
-- `recordInteractionResponse` of backend/game/internal/game/engine.go against
-- `applyInteractionResponse` of event.go.
use munchkin.Shared.{
  String, Bool, true, false, not, ◌&&◌, ◌!=◌, some, ◌≡◌, refl, sym, ap, subst, ◌∙◌, ok, done,
  fail_when, ◌>>=◌, >>=-eq-ok, >>-eq-ok, arith, ℤ-Eq, ℕ-Eq, contains,
}
use munchkin.Model.{
  State, InteractionWindow, InteractionResponse, InteractionIntent, InteractionResponseState,
  InteractionWindowStatus, InteractionIntent-Eq,
}
use munchkin.Profile.{profile}
use munchkin.Interaction.Deadlines.{
  DeadlineOutcome, interaction_deadline_after, interaction_response_at,
  interaction_response_state_for_intent,
}
use munchkin.Interaction.Events.{
  ResponseRecorded, open_window, with_response, apply_interaction_response, check_recorded,
  check_player_response, same_interaction_deadline,
}
use munchkin.Interaction.Recording.{
  InteractionCommand, Answer, require_interaction_window, prepare_response, answer, timeout_answer,
  answer_deadline, revision_bound,
}
use munchkin.Shared.{illegal_command}

require_interaction_window-ok :
    (s : State) (id : String) {w : InteractionWindow}
    → require_interaction_window s id ≡ ok w
    → (s.interaction_window ≡ some w) × (w.id ≡ id) × (w.status ≡ InteractionWindowStatus.opened)
unfolding require_interaction_window
require_interaction_window-ok s id h = ground arith

-- What the handler found and built on its way to an event.
pub record Prepared (s : State) (c : InteractionCommand) (intent : InteractionIntent)
    (timeout : Bool) (p : ResponseRecorded) : Type 0 where
  pub w : InteractionWindow
  pub current : InteractionResponse
  pub a : Answer
  pub o : DeadlineOutcome
  pub window_is : s.interaction_window ≡ some w
  pub named : w.id ≡ c.interaction_id
  pub open_now : w.status ≡ InteractionWindowStatus.opened
  pub found : interaction_response_at w c.actor_id ≡ ok current
  pub answered : answer timeout current intent ≡ ok a
  pub allowed : contains w.allowed_intents a.intent ≡ true
  pub timed : answer_deadline timeout w c.interaction_at a.intent ≡ ok o
  pub built : p ≡ record {
    interaction_id = w.id;
    actor_id = c.actor_id;
    response = record current {
      state = a.state;
      intent = a.intent;
      accepted_at = c.interaction_at;
    };
    deadline_at = o.deadline;
    deadline_revision = o.revision;
    extension_budget_seconds = o.budget;
  }

pub prepare_response-Prepared :
    (s : State) (c : InteractionCommand) (intent : InteractionIntent) (timeout : Bool)
    {p : ResponseRecorded}
    → prepare_response s c intent timeout ≡ ok p
    → Prepared s c intent timeout p
unfolding prepare_response
prepare_response-Prepared s c intent timeout {p} h =
    let (w, e1, h1) = >>=-eq-ok (require_interaction_window s c.interaction_id) _ h in
    let (r, e2, h2) = >>=-eq-ok (profile s) _ h1 in
    let stale : Bool =
      not timeout && (revision_bound r w && c.interaction_revision != w.deadline_revision) in
    let (e3, h3) = >>-eq-ok (fail_when stale illegal_command) _ h2 in
    let (current, e4, h4) = >>=-eq-ok (interaction_response_at w c.actor_id) _ h3 in
    let (a, e5, h5) = >>=-eq-ok (answer timeout current intent) _ h4 in
    let (e6, h6) =
      >>-eq-ok (fail_when (not (contains w.allowed_intents a.intent)) illegal_command) _ h5 in
    let (o, e7, h7) = >>=-eq-ok (answer_deadline timeout w c.interaction_at a.intent) _ h6 in
    let (e8, e9, e10) = require_interaction_window-ok s c.interaction_id e1 in
    record {
      w = w;
      current = current;
      a = a;
      o = o;
      window_is = e8;
      named = e9;
      open_now = e10;
      found = e4;
      answered = e5;
      allowed = ground (arith, e6);
      timed = e7;
      built = ground (arith, h7);
    }

-- The answer of a player, or of a timeout, passes the check of its event.
check_recorded-player :
    (w : InteractionWindow) (current : InteractionResponse) (p : ResponseRecorded)
    (o : DeadlineOutcome)
    → interaction_response_state_for_intent p.response.intent ≡ ok p.response.state
    → interaction_deadline_after w p.response.accepted_at p.response.intent ≡ ok o
    → p.deadline_at ≡ o.deadline
    → p.deadline_revision ≡ o.revision
    → p.extension_budget_seconds ≡ o.budget
    → check_player_response w p ≡ done
unfolding check_player_response
check_recorded-player w current p o e1 e2 d r b =
    rw (e1, e2, check_player_response) (ground (arith))

answered_state :
    (r : InteractionResponse) (i : InteractionIntent) {a : Answer}
    → answer false r i ≡ ok a
    → interaction_response_state_for_intent a.intent ≡ ok a.state
unfolding answer interaction_response_state_for_intent
answered_state r InteractionIntent.pass h = ground arith
answered_state r i h = ground arith

player_state :
    (i : InteractionIntent) {x : InteractionResponseState} (w : InteractionWindow)
    (current : InteractionResponse) (p : ResponseRecorded)
    → interaction_response_state_for_intent i ≡ ok x
    → check_recorded x w current p ≡ check_player_response w p
unfolding interaction_response_state_for_intent check_recorded
player_state i w current p h = ground arith

open_window-ok :
    (s : State) (id : String) {w : InteractionWindow}
    → s.interaction_window ≡ some w
    → w.id ≡ id
    → w.status ≡ InteractionWindowStatus.opened
    → open_window s id ≡ ok w
unfolding open_window
open_window-ok s id e n o = rw e (ground arith)

apply_of_check :
    (s : State) (w : InteractionWindow) (current : InteractionResponse) (p : ResponseRecorded)
    → open_window s p.interaction_id ≡ ok w
    → interaction_response_at w p.actor_id ≡ ok current
    → p.response.requirement ≡ current.requirement
    → p.response.timeout_intent ≡ current.timeout_intent
    → check_recorded p.response.state w current p ≡ done
    → apply_interaction_response s p
      ≡ ok (record s { interaction_window = some (with_response w p) })
unfolding apply_interaction_response
apply_of_check s w current p e1 e2 r t k = rw (e1, ◌>>=◌) (rw (e2, ◌>>=◌) (ground (arith)))

timeout_check :
    (w : InteractionWindow) (current : InteractionResponse) (a : Answer) (o : DeadlineOutcome)
    (p : ResponseRecorded)
    → timeout_answer current.requirement current.timeout_intent ≡ ok a
    → answer_deadline true w p.response.accepted_at a.intent ≡ ok o
    → p.response.state ≡ a.state
    → p.response.intent ≡ a.intent
    → p.deadline_at ≡ o.deadline
    → p.deadline_revision ≡ o.revision
    → p.extension_budget_seconds ≡ o.budget
    → check_recorded p.response.state w current p ≡ done
unfolding timeout_answer answer_deadline check_recorded same_interaction_deadline
timeout_check w current a o p e1 e2 st it d r b = ground arith

recorded_check :
    (s : State) (c : InteractionCommand) (intent : InteractionIntent) (timeout : Bool)
    (p : ResponseRecorded) (v : Prepared s c intent timeout p)
    → check_recorded p.response.state v.w v.current p ≡ done
unfolding answer answer_deadline
recorded_check s c intent true p v =
    subst (λ q. check_recorded q.response.state v.w v.current q ≡ done) (sym v.built)
      (timeout_check v.w v.current v.a v.o _ v.answered v.timed refl refl refl refl refl)
recorded_check s c intent false p v =
    let state = answered_state v.current intent {a = v.a} v.answered in
    subst (λ q. check_recorded q.response.state v.w v.current q ≡ done) (sym v.built)
      (player_state v.a.intent v.w v.current _ state
        ∙ check_recorded-player v.w v.current _ v.o state v.timed refl refl refl)

-- Whenever the handler of a response, of a pass or of a timeout gets as far as an event, applying
-- that event to the same state accepts it: it writes the response, the deadline, the revision and
-- the budget of the event into the window that was open, and leaves the rest of the state alone.
-- So only the check of the whole state can still refuse the command.
pub prepare_response-apply :
    (s : State) (c : InteractionCommand) (intent : InteractionIntent) (timeout : Bool)
    {p : ResponseRecorded}
    → prepare_response s c intent timeout ≡ ok p
    → (w : InteractionWindow) × (s.interaction_window ≡ some w)
      × (apply_interaction_response s p
          ≡ ok (record s { interaction_window = some (with_response w p) }))
prepare_response-apply s c intent timeout {p} h =
    let v = prepare_response-Prepared s c intent timeout {p = p} h in
    (
      v.w,
      v.window_is,
      apply_of_check s v.w v.current p
          (open_window-ok s p.interaction_id v.window_is (sym (ap (λ q. q.interaction_id) v.built))
            v.open_now)
          (rw v.built v.found) (rw v.built) (rw v.built) (recorded_check s c intent timeout p v),
    )
