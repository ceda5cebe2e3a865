-- ===== src/Interaction/Recording/Outcomes.antt =====
-- The state after `recordInteractionResponse` of backend/game/internal/game/engine.go.
use munchkin.Shared.{
  suc, ◌%◌, ◌^◌, String, String-Eq, Bool, true, false, some, lookup, insert, lookup-insert, ◌≡◌,
  ◌≢◌, sym, ap, subst, ◌∙◌, ok, done, ◌>>=◌, >>=-eq-ok, >>-eq-ok, arith, contains,
}
use munchkin.Model.{
  State, InteractionWindow, InteractionResponse, InteractionIntent, InteractionResponseState,
}
use munchkin.Validation.Players.{validate}
use munchkin.Interaction.Deadlines.{interaction_response_at, interaction_response_state_for_intent}
use munchkin.Interaction.Events.{
  ResponseRecorded, commit, with_response, apply_interaction_response, apply_response_recorded,
}
use munchkin.Interaction.Recording.{
  InteractionCommand, Answer, prepare_response, record_interaction_response, answer, timeout_answer,
}
use munchkin.Interaction.Recording.Agreement.{
  Prepared, prepare_response-Prepared, prepare_response-apply,
}

interaction_response_at-ok :
    (w : InteractionWindow) (actor_id : String) {r : InteractionResponse}
    → interaction_response_at w actor_id ≡ ok r
    → (lookup actor_id w.responses ≡ some r)
      × (contains w.eligible_actor_ids actor_id ≡ true)
      × (r.state ≡ InteractionResponseState.pending)
unfolding interaction_response_at
interaction_response_at-ok w actor_id h = ground arith

commit-ok :
    (s : State) {s' : State}
    → commit s ≡ ok s'
    → (s' ≡ record s { version = suc s.version % 2 ^ 64 }) × (validate s' ≡ done)
unfolding commit
commit-ok s {s'} h =
    let (v, e) = >>-eq-ok (validate (record s { version = suc s.version % 2 ^ 64 })) _ h in
    let e' : record s { version = suc s.version % 2 ^ 64 } ≡ s' = cc in
    (sym e', subst (λ t. validate t ≡ done) e' v)

player_answer-ne-pending :
    (i : InteractionIntent) {x : InteractionResponseState}
    → interaction_response_state_for_intent i ≡ ok x
    → x ≢ InteractionResponseState.pending
unfolding interaction_response_state_for_intent
player_answer-ne-pending i h = ground arith

answer-ne-pending :
    (timeout : Bool) (r : InteractionResponse) (i : InteractionIntent) {a : Answer}
    → answer timeout r i ≡ ok a
    → a.state ≢ InteractionResponseState.pending
unfolding answer timeout_answer
answer-ne-pending true r i h = ground arith
answer-ne-pending false r i {a} h =
    let (x, e, k) = >>=-eq-ok (interaction_response_state_for_intent i) _ h in
    let same : x ≡ a.state = ground arith in λ n. player_answer-ne-pending i e (same ∙ n)

-- What holds of a state after the response of an actor to its window.
pub record Answered (s : State) (c : InteractionCommand) (p : ResponseRecorded) (s' : State)
    : Type 0 where
  pub before_window : InteractionWindow
  pub before_is : s.interaction_window ≡ some before_window
  pub was_pending :
      (r : InteractionResponse) × (lookup c.actor_id before_window.responses ≡ some r)
      × (r.state ≡ InteractionResponseState.pending)
  pub after_is : s' ≡ record s {
    interaction_window = some (with_response before_window p);
    version = suc s.version % 2 ^ 64;
  }
  pub valid : validate s' ≡ done
  pub own : lookup c.actor_id (with_response before_window p).responses ≡ some p.response
  pub answered_now : p.response.state ≢ InteractionResponseState.pending
  pub others :
      (b : String)
      → b ≢ c.actor_id
      → lookup b (with_response before_window p).responses ≡ lookup b before_window.responses

lookup-others :
    (a b : String) (r : InteractionResponse) (w : InteractionWindow)
    → b ≢ a
    → lookup b (insert a r w.responses) ≡ lookup b w.responses
lookup-others a b r w n = ground (arith, lookup-insert a b r w.responses)

lookup-own :
    (a : String) (r : InteractionResponse) (w : InteractionWindow)
    → lookup a (insert a r w.responses) ≡ some r
lookup-own a r w = ground (arith, lookup-insert a a r w.responses)

applied-Answered :
    (s s' : State) (c : InteractionCommand) (p : ResponseRecorded) {intent : InteractionIntent}
    {timeout : Bool}
    → Prepared s c intent timeout p
    → (w : InteractionWindow) × (s.interaction_window ≡ some w)
      × (apply_interaction_response s p
          ≡ ok (record s { interaction_window = some (with_response w p) }))
    → apply_response_recorded s p ≡ ok s'
    → Answered s c p s'
unfolding apply_response_recorded
applied-Answered s s' c p {intent} {timeout} v (w, e, k) a =
    let w_is : v.w ≡ w = ground (arith, v.window_is) in
    let (there, _, open_response) = interaction_response_at-ok v.w c.actor_id v.found in
    let actor : p.actor_id ≡ c.actor_id = ap (λ q. q.actor_id) v.built in
    let committed : commit (record s { interaction_window = some (with_response w p) }) ≡ ok s' =
      rw (k, ◌>>=◌) at a in
    let (after, valid) = commit-ok _ committed in
    record {
      before_window = w;
      before_is = e;
      was_pending = (v.current, rw (← w_is) there, open_response);
      after_is = after;
      valid = valid;
      own = rw actor (lookup-own c.actor_id p.response w);
      answered_now = rw v.built (answer-ne-pending timeout v.current intent v.answered);
      others = λ b n. rw actor (lookup-others c.actor_id b p.response w n);
    }

-- A response that the handler accepts, of a player or of a timeout, is applied: the actor had a
-- pending response and now has the recorded one, no other response changes, the version grows by
-- one modulo 2^64, the rest of the state but the window stays, and the new state is valid.
pub record_interaction_response-Answered :
    (s : State) (c : InteractionCommand) (intent : InteractionIntent) (timeout : Bool)
    {p : ResponseRecorded}
    → record_interaction_response s c intent timeout ≡ ok p
    → (s' : State) × (apply_response_recorded s p ≡ ok s') × Answered s c p s'
unfolding record_interaction_response
record_interaction_response-Answered s c intent timeout {p} h =
    let (p', e, h1) = >>=-eq-ok (prepare_response s c intent timeout) _ h in
    let (s', a, h2) = >>=-eq-ok (apply_response_recorded s p') _ h1 in
    let same : p' ≡ p = cc in
    subst (λ q. (s' : State) × (apply_response_recorded s q ≡ ok s') × Answered s c q s') same
      (
        s',
        a,
        applied-Answered s s' c p' (prepare_response-Prepared s c intent timeout e)
            (prepare_response-apply s c intent timeout e) a,
      )
