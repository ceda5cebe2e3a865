-- ===== src/Interaction/Deadlines/Budget.antt =====
-- Deadlines and budgets over the responses to a window, backend/game/internal/game/rules.go.
use munchkin.Shared.{
  suc, ◌≤◌, pos, ◌≤ℤ◌, ◌<ℤ◌, ◌≡◌, refl, ◌∙◌, arith, ok, done, Result, ◌>>=◌, Time, add_seconds,
  List, [], ◌∷◌, subst, >>=-eq-ok,
}
use munchkin.Model.{InteractionWindow, InteractionIntent}
use munchkin.Validation.Deadlines.{validate_interaction_deadline, hard_deadline}
use munchkin.Interaction.Deadlines.{DeadlineOutcome, interaction_deadline_after, max_revision}
use munchkin.Interaction.Deadlines.Steps.{
  with_outcome, Moves, stays, steps, stepped, interaction_deadline_after-Moves, deadline_checks,
  beyond_cap_iff, later, balance, stepped-beyond_cap, stepped-malformed_deadline,
  stepped-malformed_extension,
}

outcome-Moves :
    (w : InteractionWindow) (t : Time) (i : InteractionIntent) {o : DeadlineOutcome}
    → validate_interaction_deadline w ≡ done
    → interaction_deadline_after w t i ≡ ok o
    → Moves w o
outcome-Moves w t i v h =
    let (m, _, c) = (deadline_checks w).0 v in interaction_deadline_after-Moves w t i m c h

stepped-validate :
    (w : InteractionWindow)
    → pos 0 ≤ℤ w.opened_at
    → w.deadline_policy.extension_step_seconds ≤ℤ w.extension_budget_seconds
    → pos 0 <ℤ w.deadline_policy.extension_step_seconds
    → validate_interaction_deadline w ≡ done
    → validate_interaction_deadline (with_outcome w (stepped w)) ≡ done
stepped-validate w opened pays moves v =
    let (m, x, c) = (deadline_checks w).0 v in
    (deadline_checks (with_outcome w (stepped w))).1 (
      stepped-malformed_deadline w pays moves opened m,
      stepped-malformed_extension w pays moves x,
      stepped-beyond_cap w pays moves c,
    )

Moves-validate :
    (w : InteractionWindow) (o : DeadlineOutcome)
    → pos 0 ≤ℤ w.opened_at
    → validate_interaction_deadline w ≡ done
    → Moves w o
    → validate_interaction_deadline (with_outcome w o) ≡ done
Moves-validate w o opened v (stays e) = rw e v
Moves-validate w o opened v (steps pays moves r e) = rw e (stepped-validate w opened pays moves v)

-- A response that is accepted on a window with a well-formed deadline leaves a well-formed one, if
-- the window was opened at or after the zero time.
interaction_deadline_after-validate :
    (w : InteractionWindow) (t : Time) (i : InteractionIntent) {o : DeadlineOutcome}
    → pos 0 ≤ℤ w.opened_at
    → validate_interaction_deadline w ≡ done
    → interaction_deadline_after w t i ≡ ok o
    → validate_interaction_deadline (with_outcome w o) ≡ done
interaction_deadline_after-validate w t i opened v h =
    Moves-validate w _ opened v (outcome-Moves w t i v h)

-- What one response may do to the deadline of a window: it is not brought forward, it stays within
-- the hard one, the time added is the budget spent, and the revision is kept or grows by one
-- without passing a uint32.
pub record Extension (w : InteractionWindow) (o : DeadlineOutcome) : Type 0 where
  pub not_earlier : w.deadline_at ≤ℤ o.deadline
  pub within : o.deadline ≤ℤ hard_deadline w
  pub balanced :
      add_seconds o.deadline o.budget ≡ add_seconds w.deadline_at w.extension_budget_seconds
  pub revision_kept : w.deadline_revision ≤ o.revision
  pub revision_next : o.revision ≤ suc w.deadline_revision
  pub revision_fits : w.deadline_revision ≤ max_revision → o.revision ≤ max_revision

Moves-Extension :
    (w : InteractionWindow) (o : DeadlineOutcome)
    → validate_interaction_deadline w ≡ done
    → validate_interaction_deadline (with_outcome w o) ≡ done
    → Moves w o
    → Extension w o
Moves-Extension w o v v' (stays e) = record {
  not_earlier = rw e (omega arith);
  within = rw e ((beyond_cap_iff w).0 ((deadline_checks w).0 v).2).0;
  balanced = rw e;
  revision_kept = rw e (omega arith);
  revision_next = rw e (omega arith);
  revision_fits = rw e (λ k. k);
}
Moves-Extension w o v v' (steps pays moves r e) = record {
  not_earlier = rw e (omega (arith, later w pays moves));
  within = ((beyond_cap_iff (with_outcome w o)).0 ((deadline_checks (with_outcome w o)).0 v').2).0;
  balanced = rw e (balance w pays moves);
  revision_kept = rw e (omega arith);
  revision_next = rw e (omega arith);
  revision_fits = rw e (λ k. omega arith);
}

-- A response accepted on a window with a well-formed deadline, opened at or after the zero time,
-- does not bring the deadline forward and does not push it past the hard one; each second added
-- is a second of the budget; and the revision stays or grows by one, within a uint32.
pub interaction_deadline_after-Extension :
    (w : InteractionWindow) (t : Time) (i : InteractionIntent) {o : DeadlineOutcome}
    → pos 0 ≤ℤ w.opened_at
    → validate_interaction_deadline w ≡ done
    → interaction_deadline_after w t i ≡ ok o
    → Extension w o
interaction_deadline_after-Extension w t i opened v h =
    let m = outcome-Moves w t i v h in Moves-Extension w _ v (Moves-validate w _ opened v m) m

-- A series of responses, each to the window that the one before it left.
unfoldable pub respond_all :
    InteractionWindow → List (Time × InteractionIntent) → Result InteractionWindow
respond_all w [] = ok w
respond_all w ((t, i) ∷ rs) = do
  o ← interaction_deadline_after w t i
  respond_all (with_outcome w o) rs

-- What a series of responses may do to a window.
pub record Bounded (w w' : InteractionWindow) : Type 0 where
  pub valid : validate_interaction_deadline w' ≡ done
  pub opened_kept : w'.opened_at ≡ w.opened_at
  pub not_earlier : w.deadline_at ≤ℤ w'.deadline_at
  pub within : w'.deadline_at ≤ℤ hard_deadline w
  pub balanced :
      add_seconds w'.deadline_at w'.extension_budget_seconds
      ≡ add_seconds w.deadline_at w.extension_budget_seconds

-- However many responses a window accepts, and at whatever times, its deadline stays well formed
-- and within the hard deadline that the window had at first, is never brought forward, and with
-- the budget that is left reaches as far as it did, if the window was opened at or after the zero
-- time.
pub respond_all-Bounded :
    (rs : List (Time × InteractionIntent)) (w : InteractionWindow) {w' : InteractionWindow}
    → pos 0 ≤ℤ w.opened_at
    → validate_interaction_deadline w ≡ done
    → respond_all w rs ≡ ok w'
    → Bounded w w'
unfolding respond_all
respond_all-Bounded [] w {w'} opened v h =
    let e : w ≡ w' = ground arith in
    subst (Bounded w) e (record {
      valid = v;
      opened_kept = refl;
      not_earlier = omega arith;
      within = ((beyond_cap_iff w).0 ((deadline_checks w).0 v).2).0;
      balanced = refl;
    })
respond_all-Bounded ((t, i) ∷ rs) w {w'} opened v h =
    let (o, a, h') = >>=-eq-ok (interaction_deadline_after w t i) _ h in
    let one = interaction_deadline_after-Extension w t i opened v a in
    let v' = interaction_deadline_after-validate w t i opened v a in
    let more = respond_all-Bounded rs (with_outcome w o) {w' = w'} opened v' h' in
    record {
      valid = more.valid;
      opened_kept = more.opened_kept;
      not_earlier = omega (arith, one.not_earlier, more.not_earlier);
      within = more.within;
      balanced = more.balanced ∙ one.balanced;
    }
