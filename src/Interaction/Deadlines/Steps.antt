-- ===== src/Interaction/Deadlines/Steps.antt =====
-- The steps of `interactionDeadlineAfter` of backend/game/internal/game/rules.go.
use munchkin.Shared.{
  ℕ-Eq, zero, suc, ℤ, ℤ-Eq, pos, negsuc, pos_part, neg_part, ◌+ℤ◌, ◌-ℤ◌, ◌≤ℤ◌, ◌<ℤ◌, +ℤ_parts,
  -ℤ_parts, eq_of_parts, ◌≡◌, ◌≢◌, ◌⊎◌, inl, inr, refl, arith, ok, done, ◌↔◌, true, false, ap, ◌∙◌,
  Time, add_seconds, seconds, seconds_parts, zero_time,
}
use munchkin.Model.{InteractionWindow, InteractionIntent}
use munchkin.Validation.Deadlines.{
  validate_interaction_deadline, malformed_deadline, malformed_extension, beyond_cap, hard_deadline,
}
use munchkin.Interaction.Deadlines.{
  DeadlineOutcome, unchanged, extended_deadline, extend, extends, interaction_deadline_after,
  whole_seconds, max_revision,
}

-- What a response may change of a window: its deadline, revision and budget.
abbrev pub with_outcome : InteractionWindow → DeadlineOutcome → InteractionWindow
with_outcome w o = record w {
  deadline_at = o.deadline;
  deadline_revision = o.revision;
  extension_budget_seconds = o.budget;
}

pub beyond_cap_iff :
    (w : InteractionWindow)
    → (beyond_cap w ≡ false) ↔ (
        (w.deadline_at ≤ℤ hard_deadline w)
        × (add_seconds w.deadline_at w.extension_budget_seconds ≤ℤ hard_deadline w))
unfolding beyond_cap
beyond_cap_iff w = ground arith

-- A response that extends leaves a budget that pays for its step.
extends-facts :
    (w : InteractionWindow) (t : Time) (i : InteractionIntent)
    → extends w t i ≡ true
    → (i ≡ InteractionIntent.respond)
      × (w.deadline_policy.extension_step_seconds ≢ pos 0)
      × (add_seconds w.opened_at w.deadline_policy.late_threshold_seconds ≤ℤ t)
      × (w.deadline_policy.extension_step_seconds ≤ℤ w.extension_budget_seconds)
unfolding extends
extends-facts w t i h = ground arith

-- Under the cap a whole step fits before the hard deadline, so the deadline is never cut short.
extended_deadline-eq :
    (w : InteractionWindow)
    → beyond_cap w ≡ false
    → w.deadline_policy.extension_step_seconds ≤ℤ w.extension_budget_seconds
    → extended_deadline w ≡ add_seconds w.deadline_at w.deadline_policy.extension_step_seconds
unfolding extended_deadline
extended_deadline-eq w h k = ground (arith, fits)
  where
    fits : add_seconds w.deadline_at w.deadline_policy.extension_step_seconds ≤ℤ hard_deadline w
    fits = omega (
      arith,
      (beyond_cap_iff w).0 h,
      +ℤ_parts w.deadline_at (seconds w.extension_budget_seconds),
      +ℤ_parts w.deadline_at (seconds w.deadline_policy.extension_step_seconds),
      seconds_parts w.extension_budget_seconds,
      seconds_parts w.deadline_policy.extension_step_seconds,
    )

whole_seconds-seconds : (n : ℤ) → pos 0 ≤ℤ n → whole_seconds (seconds n) ≡ n
unfolding whole_seconds seconds
whole_seconds-seconds (pos k) h = ap pos (omega arith)
whole_seconds-seconds (negsuc k) h = absurd (omega arith)

-- A whole number of seconds is measured exactly.
whole_seconds-add : (t : Time) (n : ℤ) → pos 0 ≤ℤ n → whole_seconds (add_seconds t n -ℤ t) ≡ n
whole_seconds-add t n h =
    ap whole_seconds
      (eq_of_parts _ _ (omega (arith, -ℤ_parts (t +ℤ seconds n) t, +ℤ_parts t (seconds n))))
    ∙ whole_seconds-seconds n h

-- The outcome of a response: nothing changes, or one step moves from the budget to the deadline.
pub data Moves (w : InteractionWindow) (o : DeadlineOutcome) : Type 0 where
  stays : o ≡ unchanged w → Moves w o
  steps :
      w.deadline_policy.extension_step_seconds ≤ℤ w.extension_budget_seconds
      → pos 0 <ℤ w.deadline_policy.extension_step_seconds
      → w.deadline_revision ≢ max_revision
      → o ≡ record {
        deadline = add_seconds w.deadline_at w.deadline_policy.extension_step_seconds;
        revision = suc w.deadline_revision;
        budget = w.extension_budget_seconds -ℤ w.deadline_policy.extension_step_seconds;
      }
      → Moves w o

step_pos : (n : ℤ) → pos 0 ≤ℤ n → n ≢ pos 0 → pos 0 <ℤ n
step_pos (pos zero) h k = absurd (k refl)
step_pos (pos (suc n)) h k = omega arith
step_pos (negsuc n) h k = absurd (omega arith)

step_nonneg :
    (w : InteractionWindow)
    → malformed_deadline w ≡ false
    → pos 0 ≤ℤ w.deadline_policy.extension_step_seconds
unfolding malformed_deadline
step_nonneg w h = ground arith

extend-steps :
    (w : InteractionWindow) (x : Time) (added : ℤ) {o : DeadlineOutcome}
    → pos 0 <ℤ added
    → extend w x added ≡ ok o
    → (w.deadline_revision ≢ max_revision)
      × (o ≡ record {
        deadline = x;
        revision = suc w.deadline_revision;
        budget = w.extension_budget_seconds -ℤ added;
      })
unfolding extend
extend-steps w x added p h = ground arith

-- An accepted response came in time; it changes nothing or extends the deadline.
pub in_time :
    (w : InteractionWindow) (t : Time) (i : InteractionIntent) {o : DeadlineOutcome}
    → interaction_deadline_after w t i ≡ ok o
    → (t ≢ zero_time)
      × (w.opened_at ≤ℤ t)
      × (t <ℤ w.deadline_at)
      × (((extends w t i ≡ false) × (o ≡ unchanged w))
          ⊎ ((extends w t i ≡ true)
              × (extend w
                    (extended_deadline w)
                    (whole_seconds (extended_deadline w -ℤ w.deadline_at))
                  ≡ ok o)))
unfolding interaction_deadline_after
in_time w t i h = ground arith

pub interaction_deadline_after-Moves :
    (w : InteractionWindow) (t : Time) (i : InteractionIntent) {o : DeadlineOutcome}
    → malformed_deadline w ≡ false
    → beyond_cap w ≡ false
    → interaction_deadline_after w t i ≡ ok o
    → Moves w o
interaction_deadline_after-Moves w t i {o} m c h = elim (in_time w t i h).3 [
  | inl (_, e) ↦ stays e
  | inr (x, e) ↦
      let (_, nonzero, _, pays) = extends-facts w t i x in
      let step : ℤ = w.deadline_policy.extension_step_seconds in
      let p : pos 0 <ℤ step = step_pos step (step_nonneg w m) nonzero in
      let n : whole_seconds (add_seconds w.deadline_at step -ℤ w.deadline_at) ≡ step =
        whole_seconds-add w.deadline_at step (step_nonneg w m) in
      let cut : extended_deadline w ≡ add_seconds w.deadline_at step =
        extended_deadline-eq w c pays in
      let e' : extend w (add_seconds w.deadline_at step) step ≡ ok o = rw (cut, n) at e in
      let (r, q) = extend-steps w (add_seconds w.deadline_at step) step p e' in steps pays p r q
]

-- The three checks of a deadline.
pub deadline_checks :
    (w : InteractionWindow)
    → (validate_interaction_deadline w ≡ done) ↔ (
        (malformed_deadline w ≡ false)
        × (malformed_extension w.deadline_policy w.extension_budget_seconds ≡ false)
        × (beyond_cap w ≡ false))
unfolding validate_interaction_deadline
deadline_checks w = ground arith

-- The outcome of one step.
abbrev pub stepped : InteractionWindow → DeadlineOutcome
stepped w = record {
  deadline = add_seconds w.deadline_at w.deadline_policy.extension_step_seconds;
  revision = suc w.deadline_revision;
  budget = w.extension_budget_seconds -ℤ w.deadline_policy.extension_step_seconds;
}

module _ (w : InteractionWindow)
    (pays : w.deadline_policy.extension_step_seconds ≤ℤ w.extension_budget_seconds)
    (moves : pos 0 <ℤ w.deadline_policy.extension_step_seconds) where
  abbrev pub step : ℤ
  step = w.deadline_policy.extension_step_seconds

  abbrev pub budget : ℤ
  budget = w.extension_budget_seconds

  pub later : w.deadline_at <ℤ add_seconds w.deadline_at step
  later = omega (arith, +ℤ_parts w.deadline_at (seconds step), seconds_parts step)

  -- What the step adds to the deadline it takes from the budget.
  pub balance :
      add_seconds (stepped w).deadline (stepped w).budget ≡ add_seconds w.deadline_at budget
  balance = eq_of_parts _ _ (
      omega (
        arith,
        +ℤ_parts (w.deadline_at +ℤ seconds step) (seconds (budget -ℤ step)),
        +ℤ_parts w.deadline_at (seconds step),
        +ℤ_parts w.deadline_at (seconds budget),
        -ℤ_parts budget step,
        seconds_parts step,
        seconds_parts budget,
        seconds_parts (budget -ℤ step),
      ))

  pub paid : pos 0 ≤ℤ (budget -ℤ step)
  paid = omega (arith, -ℤ_parts budget step)

  pub stepped-beyond_cap : beyond_cap w ≡ false → beyond_cap (with_outcome w (stepped w)) ≡ false
  stepped-beyond_cap c = (beyond_cap_iff (with_outcome w (stepped w))).1 (
    omega (
      arith,
      balance_parts,
      +ℤ_parts (w.deadline_at +ℤ seconds step) (seconds (budget -ℤ step)),
      seconds_parts (budget -ℤ step),
      (beyond_cap_iff w).0 c,
      paid,
    ),
    rw balance (((beyond_cap_iff w).0 c).1),
  )
    where
      balance_parts :
          (pos_part (add_seconds (stepped w).deadline (stepped w).budget)
            ≡ pos_part (add_seconds w.deadline_at budget))
          × (neg_part (add_seconds (stepped w).deadline (stepped w).budget)
              ≡ neg_part (add_seconds w.deadline_at budget))
      balance_parts = (ap pos_part balance, ap neg_part balance)

  pub stepped-malformed_deadline :
      pos 0 ≤ℤ w.opened_at
      → malformed_deadline w ≡ false
      → malformed_deadline (with_outcome w (stepped w)) ≡ false
  unfolding malformed_deadline
  stepped-malformed_deadline o m = ground (arith, later, paid)

  pub stepped-malformed_extension :
      malformed_extension w.deadline_policy budget ≡ false
      → malformed_extension w.deadline_policy (budget -ℤ step) ≡ false
  unfolding malformed_extension
  stepped-malformed_extension m = ground (
    arith,
    -ℤ_parts budget step,
    -ℤ_parts w.deadline_policy.max_seconds w.deadline_policy.base_seconds,
  )
