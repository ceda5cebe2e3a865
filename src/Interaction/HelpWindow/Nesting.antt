-- ===== src/Interaction/HelpWindow/Nesting.antt =====
-- The times of a combat-help window, `combatHelpWindow` of backend/game/internal/game/rules.go.
use munchkin.Shared.{
  ℤ, pos, negsuc, ◌+ℤ◌, ◌-ℤ◌, ◌≤ℤ◌, ◌<ℤ◌, +ℤ_parts, -ℤ_parts, seconds, ◌≡◌, ◌≢◌, sym, ◌∙◌, arith,
  ok, done, Time, zero_time, add_seconds, false,
}
use munchkin.Model.{InteractionWindow, InteractionDeadlinePolicy, CombatHelpOffer}
use munchkin.Validation.Deadlines.{
  validate_interaction_deadline, malformed_deadline, malformed_extension, beyond_cap,
}
use munchkin.Interaction.Deadlines.{whole_seconds}
use munchkin.Interaction.Deadlines.Steps.{deadline_checks, beyond_cap_iff}
use munchkin.Interaction.HelpWindow.{help_deadline, help_base_seconds, combat_help_window}

help_deadline-le :
    (t d : Time) → (help_deadline t d ≤ℤ d) × (help_deadline t d ≤ℤ add_seconds t (pos 30))
unfolding help_deadline
help_deadline-le t d = ground arith

-- A round number of seconds that reaches a later instant.
whole_seconds-ceil :
    (d : ℤ)
    → pos 0 <ℤ d
    → (pos 0 <ℤ whole_seconds (d +ℤ pos 1000000000 -ℤ pos 1))
      × (d ≤ℤ seconds (whole_seconds (d +ℤ pos 1000000000 -ℤ pos 1)))
unfolding whole_seconds seconds ◌+ℤ◌ ◌-ℤ◌
whole_seconds-ceil (pos n) h = ground arith
whole_seconds-ceil (negsuc n) h = absurd (omega arith)

-- What an accepted offer needs of the times.
help-facts :
    (parent : InteractionWindow) (offer : CombatHelpOffer) (t : Time) {w : InteractionWindow}
    → combat_help_window parent offer t ≡ ok w
    → (t ≢ zero_time)
      × (parent.opened_at ≤ℤ t)
      × (pos 10000000000 ≤ℤ (parent.deadline_at -ℤ t))
      × (w.opened_at ≡ t)
      × (w.deadline_at ≡ help_deadline t parent.deadline_at)
      × (w.deadline_revision ≡ 1)
      × (w.extension_budget_seconds ≡ pos 0)
      × (w.deadline_policy ≡ record {
        base_seconds = help_base_seconds t (help_deadline t parent.deadline_at);
        late_threshold_seconds = pos 0;
        extension_step_seconds = pos 0;
        max_seconds = help_base_seconds t (help_deadline t parent.deadline_at);
      })
unfolding combat_help_window
help-facts parent offer t h = ground arith

-- Ten seconds at least.
help_deadline-ge :
    (t d : Time) → pos 10000000000 ≤ℤ (d -ℤ t) → add_seconds t (pos 10) ≤ℤ help_deadline t d
unfolding help_deadline seconds
help_deadline-ge t d h =
    ground (arith, -ℤ_parts d t, +ℤ_parts t (pos 10000000000), +ℤ_parts t (pos 30000000000))

record HelpTimes (t deadline : Time) (base : ℤ) : Type 0 where
  later : t <ℤ deadline
  base_pos : pos 0 <ℤ base
  reaches : deadline ≤ℤ add_seconds t base

help_base_seconds-HelpTimes :
    (t deadline : Time) → t <ℤ deadline → HelpTimes t deadline (help_base_seconds t deadline)
unfolding help_base_seconds
help_base_seconds-HelpTimes t deadline h =
    let gap : pos 0 <ℤ (deadline -ℤ t) = omega (arith, -ℤ_parts deadline t) in
    let (p, r) = whole_seconds-ceil (deadline -ℤ t) gap in
    record {
      later = h;
      base_pos = p;
      reaches = omega (
        arith,
        r,
        -ℤ_parts deadline t,
        +ℤ_parts t (seconds (whole_seconds (deadline -ℤ t +ℤ pos 1000000000 -ℤ pos 1))),
      );
    }

-- A policy without extensions.
abbrev fixed_policy : ℤ → InteractionDeadlinePolicy
fixed_policy base = record {
  base_seconds = base;
  late_threshold_seconds = pos 0;
  extension_step_seconds = pos 0;
  max_seconds = base;
}

module _ (w : InteractionWindow) (base : ℤ) (opened : pos 0 ≤ℤ w.opened_at)
    (nonzero : w.opened_at ≢ zero_time) (revision : w.deadline_revision ≡ 1)
    (budget : w.extension_budget_seconds ≡ pos 0) (policy : w.deadline_policy ≡ fixed_policy base)
    (times : HelpTimes w.opened_at w.deadline_at base) where
  HelpTimes-malformed_deadline : malformed_deadline w ≡ false
  unfolding malformed_deadline
  HelpTimes-malformed_deadline = ground (arith, times.later, times.base_pos)

  HelpTimes-malformed_extension :
      malformed_extension w.deadline_policy w.extension_budget_seconds ≡ false
  unfolding malformed_extension
  HelpTimes-malformed_extension = ground arith

  HelpTimes-beyond_cap : beyond_cap w ≡ false
  unfolding seconds
  HelpTimes-beyond_cap = (beyond_cap_iff w).1 (
    rw policy times.reaches,
    rw (policy, budget) (omega (arith, times.reaches, +ℤ_parts w.deadline_at (pos 0))),
  )

  HelpTimes-validate : validate_interaction_deadline w ≡ done
  HelpTimes-validate =
      (deadline_checks w).1
        (HelpTimes-malformed_deadline, HelpTimes-malformed_extension, HelpTimes-beyond_cap)

-- What the window of an offer keeps to.
pub record Nested (parent : InteractionWindow) (t : Time) (w : InteractionWindow) : Type 0 where
  pub starts_now : w.opened_at ≡ t
  pub within_parent : w.deadline_at ≤ℤ parent.deadline_at
  pub at_most_thirty : w.deadline_at ≤ℤ add_seconds t (pos 30)
  pub at_least_ten : add_seconds t (pos 10) ≤ℤ w.deadline_at
  pub valid : validate_interaction_deadline w ≡ done

-- The window of a combat-help offer that is accepted at a time at or after the zero time opens
-- then, lasts between ten and thirty seconds, ends no later than the combat window that it
-- suspends, and has a well-formed deadline, its length being rounded up to whole seconds.
pub combat_help_window-Nested :
    (parent : InteractionWindow) (offer : CombatHelpOffer) (t : Time) {w : InteractionWindow}
    → pos 0 ≤ℤ t
    → combat_help_window parent offer t ≡ ok w
    → Nested parent t w
unfolding seconds
combat_help_window-Nested parent offer t {w} nonneg h =
    let (nonzero, _, remaining, opened, deadline, revision, budget, policy) =
      help-facts parent offer t h in
    let (le_parent, le_thirty) = help_deadline-le t parent.deadline_at in
    let ge_ten = help_deadline-ge t parent.deadline_at remaining in
    let d : Time = help_deadline t parent.deadline_at in
    let times : HelpTimes t d (help_base_seconds t d) =
      help_base_seconds-HelpTimes t d (omega (arith, ge_ten, +ℤ_parts t (pos 10000000000))) in
    record {
      starts_now = opened;
      within_parent = rw deadline le_parent;
      at_most_thirty = rw deadline le_thirty;
      at_least_ten = rw deadline ge_ten;
      valid =
          HelpTimes-validate w (help_base_seconds t d) (rw opened nonneg)
            (λ e. nonzero (sym opened ∙ e)) revision budget policy (rw (opened, deadline) times);
    }
