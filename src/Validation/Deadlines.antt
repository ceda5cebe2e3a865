-- ===== src/Validation/Deadlines.antt =====
-- The deadline of an interaction window, backend/game/internal/game/model.go.
use munchkin.Shared.{
  ℕ-Eq, ℤ, ℤ-Eq, pos, ◌-ℤ◌, ltb_ℤ, leb_ℤ, Bool, not, ◌||◌, ◌==◌, ◌!=◌, if◌then◌else◌, Check,
  fail_when, ◌>>◌, is_zero, after, add_seconds, Time,
}
use munchkin.Shared.{illegal_command}
use munchkin.Model.{InteractionWindow, InteractionDeadlinePolicy}

unfoldable pub malformed_deadline : InteractionWindow → Bool
malformed_deadline w =
    let p = w.deadline_policy in
    is_zero w.opened_at
    || (is_zero w.deadline_at
        || (not (after w.deadline_at w.opened_at)
            || (w.deadline_revision == 0
                || (leb_ℤ p.base_seconds (pos 0)
                    || (ltb_ℤ p.max_seconds p.base_seconds
                        || (ltb_ℤ p.late_threshold_seconds (pos 0)
                            || (ltb_ℤ p.extension_step_seconds (pos 0)
                                || ltb_ℤ w.extension_budget_seconds (pos 0))))))))

-- A policy without extensions, and one with them.
unfoldable pub malformed_extension : InteractionDeadlinePolicy → ℤ → Bool
malformed_extension p budget =
    if p.extension_step_seconds == pos 0
    then p.late_threshold_seconds != pos 0 || (budget != pos 0 || p.max_seconds != p.base_seconds)
    else p.late_threshold_seconds == pos 0
      || (ltb_ℤ p.max_seconds p.late_threshold_seconds
          || ltb_ℤ (p.max_seconds -ℤ p.base_seconds) budget)

abbrev pub hard_deadline : InteractionWindow → Time
hard_deadline w = add_seconds w.opened_at w.deadline_policy.max_seconds

unfoldable pub beyond_cap : InteractionWindow → Bool
beyond_cap w =
    after w.deadline_at (hard_deadline w)
    || after (add_seconds w.deadline_at w.extension_budget_seconds) (hard_deadline w)

unfoldable pub validate_interaction_deadline : InteractionWindow → Check
validate_interaction_deadline w = do
  fail_when (malformed_deadline w) illegal_command
  fail_when (malformed_extension w.deadline_policy w.extension_budget_seconds) illegal_command
  fail_when (beyond_cap w) illegal_command
