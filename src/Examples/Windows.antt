-- ===== src/Examples/Windows.antt =====
-- Windows that open and deadlines that move, at concrete instants.
use munchkin.Shared.{
  String-discrete, ℕ_discrete, ℤ-discrete, ℤ, pos, List, [], ◌∷◌, some, ok, done, keep, insert, ◌≡◌,
  refl, arith, ◌-ℤ◌, ◌+ℤ◌, seconds, zero_time,
}
use munchkin.Model.{
  InteractionWindow, InteractionIntent, InteractionIntent-discrete, CombatHelpOffer,
  InteractionWindowStatus-discrete, InteractionKind-discrete, InteractionSubjectKind-discrete,
  Phase, InteractionKind, InteractionSubjectKind, InteractionEligibilityPolicy,
  InteractionWindowStatus, InteractionCloseReason,
}
use munchkin.Validation.Deadlines.{
  malformed_deadline, malformed_extension, beyond_cap, validate_interaction_deadline,
}
use munchkin.Interaction.Deadlines.{
  DeadlineOutcome, interaction_deadline_after, whole_seconds,
  collective_interaction_deadline_policy,
}
use munchkin.Interaction.Deadlines.Budget.{
  Extension, Bounded, respond_all, interaction_deadline_after-Extension, respond_all-Bounded,
}
use munchkin.Interaction.HelpWindow.{combat_help_window, help_deadline, help_base_seconds}
use munchkin.Interaction.HelpWindow.Nesting.{Nested, combat_help_window-Nested}
use munchkin.Interaction.Windows.{
  combat_response_window, combat_response_spec, combat_response_actors, all_pending, must_decline,
}
use munchkin.Interaction.Windows.Opening.{WellOpened}
use munchkin.Interaction.Windows.Rules.{Built, Built-WellOpened}
use munchkin.Examples.Table.{table, noon, late, combat_window}

combat_window-valid : validate_interaction_deadline combat_window ≡ done
unfolding validate_interaction_deadline malformed_deadline malformed_extension beyond_cap ◌-ℤ◌ ◌+ℤ◌
    seconds ℤ-discrete ℕ_discrete
combat_window-valid = refl

-- Twenty seconds before the end, an answer adds ten.
abbrev extended : DeadlineOutcome
extended = record { deadline = pos 1070000000000; revision = 2; budget = pos 20 }

answer_extends :
    interaction_deadline_after combat_window late InteractionIntent.respond ≡ ok extended
unfolding interaction_deadline_after whole_seconds ◌-ℤ◌ ◌+ℤ◌ seconds ℤ-discrete ℕ_discrete
    InteractionIntent-discrete
answer_extends = refl

interaction_deadline_after-Extension_example : Extension combat_window extended
interaction_deadline_after-Extension_example =
    interaction_deadline_after-Extension combat_window late InteractionIntent.respond (omega arith)
      combat_window-valid answer_extends

-- The last answer finds the budget spent.
abbrev answers : List (ℤ × InteractionIntent)
answers =
    (late, InteractionIntent.respond)
    ∷ (pos 1060000000000, InteractionIntent.respond)
    ∷ (pos 1070000000000, InteractionIntent.pass)
    ∷ (pos 1075000000000, InteractionIntent.respond)
    ∷ (pos 1085000000000, InteractionIntent.respond)
    ∷ []

abbrev last_window : InteractionWindow
last_window = record combat_window {
  deadline_at = pos 1090000000000;
  deadline_revision = 4;
  extension_budget_seconds = pos 0;
}

answers_run : respond_all combat_window answers ≡ ok last_window
unfolding respond_all interaction_deadline_after whole_seconds ◌-ℤ◌ ◌+ℤ◌ seconds ℤ-discrete
    ℕ_discrete InteractionIntent-discrete
answers_run = refl

respond_all-Bounded_example : Bounded combat_window last_window
respond_all-Bounded_example =
    respond_all-Bounded answers combat_window (omega arith) combat_window-valid answers_run

abbrev help_offer : CombatHelpOffer
help_offer = record {
  id = "h1";
  parent_interaction_id = "w1";
  combatant_player_id = "ann";
  helper_player_id = "bob";
  reward_treasures = pos 1;
}

-- Twelve and a half seconds are left of the combat window: the offer gets them, as thirteen.
abbrev help_time : ℤ
help_time = pos 1047500000000

abbrev help_window : InteractionWindow
help_window = record {
  id = "h1";
  kind = InteractionKind.addressed_response;
  parent = record {
    phase = Phase.combat;
    subject_kind = InteractionSubjectKind.interaction;
    subject_id = "w1";
    parent_interaction_id = "w1";
  };
  initiator_actor_id = "ann";
  eligibility_policy = InteractionEligibilityPolicy.actor_private;
  allowed_intents = InteractionIntent.accept ∷ InteractionIntent.decline ∷ [];
  eligible_actor_ids = "bob" ∷ [];
  opened_at = help_time;
  deadline_at = pos 1060000000000;
  deadline_revision = 1;
  deadline_policy = record {
    base_seconds = pos 13;
    late_threshold_seconds = pos 0;
    extension_step_seconds = pos 0;
    max_seconds = pos 13;
  };
  extension_budget_seconds = pos 0;
  responses = ("bob", must_decline) ∷ [];
  status = InteractionWindowStatus.opened;
  close_reason = InteractionCloseReason.other "";
  closed_at = zero_time;
}

help_opens : combat_help_window combat_window help_offer help_time ≡ ok help_window
unfolding combat_help_window help_deadline help_base_seconds whole_seconds all_pending insert
    String-discrete ℤ-discrete ℕ_discrete InteractionWindowStatus-discrete InteractionKind-discrete
    InteractionSubjectKind-discrete ◌-ℤ◌ ◌+ℤ◌ seconds
help_opens = refl

combat_help_window-Nested_example : Nested combat_window help_time help_window
combat_help_window-Nested_example =
    combat_help_window-Nested combat_window help_offer help_time (omega arith) help_opens

combat_opens : combat_response_window table "w1" noon ≡ some combat_window
unfolding combat_response_window combat_response_spec combat_response_actors
    collective_interaction_deadline_policy all_pending keep insert String-discrete ◌-ℤ◌ ◌+ℤ◌ seconds
combat_opens = refl

Built-WellOpened_example : WellOpened combat_window
Built-WellOpened_example =
    Built-WellOpened table noon combat_window (omega arith) (Built.for_combat "w1" combat_opens)
