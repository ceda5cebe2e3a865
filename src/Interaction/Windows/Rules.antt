-- ===== src/Interaction/Windows/Rules.antt =====
-- The builders of windows of backend/game/internal/game/rules.go, as they open.
use munchkin.Shared.{
  pos, ◌-ℤ◌, ◌<ℤ◌, ◌≡◌, refl, sym, arith, ok, Time, if◌then◌else◌, true, false, Bool, String,
  String-Eq, Option, none, some, is_empty, ℤ-Eq,
}
use munchkin.Model.{State, InteractionWindow, EconomyOffer, TheftAttempt}
use munchkin.Validation.Deadlines.{malformed_extension}
use munchkin.Interaction.Deadlines.{collective_interaction_deadline_policy}
use munchkin.Interaction.Windows.{
  WindowSpec, new_window, target_response_actors, combat_response_actors, economy_offer_window,
  charity_transfer_window, theft_response_window, target_effect_window, combat_response_window,
}
use munchkin.Interaction.Windows.Opening.{
  WellOpened, GoodSpec, new_window-WellOpened, fixed-GoodSpec, intents_checked, responses_checked,
}
use munchkin.Interaction.Windows.{
  economy_offer_spec, charity_transfer_spec, theft_response_spec, target_effect_spec,
  combat_response_spec,
}
use munchkin.Shared.{>>-eq-ok, fail_when-eq-ok, ok_injective, some_injective, subst}
use munchkin.Model.{Encounter}

-- A window as one of the rules opens it.
pub data Built (s : State) (t : Time) (w : InteractionWindow) : Type 0 where
  for_offer : (o : EconomyOffer) → economy_offer_window s o t ≡ ok w → Built s t w
  for_charity : (id : String) → charity_transfer_window s id t ≡ ok w → Built s t w
  for_theft : (a : TheftAttempt) → theft_response_window s a t ≡ ok w → Built s t w
  for_target :
      (id initiator source : String)
      → target_effect_window s id t initiator source ≡ some w
      → Built s t w
  for_combat : (id : String) → combat_response_window s id t ≡ some w → Built s t w

economy-GoodSpec : (s : State) (x : EconomyOffer) (t : Time) → GoodSpec (economy_offer_spec s x t)
unfolding economy_offer_spec
economy-GoodSpec s x t =
    fixed-GoodSpec (economy_offer_spec s x t) refl refl refl refl refl intents_checked.0
      responses_checked.0

charity-GoodSpec : (s : State) (id : String) (t : Time) → GoodSpec (charity_transfer_spec s id t)
unfolding charity_transfer_spec
charity-GoodSpec s id t =
    fixed-GoodSpec (charity_transfer_spec s id t) refl refl refl refl refl intents_checked.2
      responses_checked.2

theft-GoodSpec :
    (s : State) (a : TheftAttempt) (t : Time)
    → is_empty (target_response_actors s a.thief_player_id) ≡ false
    → GoodSpec (theft_response_spec s a t)
unfolding theft_response_spec
theft-GoodSpec s a t h =
    fixed-GoodSpec (theft_response_spec s a t) refl refl refl h refl intents_checked.1
      responses_checked.1

target-GoodSpec :
    (s : State) (id : String) (t : Time) (initiator source : String)
    → is_empty (target_response_actors s initiator) ≡ false
    → GoodSpec (target_effect_spec s id t initiator source)
unfolding target_effect_spec
target-GoodSpec s id t initiator source h =
    fixed-GoodSpec (target_effect_spec s id t initiator source) refl refl refl h refl
      intents_checked.1 responses_checked.1

combat-GoodSpec :
    (s : State) (e : Encounter) (id : String) (t : Time)
    → is_empty (combat_response_actors s) ≡ false
    → GoodSpec (combat_response_spec s e id t)
unfolding combat_response_spec collective_interaction_deadline_policy malformed_extension ◌-ℤ◌
combat-GoodSpec s e id t h = record {
  intents = intents_checked.1;
  asked = h;
  pending = refl;
  response = responses_checked.1;
  deadline = refl;
  base_pos = omega arith;
  base_max = omega arith;
  late_nonneg = omega arith;
  step_nonneg = omega arith;
  budget = refl;
  extension = ground arith;
}

-- What a builder returns is the window of a specification that is in order.
pub data Specified (t : Time) (w : InteractionWindow) : Type 0 where
  specified : (o : WindowSpec) → GoodSpec o → o.opened_at ≡ t → new_window o ≡ w → Specified t w

some_else {ℓ} :
    {A : Type ℓ} (b : Bool) (x : Option A) {a : A}
    → (if b then none else x) ≡ some a
    → (b ≡ false) × (x ≡ some a)
some_else true x h = cc
some_else false x h = (refl, h)

combat-Specified :
    (s : State) (t : Time) (w : InteractionWindow) (id : String)
    → is_empty (combat_response_actors s) ≡ false
    → (found : Option Encounter)
    → elim found [ none ↦ none | some e ↦ some (new_window (combat_response_spec s e id t)) ]
      ≡ some w
    → Specified t w
unfolding combat_response_spec
combat-Specified s t w id asked none h = cc
combat-Specified s t w id asked (some e) h =
    specified (combat_response_spec s e id t) (combat-GoodSpec s e id t asked) refl
      (some_injective h)

Built-Specified : (s : State) (t : Time) (w : InteractionWindow) → Built s t w → Specified t w
unfolding economy_offer_window charity_transfer_window theft_response_window target_effect_window
    combat_response_window economy_offer_spec charity_transfer_spec theft_response_spec
    target_effect_spec combat_response_spec
Built-Specified s t w (for_offer x h) =
    specified (economy_offer_spec s x t) (economy-GoodSpec s x t) refl
      (ok_injective (>>-eq-ok _ _ h).1)
Built-Specified s t w (for_charity id h) =
    specified (charity_transfer_spec s id t) (charity-GoodSpec s id t) refl
      (ok_injective (>>-eq-ok _ _ h).1)
Built-Specified s t w (for_theft a h) =
    let (_, k) = >>-eq-ok _ _ h in
    let (e, k') = >>-eq-ok _ _ k in
    specified (theft_response_spec s a t) (theft-GoodSpec s a t (fail_when-eq-ok _ _ e)) refl
      (ok_injective k')
Built-Specified s t w (for_target id initiator source h) =
    let (e, k) = some_else (is_empty (target_response_actors s initiator)) _ h in
    specified (target_effect_spec s id t initiator source)
      (target-GoodSpec s id t initiator source e) refl (some_injective k)
Built-Specified s t w (for_combat id h) =
    let (e, k) = some_else (is_empty (combat_response_actors s)) _ h in
    combat-Specified s t w id e s.turn.encounter k

-- At a positive time, every window that one of the builders opens passes the checks of its
-- deadline, of its intents and of its opening, asks at least one actor, and holds for every actor
-- it asks a pending response that passes the check of a response.
pub Built-WellOpened :
    (s : State) (t : Time) (w : InteractionWindow) → pos 0 <ℤ t → Built s t w → WellOpened w
Built-WellOpened s t w later b = elim (Built-Specified s t w b) [
  | specified o g e same ↦
      subst WellOpened same (new_window-WellOpened o g (subst (λ x. pos 0 <ℤ x) (sym e) later))
]
