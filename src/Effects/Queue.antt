-- ===== src/Effects/Queue.antt =====
-- The choice that a conflict of the loadout leaves, backend/game/internal/game/effects.go.
use munchkin.Shared.{
  Bool, List, Result, String, String-Eq, [], false, none, ok, pos, some, true, ℕ, ℕ-Eq, ℤ, ℤ-Eq,
  ◌>>=◌, ◌∷◌,
}
use munchkin.Content.{
  DeckKind, DeckKind-Eq, Effect, EffectKind, EffectKind-Eq, EffectTarget, EffectTarget-Eq, Pack,
  SelectorKind, SelectorKind-Eq,
}
use munchkin.Model.{
  PendingDecision, PendingFinalize, PendingType, PendingType-Eq, Phase, Phase-Eq, State, Status-Eq,
}
use munchkin.Rules.Character.{player_at}
use munchkin.Rules.Loadout.{Resolution, reconcile_loadout}

-- `setTurnPhase` of rules.go.
unfoldable pub set_turn_phase : State → Phase → State
set_turn_phase s phase = record s {
  turn = record s.turn {
    phase = phase;
    action_window = record { kind = phase; eligible_actor_ids = s.turn.player_id ∷ [] };
  };
}

-- `Effect{}`.
abbrev pub no_effect : Effect
no_effect = record {
  kind = EffectKind.other "";
  amount = pos 0;
  selector = SelectorKind.other "";
  count = pos 0;
  tag = "";
  replace_tag = "";
  target = EffectTarget.other "";
  deck = DeckKind.other "";
  persistent = false;
  can_win = false;
}

-- `PendingFinalize{}`.
abbrev pub no_finalize : PendingFinalize
no_finalize = record {
  phase = Phase.other "";
  discard_source = false;
  clear_encounter = false;
  clear_target_effect = false;
  continue_run_away = false;
  source_instance_id = "";
}

-- The effect of the choice; its other fields are Go's zero values.
abbrev pub discard_effect : ℤ → Effect
discard_effect n = record no_effect {
  kind = EffectKind.discard;
  selector = SelectorKind.owned_card;
  count = n;
}

abbrev pub with_pending : State → PendingDecision → State
with_pending s d = record s { turn = record s.turn { pending = some d } }

abbrev choice : String → String → List Effect → PendingFinalize → Resolution → PendingDecision
choice actor source remaining finalize r = record {
  decision_type = PendingType.effect_choice;
  actor_id = actor;
  source_instance_id = source;
  options = r.options;
  minimum = r.count_;
  maximum = r.count_;
  effect = discard_effect r.count_;
  remaining_effects = remaining;
  finalize = finalize;
}

-- `queueLoadoutResolution`: the state, and whether a choice is pending.
unfoldable pub queue_loadout_resolution :
    State → ℕ → String → List Effect → PendingFinalize → Pack → Result (State × Bool)
unfolding set_turn_phase
queue_loadout_resolution s i source remaining finalize pack = do
  out ← reconcile_loadout s i pack
  elim out.1 [
    | none ↦ ok (out.0, false)
    | some r ↦ do
      p ← player_at out.0 i
      ok (
        set_turn_phase (with_pending out.0 (choice p.id source remaining finalize r))
            Phase.resolve_effect,
        true,
      )
  ]
