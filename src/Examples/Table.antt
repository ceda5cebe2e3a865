-- ===== src/Examples/Table.antt =====
-- A table of three players in a combat, and its response window, for the examples.
use munchkin.Shared.{String, true, false, pos, List, [], ◌∷◌, none, some, Time, zero_time}
use munchkin.Model.{
  State, Status, Phase, Player, CardInstance, Turn, Encounter, InteractionWindow, InteractionKind,
  InteractionSubjectKind, InteractionEligibilityPolicy, InteractionIntent, InteractionResponse,
  InteractionDeadlinePolicy, InteractionResponseRequirement, InteractionResponseState,
  InteractionWindowStatus, InteractionCloseReason,
}

-- The instant when the window opens, 1000 seconds after the zero time.
abbrev pub noon : Time
noon = pos 1000000000000

-- Forty seconds later, and two minutes later.
abbrev pub late : Time
late = pos 1040000000000

abbrev pub past : Time
past = pos 1120000000000

abbrev pub player : String → List String → Player
player id hand = record {
  id = id;
  name = id;
  level = pos 1;
  character_tags = [];
  suppressed_tags = [];
  hand = hand;
  carried = [];
  equipped = [];
  traits = [];
  attachments = [];
  persistent_curses = [];
  cheat_targets = [];
  setup_done = true;
  setup_discard_pending = false;
  dead = false;
  needs_redraw = false;
  credential_hash = id;
}

abbrev pub copy : String → String × CardInstance
copy id = (id, record { id = id; definition_id = "card" })

abbrev pub fight : Encounter
fight = record {
  monster_instance_id = "m1";
  additional_monster_instance_ids = [];
  combat_effects = [];
  player_combat_modifier = pos 0;
  monster_combat_modifier = pos 0;
  escape_modifier = pos 0;
  treasure_reward_modifier = pos 0;
  combat_closed = false;
  combat_help = none;
}

abbrev pub combat_turn : Turn
combat_turn = record {
  player_id = "ann";
  number = 1;
  phase = Phase.combat;
  encounter = some fight;
  resolving = [];
  action_window = record { kind = Phase.combat; eligible_actor_ids = "ann" ∷ [] };
  pending = none;
  target_effect = none;
  run_away = none;
  theft_used = false;
}

abbrev pub waiting : InteractionResponse
waiting = record {
  requirement = InteractionResponseRequirement.optional;
  timeout_intent = InteractionIntent.pass;
  state = InteractionResponseState.pending;
  intent = InteractionIntent.other "";
  accepted_at = zero_time;
}

abbrev pub late_policy : InteractionDeadlinePolicy
late_policy = record {
  base_seconds = pos 60;
  late_threshold_seconds = pos 30;
  extension_step_seconds = pos 10;
  max_seconds = pos 90;
}

abbrev pub combat_window : InteractionWindow
combat_window = record {
  id = "w1";
  kind = InteractionKind.combat_response;
  parent = record {
    phase = Phase.combat;
    subject_kind = InteractionSubjectKind.encounter;
    subject_id = "m1";
    parent_interaction_id = "";
  };
  initiator_actor_id = "ann";
  eligibility_policy = InteractionEligibilityPolicy.opaque_public_set;
  allowed_intents = InteractionIntent.pass ∷ InteractionIntent.respond ∷ [];
  eligible_actor_ids = "bob" ∷ "cid" ∷ [];
  opened_at = noon;
  deadline_at = pos 1060000000000;
  deadline_revision = 1;
  deadline_policy = late_policy;
  extension_budget_seconds = pos 30;
  responses = ("cid", waiting) ∷ ("bob", waiting) ∷ [];
  status = InteractionWindowStatus.opened;
  close_reason = InteractionCloseReason.other "";
  closed_at = zero_time;
}

abbrev pub table : State
table = record {
  game_id = "g1";
  version = 7;
  status = Status.active;
  owner_player_id = "ann";
  players = player "ann" ("t1" ∷ []) ∷ player "bob" ("d3" ∷ []) ∷ player "cid" [] ∷ [];
  turn = combat_turn;
  instances =
      copy "m1" ∷ copy "t1" ∷ copy "t2" ∷ copy "d1" ∷ copy "d2" ∷ copy "d3" ∷ copy "d4" ∷ [];
  door_deck = "d1" ∷ [];
  treasure_deck = "t2" ∷ [];
  door_discard = "d2" ∷ "d4" ∷ [];
  treasure_discard = [];
  rng_state = 42;
  content_set_id = "base";
  content_version = pos 1;
  content_digest = "";
  rules_profile_id = "lobby-multiplayer-v1";
  rules_profile_version = pos 1;
  winner_player_id = "";
  recent_combat_result = none;
  interaction_window = some combat_window;
  suspended_interaction_window = none;
  combat_help_offer = none;
  economy_offer = none;
  charity_transfer = none;
  theft_attempt = none;
  death_loot = none;
}
