-- ===== src/DeathLoot.antt =====
-- The cards of a dead player and the seats that pick from them, backend/game/internal/game/rules.go
-- and engine.go.
pub mod Counts
pub mod Discarding
pub mod Conservation
pub mod Turns
pub mod Safety
use munchkin.Shared.{
  ℕ, ℕ-Eq, zero, suc, ◌+◌, ◌%◌, ℤ, pos, ◌+ℤ◌, ltb_ℤ, leb_ℤ, String, String-Eq, Bool, true, false,
  not, ◌&&◌, ◌||◌, ◌==◌, ◌!=◌, if◌then◌else◌, List, [], ◌∷◌, ◌++◌, Option, none, some, is_empty,
  contains, lookup, insert, length, signed_length, get_elem?, elem_at, set, Result, ok, err,
  fail_when, or_fail, ◌>>=◌, ◌>>◌, Time, is_zero, before, Error,
}
use munchkin.Shared.{illegal_command, panic}
use munchkin.Content.{Pack, DeckKind}
use munchkin.Model.{
  State, Player, DeathLoot, InteractionWindow, InteractionResponse, InteractionResponseState,
  InteractionResponseState-Eq, InteractionIntent, InteractionKind, InteractionKind-Eq,
  InteractionWindowStatus, InteractionCloseReason, player_index,
}
use munchkin.Profile.{profile}
use munchkin.Cards.{remove_string}
use munchkin.Cards.Piles.{RandomOutcome, append_discard}
use munchkin.Validation.Players.{validate}
use munchkin.Interaction.Recording.{require_interaction_window}

-- The living players after the dead one, around the table, from an offset on.
seats_from : State → ℕ → ℕ → ℕ → List String
seats_from s dead offset zero = []
seats_from s dead offset (suc rest) =
    let after_it = seats_from s dead (suc offset) rest in
    elim (get_elem? s.players ((dead + offset) % length s.players)) [
      | none ↦ after_it
      | some p ↦ if p.dead then after_it else p.id ∷ after_it
    ]

-- `deathLootSeatOrder`: the offsets from 1 up to the number of players.
unfoldable pub death_loot_seat_order : State → ℕ → List String
unfolding seats_from
death_loot_seat_order s dead = elim s.players [
  | [] ↦ []
  | _ ∷ others ↦ seats_from s dead 1 (length others)
]

-- `currentDeathLootActor`, with `none` for false.
unfoldable pub current_death_loot_actor : Option DeathLoot → Option String
current_death_loot_actor none = none
current_death_loot_actor (some l) =
    if l.completed
      || (is_empty l.pool
          || (ltb_ℤ l.seat_index (pos 0) || leb_ℤ (signed_length l.seat_order) l.seat_index))
    then none
    else elem_at l.seat_order l.seat_index

-- The command types that the handler tells apart.
pub data LootAction : Type 0 where
  pick pass : LootAction
  other : String → LootAction

abbrev pub is_pass : LootAction → Bool
is_pass LootAction.pass = true
is_pass _ = false

-- The fields of `Command` that the handler reads.
pub record LootCommand : Type 0 where
  pub action : LootAction
  pub actor_id : String
  pub instance_id : String
  pub interaction_id : String
  pub interaction_revision : ℕ
  pub interaction_at : Time

-- The seat whose turn it is: the open window, the pool, the actor and the pending response.
pub record Seat : Type 0 where
  pub w : InteractionWindow
  pub loot : DeathLoot
  pub actor : String
  pub response : InteractionResponse

-- An automatic pass comes from nobody, after the deadline; a player acts before it.
missed_priority : Bool → LootCommand → String → InteractionWindow → Bool
missed_priority true c actor w =
    c.actor_id != "" || (not (is_pass c.action) || before c.interaction_at w.deadline_at)
missed_priority false c actor w = c.actor_id != actor || not (before c.interaction_at w.deadline_at)

-- The guards of the handler, up to the response.
unfoldable pub loot_seat : State → LootCommand → Bool → Result Seat
unfolding missed_priority
loot_seat s c automatic = do
  p ← profile s
  w ← require_interaction_window s c.interaction_id
  loot ← or_fail s.death_loot illegal_command
  actor ← or_fail (current_death_loot_actor s.death_loot) illegal_command
  fail_when
      (not p.death_loot
        || (w.kind != InteractionKind.death_loot_priority
            || (c.interaction_revision != w.deadline_revision || is_zero c.interaction_at)))
      illegal_command
  fail_when (missed_priority automatic c actor w) illegal_command
  response ← or_fail (lookup actor w.responses) illegal_command
  fail_when (response.state != InteractionResponseState.pending) illegal_command
  ok (record { w = w; loot = loot; actor = actor; response = response })

-- `Players[index].Hand = append(...)`; Go panics at an index that does not exist.
unfoldable pub give_card : List Player → Option ℕ → String → Result (List Player)
give_card players none card = err panic
give_card players (some i) card = elim (get_elem? players i) [
  | none ↦ err panic
  | some p ↦ ok (set players i (record p { hand = p.hand ++ card ∷ [] }))
]

-- What an action makes of the players, the pool, the response and the outcomes.
pub record Acted : Type 0 where
  pub players : List Player
  pub loot : DeathLoot
  pub state : InteractionResponseState
  pub intent : InteractionIntent
  pub outcomes : List RandomOutcome

abbrev pub loot_outcome : String → List String → RandomOutcome
loot_outcome kind order = record {
  kind = kind;
  deck = DeckKind.other "";
  roll = pos 0;
  order = order;
}

-- The `switch` over the command type.
unfoldable pub loot_action : LootAction → State → LootCommand → Bool → Seat → Result Acted
loot_action LootAction.pick s c automatic seat =
    let (pool, removed) = remove_string seat.loot.pool c.instance_id in
    do
      fail_when (automatic || (c.instance_id == "" || not (contains seat.loot.pool c.instance_id)))
          illegal_command
      fail_when (not removed) illegal_command
      players ← give_card s.players (player_index s seat.actor) c.instance_id
      ok (record {
        players = players;
        loot = record seat.loot {
          pool = pool;
          picks =
              seat.loot.picks
              ++ record { player_id = seat.actor; instance_id = c.instance_id } ∷ [];
        };
        state = InteractionResponseState.acted;
        intent = InteractionIntent.respond;
        outcomes = loot_outcome "death_loot_pick" (c.instance_id ∷ []) ∷ [];
      })
loot_action LootAction.pass s c automatic seat = ok (record {
  players = s.players;
  loot = record seat.loot { passed_player_ids = seat.loot.passed_player_ids ++ seat.actor ∷ [] };
  state = if automatic then InteractionResponseState.timed_out else InteractionResponseState.passed;
  intent = InteractionIntent.pass;
  outcomes = [];
})
loot_action (LootAction.other _) s c automatic seat = err illegal_command

-- The window, closed by the response.
abbrev pub closed_seat : Seat → Acted → Time → Bool → InteractionWindow
closed_seat seat a t automatic = record seat.w {
  responses =
      insert seat.actor
        (record seat.response { state = a.state; intent = a.intent; accepted_at = t })
        seat.w.responses;
  status = InteractionWindowStatus.closed;
  close_reason =
      if automatic
      then InteractionCloseReason.deadline_expired
      else InteractionCloseReason.all_responded;
  closed_at = t;
}

-- The loop that discards what nobody took.
unfoldable pub discard_all : State → List String → Pack → Result State
discard_all s [] pack = ok s
discard_all s (i ∷ is) pack = do s' ← append_discard s i pack; discard_all s' is pack

abbrev pub next_seat : DeathLoot → DeathLoot
next_seat l = record l { seat_index = l.seat_index +ℤ pos 1 }

-- Whether no card or no seat is left.
abbrev pub exhausted : DeathLoot → Bool
exhausted l = is_empty l.pool || leb_ℤ (signed_length l.seat_order) l.seat_index

abbrev pub finished_loot : DeathLoot → DeathLoot
finished_loot l = record l {
  discarded_instance_ids = l.discarded_instance_ids ++ l.pool;
  pool = [];
  completed = true;
}

remainder_outcomes : List String → List RandomOutcome
remainder_outcomes [] = []
remainder_outcomes (i ∷ is) = loot_outcome "death_loot_discard" (i ∷ is) ∷ []

-- The end of the handler: the seat moves on, and the remainder of a finished pool is discarded.
unfoldable pub advance_loot :
    State → DeathLoot → List RandomOutcome → Pack → Result (State × List RandomOutcome)
unfolding remainder_outcomes
advance_loot s l outcomes pack =
    if exhausted l
    then (do
      s' ← discard_all s l.pool pack
      ok (record s' { death_loot = some (finished_loot l) }, outcomes ++ remainder_outcomes l.pool))
    else ok (record s { death_loot = some l }, outcomes)

-- `handleDeathLootPriority`, up to the event that carries the new state and the outcomes.
unfoldable pub handle_death_loot_priority :
    State → LootCommand → Pack → Bool → Result (State × List RandomOutcome)
handle_death_loot_priority s c pack automatic = do
  seat ← loot_seat s c automatic
  a ← loot_action c.action s c automatic seat
  result ←
      advance_loot
        (record s {
          players = a.players;
          interaction_window = some (closed_seat seat a c.interaction_at automatic);
        })
        (next_seat a.loot) a.outcomes pack
  validate result.0
  ok result
