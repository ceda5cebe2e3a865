-- ===== src/Store.antt =====
-- The store in memory, backend/game/internal/repository/memory/store.go, with the interface of
-- backend/game/internal/application/store.go. The lock makes each call one step.
pub mod Soundness
pub mod Durability
pub mod Due
use munchkin.Shared.{
  Bool, Check, List, Map, Option, Result, String, String-Eq, Time, [], after, done, err, fail_when,
  false, has_key, if◌then◌else◌, insert, leb, lookup, none, not, ok, or_fail, some, true, ℕ, ℕ-Eq,
  ℤ-Eq, ◌!=◌, ◌++◌, ◌==◌, ◌>>=◌, ◌>>◌, ◌||◌,
}
use munchkin.Shared.{already_exists, idempotency_conflict, not_found, unnamed, version_conflict}
use munchkin.Commands.Events.{EventEnvelope, replay, replay_from}
use munchkin.Model.{
  InteractionWindow, InteractionWindowStatus, InteractionWindowStatus-Eq, Phase-Eq, State,
  Status-Eq,
}
use Prim.Native.String.{◌++◌ as str_append}
use Prim.Native.Char.{nul}

-- `Receipt`, with its projection as a text.
pub record Receipt : Type 0 where
  pub actor_id : String
  pub command_id : String
  pub fingerprint : String
  pub version : ℕ
  pub projection : String

pub record InteractionDeadline : Type 0 where
  pub game_id : String
  pub interaction_id : String
  pub deadline_revision : ℕ
  pub deadline_at : Time

-- `record`.
pub record GameRecord : Type 0 where
  pub state : State
  pub events : List EventEnvelope
  pub receipts : Map Receipt
  pub deadline : Option InteractionDeadline

-- The records of `Store`, by the name of the game.
abbrev pub Records : Type 0
Records = Map GameRecord

-- `transaction`.
pub record Transaction : Type 0 where
  pub game_id : String
  pub original_version : ℕ
  pub current : GameRecord
  pub saved : Bool

unfoldable pub deadline_of : State → InteractionWindow → Option InteractionDeadline
deadline_of s w =
    if w.status != InteractionWindowStatus.opened
    then none
    else some (record {
      game_id = s.game_id;
      interaction_id = w.id;
      deadline_revision = w.deadline_revision;
      deadline_at = w.deadline_at;
    })

unfoldable pub deadline_from_state : State → Option InteractionDeadline
deadline_from_state s = elim s.interaction_window [ none ↦ none | some w ↦ deadline_of s w ]

abbrev nul_text : String
nul_text = String.◌∷◌ nul String.[]

unfoldable pub receipt_key : String → String → String
receipt_key actor_id command_id = str_append actor_id (str_append nul_text command_id)

unfoldable pub validate_receipt : Option Receipt → State → Check
validate_receipt none s = done
validate_receipt (some r) s =
    fail_when
      (r.actor_id == ""
        || (r.command_id == ""
            || (r.fingerprint == "" || (r.version != s.version || r.projection == ""))))
      unnamed

-- `FindReceipt`, with `none` for false.
unfoldable pub find_receipt : Transaction → String → String → Option Receipt
find_receipt tx actor_id command_id = lookup (receipt_key actor_id command_id) tx.current.receipts

-- The checks of `Save`. `deep_equal` is `reflect.DeepEqual`.
unfoldable pub check_save :
    (State → State → Bool) → Transaction → ℕ → State → List EventEnvelope → Option Receipt → Check
check_save deep_equal tx expected s events receipt = do
  fail_when tx.saved unnamed
  fail_when (tx.original_version != expected || tx.current.state.version != expected)
      version_conflict
  fail_when (s.game_id != tx.game_id || leb s.version expected) unnamed
  replayed ← replay_from tx.current.state events
  fail_when (not (deep_equal replayed s)) unnamed
  validate_receipt receipt s

-- The transaction with the new state and events.
abbrev pub appended : Transaction → State → List EventEnvelope → Transaction
appended tx s events = record tx {
  current = record tx.current {
    state = s;
    events = tx.current.events ++ events;
    deadline = deadline_from_state s;
  };
}

-- The receipt is written last; a key that exists is an error, after which the state stays written.
unfoldable pub file_receipt : Option Receipt → Transaction → Transaction × Check
file_receipt none tx = (record tx { saved = true }, done)
file_receipt (some r) tx =
    if has_key (receipt_key r.actor_id r.command_id) tx.current.receipts
    then (tx, err idempotency_conflict)
    else (
      record tx {
        current = record tx.current {
          receipts = insert (receipt_key r.actor_id r.command_id) r tx.current.receipts;
        };
        saved = true;
      },
      done,
    )

-- `Save`: the transaction that it leaves, and the error.
unfoldable pub save :
    (State → State → Bool)
    → Transaction
    → ℕ
    → State
    → List EventEnvelope
    → Option Receipt
    → Transaction × Check
save deep_equal tx expected s events receipt =
    elim (check_save deep_equal tx expected s events receipt) [
      | err e ↦ (tx, err e)
      | ok _ ↦ file_receipt receipt (appended tx s events)
    ]

-- `Create`.
unfoldable pub create :
    (State → State → Bool) → Records → State → List EventEnvelope → Result Records
create deep_equal store s events = do
  replayed ← replay events
  fail_when (not (deep_equal replayed s)) unnamed
  fail_when (has_key s.game_id store) already_exists
  ok (
      insert s.game_id
        (record { state = s; events = events; receipts = []; deadline = deadline_from_state s })
        store)

abbrev pub begin : String → GameRecord → Transaction
begin game_id r = record {
  game_id = game_id;
  original_version = r.state.version;
  current = r;
  saved = false;
}

-- What the callback of `WithinGame` does with the interface `Tx`: it returns, reads the state, looks
-- for a receipt or saves, and goes on with the answer.
pub data Callback : Type 0 where
  returns : Check → Callback
  reads : (State → Callback) → Callback
  finds : String → String → (Option Receipt → Callback) → Callback
  saves : ℕ → State → List EventEnvelope → Option Receipt → (Check → Callback) → Callback

-- The transaction that a callback leaves, and the error that it returns.
unfoldable pub run : (State → State → Bool) → Callback → Transaction → Transaction × Check
run deep_equal (returns result) tx = (tx, result)
run deep_equal (reads next) tx = run deep_equal (next tx.current.state) tx
run deep_equal (finds actor_id command_id next) tx =
    run deep_equal (next (find_receipt tx actor_id command_id)) tx
run deep_equal (saves expected s events receipt next) tx =
    let after = save deep_equal tx expected s events receipt in
    run deep_equal (next after.1) after.0

-- `WithinGame`.
unfoldable pub within_game : (State → State → Bool) → Records → String → Callback → Result Records
within_game deep_equal store game_id callback = do
  r ← or_fail (lookup game_id store) not_found
  (run deep_equal callback (begin game_id r)).1
  ok (insert game_id (run deep_equal callback (begin game_id r)).0.current store)
