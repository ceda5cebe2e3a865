-- ===== src/Store/Soundness.antt =====
-- What the store keeps, backend/game/internal/repository/memory/store.go.
use munchkin.Shared.{
  >>-eq-ok, >>=-eq-ok, Bool, Bool-cases, List, Map, Option, Result-cases, String, String-Eq, [], ap,
  arith, done, fail_when, fail_when-eq-ok, has_key, if_fails, if_holds, inl, inr, insert, leb,
  lookup, lookup-insert, none, not, not-false, ok, ok_injective, or_fail, or_fail-eq-ok, some,
  some_injective, subst, sym, true, ℕ, ℕ-Eq, ℤ-Eq, ◌!=◌, ◌==◌, ◌>>=◌, ◌||◌, ◌∙◌, ◌≡◌,
}
use munchkin.Shared.{already_exists, not_found, unnamed, version_conflict}
use munchkin.Commands.Events.{EventEnvelope, empty_state, replay, replay_from}
use munchkin.Commands.Events.Replaying.{replay_from-append}
use munchkin.Model.{Phase-Eq, State, Status-Eq}
use munchkin.Store.{
  finds, reads, returns, saves, Callback, GameRecord, Receipt, Records, Transaction, appended,
  begin, check_save, create, deadline_from_state, file_receipt, find_receipt, receipt_key, run,
  save, validate_receipt, within_game,
}

-- The state of a record is the one that its events give when they are replayed from nothing.
abbrev pub Sound : GameRecord → Type 0
Sound r = replay r.events ≡ ok r.state

-- All records are sound.
abbrev pub AllSound : Records → Type 0
AllSound store = (id : String) (r : GameRecord) → lookup id store ≡ some r → Sound r

insert-AllSound :
    (store : Records) (id : String) (r : GameRecord)
    → AllSound store
    → Sound r
    → AllSound (insert id r store)
insert-AllSound store id r all_ good read found h = elim (Bool-cases (id == read)) [
  | inl q ↦
      subst Sound
        (some_injective (if_holds (id == read) _ q (sym (lookup-insert id read r store) ∙ h))) good
  | inr q ↦ all_ read found (if_fails (id == read) _ q (sym (lookup-insert id read r store) ∙ h))
]

appended-Sound :
    (tx : Transaction) (s : State) (events : List EventEnvelope)
    → Sound tx.current
    → replay_from tx.current.state events ≡ ok s
    → Sound (appended tx s events).current
unfolding replay
appended-Sound tx s events sound h =
    replay_from-append empty_state tx.current.events events (omega arith)
    ∙ ap (λ r. r >>= λ m. replay_from m events) sound
    ∙ h

file_receipt-Sound :
    (receipt : Option Receipt) (tx : Transaction)
    → Sound tx.current
    → Sound (file_receipt receipt tx).0.current
unfolding file_receipt
file_receipt-Sound none tx sound = sound
file_receipt-Sound (some r) tx sound =
    elim (Bool-cases (has_key (receipt_key r.actor_id r.command_id) tx.current.receipts)) [
      | inl q ↦ rw (q) sound
      | inr q ↦ rw (q) sound
    ]

-- `deep_equal` is `reflect.DeepEqual`: it tells no two different states the same.
module _ (deep_equal : State → State → Bool)
    (deep_equal-sound : (s t : State) → deep_equal s t ≡ true → s ≡ t) where
  check_save-replay :
      (tx : Transaction) (expected : ℕ) (s : State) (events : List EventEnvelope)
      (receipt : Option Receipt)
      → check_save deep_equal tx expected s events receipt ≡ done
      → (replay_from tx.current.state events ≡ ok s) × (validate_receipt receipt s ≡ done)
  unfolding check_save
  check_save-replay tx expected s events receipt h =
      let (_, h1) = >>-eq-ok (fail_when tx.saved unnamed) _ h in
      let (_, h2) =
        >>-eq-ok
          (fail_when (tx.original_version != expected || tx.current.state.version != expected)
            version_conflict)
          _ h1 in
      let (_, h3) =
        >>-eq-ok (fail_when (s.game_id != tx.game_id || leb s.version expected) unnamed) _ h2 in
      let (replayed, e, h4) = >>=-eq-ok (replay_from tx.current.state events) _ h3 in
      let (same, h5) = >>-eq-ok (fail_when (not (deep_equal replayed s)) unnamed) _ h4 in
      let equal : deep_equal replayed s ≡ true =
        not-false (deep_equal replayed s)
          (fail_when-eq-ok (not (deep_equal replayed s)) unnamed same) in
      (e ∙ ap ok (deep_equal-sound replayed s equal), h5)

  -- Whatever `save` is called with, and whether or not it reports an error, a transaction whose state
  -- is the replay of its events is one afterwards.
  save-Sound :
      (tx : Transaction) (expected : ℕ) (s : State) (events : List EventEnvelope)
      (receipt : Option Receipt)
      → Sound tx.current
      → Sound (save deep_equal tx expected s events receipt).0.current
  unfolding save
  save-Sound tx expected s events receipt sound =
      elim (Result-cases (check_save deep_equal tx expected s events receipt)) [
        | inl (x, e) ↦
            rw (save, e)
              (file_receipt-Sound receipt (appended tx s events) (
                appended-Sound tx s events sound
                  (check_save-replay tx expected s events receipt e).0))
        | inr (x, e) ↦ rw (save, e) sound
      ]

  -- A store in which every state is the replay of its events is one after a game was created.
  pub create-AllSound :
      (store : Records) (s : State) (events : List EventEnvelope) (store' : Records)
      → AllSound store
      → create deep_equal store s events ≡ ok store'
      → AllSound store'
  unfolding create
  create-AllSound store s events store' all_ h =
      let (replayed, e, h1) = >>=-eq-ok (replay events) _ h in
      let (same, h2) = >>-eq-ok (fail_when (not (deep_equal replayed s)) unnamed) _ h1 in
      let (_, h3) = >>-eq-ok (fail_when (has_key s.game_id store) already_exists) _ h2 in
      let equal : deep_equal replayed s ≡ true =
        not-false (deep_equal replayed s)
          (fail_when-eq-ok (not (deep_equal replayed s)) unnamed same) in
      subst AllSound (ok_injective h3) (
        insert-AllSound store s.game_id
          (record { state = s; events = events; receipts = []; deadline = deadline_from_state s })
          all_ (e ∙ ap ok (deep_equal-sound replayed s equal)))

  run-Sound :
      (callback : Callback) (tx : Transaction)
      → Sound tx.current
      → Sound (run deep_equal callback tx).0.current
  unfolding run
  run-Sound (returns result) tx sound = sound
  run-Sound (reads next) tx sound = run-Sound (next tx.current.state) tx sound
  run-Sound (finds actor_id command_id next) tx sound =
      run-Sound (next (find_receipt tx actor_id command_id)) tx sound
  run-Sound (saves expected s events receipt next) tx sound =
      run-Sound (next (save deep_equal tx expected s events receipt).1)
        (save deep_equal tx expected s events receipt).0
        (save-Sound tx expected s events receipt sound)

  -- A store in which every state is the replay of its events is one after a transaction, whatever the
  -- callback reads and saves in it.
  pub within_game-AllSound :
      (store : Records) (id : String) (callback : Callback) (store' : Records)
      → AllSound store
      → within_game deep_equal store id callback ≡ ok store'
      → AllSound store'
  unfolding within_game
  within_game-AllSound store id callback store' all_ h =
      let (r, e, h1) = >>=-eq-ok (or_fail (lookup id store) not_found) _ h in
      let (_, h2) = >>-eq-ok ((run deep_equal callback (begin id r)).1) _ h1 in
      subst AllSound (ok_injective h2) (
        insert-AllSound store id (run deep_equal callback (begin id r)).0.current all_ (
          run-Sound callback (begin id r)
            (all_ id r (or_fail-eq-ok (lookup id store) not_found e))))

lookup-insert_self {ℓ} :
    {V : Type ℓ} (k : String) (v : V) (m : Map V) → lookup k (insert k v m) ≡ some v
lookup-insert_self k v m = lookup-insert k k v m ∙ ground arith

file_receipt-find_receipt :
    (r : Receipt) (tx : Transaction)
    → (file_receipt (some r) tx).1 ≡ done
    → find_receipt (file_receipt (some r) tx).0 r.actor_id r.command_id ≡ some r
unfolding file_receipt find_receipt
file_receipt-find_receipt r tx =
    elim (Bool-cases (has_key (receipt_key r.actor_id r.command_id) tx.current.receipts)) [
      | inl q ↦ rw (q) (λ h. absurd (ground arith))
      | inr q ↦
          rw (q)
            (λ h. lookup-insert_self (receipt_key r.actor_id r.command_id) r tx.current.receipts)
    ]

-- A receipt that was saved is found under the names of its actor and its command.
pub save-find_receipt :
    (deep_equal : State → State → Bool) (tx : Transaction) (expected : ℕ) (s : State)
    (events : List EventEnvelope) (r : Receipt)
    → (save deep_equal tx expected s events (some r)).1 ≡ done
    → find_receipt (save deep_equal tx expected s events (some r)).0 r.actor_id r.command_id
      ≡ some r
unfolding save file_receipt find_receipt
save-find_receipt deep_equal tx expected s events r =
    elim (Result-cases (check_save deep_equal tx expected s events (some r))) [
      | inl (x, e) ↦ rw (save, e) (file_receipt-find_receipt r (appended tx s events))
      | inr (x, e) ↦ rw (save, e) (λ h. absurd (ground arith))
    ]
