-- ===== src/Store/Durability.antt =====
-- What a transaction leaves in place, backend/game/internal/repository/memory/store.go.
use munchkin.Shared.{
  Bool, Bool-cases, List, Map, Option, Result-cases, String, String-Eq, String-discrete, [], ap,
  arith, false, has_key, inl, inr, insert, lookup, lookup-insert, none, refl, some, sym, ℕ, ℕ-Eq,
  ◌++◌, ◌∙◌, ◌∷◌, ◌≡◌,
}
use munchkin.Commands.Events.{EventEnvelope}
use munchkin.Model.{State}
use munchkin.Store.{
  finds, reads, returns, saves, Callback, Receipt, Transaction, appended, check_save, file_receipt,
  find_receipt, receipt_key, run, save,
}

++-[] {ℓ} : {A : Type ℓ} (xs : List A) → xs ++ [] ≡ xs
++-[] [] = refl
++-[] (x ∷ xs) = ap (λ ys. x ∷ ys) (++-[] xs)

++-assoc {ℓ} : {A : Type ℓ} (xs ys zs : List A) → (xs ++ ys) ++ zs ≡ xs ++ (ys ++ zs)
++-assoc [] ys zs = refl
++-assoc (x ∷ xs) ys zs = ap (λ ws. x ∷ ws) (++-assoc xs ys zs)

has_key-lookup {ℓ} :
    {V : Type ℓ} (k : String) (m : Map V) (v : V) → has_key k m ≡ false → ¬ (lookup k m ≡ some v)
has_key-lookup k m v h q = ground arith

keeps_found {ℓ} :
    {V : Type ℓ} (k read : String) (v w : V) (m : Map V)
    → has_key k m ≡ false
    → lookup read m ≡ some w
    → lookup read (insert k v m) ≡ some w
keeps_found k read v w m new found = elim (String-discrete k read) [
  | yes q ↦ absurd (has_key-lookup k m w new (ap (λ x. lookup x m) q ∙ found))
  | no n ↦ lookup-insert k read v m ∙ ground arith
]

file_receipt-found :
    (receipt : Option Receipt) (tx : Transaction) (a c : String) (r : Receipt)
    → find_receipt tx a c ≡ some r
    → find_receipt (file_receipt receipt tx).0 a c ≡ some r
unfolding file_receipt find_receipt
file_receipt-found none tx a c r found = found
file_receipt-found (some new) tx a c r found =
    elim (Bool-cases (has_key (receipt_key new.actor_id new.command_id) tx.current.receipts)) [
      | inl q ↦ rw (q) found
      | inr q ↦ rw (q) (
          keeps_found (receipt_key new.actor_id new.command_id) (receipt_key a c) new r
            tx.current.receipts q found)
    ]

save-found :
    (deep_equal : State → State → Bool) (tx : Transaction) (expected : ℕ) (s : State)
    (events : List EventEnvelope) (receipt : Option Receipt) (a c : String) (r : Receipt)
    → find_receipt tx a c ≡ some r
    → find_receipt (save deep_equal tx expected s events receipt).0 a c ≡ some r
unfolding save find_receipt
save-found deep_equal tx expected s events receipt a c r found =
    elim (Result-cases (check_save deep_equal tx expected s events receipt)) [
      | inl (_, e) ↦ rw (save, e) (file_receipt-found receipt (appended tx s events) a c r found)
      | inr (_, e) ↦ rw (save, e) found
    ]

file_receipt-events :
    (receipt : Option Receipt) (tx : Transaction)
    → (file_receipt receipt tx).0.current.events ≡ tx.current.events
unfolding file_receipt
file_receipt-events none tx = refl
file_receipt-events (some new) tx =
    elim (Bool-cases (has_key (receipt_key new.actor_id new.command_id) tx.current.receipts)) [
      | inl q ↦ rw (q) refl
      | inr q ↦ rw (q) refl
    ]

save-events :
    (deep_equal : State → State → Bool) (tx : Transaction) (expected : ℕ) (s : State)
    (events : List EventEnvelope) (receipt : Option Receipt)
    → (added : List EventEnvelope) × ((save deep_equal tx expected s events
          receipt).0.current.events
        ≡ tx.current.events ++ added)
unfolding save
save-events deep_equal tx expected s events receipt =
    elim (Result-cases (check_save deep_equal tx expected s events receipt)) [
      | inl (_, e) ↦ (events, rw (save, e) (file_receipt-events receipt (appended tx s events)))
      | inr (_, e) ↦ ([], rw (save, e) (sym (++-[] tx.current.events)))
    ]

-- A receipt that a transaction finds is found in it after the callback has run, unchanged.
pub run-find_receipt :
    (deep_equal : State → State → Bool) (callback : Callback) (tx : Transaction) (a c : String)
    (r : Receipt)
    → find_receipt tx a c ≡ some r
    → find_receipt (run deep_equal callback tx).0 a c ≡ some r
unfolding run
run-find_receipt deep_equal (returns result) tx a c r found = found
run-find_receipt deep_equal (reads next) tx a c r found =
    run-find_receipt deep_equal (next tx.current.state) tx a c r found
run-find_receipt deep_equal (finds actor command next) tx a c r found =
    run-find_receipt deep_equal (next (find_receipt tx actor command)) tx a c r found
run-find_receipt deep_equal (saves expected s events receipt next) tx a c r found =
    run-find_receipt deep_equal (next (save deep_equal tx expected s events receipt).1)
      (save deep_equal tx expected s events receipt).0 a c r
      (save-found deep_equal tx expected s events receipt a c r found)

-- The history of a game is never rewritten: whatever the callback does, the events of the transaction
-- begin with those that it had.
pub run-events :
    (deep_equal : State → State → Bool) (callback : Callback) (tx : Transaction)
    → (added : List EventEnvelope) × ((run deep_equal callback tx).0.current.events
        ≡ tx.current.events ++ added)
unfolding run
run-events deep_equal (returns result) tx = ([], sym (++-[] tx.current.events))
run-events deep_equal (reads next) tx = run-events deep_equal (next tx.current.state) tx
run-events deep_equal (finds actor command next) tx =
    run-events deep_equal (next (find_receipt tx actor command)) tx
run-events deep_equal (saves expected s events receipt next) tx =
    let (first, e) = save-events deep_equal tx expected s events receipt in
    let (rest, f) =
      run-events deep_equal (next (save deep_equal tx expected s events receipt).1)
        (save deep_equal tx expected s events receipt).0 in
    (first ++ rest, f ∙ ap (λ xs. xs ++ rest) e ∙ ++-assoc tx.current.events first rest)
