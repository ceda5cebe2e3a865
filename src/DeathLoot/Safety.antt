-- ===== src/DeathLoot/Safety.antt =====
-- The seats of the death-loot handler of backend/game/internal/game/engine.go.
use munchkin.Shared.{
  ℕ, zero, suc, ◌≡◌, ◌≢◌, ap, ◌∙◌, subst, ℤ, pos, negsuc, String, String-Eq, Bool, true, false,
  List, [], ◌∷◌, Option, none, some, Option-cases, inl, inr, ok, err, >>=-eq-ok, >>-eq-ok, done,
  arith, get_elem?, elem_at, set, ◌++◌, contains,
}
use munchkin.Shared.{panic, illegal_command}
use munchkin.Model.{State, Player, DeathLoot, player_index, player_by_id}
use munchkin.Profile.{profile}
use munchkin.Validation.Windows.{validate_interaction_window}
use munchkin.Validation.Help.{validate_combat_help}
use munchkin.Validation.Encounters.{validate_advanced_encounter}
use munchkin.Validation.FlightWindows.{validate_target_and_run_away}
use munchkin.Validation.Trades.{validate_player_economy}
use munchkin.Validation.Loot.{
  validate_theft, validate_death_loot, check_death_loot, check_loot, check_seats, is_dead,
}
use munchkin.Validation.Players.{check_table, validate}
use munchkin.DeathLoot.{
  LootCommand, LootAction, Seat, give_card, loot_action, loot_seat, current_death_loot_actor,
}

validate-death_loot : (s : State) → validate s ≡ done → validate_death_loot s ≡ done
unfolding validate
validate-death_loot s h =
    let (_, h1) = >>-eq-ok (check_table s) _ h in
    let (_, h2) = >>-eq-ok (validate_interaction_window s) _ h1 in
    let (_, h3) = >>-eq-ok (validate_combat_help s) _ h2 in
    let (_, h4) = >>-eq-ok (validate_advanced_encounter s) _ h3 in
    let (_, h5) = >>-eq-ok (validate_target_and_run_away s) _ h4 in
    let (_, h6) = >>-eq-ok (validate_player_economy s) _ h5 in
    let (_, h7) = >>-eq-ok (validate_theft s) _ h6 in (>>-eq-ok (validate_death_loot s) _ h7).0

get_elem?-contains :
    (xs : List String) (i : ℕ) {a : String} → get_elem? xs i ≡ some a → contains xs a ≡ true
unfolding contains
get_elem?-contains [] i h = cc
get_elem?-contains (x ∷ xs) zero h = ground arith
get_elem?-contains (x ∷ xs) (suc i) {a} h = ground (arith, get_elem?-contains xs i {a = a} h)

elem_at-contains :
    (xs : List String) (i : ℤ) {a : String} → elem_at xs i ≡ some a → contains xs a ≡ true
elem_at-contains xs (pos i) {a} h = get_elem?-contains xs i {a = a} h
elem_at-contains xs (negsuc i) h = cc

actor-contains :
    (l : DeathLoot) {a : String}
    → current_death_loot_actor (some l) ≡ some a
    → contains l.seat_order a ≡ true
unfolding current_death_loot_actor
actor-contains l {a} h = elim (Option-cases (elem_at l.seat_order l.seat_index)) [
  | inl e ↦ absurd (ground arith)
  | inr (x, e) ↦
      let same : x ≡ a = ground arith in
      elem_at-contains l.seat_order l.seat_index {a = a} (e ∙ ap some same)
]

check_seats-lives :
    (s : State) (l : DeathLoot) (n : ℕ) (ps : List String) (a : String)
    → check_seats s l n ps ≡ done
    → contains ps a ≡ true
    → is_dead (player_by_id s a) ≡ false
unfolding check_seats contains
check_seats-lives s l n [] a h k = cc
check_seats-lives s l zero (p ∷ ps) a h k = ground (arith, check_seats-lives s l zero ps a)
check_seats-lives s l (suc n) (p ∷ ps) a h k = ground (arith, check_seats-lives s l n ps a)

found-seats :
    (s : State) (l : DeathLoot) (found : Option Player) (i : ℤ)
    → elim found [
      | none ↦ err illegal_command
      | some p ↦ elim i [ pos n ↦ check_loot s n l p | negsuc _ ↦ err illegal_command ]
    ]
      ≡ done
    → (n : ℕ) × (check_seats s l n l.seat_order ≡ done)
unfolding check_loot
found-seats s l none i h = cc
found-seats s l (some p) (negsuc i) h = cc
found-seats s l (some p) (pos i) h = (i, (ground arith))

check_death_loot-seats :
    (s : State) (l : DeathLoot)
    → check_death_loot s (some l) ≡ done
    → (n : ℕ) × (check_seats s l n l.seat_order ≡ done)
unfolding check_death_loot
check_death_loot-seats s l h = found-seats s l (player_by_id s l.dead_player_id) l.seat_index h

given :
    (ps : List Player) (i : Option ℕ) (card : String)
    → is_dead (elim i [ none ↦ none | some n ↦ get_elem? ps n ]) ≡ false
    → (qs : List Player) × (give_card ps i card ≡ ok qs)
unfolding give_card
given ps none card h = cc
given ps (some i) card h = elim (Option-cases (get_elem? ps i)) [
  | inl e ↦ absurd (ground arith)
  | inr (p, e) ↦ (set ps i (record p { hand = p.hand ++ card ∷ [] }), rw (e, give_card))
]

player_by_id-give :
    (s : State) (a card : String)
    → is_dead (player_by_id s a) ≡ false
    → (qs : List Player) × (give_card s.players (player_index s a) card ≡ ok qs)
unfolding player_by_id give_card
player_by_id-give s a card h = given s.players (player_index s a) card h

-- The player who may answer is in the game.
seat-give :
    (s : State) (c : LootCommand) (automatic : Bool) (card : String) {seat : Seat}
    → validate s ≡ done
    → loot_seat s c automatic ≡ ok seat
    → (qs : List Player) × (give_card s.players (player_index s seat.actor) card ≡ ok qs)
unfolding loot_seat validate_death_loot
seat-give s c automatic card {seat} v h =
    let was : s.death_loot ≡ some seat.loot = ground arith in
    let acts : current_death_loot_actor s.death_loot ≡ some seat.actor = ground arith in
    let (p, e, k) = >>=-eq-ok (profile s) _ (validate-death_loot s v) in
    let on : p.death_loot ≡ true = ground arith in
    let checked : check_death_loot s s.death_loot ≡ done = ground arith in
    let (n, seats) =
      check_death_loot-seats s seat.loot (subst (λ x. check_death_loot s x ≡ done) was checked) in
    let there =
      actor-contains seat.loot {a = seat.actor}
        (subst (λ x. current_death_loot_actor x ≡ some seat.actor) was acts) in
    player_by_id-give s seat.actor card
      (check_seats-lives s seat.loot n seat.loot.seat_order seat.actor seats there)

acts-ne-panic :
    (act : LootAction) (s : State) (c : LootCommand) (automatic : Bool) (seat : Seat)
    (qs : List Player)
    → give_card s.players (player_index s seat.actor) c.instance_id ≡ ok qs
    → loot_action act s c automatic seat ≢ err panic
unfolding loot_action
acts-ne-panic LootAction.pick s c automatic seat qs e = λ n. ground arith
acts-ne-panic LootAction.pass s c automatic seat qs e = λ n. cc
acts-ne-panic (LootAction.other _) s c automatic seat qs e = λ n. cc

-- In a valid state, a turn that passes the guards of the handler never panics: the seat whose turn
-- it is belongs to a player of the game, whose hand can take the card.
pub loot_action-ne-panic :
    (s : State) (c : LootCommand) (automatic : Bool) (seat : Seat)
    → validate s ≡ done
    → loot_seat s c automatic ≡ ok seat
    → loot_action c.action s c automatic seat ≢ err panic
loot_action-ne-panic s c automatic seat v h =
    let (qs, e) = seat-give s c automatic c.instance_id {seat = seat} v h in
    acts-ne-panic c.action s c automatic seat qs e
