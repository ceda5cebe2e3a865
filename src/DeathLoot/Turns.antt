-- ===== src/DeathLoot/Turns.antt =====
-- A turn of a seat, `handleDeathLootPriority` of backend/game/internal/game/engine.go as a whole.
use munchkin.Shared.{
  ℕ, ◌+◌, ◌≡◌, refl, sym, ap, ◌∙◌, subst, pos, ◌+ℤ◌, String, String-Eq, Bool, true, false, List, [],
  Option, some, Bool-cases, inl, inr, ok, >>=-eq-ok, >>-eq-ok, ok_injective, Result-cases, done,
  arith, count,
}
use munchkin.Content.{Pack}
use munchkin.Model.{State, DeathLoot, InteractionWindow, player_index}
use munchkin.Cards.Piles.{RandomOutcome}
use munchkin.Validation.Zones.Exactness.{all_cards}
use munchkin.Validation.Players.{validate}
use munchkin.DeathLoot.{
  LootCommand, LootAction, Seat, Acted, give_card, loot_action, loot_seat, advance_loot, next_seat,
  exhausted, finished_loot, closed_seat, handle_death_loot_priority,
}
use munchkin.DeathLoot.Conservation.{
  advance_loot-exhausted, advance_loot-waits, total, advance_loot-total, loot_action-total,
  loot_seat-loot,
}
use munchkin.DeathLoot.Counts.{cards-split, pooled-eq, pooled, held}
use munchkin.Shared.{◌⊎◌}

-- What an accepted turn of a seat does to the state.
pub record Advanced (s s' : State) (l : DeathLoot) : Type 0 where
  pub was : s.death_loot ≡ some l
  pub kept : (a : String) → count a (all_cards s') ≡ count a (all_cards s)
  pub valid : validate s' ≡ done
  pub next : DeathLoot
  pub now : s'.death_loot ≡ some next
  pub seats_kept : next.seat_order ≡ l.seat_order
  pub moved : next.seat_index ≡ l.seat_index +ℤ pos 1
  pub outcome :
      ((next.completed ≡ true) × (next.pool ≡ []))
      ⊎ ((next.completed ≡ l.completed) × (exhausted next ≡ false))

record SameSeats (l m : DeathLoot) : Type 0 where
  order : m.seat_order ≡ l.seat_order
  index : m.seat_index ≡ l.seat_index
  completed : m.completed ≡ l.completed

loot_action-SameSeats :
    (act : LootAction) (s : State) (c : LootCommand) (automatic : Bool) (seat : Seat) {b : Acted}
    → loot_action act s c automatic seat ≡ ok b
    → SameSeats seat.loot b.loot
unfolding loot_action
loot_action-SameSeats LootAction.pick s c automatic seat {b} h =
    elim (Result-cases (give_card s.players (player_index s seat.actor) c.instance_id)) [
      | inl (qs, given) ↦ record {
        order = ground arith;
        index = ground arith;
        completed = ground arith;
      }
      | inr (x, given) ↦ absurd (ground arith)
    ]
loot_action-SameSeats LootAction.pass s c automatic seat {b} h = record {
  order = ground arith;
  index = ground arith;
  completed = ground arith;
}
loot_action-SameSeats (LootAction.other _) s c automatic seat h = cc

-- The pool that the end of the handler leaves.
record Left (l m : DeathLoot) : Type 0 where
  order : m.seat_order ≡ l.seat_order
  index : m.seat_index ≡ l.seat_index
  outcome :
      ((m.completed ≡ true) × (m.pool ≡ [])) ⊎ ((m.completed ≡ l.completed) × (exhausted m ≡ false))

advance_loot-Left :
    (s : State) (l : DeathLoot) (outcomes : List RandomOutcome) (pack : Pack)
    {r : State × List RandomOutcome}
    → advance_loot s l outcomes pack ≡ ok r
    → (m : DeathLoot) × (r.0.death_loot ≡ some m) × Left l m
advance_loot-Left s l outcomes pack {r} h = elim (Bool-cases (exhausted l)) [
  | inl e ↦
      let (t, _, same) = advance_loot-exhausted s l outcomes pack {r = r} e h in
      (
        finished_loot l,
        sym (ap {A = State} (λ x. x.death_loot) same),
        record { order = refl; index = refl; outcome = inl (refl, refl) },
      )
  | inr e ↦ (
    l,
    sym (ap {A = State} (λ x. x.death_loot) (advance_loot-waits s l outcomes pack {r = r} e h)),
    record { order = refl; index = refl; outcome = inr (refl, e) },
  )
]

carried-outcome :
    (l b m : DeathLoot)
    → SameSeats l b
    → ((m.completed ≡ true) × (m.pool ≡ [])) ⊎ ((m.completed ≡ b.completed) × (exhausted m ≡ false))
    → ((m.completed ≡ true) × (m.pool ≡ [])) ⊎ ((m.completed ≡ l.completed) × (exhausted m ≡ false))
carried-outcome l b m seats (inl p) = inl p
carried-outcome l b m seats (inr (p, q)) = inr (p ∙ seats.completed, q)

turn-kept :
    (a : String) (s : State) (seat : Seat) (b : Acted) (w : Option InteractionWindow) (n : ℕ)
    → s.death_loot ≡ some seat.loot
    → n ≡ total a (record s { players = b.players; interaction_window = w }) (next_seat b.loot)
    → count a b.loot.pool + held a b.players ≡ count a seat.loot.pool + held a s.players
    → n ≡ count a (all_cards s)
turn-kept a s seat b w n was h k =
    omega (arith, cards-split a s, ap (pooled a) was, pooled-eq a seat.loot)

-- An accepted turn of a seat, a pick, a pass or an automatic pass, loses no card and invents none,
-- leaves a valid state, and moves to the next seat of the same order; then the pool is either
-- finished and empty, or a card and a seat are left.
pub handle_death_loot_priority-Advanced :
    (s : State) (c : LootCommand) (pack : Pack) (automatic : Bool) {r : State × List RandomOutcome}
    → handle_death_loot_priority s c pack automatic ≡ ok r
    → (l : DeathLoot) × Advanced s r.0 l
unfolding handle_death_loot_priority
handle_death_loot_priority-Advanced s c pack automatic {r} h =
    let (seat, e1, h1) = >>=-eq-ok (loot_seat s c automatic) _ h in
    let (b, e2, h2) = >>=-eq-ok (loot_action c.action s c automatic seat) _ h1 in
    let t : State = record s {
      players = b.players;
      interaction_window = some (closed_seat seat b c.interaction_at automatic);
    } in
    let (q, e3, h3) = >>=-eq-ok (advance_loot t (next_seat b.loot) b.outcomes pack) _ h2 in
    let (v, e4) = >>-eq-ok (validate q.0) _ h3 in
    let same : q ≡ r = ok_injective e4 in
    let was = loot_seat-loot s c automatic {seat = seat} e1 in
    let seats = loot_action-SameSeats c.action s c automatic seat {b = b} e2 in
    let (m, now, left) = advance_loot-Left t (next_seat b.loot) b.outcomes pack {r = q} e3 in
    (
      seat.loot,
      subst (λ x. Advanced s x.0 seat.loot) same
          (record {
            was = was;
            kept = λ a.
                turn-kept a s seat b t.interaction_window _ was
                  (advance_loot-total a t (next_seat b.loot) b.outcomes pack {r = q} e3)
                  (loot_action-total a c.action s c automatic seat {b = b} e2);
            valid = v;
            next = m;
            now = now;
            seats_kept = left.order ∙ seats.order;
            moved = left.index ∙ ap (λ i. i +ℤ pos 1) seats.index;
            outcome = carried-outcome seat.loot b.loot m seats left.outcome;
          }),
    )
