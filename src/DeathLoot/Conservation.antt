-- ===== src/DeathLoot/Conservation.antt =====
-- The cards in the death-loot handler of backend/game/internal/game/engine.go.
use munchkin.Shared.{
  ℕ, ◌+◌, ◌≡◌, sym, ap, ◌∙◌, subst, String, String-Eq, Bool, true, false, List, some, Bool-cases,
  inl, inr, ok, Result-cases, arith, count, contains,
}
use munchkin.Content.{Pack}
use munchkin.Model.{State, DeathLoot, player_index}
use munchkin.Cards.{remove_string, count-remove_string}
use munchkin.Cards.Piles.{RandomOutcome}
use munchkin.Validation.Zones.Exactness.{all_cards}
use munchkin.DeathLoot.{
  LootCommand, LootAction, Seat, Acted, give_card, loot_action, loot_seat, discard_all,
  advance_loot, exhausted, finished_loot,
}
use munchkin.DeathLoot.Counts.{held, elsewhere, discarded, cards-split, pooled-eq, give_card-held}
use munchkin.DeathLoot.Discarding.{discard_all-Filed}

pub advance_loot-exhausted :
    (s : State) (l : DeathLoot) (outcomes : List RandomOutcome) (pack : Pack)
    {r : State × List RandomOutcome}
    → exhausted l ≡ true
    → advance_loot s l outcomes pack ≡ ok r
    → (t : State) × (discard_all s l.pool pack ≡ ok t)
      × (record t { death_loot = some (finished_loot l) } ≡ r.0)
unfolding advance_loot
advance_loot-exhausted s l outcomes pack {r} e h = elim (Result-cases (discard_all s l.pool pack)) [
  | inl (t, d) ↦ (t, d, ground arith)
  | inr (x, d) ↦ absurd (ground arith)
]

pub advance_loot-waits :
    (s : State) (l : DeathLoot) (outcomes : List RandomOutcome) (pack : Pack)
    {r : State × List RandomOutcome}
    → exhausted l ≡ false
    → advance_loot s l outcomes pack ≡ ok r
    → record s { death_loot = some l } ≡ r.0
unfolding advance_loot
advance_loot-waits s l outcomes pack {r} e h = ground arith

-- All cards of a state, with the pool given apart.
abbrev pub total : String → State → DeathLoot → ℕ
total a s l = elsewhere a s + (discarded a s + (count a l.pool + held a s.players))

pub advance_loot-total :
    (a : String) (s : State) (l : DeathLoot) (outcomes : List RandomOutcome) (pack : Pack)
    {r : State × List RandomOutcome}
    → advance_loot s l outcomes pack ≡ ok r
    → count a (all_cards r.0) ≡ total a s l
advance_loot-total a s l outcomes pack {r} h = elim (Bool-cases (exhausted l)) [
  | inl e ↦
      let (t, d, same) = advance_loot-exhausted s l outcomes pack {r = r} e h in
      let f = discard_all-Filed s l.pool pack {s' = t} d in
      subst (λ x. count a (all_cards x) ≡ total a s l)
        (ap {A = State} (λ x. record x { death_loot = some (finished_loot l) }) (sym f.frame)
          ∙ same)
        (omega (
          arith,
          f.kept a,
          cards-split a (record s {
            door_discard = f.doors;
            treasure_discard = f.treasures;
            death_loot = some (finished_loot l);
          }),
        ))
  | inr e ↦
      subst (λ x. count a (all_cards x) ≡ total a s l)
        (advance_loot-waits s l outcomes pack {r = r} e h)
        (omega (arith, cards-split a (record s { death_loot = some l }), pooled-eq a l))
]

pub loot_action-total :
    (a : String) (act : LootAction) (s : State) (c : LootCommand) (automatic : Bool) (seat : Seat)
    {b : Acted}
    → loot_action act s c automatic seat ≡ ok b
    → count a b.loot.pool + held a b.players ≡ count a seat.loot.pool + held a s.players
unfolding loot_action
loot_action-total a LootAction.pick s c automatic seat {b} h =
    elim (Result-cases (give_card s.players (player_index s seat.actor) c.instance_id)) [
      | inl (qs, given) ↦
          let there : contains seat.loot.pool c.instance_id ≡ true = ground arith in
          let same_pool : b.loot.pool ≡ (remove_string seat.loot.pool c.instance_id).0 =
            ground arith in
          let same_players : b.players ≡ qs = ground arith in
          rw (same_pool, same_players)
            (omega (
              arith,
              count-remove_string a c.instance_id seat.loot.pool there,
              give_card-held a s.players (player_index s seat.actor) c.instance_id {qs = qs} given,
            ))
      | inr (x, given) ↦ absurd (ground arith)
    ]
loot_action-total a LootAction.pass s c automatic seat {b} h =
    let same_pool : seat.loot.pool ≡ b.loot.pool = ground arith in
    let same_players : s.players ≡ b.players = ground arith in rw (same_pool, same_players)
loot_action-total a (LootAction.other _) s c automatic seat h = cc

pub loot_seat-loot :
    (s : State) (c : LootCommand) (automatic : Bool) {seat : Seat}
    → loot_seat s c automatic ≡ ok seat
    → s.death_loot ≡ some seat.loot
unfolding loot_seat
loot_seat-loot s c automatic {seat} h = ground arith
