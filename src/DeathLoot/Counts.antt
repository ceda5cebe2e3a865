-- ===== src/DeathLoot/Counts.antt =====
-- Where the cards of a state of backend/game/internal/game/model.go lie, counted.
use munchkin.Shared.{
  ℕ, zero, suc, ◌+◌, ◌≡◌, refl, subst, String, String-Eq, List, [], ◌∷◌, ◌++◌, Option, none, some,
  ok, err, ok_injective, arith, count, count-append, hit, concat, set, get_elem?,
}
use munchkin.Shared.{panic}
use munchkin.Model.{State, Player, DeathLoot, all_owned_zones}
use munchkin.Validation.Zones.{zones, player_zones, encounter_zone, loot_zone}
use munchkin.Validation.Zones.Exactness.{all_cards}
use munchkin.DeathLoot.{give_card}

count-concat-append :
    (a : String) (xs ys : List (List String))
    → count a (concat (xs ++ ys)) ≡ count a (concat xs) + count a (concat ys)
count-concat-append a [] ys = omega arith
count-concat-append a (x ∷ xs) ys = simp (count-append, count-concat-append a xs ys) (omega arith)

-- How often a card lies with the players.
abbrev pub held : String → List Player → ℕ
held a ps = count a (concat (player_zones ps))

abbrev pub pooled : String → Option DeathLoot → ℕ
pooled a l = count a (concat (loot_zone l))

-- What the handler does not touch.
abbrev pub elsewhere : String → State → ℕ
elsewhere a s =
    count a s.door_deck
    + (count a s.treasure_deck
        + (count a s.turn.resolving + count a (concat (encounter_zone s.turn.encounter))))

abbrev pub discarded : String → State → ℕ
discarded a s = count a s.door_discard + count a s.treasure_discard

pub cards-split :
    (a : String) (s : State)
    → count a (all_cards s)
      ≡ elsewhere a s + (discarded a s + (pooled a s.death_loot + held a s.players))
unfolding zones
cards-split a s = simp (count-append, count-concat-append) (omega arith)

pub pooled-eq : (a : String) (l : DeathLoot) → pooled a (some l) ≡ count a l.pool
pooled-eq a l = simp count-append (omega arith)

-- The five zones of a player besides the hand.
abbrev pub besides : String → Player → ℕ
besides a p =
    count a p.carried
    + (count a p.equipped
        + (count a p.traits + (count a p.attachments + count a p.persistent_curses)))

pub held-cons :
    (a : String) (p : Player) (ps : List Player)
    → held a (p ∷ ps) ≡ count a p.hand + besides a p + held a ps
unfolding player_zones all_owned_zones
held-cons a p ps = simp count-append (omega arith)

held-set :
    (a card : String) (ps : List Player) (i : ℕ) (p : Player)
    → get_elem? ps i ≡ some p
    → held a (set ps i (record p { hand = p.hand ++ card ∷ [] })) ≡ held a ps + hit a card
held-set a card [] i p h = cc
held-set a card (q ∷ ps) zero p h =
    let e : q ≡ p = cc in
    rw e (
      omega (
        arith,
        held-cons a p ps,
        held-cons a (record p { hand = p.hand ++ card ∷ [] }) ps,
        count-append a p.hand (card ∷ []),
      ))
held-set a card (q ∷ ps) (suc i) p h = omega (
  arith,
  held-cons a q ps,
  held-cons a q (set ps i (record p { hand = p.hand ++ card ∷ [] })),
  held-set a card ps i p h,
)

given-held :
    (a card : String) (ps : List Player) (i : ℕ) (found : Option Player) {qs : List Player}
    → get_elem? ps i ≡ found
    → elim found [
      | none ↦ err panic
      | some p ↦ ok (set ps i (record p { hand = p.hand ++ card ∷ [] }))
    ]
      ≡ ok qs
    → held a qs ≡ held a ps + hit a card
given-held a card ps i none e h = cc
given-held a card ps i (some p) e h =
    subst (λ qs. held a qs ≡ held a ps + hit a card) (ok_injective h) (held-set a card ps i p e)

-- A card that is given to a player lies with the players once more.
pub give_card-held :
    (a : String) (ps : List Player) (i : Option ℕ) (card : String) {qs : List Player}
    → give_card ps i card ≡ ok qs
    → held a qs ≡ held a ps + hit a card
unfolding give_card
give_card-held a ps none card h = cc
give_card-held a ps (some i) card {qs} h = given-held a card ps i (get_elem? ps i) {qs = qs} refl h
