-- ===== src/Commands/Preparing/Order.antt =====
-- Who sets up next, backend/game/internal/game/engine.go.
use munchkin.Shared.{
  >>=-eq-ok, Bool-cases, List, Option, Option-cases, String, String-Eq, [], ap, arith, false,
  get_elem?, get_elem?-set_other, get_elem?-set_self, if◌then◌else◌, inl, inr, length, length-set,
  ltb, none, ok, refl, set, some, subst, suc, sym, true, zero, ℕ, ℕ-Eq, ◌%◌, ◌+◌, ◌-◌, ◌<◌, ◌∙◌,
  ◌∷◌, ◌≡◌, ◌≢◌, ◌≤◌, ◌⊎◌,
}
use munchkin.Commands.Guards.{new_turn}
use munchkin.Commands.Guards.Transitions.{transition-state}
use munchkin.Commands.Kinds.{Command, EventType, StateChanged}
use munchkin.Commands.Preparing.{finish_setup_for_player, next_to_set_up, pass_setup, ready}
use munchkin.Effects.Queue.{set_turn_phase}
use munchkin.Model.{Phase, Phase-Eq, Player, State}
use munchkin.Rules.Character.{player_at}
use munchkin.Rules.Character.Frames.{player_at-found}
use munchkin.Rules.Loadout.{set_player}
use native.Mathlib.Nat.{mod-eq_of_lt, add-mod_left}

get_elem?-small : (ps : List Player) (j : ℕ) {p : Player} → get_elem? ps j ≡ some p → j < length ps
get_elem?-small [] j h = cc
get_elem?-small (x ∷ ps) zero h = omega arith
get_elem?-small (x ∷ ps) (suc j) {p} h = omega (arith, get_elem?-small ps j {p = p} h)

-- Every seat is met by one of the offsets.
seat_met : (i j n : ℕ) → i < n → j < n → (k : ℕ) × (1 ≤ k) × (k < 1 + n) × ((i + k) % n ≡ j)
seat_met i j n p q = elim (Bool-cases (ltb i j)) [
  | inl b ↦
      let same : i + (j - i) ≡ j = ground arith in
      (j - i, (ground arith), (ground arith), ap (λ x. x % n) same ∙ mod-eq_of_lt q)
  | inr b ↦
      let same : i + (n + j - i) ≡ n + j = ground arith in
      (
        n + j - i,
        (ground arith),
        (ground arith),
        ap (λ x. x % n) same ∙ add-mod_left n j ∙ mod-eq_of_lt q,
      )
]

-- One round of the search.
round-done :
    (found : Option Player) (later : Option String)
    → elim found [ none ↦ later | some q ↦ if q.setup_done then later else some q.id ] ≡ none
    → (later ≡ none) × ((q : Player) → found ≡ some q → q.setup_done ≡ true)
round-done none later h = (h, λ q e. absurd (ground arith))
round-done (some x) later h = ((ground arith), λ q e. ground arith)

next_to_set_up-done :
    (players : List Player) (i left offset k : ℕ) (p : Player)
    → next_to_set_up players i offset left ≡ none
    → offset ≤ k
    → k < offset + left
    → get_elem? players ((i + k) % length players) ≡ some p
    → p.setup_done ≡ true
unfolding next_to_set_up
next_to_set_up-done players i zero offset k p h a b there = absurd (omega (arith, a, b))
next_to_set_up-done players i (suc left) offset k p h a b there =
    let (rest, now) =
      round-done (get_elem? players ((i + offset) % length players))
        (next_to_set_up players i (suc offset) left) h in
    elim (Bool-cases (ltb offset k)) [
      | inl q ↦
          next_to_set_up-done players i left (suc offset) k p rest (ground arith) (ground arith)
            there
      | inr q ↦
          let same : k ≡ offset = ground arith in
          now p (subst (λ x. get_elem? players ((i + x) % length players) ≡ some p) same there)
    ]

-- Somebody in the list has not set up and bears that name.
abbrev pub Unready : List Player → String → Type 0
Unready players id =
    (j : ℕ) × (p : Player) × (get_elem? players j ≡ some p) × (p.id ≡ id) × (p.setup_done ≡ false)

next_to_set_up-Unready :
    (players : List Player) (i left offset : ℕ) (id : String)
    → next_to_set_up players i offset left ≡ some id
    → Unready players id
unfolding next_to_set_up
next_to_set_up-Unready players i zero offset id h = absurd (ground arith)
next_to_set_up-Unready players i (suc left) offset id h =
    let j = (i + offset) % length players in
    elim (Option-cases (get_elem? players j)) [
      | inl e ↦ next_to_set_up-Unready players i left (suc offset) id (ground arith)
      | inr (p, e) ↦ elim (Bool-cases p.setup_done) [
        | inl d ↦ next_to_set_up-Unready players i left (suc offset) id (ground arith)
        | inr d ↦ (j, p, e, (ground arith), d)
      ]
    ]

next_to_set_up-all :
    (players : List Player) (i : ℕ)
    → i < length players
    → next_to_set_up players i 1 (length players) ≡ none
    → (j : ℕ) (p : Player) → get_elem? players j ≡ some p
    → p.setup_done ≡ true
next_to_set_up-all players i small h j p there =
    let (k, a, b, e) = seat_met i j (length players) small (get_elem?-small players j there) in
    next_to_set_up-done players i (length players) 1 k p h a b
      (subst (λ x. get_elem? players x ≡ some p) (sym e) there)

-- The turn goes to somebody who has not set up, or all have and the first turn begins.
abbrev pub SetupGoesOn : State → Type 0
SetupGoesOn s =
    ((s.turn.phase ≡ Phase.setup) × Unready s.players s.turn.player_id)
    ⊎ ((s.turn.phase ≡ Phase.preparation)
        × (s.turn.number ≡ 1)
        × ((j : ℕ) (p : Player) → get_elem? s.players j ≡ some p → p.setup_done ≡ true))

-- How many players have not set up.
abbrev pub unready : Player → ℕ
unready p = if p.setup_done then 0 else 1

abbrev pub waiting : List Player → ℕ
waiting [] = 0
waiting (p ∷ ps) = unready p + waiting ps

-- What holds after the player in a seat has finished the setup: there is one such player less, if he
-- had not finished before, he has finished, all others are as they were, and the setup goes on.
abbrev pub Finished : State → ℕ → State → Type 0
Finished s i t =
    (p q : Player) × (get_elem? s.players i ≡ some p)
    × (get_elem? t.players i ≡ some q)
    × (q.setup_done ≡ true)
    × (waiting t.players + unready p ≡ waiting s.players)
    × ((j : ℕ) → i ≢ j → get_elem? t.players j ≡ get_elem? s.players j)
    × SetupGoesOn t

waiting-set :
    (ps : List Player) (i : ℕ) (p q : Player)
    → get_elem? ps i ≡ some p
    → waiting (set ps i q) + unready p ≡ waiting ps + unready q
waiting-set [] i p q h = cc
waiting-set (x ∷ ps) zero p q h = ground arith
waiting-set (x ∷ ps) (suc i) p q h = omega (arith, waiting-set ps i p q h)

-- Passing the setup on changes the turn alone.
passed :
    (s : State) (i : ℕ) (first : String) (found : Option String)
    → i < length s.players
    → next_to_set_up s.players i 1 (length s.players) ≡ found
    → let t : State = elim found [
      | some id ↦ set_turn_phase (record s { turn = new_turn id 0 }) Phase.setup
      | none ↦ set_turn_phase (record s { turn = new_turn first 1 }) Phase.preparation
    ] in
      (t.players ≡ s.players) × SetupGoesOn t
unfolding set_turn_phase
passed s i first (some id) small h =
    (refl, inl (refl, next_to_set_up-Unready s.players i (length s.players) 1 id h))
passed s i first none small h = (refl, inr (refl, refl, next_to_set_up-all s.players i small h))

pass_setup-SetupGoesOn :
    (s : State) (i : ℕ) (first : String)
    → i < length s.players
    → ((pass_setup s i first).players ≡ s.players) × SetupGoesOn (pass_setup s i first)
unfolding pass_setup
pass_setup-SetupGoesOn s i first small =
    passed s i first (next_to_set_up s.players i 1 (length s.players)) small refl

-- The player who is ready sits where he sat.
still_seated :
    (s : State) (i : ℕ) (p q : Player)
    → get_elem? s.players i ≡ some p
    → i < length (set_player s i q).players
still_seated s i p q there =
    subst (λ n. i < n) (sym (length-set s.players i q)) (get_elem?-small s.players i there)

pass_setup-Finished :
    (s : State) (i : ℕ) (p : Player) (first : String)
    → get_elem? s.players i ≡ some p
    → Finished s i (pass_setup (set_player s i (ready p)) i first)
pass_setup-Finished s i p first there =
    let small = still_seated s i p (ready p) there in
    let (same, on) = pass_setup-SetupGoesOn (set_player s i (ready p)) i first small in
    (
      p,
      ready p,
      there,
      ap (λ ps. get_elem? ps i) same ∙ get_elem?-set_self s.players i {p = p} {q = ready p} there,
      refl,
      omega (arith, ap waiting same, waiting-set s.players i p (ready p) there),
      λ j other. ap (λ ps. get_elem? ps j) same ∙ get_elem?-set_other s.players i j (ready p) other,
      on,
    )

-- When the player in a seat finishes the setup, there is one player less who has not, if he had not
-- before, the others are as they were, and either the turn passes, still in the setup, to somebody at
-- the table who has not finished it, or everybody has and the first turn begins with its preparation.
pub finish_setup_for_player-Finished :
    (s : State) (c : Command) (i : ℕ) (ev : StateChanged)
    → finish_setup_for_player s c i ≡ ok ev
    → Finished s i ev.state
unfolding finish_setup_for_player
finish_setup_for_player-Finished s c i ev h =
    let (p, e, k) = >>=-eq-ok (player_at s i) _ h in
    let (first, _, l) = >>=-eq-ok (player_at (set_player s i (ready p)) 0) _ k in
    subst (Finished s i)
      (sym
        (transition-state EventType.setup_finished c
          (pass_setup (set_player s i (ready p)) i first.id) [] {ev = ev} l).0)
      (pass_setup-Finished s i p first.id (player_at-found s i e))
