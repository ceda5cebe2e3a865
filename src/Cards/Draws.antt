-- ===== src/Cards/Draws.antt =====
-- Drawing cards from a deck, `takeCards` of backend/game/internal/game/rules.go.
use munchkin.Shared.{
  Bool-cases, List, String, String-Eq, [], ap, arith, count, count-append, err, inl, inr, leb,
  length, length-append, ok, ok_injective, refl, subst, suc, sym, zero, ℕ, ℕ-Eq, ℕ_discrete, ℤ-Eq,
  ◌+◌, ◌<◌, ◌>>=◌, ◌∙◌, ◌∷◌, ◌≡◌, ◌≤◌,
}
use munchkin.Shared.{illegal_command}
use munchkin.Cards.Piles.{
  Draw, RandomOutcome, put_doors, put_treasures, take_cards, take_loop, take_one,
}
use munchkin.Cards.Tops.{take_top-err, take_top-ok, taken}
use munchkin.Content.{DeckKind, DeckKind-Eq}
use munchkin.Model.{Phase-Eq, State, Status-Eq}

-- The draw pile and the discard pile of a deck.
abbrev pub draw_pile : DeckKind → State → List String
draw_pile DeckKind.door s = s.door_deck
draw_pile DeckKind.treasure s = s.treasure_deck
draw_pile (DeckKind.other _) s = []

abbrev pub discard_pile : DeckKind → State → List String
discard_pile DeckKind.door s = s.door_discard
discard_pile DeckKind.treasure s = s.treasure_discard
discard_pile (DeckKind.other _) s = []

abbrev pub available : DeckKind → State → ℕ
available deck s = length (draw_pile deck s) + length (discard_pile deck s)

-- The same state with the piles of one deck and the generator replaced.
abbrev pub with_piles : DeckKind → List String → List String → ℕ → State → State
with_piles DeckKind.door draw discard rng s = record s {
  door_deck = draw;
  door_discard = discard;
  rng_state = rng;
}
with_piles DeckKind.treasure draw discard rng s = record s {
  treasure_deck = draw;
  treasure_discard = discard;
  rng_state = rng;
}
with_piles (DeckKind.other _) draw discard rng s = s

-- The decks that exist.
abbrev pub Drawable : DeckKind → Type 0
Drawable (DeckKind.other _) = ⊥
Drawable _ = Unit

-- From `d` to `d'` n cards were drawn: the result has n more, the two piles n fewer, together they
-- hold what they held, and of the state only these piles and the generator have changed.
pub record Drawn (deck : DeckKind) (n : ℕ) (d d' : Draw) : Type 0 where
  pub drawn : length d'.result ≡ length d.result + n
  pub used : available deck d'.state + n ≡ available deck d.state
  pub kept :
      (a : String)
      → count a d'.result + count a (draw_pile deck d'.state) + count a (discard_pile deck d'.state)
        ≡ count a d.result + count a (draw_pile deck d.state) + count a (discard_pile deck d.state)
  pub frame :
      d'.state
      ≡ with_piles deck
          (draw_pile deck d'.state)
          (discard_pile deck d'.state)
          d'.state.rng_state
          d.state

take_one-Drawn :
    (deck : DeckKind) (d : Draw)
    → Drawable deck
    → 0 < available deck d.state
    → (d' : Draw) × (take_one deck d ≡ ok d') × Drawn deck 1 d d'
unfolding take_one
take_one-Drawn DeckKind.door d _ h =
    let (t, e) = take_top-ok DeckKind.door put_doors d d.state.door_deck d.state.door_discard h in
    (
      taken DeckKind.door put_doors d t,
      e,
      record {
        drawn = length-append d.result (t.card ∷ []);
        used = omega (arith, t.fewer);
        kept = λ a. omega (arith, t.kept a, count-append a d.result (t.card ∷ []));
        frame = refl;
      },
    )
take_one-Drawn DeckKind.treasure d _ h =
    let (t, e) =
      take_top-ok DeckKind.treasure put_treasures d d.state.treasure_deck d.state.treasure_discard
        h in
    (
      taken DeckKind.treasure put_treasures d t,
      e,
      record {
        drawn = length-append d.result (t.card ∷ []);
        used = omega (arith, t.fewer);
        kept = λ a. omega (arith, t.kept a, count-append a d.result (t.card ∷ []));
        frame = refl;
      },
    )
take_one-Drawn (DeckKind.other _) d u h = absurd u

with_piles-with_piles :
    (deck : DeckKind) (p q p' q' : List String) (r r' : ℕ) (s : State)
    → with_piles deck p' q' r' (with_piles deck p q r s) ≡ with_piles deck p' q' r' s
with_piles-with_piles DeckKind.door p q p' q' r r' s = refl
with_piles-with_piles DeckKind.treasure p q p' q' r r' s = refl
with_piles-with_piles (DeckKind.other _) p q p' q' r r' s = refl

-- Draws follow one another.
Drawn-trans :
    {deck : DeckKind} {m n : ℕ} {d d' d'' : Draw}
    → Drawn deck m d d'
    → Drawn deck n d' d''
    → Drawn deck (m + n) d d''
Drawn-trans {deck} {d} {d'} {d''} one two = record {
  drawn = omega (arith, one.drawn, two.drawn);
  used = omega (arith, one.used, two.used);
  kept = λ a. two.kept a ∙ one.kept a;
  frame =
      two.frame
      ∙ ap
          (with_piles deck (draw_pile deck d''.state) (discard_pile deck d''.state)
            d''.state.rng_state)
          one.frame
      ∙ with_piles-with_piles deck _ _ _ _ _ _ d.state;
}

Drawn-refl : (deck : DeckKind) (d : Draw) → Drawn deck 0 d d
Drawn-refl DeckKind.door d = record {
  drawn = omega arith;
  used = omega arith;
  kept = λ a. refl;
  frame = refl;
}
Drawn-refl DeckKind.treasure d = record {
  drawn = omega arith;
  used = omega arith;
  kept = λ a. refl;
  frame = refl;
}
Drawn-refl (DeckKind.other _) d = record {
  drawn = omega arith;
  used = omega arith;
  kept = λ a. refl;
  frame = refl;
}

take_loop-Drawn :
    (deck : DeckKind) (n : ℕ) (d : Draw)
    → Drawable deck
    → n ≤ available deck d.state
    → (d' : Draw) × (take_loop deck n d ≡ ok d') × Drawn deck n d d'
unfolding take_loop
take_loop-Drawn deck zero d u h = (d, refl, Drawn-refl deck d)
take_loop-Drawn deck (suc n) d u h =
    let (d', e, one) = take_one-Drawn deck d u (omega arith) in
    let (d'', e', more) = take_loop-Drawn deck n d' u (omega (arith, one.used)) in
    (d'', rw (e, ◌>>=◌) e', subst (λ k. Drawn deck k d d'') (omega arith) (Drawn-trans one more))

-- One of the two decks that holds enough cards, drawn and discarded together, gives the number
-- asked for.
-- Together with what is left in its two piles they are the cards that lay there, a draw pile that
-- ran out having been filled by the shuffled discards, and nothing else of the state has changed
-- but the generator.
pub take_cards-Drawn :
    (s : State) (deck : DeckKind) (n : ℕ) (outcomes : List RandomOutcome)
    → Drawable deck
    → n ≤ available deck s
    → let d : Draw = record { result = []; state = s; outcomes = outcomes } in
      (d' : Draw) × (take_cards s deck n outcomes ≡ ok d') × Drawn deck n d d'
unfolding take_cards
take_cards-Drawn s deck n outcomes u h = take_loop-Drawn deck n _ u h

take_one-err :
    (deck : DeckKind) (d : Draw)
    → Drawable deck
    → available deck d.state ≡ 0
    → take_one deck d ≡ err illegal_command
unfolding take_one
take_one-err DeckKind.door d u h = take_top-err DeckKind.door put_doors d _ _ h
take_one-err DeckKind.treasure d u h = take_top-err DeckKind.treasure put_treasures d _ _ h
take_one-err (DeckKind.other _) d u h = absurd u

take_loop-err :
    (deck : DeckKind) (n : ℕ) (d : Draw)
    → Drawable deck
    → available deck d.state < n
    → take_loop deck n d ≡ err illegal_command
unfolding take_loop
take_loop-err deck zero d u h = elim h [ ]
take_loop-err deck (suc n) d u h = elim (ℕ_discrete (available deck d.state) 0) [
  | yes e ↦ rw (take_one-err deck d u e, ◌>>=◌)
  | no ne ↦
      let (d', e, one) = take_one-Drawn deck d u (omega arith) in
      rw (e, ◌>>=◌) (take_loop-err deck n d' u (omega (arith, one.used)))
]

-- One of the two decks that holds fewer cards than asked for, drawn and discarded together, refuses
-- the draw.
pub take_cards-err :
    (s : State) (deck : DeckKind) (n : ℕ) (outcomes : List RandomOutcome)
    → Drawable deck
    → available deck s < n
    → take_cards s deck n outcomes ≡ err illegal_command
unfolding take_cards
take_cards-err s deck n outcomes u h = take_loop-err deck n _ u h

-- A draw that succeeded is one of enough cards.
pub take_cards-inv :
    (s : State) (deck : DeckKind) (n : ℕ) (out : List RandomOutcome) (d : Draw)
    → Drawable deck
    → take_cards s deck n out ≡ ok d
    → Drawn deck n (record { result = []; state = s; outcomes = out }) d
take_cards-inv s deck n out d u h = elim (Bool-cases (leb n (available deck s))) [
  | inl q ↦
      let (d', e, made) = take_cards-Drawn s deck n out u (ground arith) in
      subst (Drawn deck n (record { result = []; state = s; outcomes = out }))
        (ok_injective (sym e ∙ h)) made
  | inr q ↦ let e = take_cards-err s deck n out u (ground arith) in absurd (ground arith)
]
