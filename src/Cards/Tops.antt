-- ===== src/Cards/Tops.antt =====
-- The top card of a draw pile, one round of `takeCards` of backend/game/internal/game/rules.go.
use munchkin.Shared.{
  ℕ, suc, ◌+◌, ◌<◌, ◌≡◌, refl, ap, String, String-Eq, List, [], ◌∷◌, ◌++◌, ok, err, arith, length,
  count,
}
use munchkin.Shared.{illegal_command}
use munchkin.Content.{DeckKind}
use munchkin.Model.{State}
use munchkin.Rng.{shuffle}
use munchkin.Rng.Shuffle.{shuffle-SameItems, length-shuffle}
use munchkin.Cards.Piles.{RandomOutcome, Draw, shuffled_outcome, take_top}

-- One drawn card: it and the piles that are left make up the piles that there were.
pub record Top (draw discard : List String) : Type 0 where
  pub card : String
  pub rest : List String
  pub left : List String
  pub rng : ℕ
  pub outs : List RandomOutcome
  pub kept : (a : String) → count a (card ∷ rest) + count a left ≡ count a draw + count a discard
  pub fewer : suc (length rest + length left) ≡ length draw + length discard

module _ (deck : DeckKind) (back : List String → List String → State → State) (d : Draw) where
  abbrev pub taken : {draw discard : List String} → Top draw discard → Draw
  taken t = record {
    result = d.result ++ t.card ∷ [];
    state = back t.rest t.left (record d.state { rng_state = t.rng });
    outcomes = t.outs;
  }

  pub take_top-shuffled :
      (x : String) (xs shuffled : List String)
      → (shuffle (x ∷ xs) d.state.rng_state).0 ≡ shuffled
      → (t : Top [] (x ∷ xs)) × (take_top deck [] (x ∷ xs) back d ≡ ok (taken t))
  unfolding take_top
  take_top-shuffled x xs [] e =
      absurd (omega (arith, length-shuffle (x ∷ xs) d.state.rng_state, ap length e))
  take_top-shuffled x xs (card ∷ rest) e = (
    record {
      card = card;
      rest = rest;
      left = [];
      rng = (shuffle (x ∷ xs) d.state.rng_state).1;
      outs = d.outcomes ++ shuffled_outcome deck (card ∷ rest) ∷ [];
      kept = λ a. omega (arith, ap (count a) e, shuffle-SameItems (x ∷ xs) d.state.rng_state a);
      fewer = omega (arith, ap length e, length-shuffle (x ∷ xs) d.state.rng_state);
    },
    rw (e, take_top),
  )

  pub take_top-ok :
      (draw discard : List String)
      → 0 < length draw + length discard
      → (t : Top draw discard) × (take_top deck draw discard back d ≡ ok (taken t))
  unfolding take_top
  take_top-ok (card ∷ rest) discard h = (
    record {
      card = card;
      rest = rest;
      left = discard;
      rng = d.state.rng_state;
      outs = d.outcomes;
      kept = λ a. refl;
      fewer = omega arith;
    },
    refl,
  )
  take_top-ok [] (x ∷ xs) h = take_top-shuffled x xs (shuffle (x ∷ xs) d.state.rng_state).0 refl
  take_top-ok [] [] h = absurd (omega arith)

  pub take_top-err :
      (draw discard : List String)
      → length draw + length discard ≡ 0
      → take_top deck draw discard back d ≡ err illegal_command
  unfolding take_top
  take_top-err [] [] h = refl
  take_top-err [] (x ∷ xs) h = absurd (omega arith)
  take_top-err (x ∷ xs) discard h = absurd (omega arith)
