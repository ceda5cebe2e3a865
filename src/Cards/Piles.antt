-- ===== src/Cards/Piles.antt =====
-- Drawing and discarding, backend/game/internal/game/rules.go. A method on `*State` returns the
-- new state; on an error the callers drop it, so an error carries none.
use munchkin.Shared.{
  ℕ, zero, suc, String, List, [], ◌∷◌, ◌++◌, ℤ, pos, Result, ok, err, ◌>>=◌, ◌>>◌, or_fail,
  fail_when, not,
}
use munchkin.Shared.{illegal_command, unknown_card, invalid_content}
use munchkin.Content.{DeckKind, Pack}
use munchkin.Model.{State, definition_for_instance}
use munchkin.Rng.{shuffle}
use munchkin.Cards.Slices.{remove_string}

-- `RandomOutcome` of event.go.
pub record RandomOutcome : Type 0 where
  pub kind : String
  pub deck : DeckKind
  pub roll : ℤ
  pub order : List String

-- What the loop of `takeCards` carries from round to round.
pub record Draw : Type 0 where
  pub result : List String
  pub state : State
  pub outcomes : List RandomOutcome

pub shuffled_outcome : DeckKind → List String → RandomOutcome
shuffled_outcome deck order = record { kind = "shuffle"; deck = deck; roll = pos 0; order = order }

-- The top card of a draw pile; an empty one is first filled by the shuffled discard pile.
-- `back` writes the two piles into the state.
unfoldable pub take_top :
    DeckKind
    → List String
    → List String
    → (List String → List String → State → State)
    → Draw
    → Result Draw
take_top deck (card ∷ rest) discard back d =
    ok (record d { result = d.result ++ card ∷ []; state = back rest discard d.state })
take_top deck [] [] back d = err illegal_command
take_top deck [] (x ∷ xs) back d =
    let (shuffled, rng) = shuffle (x ∷ xs) d.state.rng_state in
    elim shuffled [
      | [] ↦ err illegal_command
      | card ∷ rest ↦ ok (record {
        result = d.result ++ card ∷ [];
        state = back rest [] (record d.state { rng_state = rng });
        outcomes = d.outcomes ++ shuffled_outcome deck (card ∷ rest) ∷ [];
      })
    ]

abbrev pub put_doors : List String → List String → State → State
put_doors draw discard s = record s { door_deck = draw; door_discard = discard }

abbrev pub put_treasures : List String → List String → State → State
put_treasures draw discard s = record s { treasure_deck = draw; treasure_discard = discard }

-- One round of the loop.
unfoldable pub take_one : DeckKind → Draw → Result Draw
unfolding take_top shuffled_outcome
take_one DeckKind.door d = take_top DeckKind.door d.state.door_deck d.state.door_discard put_doors d
take_one DeckKind.treasure d =
    take_top DeckKind.treasure d.state.treasure_deck d.state.treasure_discard put_treasures d
take_one (DeckKind.other _) d = err invalid_content

-- The loop, with the number of cards still to draw.
unfoldable pub take_loop : DeckKind → ℕ → Draw → Result Draw
take_loop deck zero d = ok d
take_loop deck (suc n) d = do d' ← take_one deck d; take_loop deck n d'

-- `takeCards`. A negative count, at which Go's `make` panics, has no counterpart.
unfoldable pub take_cards : State → DeckKind → ℕ → List RandomOutcome → Result Draw
unfolding take_loop
take_cards s deck count_ outcomes =
    take_loop deck count_ (record { result = []; state = s; outcomes = outcomes })

unfoldable pub discard_to : DeckKind → String → State → Result State
discard_to DeckKind.door i s = ok (record s { door_discard = s.door_discard ++ i ∷ [] })
discard_to DeckKind.treasure i s = ok (record s { treasure_discard = s.treasure_discard ++ i ∷ [] })
discard_to (DeckKind.other _) i s = err invalid_content

unfoldable pub append_discard : State → String → Pack → Result State
unfolding discard_to
append_discard s instance_id pack = do
  found ← or_fail (definition_for_instance pack s instance_id) unknown_card
  discard_to found.0.deck instance_id s

unfoldable pub discard_resolving_instance : State → String → Pack → Result State
discard_resolving_instance s instance_id pack =
    let (resolving, removed) = remove_string s.turn.resolving instance_id in
    do
      fail_when (not removed) illegal_command
      append_discard (record s { turn = record s.turn { resolving = resolving } }) instance_id pack
