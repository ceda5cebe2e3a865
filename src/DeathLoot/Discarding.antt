-- ===== src/DeathLoot/Discarding.antt =====
-- Discarding cards, `appendDiscard` of backend/game/internal/game/rules.go.
use munchkin.Shared.{
  ◌+◌, ◌≡◌, sym, ap, ◌∙◌, String, String-Eq, List, [], ◌∷◌, ◌++◌, ok, >>=-eq-ok, ok_injective,
  or_fail, arith, count, count-append,
}
use munchkin.Shared.{unknown_card}
use munchkin.Content.{Pack, DeckKind}
use munchkin.Model.{State, definition_for_instance}
use munchkin.Cards.Piles.{append_discard, discard_to}
use munchkin.DeathLoot.{discard_all}
use munchkin.DeathLoot.Counts.{discarded}

-- The cards that went to the discard piles, and nothing else that changed.
pub record Filed (s : State) (is : List String) (s' : State) : Type 0 where
  pub doors : List String
  pub treasures : List String
  pub kept : (a : String) → count a doors + count a treasures ≡ discarded a s + count a is
  pub frame : s' ≡ record s { door_discard = doors; treasure_discard = treasures }

discard_to-Filed :
    (s : State) (i : String) (deck : DeckKind) {s' : State}
    → discard_to deck i s ≡ ok s'
    → Filed s (i ∷ []) s'
unfolding discard_to
discard_to-Filed s i DeckKind.door h = record {
  doors = s.door_discard ++ i ∷ [];
  treasures = s.treasure_discard;
  kept = λ a. omega (arith, count-append a s.door_discard (i ∷ []));
  frame = sym (ok_injective h);
}
discard_to-Filed s i DeckKind.treasure h = record {
  doors = s.door_discard;
  treasures = s.treasure_discard ++ i ∷ [];
  kept = λ a. omega (arith, count-append a s.treasure_discard (i ∷ []));
  frame = sym (ok_injective h);
}
discard_to-Filed s i (DeckKind.other _) h = cc

Filed-trans :
    (s : State) (i : String) (is : List String) (t u : State)
    → Filed s (i ∷ []) t
    → Filed t is u
    → Filed s (i ∷ is) u
Filed-trans s i is t u f g = record {
  doors = g.doors;
  treasures = g.treasures;
  kept = λ a. omega (arith, f.kept a, g.kept a, ap (λ x. discarded a x) f.frame);
  frame =
      g.frame
      ∙ ap {A = State} (λ x. record x { door_discard = g.doors; treasure_discard = g.treasures })
          f.frame;
}

pub append_discard-Filed :
    (s : State) (i : String) (pack : Pack) {s' : State}
    → append_discard s i pack ≡ ok s'
    → Filed s (i ∷ []) s'
unfolding append_discard
append_discard-Filed s i pack h =
    let (found, _, k) =
      >>=-eq-ok (or_fail (definition_for_instance pack s i) unknown_card)
        (λ x. discard_to x.0.deck i s) h in
    discard_to-Filed s i found.0.deck k

pub discard_all-Filed :
    (s : State) (is : List String) (pack : Pack) {s' : State}
    → discard_all s is pack ≡ ok s'
    → Filed s is s'
unfolding discard_all
discard_all-Filed s [] pack h = record {
  doors = s.door_discard;
  treasures = s.treasure_discard;
  kept = λ a. omega arith;
  frame = sym (ok_injective h);
}
discard_all-Filed s (i ∷ is) pack {s'} h =
    let (t, e, k) = >>=-eq-ok (append_discard s i pack) _ h in
    let f = append_discard-Filed s i pack e in
    let g = discard_all-Filed t is pack {s' = s'} k in Filed-trans s i is t s' f g
