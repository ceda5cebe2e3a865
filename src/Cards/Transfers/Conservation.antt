-- ===== src/Cards/Transfers/Conservation.antt =====
-- The cards in `transferCarriedInstances` of backend/game/internal/game/rules.go.
use munchkin.Shared.{
  >>-eq-ok, >>=-eq-ok, Bool, List, String, String-Eq, [], ap, arith, contains, contains-count,
  count, count-append, count-contains, done, each, fail_when, false, get_elem?, get_elem?-set_other,
  hit, is_empty, negsuc, not, ok, ok_injective, or_fail, pos, refl, set, some, subst, suc, sym,
  true, zero, ℕ, ℕ-Eq, ℤ, ℤ-Eq, ◌++◌, ◌+◌, ◌==◌, ◌||◌, ◌∙◌, ◌∷◌, ◌≡◌, ◌≢◌,
}
use munchkin.Shared.{illegal_command, panic}
use munchkin.Cards.{count-remove_string, remove_string, unique_from, unique_strings}
use munchkin.Cards.Transfers.{check_transferable, move_all, move_one, transfer_carried_instances}
use munchkin.Content.{Pack}
use munchkin.DeathLoot.Counts.{besides, cards-split, held, held-cons}
use munchkin.Model.{Phase-Eq, Player, State, Status-Eq}
use munchkin.Validation.Zones.Exactness.{all_cards}

-- How often a card lies with one player.
abbrev pub owned : String → Player → ℕ
owned a p = count a p.hand + besides a p

pub held-swap :
    (a : String) (ps : List Player) (i : ℕ) (p q : Player)
    → get_elem? ps i ≡ some p
    → held a (set ps i q) + owned a p ≡ held a ps + owned a q
held-swap a [] i p q h = cc
held-swap a (x ∷ ps) zero p q h =
    let e : x ≡ p = cc in rw e (omega (arith, held-cons a p ps, held-cons a q ps))
held-swap a (x ∷ ps) (suc i) p q h =
    omega (arith, held-cons a x ps, held-cons a x (set ps i q), held-swap a ps i p q h)

pub get_elem?-set :
    (ps : List Player) (i : ℕ) (p q : Player)
    → get_elem? ps i ≡ some p
    → get_elem? (set ps i q) i ≡ some q
get_elem?-set [] i p q h = cc
get_elem?-set (x ∷ ps) zero p q h = refl
get_elem?-set (x ∷ ps) (suc i) p q h = get_elem?-set ps i p q h

-- The giver without the card.
abbrev without : Player → String → Player
without p i = record p { carried = (remove_string p.carried i).0 }

abbrev with_card : Player → String → Player
with_card p i = record p { carried = p.carried ++ i ∷ [] }

moved-held :
    (a : String) (ps : List Player) (from to : ℕ) (i : String) (p k : Player)
    → get_elem? ps from ≡ some p
    → contains p.carried i ≡ true
    → get_elem? (set ps from (without p i)) to ≡ some k
    → held a (set (set ps from (without p i)) to (with_card k i)) ≡ held a ps
moved-held a ps from to i p k giver there taker = omega (
  arith,
  held-swap a ps from p (without p i) giver,
  held-swap a (set ps from (without p i)) to k (with_card k i) taker,
  count-remove_string a i p.carried there,
  count-append a k.carried (i ∷ []),
)

-- What one round makes of the players.
move_one-takes :
    (ps : List Player) (from to : ℕ) (i : String) (p : Player) {qs : List Player}
    → get_elem? ps from ≡ some p
    → move_one ps from to i ≡ ok qs
    → (k : Player) × (get_elem? (set ps from (without p i)) to ≡ some k)
      × (set (set ps from (without p i)) to (with_card k i) ≡ qs)
unfolding move_one
move_one-takes ps from to i p {qs} giver h =
    let (g, e1, h1) = >>=-eq-ok (or_fail (get_elem? ps from) panic) _ h in
    let same : g ≡ p = ground arith in
    let (k, e2, h2) = >>=-eq-ok (or_fail (get_elem? (set ps from (without g i)) to) panic) _ h1 in
    let e3 : or_fail (get_elem? (set ps from (without p i)) to) panic ≡ ok k =
      subst (λ x. or_fail (get_elem? (set ps from (without x i)) to) panic ≡ ok k) same e2 in
    (
      k,
      ground arith,
      subst (λ x. set (set ps from (without x i)) to (with_card k i) ≡ qs) same (ok_injective h2),
    )

move_one-held :
    (a : String) (ps : List Player) (from to : ℕ) (i : String) (p : Player) {qs : List Player}
    → from ≢ to
    → get_elem? ps from ≡ some p
    → contains p.carried i ≡ true
    → move_one ps from to i ≡ ok qs
    → held a qs ≡ held a ps
move_one-held a ps from to i p {qs} apart giver there h =
    let (k, taker, new) = move_one-takes ps from to i p {qs = qs} giver h in
    subst (λ x. held a x ≡ held a ps) new (moved-held a ps from to i p k giver there taker)

move_one-giver :
    (ps : List Player) (from to : ℕ) (i : String) (p : Player) {qs : List Player}
    → from ≢ to
    → get_elem? ps from ≡ some p
    → contains p.carried i ≡ true
    → move_one ps from to i ≡ ok qs
    → get_elem? qs from ≡ some (without p i)
move_one-giver ps from to i p {qs} apart giver there h =
    let (k, taker, new) = move_one-takes ps from to i p {qs = qs} giver h in
    subst (λ x. get_elem? x from ≡ some (without p i)) new
      (get_elem?-set_other (set ps from (without p i)) to from (with_card k i) (λ e. apart (sym e))
        ∙ get_elem?-set ps from p (without p i) giver)

-- A card that stays carried when another one is given away.
contains-without :
    (xs : List String) (i j : String)
    → contains xs i ≡ true
    → contains xs j ≡ true
    → i ≢ j
    → contains (remove_string xs i).0 j ≡ true
unfolding hit
contains-without xs i j there h apart =
    count-contains j (remove_string xs i).0
      (ground (arith, count-remove_string j i xs there, contains-count j xs h))

unique_from-apart :
    (seen xs : List String) (b : String)
    → unique_from seen xs ≡ true
    → contains seen b ≡ true
    → contains xs b ≡ false
unfolding unique_from contains
unique_from-apart seen [] b h there = refl
unique_from-apart seen (x ∷ xs) b h there = ground (arith, unique_from-apart (x ∷ seen) xs b)

-- The cards left the giver, and lie with the players as often as before.
record Moved (ps qs : List Player) (from : ℕ) (p : Player) (is : List String) : Type 0 where
  kept : (a : String) → held a qs ≡ held a ps
  left : Player
  left_is : get_elem? qs from ≡ some left
  gone : (a : String) → count a left.carried + count a is ≡ count a p.carried

move_all-Moved :
    (ps : List Player) (from to : ℕ) (seen is : List String) (p : Player) {qs : List Player}
    → from ≢ to
    → get_elem? ps from ≡ some p
    → unique_from seen is ≡ true
    → ((i : String) → contains is i ≡ true → contains p.carried i ≡ true)
    → move_all ps from to is ≡ ok qs
    → Moved ps qs from p is
unfolding move_all unique_from contains
move_all-Moved ps from to seen [] p {qs} apart giver unique has h =
    let same : ps ≡ qs = ground arith in
    record {
      kept = λ a. ap (held a) (sym same);
      left = p;
      left_is = subst (λ x. get_elem? x from ≡ some p) same giver;
      gone = λ a. omega arith;
    }
move_all-Moved ps from to seen (i ∷ is) p {qs} apart giver unique has h =
    let (ps', e, k) = >>=-eq-ok (move_one ps from to i) _ h in
    let there : contains p.carried i ≡ true = has i (ground arith) in
    let giver' = move_one-giver ps from to i p {qs = ps'} apart giver there e in
    let unique' : unique_from (i ∷ seen) is ≡ true = ground arith in
    let fresh : contains is i ≡ false = unique_from-apart (i ∷ seen) is i unique' (ground arith) in
    let m =
      move_all-Moved ps' from to (i ∷ seen) is (without p i) {qs = qs} apart giver' unique'
        (λ j later.
          contains-without p.carried i j there (has j (ground arith))
            (λ same. absurd (ground arith)))
        k in
    record {
      kept = λ a. m.kept a ∙ move_one-held a ps from to i p {qs = ps'} apart giver there e;
      left = m.left;
      left_is = m.left_is;
      gone = λ a. omega (arith, m.gone a, count-remove_string a i p.carried there);
    }

each-transferable :
    (s : State) (p : Player) (pack : Pack) (is : List String) (i : String)
    → each (check_transferable s p pack) is ≡ done
    → contains is i ≡ true
    → contains p.carried i ≡ true
unfolding each check_transferable contains
each-transferable s p pack [] i h there = cc
each-transferable s p pack (x ∷ xs) i h there = ground (arith, each-transferable s p pack xs i)

-- What an accepted transfer of cards from one player does to a state.
pub record Transferred (s s' : State) (from : ℕ) (ids : List String) : Type 0 where
  pub kept : (a : String) → count a (all_cards s') ≡ count a (all_cards s)
  pub frame : s' ≡ record s { players = s'.players }
  pub giver : Player
  pub left : Player
  pub giver_is : get_elem? s.players from ≡ some giver
  pub left_is : get_elem? s'.players from ≡ some left
  pub gone : (a : String) → count a left.carried + count a ids ≡ count a giver.carried

-- A transfer that is accepted takes exactly the named cards from those that the giver carries, and
-- over all zones no card is lost or invented; only the players change.
pub transfer_carried_instances-Transferred :
    (s : State) (from : ℕ) (to : ℤ) (ids : List String) (pack : Pack) {s' : State}
    → transfer_carried_instances s (pos from) to ids pack ≡ ok s'
    → Transferred s s' from ids
unfolding transfer_carried_instances unique_strings
transfer_carried_instances-Transferred s from (negsuc n) ids pack h = cc
transfer_carried_instances-Transferred s from (pos to) ids pack {s'} h =
    let malformed : Bool = from == to || (is_empty ids || not (unique_strings ids)) in
    let (e1, h1) = >>-eq-ok (fail_when malformed illegal_command) _ h in
    let (giver, e2, h2) = >>=-eq-ok (or_fail (get_elem? s.players from) panic) _ h1 in
    let (e3, h3) = >>-eq-ok (each (check_transferable s giver pack) ids) _ h2 in
    let (qs, e4, h4) = >>=-eq-ok (move_all s.players from to ids) _ h3 in
    let apart : from ≢ to = λ same. absurd (ground arith) in
    let unique : unique_from [] ids ≡ true = ground arith in
    let giver_is : get_elem? s.players from ≡ some giver = ground arith in
    let m =
      move_all-Moved s.players from to [] ids giver {qs = qs} apart giver_is unique
        (λ i there. each-transferable s giver pack ids i e3 there) e4 in
    subst (λ x. Transferred s x from ids) (ok_injective h4)
      (record {
        kept = λ a.
            omega (arith, cards-split a s, cards-split a (record s { players = qs }), m.kept a);
        frame = refl;
        giver = giver;
        left = m.left;
        giver_is = giver_is;
        left_is = m.left_is;
        gone = m.gone;
      })
