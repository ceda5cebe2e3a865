-- ===== src/Rules/Discarding/Rounds.antt =====
-- The loop over the cheats when a card is discarded, backend/game/internal/game/rules.go.
-- A round of the loop adds no card to the player and drops no cheat that was found.
use munchkin.Shared.{
  >>=-eq-ok, Bool-cases, List, String, String-Eq, String-discrete, [], arith, contains,
  contains-count, count-append, count-contains, delete, hit_self, if_fails, if_holds, inl, inr,
  lookup, ok, ok_injective, some, subst, true, ℕ-Eq, ℤ-Eq, ◌++◌, ◌==◌, ◌∷◌, ◌≡◌, ◌≢◌, ◌≤◌,
}
use munchkin.Content.{Pack}
use munchkin.Model.{Phase-Eq, Player, State, Status-Eq}
use munchkin.Rules.Discarding.{discard_round, discard_rounds, uncheat}
use munchkin.Rules.Discarding.Cheated.{held_times, uncheat-le}

abbrev pub Onward : String → Player × List String → Player × List String → Type 0
Onward k c c' =
    (held_times k c'.0 ≤ held_times k c.0) × (contains c.1 k ≡ true → contains c'.1 k ≡ true)

contains-append_left :
    (xs ys : List String) (k : String) → contains xs k ≡ true → contains (xs ++ ys) k ≡ true
contains-append_left xs ys k h =
    count-contains k (xs ++ ys) (omega (arith, count-append k xs ys, contains-count k xs h))

contains-append_last : (xs : List String) (k : String) → contains (xs ++ k ∷ []) k ≡ true
contains-append_last xs k =
    count-contains k (xs ++ k ∷ []) (omega (arith, count-append k xs (k ∷ []), hit_self k))

discard_round-Onward :
    (s : State) (pack : Pack) (x k : String) (p : Player) (found : List String)
    (entry : String × String) {c : Player × List String}
    → discard_round s pack x (p, found) entry ≡ ok c
    → Onward k (p, found) c
unfolding discard_round
discard_round-Onward s pack x k p found (attachment, target) {c} h =
    elim (Bool-cases (attachment == x)) [
      | inl q ↦
          let (p', e, l) =
            >>=-eq-ok
              (uncheat s pack (record p { cheat_targets = delete attachment p.cheat_targets })
                target)
              _ (if_holds _ _ q h) in
          subst (Onward k (p, found)) (ok_injective l) (
            uncheat-le k s pack (record p { cheat_targets = delete attachment p.cheat_targets })
                target e,
            λ m. m,
          )
      | inr q ↦ elim (Bool-cases (target == x)) [
        | inl r ↦
            subst (Onward k (p, found)) (ok_injective (if_holds _ _ r (if_fails _ _ q h)))
              (omega arith, contains-append_left found (attachment ∷ []) k)
        | inr r ↦
            subst (Onward k (p, found)) (ok_injective (if_fails _ _ r (if_fails _ _ q h)))
              (omega arith, λ m. m)
      ]
    ]

discard_round-found :
    (s : State) (pack : Pack) (x k : String) (p : Player) (found : List String)
    {c : Player × List String}
    → k ≢ x
    → discard_round s pack x (p, found) (k, x) ≡ ok c
    → contains c.1 k ≡ true
unfolding discard_round
discard_round-found s pack x k p found apart h =
    subst (λ c. contains c.1 k ≡ true)
      (ok_injective (if_holds (x == x) _ (ground arith) (if_fails (k == x) _ (ground arith) h)))
      (contains-append_last found k)

pub discard_rounds-Onward :
    (s : State) (pack : Pack) (x k : String) (p : Player) (found : List String)
    (entries : List (String × String)) {c : Player × List String}
    → discard_rounds s pack x (p, found) entries ≡ ok c
    → Onward k (p, found) c
unfolding discard_rounds
discard_rounds-Onward s pack x k p found [] h =
    subst (Onward k (p, found)) (ok_injective h) (omega arith, λ m. m)
discard_rounds-Onward s pack x k p found (entry ∷ entries) h =
    let (c, e, l) = >>=-eq-ok (discard_round s pack x (p, found) entry) _ h in
    let (less, kept) = discard_round-Onward s pack x k p found entry e in
    let (less', kept') = discard_rounds-Onward s pack x k c.0 c.1 entries l in
    (omega (arith, less, less'), λ m. kept' (kept m))

-- The cheat on the card is among those found.
pub discard_rounds-found :
    (s : State) (pack : Pack) (x k : String) (p : Player) (found : List String)
    (entries : List (String × String)) {c : Player × List String}
    → k ≢ x
    → lookup k entries ≡ some x
    → discard_rounds s pack x (p, found) entries ≡ ok c
    → contains c.1 k ≡ true
unfolding discard_rounds lookup
discard_rounds-found s pack x k p found [] apart there h = absurd (ground arith)
discard_rounds-found s pack x k p found ((name, value) ∷ entries) {c} apart there h =
    let (d, e, l) = >>=-eq-ok (discard_round s pack x (p, found) (name, value)) _ h in
    elim (String-discrete name k) [
      | yes q ↦
          let same : value ≡ x = ground arith in
          let entry : discard_round s pack x (p, found) (k, x) ≡ ok d =
            subst (λ v. discard_round s pack x (p, found) (k, v) ≡ ok d) same
              (subst (λ n. discard_round s pack x (p, found) (n, value) ≡ ok d) q e) in
          (discard_rounds-Onward s pack x k d.0 d.1 entries l).1
            (discard_round-found s pack x k p found apart entry)
      | no n ↦ discard_rounds-found s pack x k d.0 d.1 entries apart (ground arith) l
    ]
