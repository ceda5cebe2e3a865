-- ===== src/Rules/Discarding/Refused.antt =====
-- Discarding an item and then the cheat on it, backend/game/internal/game/rules.go.
use munchkin.Shared.{
  >>-eq-ok, >>=-eq-ok, List, String, String-Eq, String-discrete, [], ap, arith, contains, err,
  fail_when, get_elem?, get_elem?-set_self, lookup, not, ok, ok_injective, refl, some,
  some_injective, subst, sym, true, ℕ, ℕ-Eq, ℤ-Eq, ◌∙◌, ◌∷◌, ◌≡◌, ◌≢◌, ◌≤◌,
}
use munchkin.Shared.{illegal_command}
use munchkin.Cards.Piles.{append_discard}
use munchkin.Content.{Pack}
use munchkin.DeathLoot.Discarding.{append_discard-Filed}
use munchkin.Model.{Phase-Eq, Player, State, Status-Eq}
use munchkin.Rules.Character.{player_at}
use munchkin.Rules.Character.Frames.{player_at-found}
use munchkin.Rules.Discarding.{
  discard_cheats, discard_owned_all, discard_owned_instance, discard_rounds, remove_owned_instance,
}
use munchkin.Rules.Discarding.Cheated.{
  held_times, remove_owned_instance-gone, remove_owned_instance-le, remove_owned_instance-none,
}
use munchkin.Rules.Discarding.Rounds.{discard_rounds-Onward, discard_rounds-found}

discard_cheats-players :
    (pack : Pack) (s : State) (p : Player) (is : List String) {c : State × Player}
    → discard_cheats pack (s, p) is ≡ ok c
    → c.0.players ≡ s.players
unfolding discard_cheats
discard_cheats-players pack s p [] h = sym (ap (λ c. c.0.players) (ok_injective h))
discard_cheats-players pack s p (i ∷ is) h =
    let (_, k) = >>-eq-ok (fail_when (not (remove_owned_instance p i).1) illegal_command) _ h in
    let (t, e, l) = >>=-eq-ok (append_discard s i pack) _ k in
    discard_cheats-players pack t (remove_owned_instance p i).0 is l
    ∙ ap (λ u. u.players) (append_discard-Filed s i pack e).frame

discard_cheats-le :
    (pack : Pack) (k : String) (s : State) (p : Player) (is : List String) {c : State × Player}
    → discard_cheats pack (s, p) is ≡ ok c
    → held_times k c.1 ≤ held_times k p
unfolding discard_cheats
discard_cheats-le pack k s p [] h =
    subst (λ c. held_times k c.1 ≤ held_times k p) (ok_injective h) (omega arith)
discard_cheats-le pack k s p (i ∷ is) h =
    let (_, m) = >>-eq-ok (fail_when (not (remove_owned_instance p i).1) illegal_command) _ h in
    let (t, _, l) = >>=-eq-ok (append_discard s i pack) _ m in
    omega (
      arith,
      discard_cheats-le pack k t (remove_owned_instance p i).0 is l,
      remove_owned_instance-le k i p,
    )

-- A cheat that was found, and that the player has once, is gone at the end.
discard_cheats-gone :
    (pack : Pack) (k : String) (s : State) (p : Player) (is : List String) {c : State × Player}
    → held_times k p ≤ 1
    → contains is k ≡ true
    → discard_cheats pack (s, p) is ≡ ok c
    → held_times k c.1 ≡ 0
unfolding discard_cheats contains
discard_cheats-gone pack k s p [] once there h = absurd (ground arith)
discard_cheats-gone pack k s p (i ∷ is) {c} once there h =
    let (_, m) = >>-eq-ok (fail_when (not (remove_owned_instance p i).1) illegal_command) _ h in
    let (t, _, l) = >>=-eq-ok (append_discard s i pack) _ m in
    elim (String-discrete i k) [
      | yes q ↦
          let gone : held_times k (remove_owned_instance p i).0 ≡ 0 =
            subst (λ n. held_times k (remove_owned_instance p n).0 ≡ 0) (sym q)
              (remove_owned_instance-gone k p once) in
          omega (arith, discard_cheats-le pack k t (remove_owned_instance p i).0 is l, gone)
      | no n ↦
          discard_cheats-gone pack k t (remove_owned_instance p i).0 is
            (omega (arith, remove_owned_instance-le k i p, once)) (ground arith) l
    ]

-- After an item was discarded, its owner has the cheat on it no more.
discard_owned_instance-gone :
    (s : State) (i : ℕ) (item cheat : String) (pack : Pack) (p : Player) {t : State}
    → get_elem? s.players i ≡ some p
    → lookup cheat p.cheat_targets ≡ some item
    → cheat ≢ item
    → held_times cheat p ≤ 1
    → discard_owned_instance s i item pack ≡ ok t
    → (q : Player) × (get_elem? t.players i ≡ some q) × (held_times cheat q ≡ 0)
unfolding discard_owned_instance
discard_owned_instance-gone s i item cheat pack p here on apart once h =
    let (p', e0, h0) = >>=-eq-ok (player_at s i) _ h in
    let same : p' ≡ p = some_injective (sym (player_at-found s i e0) ∙ here) in
    let (_, h1) =
      >>-eq-ok (fail_when (not (remove_owned_instance p' item).1) illegal_command) _ h0 in
    let (c, e1, h2) =
      >>=-eq-ok
        (discard_rounds s pack item ((remove_owned_instance p' item).0, []) p'.cheat_targets) _
        h1 in
    let (u, e2, h3) = >>=-eq-ok (append_discard s item pack) _ h2 in
    let (last, e3, h4) = >>=-eq-ok (discard_cheats pack (u, c.0) c.1) _ h3 in
    let less =
      (discard_rounds-Onward s pack item cheat (remove_owned_instance p' item).0 [] p'.cheat_targets
        e1).0 in
    let once' : held_times cheat p' ≤ 1 = subst (λ x. held_times cheat x ≤ 1) (sym same) once in
    let players : last.0.players ≡ s.players =
      discard_cheats-players pack u c.0 c.1 e3
      ∙ ap (λ x. x.players) (append_discard-Filed s item pack e2).frame in
    let seat : get_elem? last.0.players i ≡ some p = ap (λ ps. get_elem? ps i) players ∙ here in
    (
      last.1,
      sym (ap (λ x. get_elem? x.players i) (ok_injective h4))
          ∙ get_elem?-set_self last.0.players i {p = p} {q = last.1} seat,
      discard_cheats-gone pack cheat u c.0 c.1
          (omega (arith, less, remove_owned_instance-le cheat item p', once'))
          (discard_rounds-found s pack item cheat (remove_owned_instance p' item).0 []
            p'.cheat_targets apart (ap (λ x. lookup cheat x.cheat_targets) same ∙ on) e1)
          e3,
    )

discard_owned_instance-none :
    (t : State) (i : ℕ) (cheat : String) (pack : Pack) (q : Player)
    → get_elem? t.players i ≡ some q
    → held_times cheat q ≡ 0
    → discard_owned_instance t i cheat pack ≡ err illegal_command
unfolding discard_owned_instance
discard_owned_instance-none t i cheat pack q there gone =
    rw (there, remove_owned_instance-none cheat q gone) refl

-- Where an item is discarded and then the cheat that lay on it, which its owner had once, the loop
-- fails with an illegal command at the cheat, which went with the item.
pub discard_owned_all-refused :
    (s : State) (i : ℕ) (item cheat : String) (rest : List String) (pack : Pack) (p : Player)
    (t : State)
    → get_elem? s.players i ≡ some p
    → lookup cheat p.cheat_targets ≡ some item
    → cheat ≢ item
    → held_times cheat p ≤ 1
    → discard_owned_instance s i item pack ≡ ok t
    → discard_owned_all s i (item ∷ cheat ∷ rest) pack ≡ err illegal_command
unfolding discard_owned_all
discard_owned_all-refused s i item cheat rest pack p t here on apart once h =
    let (q, there, gone) = discard_owned_instance-gone s i item cheat pack p here on apart once h in
    rw (h) (rw (discard_owned_instance-none t i cheat pack q there gone) refl)
