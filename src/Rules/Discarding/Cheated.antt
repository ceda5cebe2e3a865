-- ===== src/Rules/Discarding/Cheated.antt =====
-- A card and the cheat on it, discarded one after the other, backend/game/internal/game/rules.go.
use munchkin.Shared.{
  >>=-eq-ok, Bool, Bool-cases, List, String, String-Eq, [], arith, contains, count, count-append,
  count-missing, false, hit, hit_self, if◌then◌else◌, inl, inr, missing-count, not, ok,
  ok_injective, refl, subst, ℕ, ℕ-Eq, ℤ-Eq, ◌&&◌, ◌+◌, ◌-◌, ◌∷◌, ◌≡◌, ◌≤◌,
}
use munchkin.Cards.{
  append_unique, count-remove_string, remove_string, remove_string-contains, remove_string-missing,
}
use munchkin.Content.{Pack}
use munchkin.Model.{Phase-Eq, Player, State, Status-Eq}
use munchkin.Rules.Discarding.{equipped_item_remains_legal, remove_owned_instance, uncheat}

-- How often a player has a card, over all zones.
abbrev pub held_times : String → Player → ℕ
held_times a p =
    count a p.hand
    + count a p.carried
    + count a p.equipped
    + count a p.traits
    + count a p.attachments
    + count a p.persistent_curses

remove_string-le : (a i : String) (xs : List String) → count a (remove_string xs i).0 ≤ count a xs
remove_string-le a i xs = elim (Bool-cases (contains xs i)) [
  | inl q ↦ omega (arith, count-remove_string a i xs q)
  | inr q ↦ rw (remove_string-missing xs i q) (omega arith)
]

-- Of at most one occurrence none is left.
remove_string-gone :
    (a : String) (xs : List String) → count a (remove_string xs a).0 ≡ count a xs - 1
remove_string-gone a xs = elim (Bool-cases (contains xs a)) [
  | inl q ↦ omega (arith, count-remove_string a a xs q, hit_self a)
  | inr q ↦ rw (remove_string-missing xs a q, missing-count a xs q) (omega arith)
]

pub remove_owned_instance-le :
    (a i : String) (p : Player) → held_times a (remove_owned_instance p i).0 ≤ held_times a p
unfolding remove_owned_instance
remove_owned_instance-le a i p = omega (
  arith,
  remove_string-le a i p.hand,
  remove_string-le a i p.carried,
  remove_string-le a i p.equipped,
  remove_string-le a i p.traits,
  remove_string-le a i p.attachments,
  remove_string-le a i p.persistent_curses,
)

pub remove_owned_instance-gone :
    (a : String) (p : Player) → held_times a p ≤ 1 → held_times a (remove_owned_instance p a).0 ≡ 0
unfolding remove_owned_instance
remove_owned_instance-gone a p once = omega (
  arith,
  once,
  remove_string-gone a p.hand,
  remove_string-gone a p.carried,
  remove_string-gone a p.equipped,
  remove_string-gone a p.traits,
  remove_string-gone a p.attachments,
  remove_string-gone a p.persistent_curses,
)

pub remove_owned_instance-none :
    (a : String) (p : Player) → held_times a p ≡ 0 → (remove_owned_instance p a).1 ≡ false
unfolding remove_owned_instance
remove_owned_instance-none a p h =
    rw
      (
        remove_string-contains p.hand a,
        remove_string-contains p.carried a,
        remove_string-contains p.equipped a,
        remove_string-contains p.traits a,
        remove_string-contains p.attachments a,
        remove_string-contains p.persistent_curses a,
        count-missing a p.hand (omega (arith, h)),
        count-missing a p.carried (omega (arith, h)),
        count-missing a p.equipped (omega (arith, h)),
        count-missing a p.traits (omega (arith, h)),
        count-missing a p.attachments (omega (arith, h)),
        count-missing a p.persistent_curses (omega (arith, h)),
      )
      refl

append_unique-le :
    (a i : String) (xs : List String) → count a (append_unique xs i) ≤ count a xs + hit a i
unfolding append_unique
append_unique-le a i xs = elim (Bool-cases (contains xs i)) [
  | inl q ↦ rw (q) (omega arith)
  | inr q ↦ rw (q) (omega (arith, count-append a xs (i ∷ [])))
]

-- The item that loses its cheat moves at most from the equipped to the carried.
taken_off-le :
    (a target : String) (p : Player) (b : Bool)
    → held_times a (
        if contains p.equipped target && b
        then record p {
          equipped = (remove_string p.equipped target).0;
          carried = append_unique p.carried target;
        }
        else p)
      ≤ held_times a p
taken_off-le a target p b = elim (Bool-cases (contains p.equipped target)) [
  | inr q ↦ rw (q) (omega arith)
  | inl q ↦ elim (Bool-cases b) [
    | inr r ↦ rw (q, r) (omega arith)
    | inl r ↦
        rw (q, r)
          (omega
            (arith, count-remove_string a target p.equipped q, append_unique-le a target p.carried))
  ]
]

pub uncheat-le :
    (a : String) (s : State) (pack : Pack) (p : Player) (target : String) {q : Player}
    → uncheat s pack p target ≡ ok q
    → held_times a q ≤ held_times a p
unfolding uncheat
uncheat-le a s pack p target h =
    let (legal, _, k) = >>=-eq-ok (equipped_item_remains_legal s p pack target) _ h in
    subst (λ q. held_times a q ≤ held_times a p) (ok_injective k)
      (taken_off-le a target p (not legal))
