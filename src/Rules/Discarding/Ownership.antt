-- ===== src/Rules/Discarding/Ownership.antt =====
-- Owned cards and their removal, backend/game/internal/game/rules.go.
use munchkin.Shared.{
  Bool-cases, List, String, String-Eq, any, arith, contains, count, hit, if◌then◌else◌, inl, inr,
  ℕ-Eq, ℤ-Eq, ◌+◌, ◌≡◌,
}
use munchkin.Cards.{
  count-remove_string, remove_string, remove_string-contains, remove_string-missing,
}
use munchkin.Model.{Phase-Eq, Player, Status-Eq, all_owned_zones}
use munchkin.Rules.Discarding.{owns_instance, remove_owned_instance}

-- One zone before and after: an occurrence of the card is gone, if there was one, and of no other.
abbrev pub Removed : String → List String → List String → Type 0
Removed i before_ after_ =
    (a : String) → count a after_ + (if contains before_ i then hit a i else 0) ≡ count a before_

-- All zones of a player before and after.
abbrev pub RemovedFrom : String → Player → Player → Type 0
RemovedFrom i p q =
    Removed i p.hand q.hand
    × Removed i p.carried q.carried
    × Removed i p.equipped q.equipped
    × Removed i p.traits q.traits
    × Removed i p.attachments q.attachments
    × Removed i p.persistent_curses q.persistent_curses

remove_string-Removed : (i : String) (xs : List String) → Removed i xs (remove_string xs i).0
remove_string-Removed i xs a = elim (Bool-cases (contains xs i)) [
  | inl q ↦ rw (q) (count-remove_string a i xs q)
  | inr q ↦ rw (q, remove_string-missing xs i q) (omega arith)
]

removed-owns : (p : Player) (i : String) → (remove_owned_instance p i).1 ≡ owns_instance p i
unfolding remove_owned_instance owns_instance any all_owned_zones
removed-owns p i =
    rw
      (
        remove_string-contains p.hand i,
        remove_string-contains p.carried i,
        remove_string-contains p.equipped i,
        remove_string-contains p.traits i,
        remove_string-contains p.attachments i,
        remove_string-contains p.persistent_curses i,
      )
      (ground arith)

-- The removal of a card takes one occurrence of it out of each zone that holds one and leaves all
-- other cards in their zones, and it reports success exactly when the player owned the card.
pub remove_owned_instance-RemovedFrom :
    (p : Player) (i : String)
    → RemovedFrom i p (remove_owned_instance p i).0
      × ((remove_owned_instance p i).1 ≡ owns_instance p i)
unfolding remove_owned_instance
remove_owned_instance-RemovedFrom p i = (
  (
    remove_string-Removed i p.hand,
    remove_string-Removed i p.carried,
    remove_string-Removed i p.equipped,
    remove_string-Removed i p.traits,
    remove_string-Removed i p.attachments,
    remove_string-Removed i p.persistent_curses,
  ),
  removed-owns p i,
)
