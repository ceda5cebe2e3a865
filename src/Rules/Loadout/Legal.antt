-- ===== src/Rules/Loadout/Legal.antt =====
-- What the repair of the equipment guarantees, backend/game/internal/game/rules.go.
use munchkin.Shared.{
  ℕ, ◌≡◌, refl, ap, ◌∙◌, sym, arith, ℤ, pos, ◌≤ℤ◌, String, String-Eq, true, false, not, ◌&&◌,
  Bool-cases, List, [], ◌∷◌, ◌++◌, Option, none, some, Option-cases, ok, ok_injective, >>=-eq-ok,
  >>-eq-ok, fail_when, fail_when-eq-ok, Error, ◌⊎◌, subst, done, inl, inr, contains, distinct_from,
  if◌then◌else◌,
}
use munchkin.Shared.{illegal_command, invalid_content, unknown_card}
use munchkin.Content.{ItemSpec, ItemSlot, ItemSlot-Eq, ItemSize-Eq, Pack, TraitGroup, TraitGroup-Eq}
use munchkin.Model.{State, Player}
use munchkin.Cards.Transfers.{is_cheated}
use munchkin.Rules.Character.{
  allowance_of, character_tags, item_restrictions_satisfied, trait_capacity, trait_count,
}
use munchkin.Rules.Loadout.{
  Resolution, Reconciled, settled, conflict, item_of, split_equipped, takes_slot, hands_used,
  check_slots, big_items, big_conflict, owned_big_items, worn, reconcile_equipment,
  reconcile_player, trait_conflict, trait_conflicts, keep_attachments,
}

-- The hands and the slots that the repair checks are the ones that `can_equip` collects.
pub hands_used-worn :
    (s : State) (p : Player) (pack : Pack) (is : List String) (used : List ItemSlot) {h : ℤ}
    → hands_used s p pack used is ≡ ok h
    → (slots : List ItemSlot) × (worn s p pack is ≡ ok (h, slots))
      × (distinct_from used slots ≡ true)
unfolding hands_used worn distinct_from
hands_used-worn s p pack [] used e = ([], ground arith, refl)
hands_used-worn s p pack (i ∷ is) used {h} e =
    let (item, e1, e2) = >>=-eq-ok (item_of pack s i invalid_content) _ e in
    let (e3, e4) =
      >>-eq-ok
        (fail_when (not (is_cheated p i) && (takes_slot item.slot && contains used item.slot))
          illegal_command)
        _ e2 in
    let fresh =
      fail_when-eq-ok (not (is_cheated p i) && (takes_slot item.slot && contains used item.slot))
        illegal_command e3 in
    let (rest, e5, e6) =
      >>=-eq-ok
        (hands_used s p pack
          (if not (is_cheated p i) && takes_slot item.slot then item.slot ∷ used else used) is)
        _ e4 in
    let (slots, k, d) = hands_used-worn s p pack is _ {h = rest} e5 in
    elim (Bool-cases (is_cheated p i)) [
      | inl c ↦ (slots, (ground arith), (ground arith))
      | inr c ↦ elim (Bool-cases (takes_slot item.slot)) [
        | inl t ↦ (item.slot ∷ slots, (ground arith), (ground arith))
        | inr t ↦ (slots, (ground arith), (ground arith))
      ]
    ]

item_of-same :
    (pack : Pack) (s : State) (i : String) (d e : Error) {item : ItemSpec}
    → item_of pack s i d ≡ ok item
    → item_of pack s i e ≡ ok item
item_of-same pack s i d e h = ground arith

contains-cons :
    (x : String) (xs : List String) (i : String)
    → contains (x ∷ xs) i ≡ true
    → (x ≡ i) ⊎ (contains xs i ≡ true)
unfolding contains
contains-cons x xs i h = ground arith

-- What the repair counts as big items is what `can_carry_item` and `can_equip` count.
pub big_items-owned :
    (s : State) (p : Player) (pack : Pack) (is : List String) {n : ℕ}
    → big_items s p pack is ≡ ok n
    → owned_big_items s p pack is ≡ n
unfolding big_items owned_big_items
big_items-owned s p pack [] h = ground arith
big_items-owned s p pack (i ∷ is) {n} h =
    let (item, e1, e2) = >>=-eq-ok (item_of pack s i invalid_content) _ h in
    let (rest, e3, e4) = >>=-eq-ok (big_items s p pack is) _ e2 in
    let same = item_of-same pack s i invalid_content unknown_card e1 in
    let owned = big_items-owned s p pack is {n = rest} e3 in
    rw (owned_big_items, same, owned) (ok_injective e4)

-- Every item that stays on may be worn, or is a cheat.
abbrev pub Permitted : State → Player → Pack → List String → Type 0
Permitted s p pack is =
    (i : String)
    → contains is i ≡ true
    → is_cheated p i ≡ false
    → (item : ItemSpec) × (item_of pack s i invalid_content ≡ ok item)
      × (item_restrictions_satisfied s p item pack ≡ ok true)

split_equipped-Permitted :
    (s : State) (p : Player) (pack : Pack) (is : List String) {off on : List String}
    → split_equipped s p pack is ≡ ok (off, on)
    → Permitted s p pack on
unfolding split_equipped contains
split_equipped-Permitted s p pack [] h i k c = absurd (ground arith)
split_equipped-Permitted s p pack (x ∷ is) {off} {on} h i k c =
    let (item, e1, e2) = >>=-eq-ok (item_of pack s x invalid_content) _ h in
    let (allowed, e3, e4) = >>=-eq-ok (item_restrictions_satisfied s p item pack) _ e2 in
    let (rest, e5, e6) = >>=-eq-ok (split_equipped s p pack is) _ e4 in
    let inner = split_equipped-Permitted s p pack is {off = rest.0} {on = rest.1} e5 in
    elim (Bool-cases (not (is_cheated p x) && not allowed)) [
      | inl b ↦
          let same : on ≡ rest.1 = ground arith in
          inner i (subst (λ l. contains l i ≡ true) same k) c
      | inr b ↦
          let same : on ≡ x ∷ rest.1 = ground arith in
          elim (contains-cons x rest.1 i (subst (λ l. contains l i ≡ true) same k)) [
            | inl q ↦
                let free : is_cheated p x ≡ false = subst (λ j. is_cheated p j ≡ false) (sym q) c in
                let worth : allowed ≡ true = ground arith in
                (
                  item,
                  subst (λ j. item_of pack s j invalid_content ≡ ok item) q e1,
                  e3 ∙ ap ok worth,
                )
            | inr q ↦ inner i q c
          ]
    ]

-- The traits of a group are within the capacity that the attachments give.
abbrev pub WithinCapacity : State → Player → Pack → TraitGroup → Type 0
WithinCapacity s p pack group =
    (n : ℕ) × (capacity : ℤ) × (trait_count s p group pack ≡ ok n)
    × (trait_capacity s p group pack ≡ ok capacity)
    × (pos n ≤ℤ capacity)

trait_conflict-WithinCapacity :
    (s : State) (p : Player) (pack : Pack) (group : TraitGroup)
    → trait_conflict s p pack group ≡ ok none
    → WithinCapacity s p pack group
unfolding trait_conflict
trait_conflict-WithinCapacity s p pack group h =
    let (n, e1, e2) = >>=-eq-ok (trait_count s p group pack) _ h in
    let (capacity, e3, e4) = >>=-eq-ok (trait_capacity s p group pack) _ e2 in
    (n, capacity, e1, e3, (ground arith))

-- The hands and the slots that the items other than cheats use.
abbrev pub HandsFree : State → Player → Pack → Type 0
HandsFree s p pack =
    (hands : ℤ) × (slots : List ItemSlot) × (worn s p pack p.equipped ≡ ok (hands, slots))
    × (hands ≤ℤ pos 2)
    × (distinct_from [] slots ≡ true)

check_slots-HandsFree :
    (s : State) (p : Player) (pack : Pack) → check_slots s p pack ≡ done → HandsFree s p pack
unfolding check_slots
check_slots-HandsFree s p pack h =
    let (hands, e1, e2) = >>=-eq-ok (hands_used s p pack [] p.equipped) _ h in
    let (slots, e3, fresh) = hands_used-worn s p pack p.equipped [] {h = hands} e1 in
    (hands, slots, e3, (ground arith), fresh)

abbrev pub WithinAllowance : State → Player → Pack → Type 0
WithinAllowance s p pack =
    (allowance : ℤ) × (allowance_of s p pack ≡ ok allowance)
    × (pos (owned_big_items s p pack (p.carried ++ p.equipped)) ≤ℤ allowance)

big_conflict-WithinAllowance :
    (s : State) (p : Player) (pack : Pack)
    → big_conflict s p pack ≡ ok none
    → WithinAllowance s p pack
unfolding big_conflict
big_conflict-WithinAllowance s p pack h =
    let (n, e1, e2) = >>=-eq-ok (big_items s p pack (p.carried ++ p.equipped)) _ h in
    let (allowance, e3, e4) = >>=-eq-ok (allowance_of s p pack) _ e2 in
    let same = big_items-owned s p pack (p.carried ++ p.equipped) {n = n} e1 in
    (allowance, e3, rw (same) (ground arith))

-- A loadout in which no rule on traits, restrictions, hands, slots and big items is broken.
abbrev pub Legal : State → Player → Pack → Type 0
Legal s p pack =
    WithinCapacity s p pack TraitGroup.class
    × WithinCapacity s p pack TraitGroup.race
    × Permitted s p pack p.equipped
    × HandsFree s p pack
    × WithinAllowance s p pack

-- A repair that leaves no choice leaves a legal loadout.
abbrev pub Settles : Pack → Reconciled → Type 0
Settles pack (settled p s) = Legal s p pack
Settles pack (conflict p s r) = Unit {0}

-- The changed zones do not count for the traits, the restrictions and the cheats.
dressed : (s : State) (p : Player) (pack : Pack) (split : List String × List String) → Player
dressed s p pack split = record p { carried = p.carried ++ split.0; equipped = split.1 }

dressed-Settles :
    (s : State) (p : Player) (pack : Pack) (split : List String × List String)
    (found : Option Resolution)
    → WithinCapacity s p pack TraitGroup.class × WithinCapacity s p pack TraitGroup.race
    → Permitted s p pack split.1
    → check_slots s (dressed s p pack split) pack ≡ done
    → big_conflict s (dressed s p pack split) pack ≡ ok found
    → Settles pack (elim found [
      | none ↦ settled (dressed s p pack split) s
      | some r ↦ conflict (dressed s p pack split) s r
    ])
unfolding dressed trait_count trait_capacity item_restrictions_satisfied character_tags is_cheated
dressed-Settles s p pack split none w may hands big = (
  w.0,
  w.1,
  may,
  check_slots-HandsFree s (dressed s p pack split) pack hands,
  big_conflict-WithinAllowance s (dressed s p pack split) pack big,
)
dressed-Settles s p pack split (some r) w may hands big = tt

reconcile_equipment-Settles :
    (s : State) (p : Player) (pack : Pack) {r : Reconciled}
    → WithinCapacity s p pack TraitGroup.class × WithinCapacity s p pack TraitGroup.race
    → reconcile_equipment s p pack ≡ ok r
    → Settles pack r
unfolding reconcile_equipment dressed
reconcile_equipment-Settles s p pack {r} w h =
    let (split, e1, e2) = >>=-eq-ok (split_equipped s p pack p.equipped) _ h in
    let (e3, e4) = >>-eq-ok (check_slots s (dressed s p pack split) pack) _ e2 in
    let (found, e5, e6) = >>=-eq-ok (big_conflict s (dressed s p pack split) pack) _ e4 in
    subst (Settles pack) (ok_injective e6) (
      dressed-Settles s p pack split found w
        (split_equipped-Permitted s p pack p.equipped {off = split.0} {on = split.1} e1) e3 e5)

trait_conflicts-WithinCapacity :
    (s : State) (p : Player) (pack : Pack)
    → trait_conflicts s p pack ≡ ok none
    → WithinCapacity s p pack TraitGroup.class × WithinCapacity s p pack TraitGroup.race
unfolding trait_conflicts
trait_conflicts-WithinCapacity s p pack h =
    let (first, e1, e2) = >>=-eq-ok (trait_conflict s p pack TraitGroup.class) _ h in
    elim (Option-cases first) [
      | inl q ↦ (
        trait_conflict-WithinCapacity s p pack TraitGroup.class (e1 ∙ ap ok q),
        trait_conflict-WithinCapacity s p pack TraitGroup.race (ground arith),
      )
      | inr (r, q) ↦ absurd (ground arith)
    ]

attached-Settles :
    (s : State) (p : Player) (pack : Pack) (found : Option Resolution) {r : Reconciled}
    → trait_conflicts s p pack ≡ ok found
    → elim found [ none ↦ reconcile_equipment s p pack | some c ↦ ok (conflict p s c) ] ≡ ok r
    → Settles pack r
attached-Settles s p pack none {r} h k =
    reconcile_equipment-Settles s p pack {r = r} (trait_conflicts-WithinCapacity s p pack h) k
attached-Settles s p pack (some c) h k = subst (Settles pack) (ok_injective k) tt

-- When the repair of a player succeeds without a choice being left, then the player has no more
-- classes and races than the attachments allow, every equipped item that is no cheat may be worn,
-- the hands and slots in use are at most two and pairwise distinct, and the big items are within
-- the allowance.
pub reconcile_player-Legal :
    (s : State) (p : Player) (pack : Pack) {p' : Player} {s' : State}
    → reconcile_player s p pack ≡ ok (settled p' s')
    → Legal s' p' pack
unfolding reconcile_player
reconcile_player-Legal s p pack {p'} {s'} h =
    let (kept, e1, e2) = >>=-eq-ok (keep_attachments s p pack p.attachments) _ h in
    let q : Player = record p { attachments = kept.1 } in
    let (found, e3, e4) = >>=-eq-ok (trait_conflicts kept.0 q pack) _ e2 in
    attached-Settles kept.0 q pack found {r = settled p' s'} e3 e4
