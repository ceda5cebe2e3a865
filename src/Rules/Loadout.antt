-- ===== src/Rules/Loadout.antt =====
-- The equipment of a player and its repair, backend/game/internal/game/rules.go.
pub mod Legal
pub mod Kept
use munchkin.Shared.{
  Bool, Check, Error, List, Option, Result, String, String-Eq, [], contains, done, err, fail_when,
  false, if◌then◌else◌, leb_ℤ, lookup, ltb_ℤ, none, not, ok, or_fail, pos, set, signed_length, some,
  suc, true, zero, ℕ, ℕ-Eq, ℤ, ℤ-Eq, ◌!=◌, ◌&&◌, ◌++◌, ◌+ℤ◌, ◌+◌, ◌-ℤ◌, ◌==◌, ◌>>=◌, ◌>>◌, ◌||◌,
  ◌∷◌,
}
use munchkin.Shared.{illegal_command, invalid_content, unknown_card}
use munchkin.Cards.Piles.{append_discard}
use munchkin.Cards.Transfers.{is_cheated}
use munchkin.Content.{
  AttachmentSpec, Card, CardKind, CardKind-Eq, ItemSize, ItemSize-Eq, ItemSlot, ItemSlot-Eq,
  ItemSpec, Pack, TraitGroup, TraitGroup-Eq,
}
use munchkin.Model.{Phase-Eq, Player, State, Status-Eq}
use munchkin.Rules.Character.{
  allowance_of, card_of, item_restrictions_satisfied, player_at, trait_capacity, trait_count,
}

-- `loadoutResolutionError` without its text: the cards to choose from, and how many.
pub record Resolution : Type 0 where
  pub options : List String
  pub count_ : ℤ

-- The result of `reconcileLoadout`: no error, or a `loadoutResolutionError`, after which the callers
-- go on with the state as it is.
pub data Reconciled : Type 0 where
  settled : Player → State → Reconciled
  conflict : Player → State → Resolution → Reconciled

-- The item of an instance, or an error.
abbrev pub item_of : Pack → State → String → Error → Result ItemSpec
item_of pack s i e = do card ← card_of pack s i e; or_fail card.item e

-- An attachment that is no trait attachment must be a cheat on an item in play.
unfoldable pub check_cheat : State → Player → Pack → String → Card → Check
check_cheat s p pack i card = do
  target ← or_fail (lookup i p.cheat_targets) illegal_command
  fail_when
      (card.kind != CardKind.cheat
        || (not (contains p.carried target) && not (contains p.equipped target)))
      illegal_command
  item ← item_of pack s target illegal_command
  done

-- A trait attachment stays while there is a trait of its group.
unfoldable pub keep_while : State → Pack → String → ℕ → Result (State × Bool)
keep_while s pack i zero = do s' ← append_discard s i pack; ok (s', false)
keep_while s pack i (suc _) = ok (s, true)

unfoldable pub keep_as :
    State → Player → Pack → String → Card → Option AttachmentSpec → Result (State × Bool)
keep_as s p pack i card none = do check_cheat s p pack i card; ok (s, true)
keep_as s p pack i card (some a) = do n ← trait_count s p a.group pack; keep_while s pack i n

-- One round of the loop over the attachments: the state, and whether the attachment is kept.
unfoldable pub keep_attachment : State → Player → Pack → String → Result (State × Bool)
keep_attachment s p pack i = do
  card ← card_of pack s i unknown_card
  keep_as s p pack i card card.attachment

unfoldable pub keep_attachments : State → Player → Pack → List String → Result (State × List String)
keep_attachments s p pack [] = ok (s, [])
keep_attachments s p pack (i ∷ is) = do
  first ← keep_attachment s p pack i
  rest ← keep_attachments first.0 p pack is
  ok (rest.0, if first.1 then i ∷ rest.1 else rest.1)

-- The traits of a group, to choose from.
unfoldable pub trait_options : State → Pack → TraitGroup → List String → Result (List String)
trait_options s pack group [] = ok []
trait_options s pack group (i ∷ is) = do
  card ← card_of pack s i unknown_card
  t ← or_fail card.trait unknown_card
  rest ← trait_options s pack group is
  ok (if t.group == group then i ∷ rest else rest)

-- A group with more traits than the attachments allow.
unfoldable pub trait_conflict : State → Player → Pack → TraitGroup → Result (Option Resolution)
trait_conflict s p pack group = do
  n ← trait_count s p group pack
  capacity ← trait_capacity s p group pack
  if not (ltb_ℤ capacity (pos n)) then ok none else (do
    options ← trait_options s pack group p.traits
    ok (some (record { options = options; count_ = pos n -ℤ capacity })))

-- The loop over the two groups.
unfoldable pub trait_conflicts : State → Player → Pack → Result (Option Resolution)
trait_conflicts s p pack = do
  first ← trait_conflict s p pack TraitGroup.class
  elim first [ some r ↦ ok (some r) | none ↦ trait_conflict s p pack TraitGroup.race ]

-- The equipped items that are taken off, and those that stay on.
unfoldable pub split_equipped :
    State → Player → Pack → List String → Result (List String × List String)
split_equipped s p pack [] = ok ([], [])
split_equipped s p pack (i ∷ is) = do
  item ← item_of pack s i invalid_content
  allowed ← item_restrictions_satisfied s p item pack
  rest ← split_equipped s p pack is
  ok (if not (is_cheated p i) && not allowed then (i ∷ rest.0, rest.1) else (rest.0, i ∷ rest.1))

-- Whether an item takes a slot of its own.
abbrev pub takes_slot : ItemSlot → Bool
takes_slot ItemSlot.slotless = false
takes_slot ItemSlot.hands = false
takes_slot _ = true

abbrev pub hands_of : ItemSpec → ℤ
hands_of item = if item.slot == ItemSlot.hands then item.hands else pos 0

-- The loop over the equipped items: the hands that they use, if no slot is taken twice.
unfoldable pub hands_used : State → Player → Pack → List ItemSlot → List String → Result ℤ
hands_used s p pack used [] = ok (pos 0)
hands_used s p pack used (i ∷ is) = do
  item ← item_of pack s i invalid_content
  fail_when (not (is_cheated p i) && (takes_slot item.slot && contains used item.slot))
      illegal_command
  rest ←
      hands_used s p pack
        (if not (is_cheated p i) && takes_slot item.slot then item.slot ∷ used else used) is
  ok (if is_cheated p i then rest else hands_of item +ℤ rest)

unfoldable pub check_slots : State → Player → Pack → Check
check_slots s p pack = do
  hands ← hands_used s p pack [] p.equipped
  fail_when (ltb_ℤ (pos 2) hands) illegal_command

abbrev pub counts_big : Player → String → ItemSpec → Bool
counts_big p i item = item.size == ItemSize.big && not (is_cheated p i)

unfoldable pub big_items : State → Player → Pack → List String → Result ℕ
big_items s p pack [] = ok 0
big_items s p pack (i ∷ is) = do
  item ← item_of pack s i invalid_content
  rest ← big_items s p pack is
  ok (if counts_big p i item then suc rest else rest)

unfoldable pub big_options : State → Player → Pack → List String → Result (List String)
big_options s p pack [] = ok []
big_options s p pack (i ∷ is) = do
  item ← item_of pack s i unknown_card
  rest ← big_options s p pack is
  ok (
      if counts_big p i item && not (contains p.equipped i && ltb_ℤ (pos 0) item.big_allowance)
      then i ∷ rest
      else rest)

-- More big items than the player may have.
unfoldable pub big_conflict : State → Player → Pack → Result (Option Resolution)
big_conflict s p pack = do
  n ← big_items s p pack (p.carried ++ p.equipped)
  allowance ← allowance_of s p pack
  if not (ltb_ℤ allowance (pos n)) then ok none else (do
    options ← big_options s p pack (p.carried ++ p.equipped)
    fail_when (ltb_ℤ (signed_length options) (pos n -ℤ allowance)) invalid_content
    ok (some (record { options = options; count_ = pos n -ℤ allowance })))

-- The second half of `reconcileLoadout`: the equipment.
unfoldable pub reconcile_equipment : State → Player → Pack → Result Reconciled
reconcile_equipment s p pack = do
  split ← split_equipped s p pack p.equipped
  check_slots s (record p { carried = p.carried ++ split.0; equipped = split.1 }) pack
  found ← big_conflict s (record p { carried = p.carried ++ split.0; equipped = split.1 }) pack
  ok (elim found [
    | none ↦ settled (record p { carried = p.carried ++ split.0; equipped = split.1 }) s
    | some r ↦ conflict (record p { carried = p.carried ++ split.0; equipped = split.1 }) s r
  ])

-- `reconcileLoadout` on a player, who is written back by `reconcile_loadout`.
unfoldable pub reconcile_player : State → Player → Pack → Result Reconciled
reconcile_player s p pack = do
  kept ← keep_attachments s p pack p.attachments
  found ← trait_conflicts kept.0 (record p { attachments = kept.1 }) pack
  elim found [
    | some r ↦ ok (conflict (record p { attachments = kept.1 }) kept.0 r)
    | none ↦ reconcile_equipment kept.0 (record p { attachments = kept.1 }) pack
  ]

abbrev pub set_player : State → ℕ → Player → State
set_player s i p = record s { players = set s.players i p }

-- The state that `reconcileLoadout` leaves, and the conflict, if there is one.
abbrev pub written : ℕ → Reconciled → State × Option Resolution
written i (settled p s) = (set_player s i p, none)
written i (conflict p s r) = (set_player s i p, some r)

unfoldable pub reconcile_loadout : State → ℕ → Pack → Result (State × Option Resolution)
reconcile_loadout s i pack = do p ← player_at s i; r ← reconcile_player s p pack; ok (written i r)

-- `canCarryItem`. Unlike the repair it skips what is no item.
unfoldable pub owned_big_items : State → Player → Pack → List String → ℕ
owned_big_items s p pack [] = 0
owned_big_items s p pack (i ∷ is) =
    let rest = owned_big_items s p pack is in
    elim (item_of pack s i unknown_card) [
      | ok item ↦ if counts_big p i item then suc rest else rest
      | err _ ↦ rest
    ]

unfoldable pub can_carry_item : State → ℕ → String → Pack → Check
can_carry_item s i instance_id pack = do
  p ← player_at s i
  fail_when (not (contains p.hand instance_id)) illegal_command
  item ← item_of pack s instance_id illegal_command
  if item.size != ItemSize.big then done else (do
    allowance ← allowance_of s p pack
    fail_when (leb_ℤ allowance (pos (owned_big_items s p pack (p.carried ++ p.equipped))))
        illegal_command)

-- The hands and the slots that are in use, as `canEquip` collects them.
unfoldable pub worn : State → Player → Pack → List String → Result (ℤ × List ItemSlot)
worn s p pack [] = ok (pos 0, [])
worn s p pack (i ∷ is) = do
  item ← item_of pack s i invalid_content
  rest ← worn s p pack is
  ok (
      if is_cheated p i
      then rest
      else (hands_of item +ℤ rest.0, if takes_slot item.slot then item.slot ∷ rest.1 else rest.1))

-- `canEquip`.
unfoldable pub can_equip : State → ℕ → String → Pack → Check
can_equip s i instance_id pack = do
  p ← player_at s i
  fail_when (not (contains p.hand instance_id) && not (contains p.carried instance_id))
      illegal_command
  item ← item_of pack s instance_id illegal_command
  if is_cheated p instance_id then done else (do
    allowed ← item_restrictions_satisfied s p item pack
    fail_when (not allowed) illegal_command
    used ← worn s p pack p.equipped
    fail_when (item.slot == ItemSlot.hands && ltb_ℤ (pos 2) (used.0 +ℤ item.hands)) illegal_command
    fail_when (takes_slot item.slot && contains used.1 item.slot) illegal_command
    allowance ← allowance_of s p pack
    fail_when
        (item.size == ItemSize.big
          && ltb_ℤ allowance (
              pos (
                owned_big_items s p pack (p.carried ++ p.equipped)
                + (if contains p.hand instance_id then 1 else 0))))
        illegal_command)
