-- ===== src/Commands/Equipment/Legality.antt =====
-- The loadout after a command that changes it, backend/game/internal/game/engine.go.
use munchkin.Shared.{
  >>-eq-ok, >>=-eq-ok, Bool, List, Option, String, String-Eq, [], ap, ap₂, arith, contains, done,
  fail_when, get_elem?, get_elem?-set_self, inl, inr, none, not, ok, ok_injective, or_fail, refl,
  some, subst, suc, sym, zero, ℕ, ℕ-Eq, ℤ-Eq, ◌!=◌, ◌&&◌, ◌>>=◌, ◌∙◌, ◌∷◌, ◌≡◌, ◌⊎◌,
}
use munchkin.Shared.{illegal_command, invalid_content, panic, unknown_card}
use munchkin.Cards.Piles.{append_discard}
use munchkin.Commands.Equipment.{
  check_detachable, equipment_phases, handle_discard_card, handle_equip_item, handle_unequip_item,
}
use munchkin.Commands.Guards.{reconcile_strictly, require_phase, transition}
use munchkin.Commands.Guards.Transitions.{require_phase-turn, transition-state}
use munchkin.Commands.Kinds.{Command, EventType, StateChanged}
use munchkin.Content.{AttachmentSpec, Card, CardKind, CardKind-Eq, Pack}
use munchkin.DeathLoot.Discarding.{append_discard-Filed}
use munchkin.Model.{Phase, Phase-Eq, Player, State, Status-Eq, player_index}
use munchkin.Rules.Character.{card_of, player_at, trait_count}
use munchkin.Rules.Discarding.{discard_owned_instance}
use munchkin.Rules.Loadout.{
  settled, conflict, Reconciled, Resolution, can_equip, check_cheat, item_of, keep_as,
  keep_attachment, keep_attachments, keep_while, reconcile_equipment, reconcile_loadout,
  reconcile_player, set_player, trait_conflicts, written,
}
use munchkin.Rules.Loadout.Kept.{Legal-instances}
use munchkin.Rules.Loadout.Legal.{Legal, reconcile_player-Legal}
use munchkin.Validation.Players.{validate}

-- The repair discards cards and leaves the rest of the state alone.
append_discard-players :
    (s : State) (i : String) (pack : Pack) {t : State}
    → append_discard s i pack ≡ ok t
    → t.players ≡ s.players
append_discard-players s i pack h = ap (λ u. u.players) (append_discard-Filed s i pack h).frame

keep_while-players :
    (s : State) (pack : Pack) (i : String) (n : ℕ) {kept : State × Bool}
    → keep_while s pack i n ≡ ok kept
    → kept.0.players ≡ s.players
unfolding keep_while
keep_while-players s pack i zero h =
    let (t, e, k) = >>=-eq-ok (append_discard s i pack) _ h in
    sym (ap (λ x. x.0.players) (ok_injective k)) ∙ append_discard-players s i pack e
keep_while-players s pack i (suc n) h = sym (ap (λ x. x.0.players) (ok_injective h))

keep_as-players :
    (s : State) (p : Player) (pack : Pack) (i : String) (card : Card) (a : Option AttachmentSpec)
    {kept : State × Bool}
    → keep_as s p pack i card a ≡ ok kept
    → kept.0.players ≡ s.players
unfolding keep_as
keep_as-players s p pack i card none h =
    let (_, k) = >>-eq-ok (check_cheat s p pack i card) _ h in
    sym (ap (λ x. x.0.players) (ok_injective k))
keep_as-players s p pack i card (some a) h =
    let (n, _, k) = >>=-eq-ok (trait_count s p a.group pack) _ h in keep_while-players s pack i n k

keep_attachment-players :
    (s : State) (p : Player) (pack : Pack) (i : String) {kept : State × Bool}
    → keep_attachment s p pack i ≡ ok kept
    → kept.0.players ≡ s.players
unfolding keep_attachment
keep_attachment-players s p pack i h =
    let (card, _, k) = >>=-eq-ok (card_of pack s i unknown_card) _ h in
    keep_as-players s p pack i card card.attachment k

keep_attachments-players :
    (s : State) (p : Player) (pack : Pack) (is : List String) {kept : State × List String}
    → keep_attachments s p pack is ≡ ok kept
    → kept.0.players ≡ s.players
unfolding keep_attachments
keep_attachments-players s p pack [] h = sym (ap (λ k. k.0.players) (ok_injective h))
keep_attachments-players s p pack (i ∷ is) h =
    let (first, e, k) = >>=-eq-ok (keep_attachment s p pack i) _ h in
    let (rest, f, g) = >>=-eq-ok (keep_attachments first.0 p pack is) _ k in
    sym (ap (λ x. x.0.players) (ok_injective g))
    ∙ keep_attachments-players first.0 p pack is f
    ∙ keep_attachment-players s p pack i e

-- The player with that index has a legal loadout.
abbrev pub LegalAt : State → ℕ → Pack → Type 0
LegalAt s i pack = (p : Player) × (player_at s i ≡ ok p) × Legal s p pack

-- The state beside the player that a repair leaves.
abbrev after_repair : Reconciled → State
after_repair (settled p t) = t
after_repair (conflict p t r) = t

reconcile_equipment-state :
    (s : State) (p : Player) (pack : Pack) {r : Reconciled}
    → reconcile_equipment s p pack ≡ ok r
    → after_repair r ≡ s
unfolding reconcile_equipment
reconcile_equipment-state s p pack {r} h = ground arith

attached-state :
    (s : State) (p : Player) (pack : Pack) (found : Option Resolution) {r : Reconciled}
    → elim found [ none ↦ reconcile_equipment s p pack | some c ↦ ok (conflict p s c) ] ≡ ok r
    → after_repair r ≡ s
attached-state s p pack none {r} h = reconcile_equipment-state s p pack {r = r} h
attached-state s p pack (some c) h = sym (ap after_repair (ok_injective h))

reconcile_player-players :
    (s : State) (p : Player) (pack : Pack) {r : Reconciled}
    → reconcile_player s p pack ≡ ok r
    → (after_repair r).players ≡ s.players
unfolding reconcile_player
reconcile_player-players s p pack {r} h =
    let (kept, e, k) = >>=-eq-ok (keep_attachments s p pack p.attachments) _ h in
    let q : Player = record p { attachments = kept.1 } in
    let (found, f, g) = >>=-eq-ok (trait_conflicts kept.0 q pack) _ k in
    ap (λ t. t.players) (attached-state kept.0 q pack found {r = r} g)
    ∙ keep_attachments-players s p pack p.attachments e

-- A repair that leaves no conflict, written back.
written-LegalAt :
    (s : State) (i : ℕ) (p : Player) (pack : Pack) (r : Reconciled) {t : State}
    → player_at s i ≡ ok p
    → reconcile_player s p pack ≡ ok r
    → written i r ≡ (t, none)
    → LegalAt t i pack
written-LegalAt s i p pack (conflict q u c) {t} e h k = absurd (ground arith)
written-LegalAt s i p pack (settled q u) {t} e h k =
    let there : get_elem? s.players i ≡ some p = ground arith in
    let still : get_elem? u.players i ≡ some p =
      ap (λ ps. get_elem? ps i) (reconcile_player-players s p pack {r = settled q u} h) ∙ there in
    subst (λ t. LegalAt t i pack) (ap (λ x. x.0) k)
      (
        q,
        ap (λ o. or_fail o panic) (get_elem?-set_self u.players i {p = p} {q = q} still),
        Legal-instances u (set_player u i q) pack refl q
            (reconcile_player-Legal s p pack {p' = q} {s' = u} h),
      )

reconcile_strictly-LegalAt :
    (s : State) (i : ℕ) (pack : Pack) {t : State}
    → reconcile_strictly s i pack ≡ ok t
    → LegalAt t i pack
unfolding reconcile_strictly reconcile_loadout
reconcile_strictly-LegalAt s i pack {t} h =
    let (out, e, k) = >>=-eq-ok (reconcile_loadout s i pack) _ h in
    let (p, f, g) = >>=-eq-ok (player_at s i) _ e in
    let (r, l, m) = >>=-eq-ok (reconcile_player s p pack) _ g in
    let settled_ : out.1 ≡ none = ground arith in
    let last : out.0 ≡ t = ground arith in
    written-LegalAt s i p pack r {t = t} f l (ok_injective m ∙ ap₂ (λ a b. (a, b)) last settled_)

-- The commands that change what a player wears.
abbrev pub Dresses : State → Command → Pack → StateChanged → Type 0
Dresses s c pack ev =
    (handle_equip_item s c pack ≡ ok ev)
    ⊎ ((handle_unequip_item s c pack ≡ ok ev) ⊎ (handle_discard_card s c pack ≡ ok ev))

repaired-LegalAt :
    (ty : EventType) (c : Command) (s : State) (i : ℕ) (pack : Pack) {ev : StateChanged}
    → (reconcile_strictly s i pack >>= λ next. transition ty c next []) ≡ ok ev
    → LegalAt ev.state i pack × (validate ev.state ≡ done)
repaired-LegalAt ty c s i pack {ev} h =
    let (next, e, k) = >>=-eq-ok (reconcile_strictly s i pack) _ h in
    let (same, v) = transition-state ty c next [] {ev = ev} k in
    (subst (λ t. LegalAt t i pack) (sym same) (reconcile_strictly-LegalAt s i pack {t = next} e), v)

-- When equipping, taking off or discarding a card succeeds, the state of its event is valid, and
-- in it the loadout of the player whose turn it was is legal: traits within their capacity, no
-- item worn against its restrictions, at most two hands and no slot used twice, and no more big
-- items than the allowance.
pub dressed-LegalAt :
    (s : State) (c : Command) (pack : Pack) (ev : StateChanged)
    → Dresses s c pack ev
    → (i : ℕ) × (player_index s s.turn.player_id ≡ some i)
      × (LegalAt ev.state i pack × (validate ev.state ≡ done))
unfolding handle_equip_item handle_unequip_item handle_discard_card
dressed-LegalAt s c pack ev (inl h) =
    let (i, e, k) = >>=-eq-ok (require_phase s c equipment_phases) _ h in
    let (_, l) = >>-eq-ok (can_equip s i c.instance_id pack) _ k in
    let (p, _, m) = >>=-eq-ok (player_at s i) _ l in
    (
      i,
      require_phase-turn s c equipment_phases e,
      repaired-LegalAt EventType.equipment_changed c _ i pack {ev = ev} m,
    )
dressed-LegalAt s c pack ev (inr (inl h)) =
    let (i, e, k) = >>=-eq-ok (require_phase s c equipment_phases) _ h in
    let (p, _, l) = >>=-eq-ok (player_at s i) _ k in
    let (_, m) =
      >>-eq-ok (fail_when (not (contains p.equipped c.instance_id)) illegal_command) _ l in
    let (_, _, n) = >>=-eq-ok (item_of pack s c.instance_id invalid_content) _ m in
    (
      i,
      require_phase-turn s c equipment_phases e,
      repaired-LegalAt EventType.equipment_changed c _ i pack {ev = ev} n,
    )
dressed-LegalAt s c pack ev (inr (inr h)) =
    let phases = Phase.setup ∷ Phase.preparation ∷ Phase.combat ∷ Phase.charity ∷ [] in
    let (i, e, k) = >>=-eq-ok (require_phase s c phases) _ h in
    let (p, _, l) = >>=-eq-ok (player_at s i) _ k in
    let (card, _, m) = >>=-eq-ok (card_of pack s c.instance_id unknown_card) _ l in
    let (_, n) =
      >>-eq-ok
        (fail_when
          (not (contains p.traits c.instance_id) && not (contains p.attachments c.instance_id))
          illegal_command)
        _ m in
    let (_, o) =
      >>-eq-ok
        (fail_when
          (card.kind != CardKind.class
            && (card.kind != CardKind.race && card.kind != CardKind.trait_attachment))
          illegal_command)
        _ n in
    let (_, q) = >>-eq-ok (check_detachable s p card pack) _ o in
    let (t, _, r) = >>=-eq-ok (discard_owned_instance s i c.instance_id pack) _ q in
    (
      i,
      require_phase-turn s c phases e,
      repaired-LegalAt EventType.card_played c t i pack {ev = ev} r,
    )
