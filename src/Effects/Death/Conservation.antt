-- ===== src/Effects/Death/Conservation.antt =====
-- The cards at the death of a player, backend/game/internal/game/effects.go.
use munchkin.Shared.{
  >>-eq-ok, >>=-eq-ok, Bool, Bool-cases, List, String, String-Eq, [], ap, arith, count,
  count-append, fail_when, false, get_elem?, hit, if_fails, if_holds, if◌then◌else◌, inl, inr,
  is_empty, not, ok, ok_injective, refl, some, subst, sym, true, ℕ, ℕ-Eq, ℤ-Eq, ◌++◌, ◌+◌, ◌==◌,
  ◌∙◌, ◌∷◌, ◌≡◌,
}
use munchkin.Shared.{illegal_command, unknown_card}
use munchkin.Cards.Transfers.Conservation.{held-swap, owned}
use munchkin.Commands.Dealing.Exactness.{known}
use munchkin.Content.{CardKind, CardKind-Eq, Pack}
use munchkin.DeathLoot.{death_loot_seat_order, discard_all}
use munchkin.DeathLoot.Counts.{cards-split, pooled, pooled-eq}
use munchkin.DeathLoot.Discarding.{discard_all-Filed}
use munchkin.Effects.Death.{
  corpse, kill_player, leave_cards, leave_loot, new_loot, split_attachments,
}
use munchkin.Model.{DeathLoot, Phase-Eq, Player, State, Status-Eq}
use munchkin.Profile.{RulesProfile, RulesProfile-Eq, profile}
use munchkin.Rules.Character.{card_of, player_at}
use munchkin.Rules.Loadout.{set_player}
use munchkin.Validation.Zones.Exactness.{all_cards}

-- An attachment goes to one of the two lists.
abbrev sort_in : Bool → String → List String × List String → List String × List String
sort_in b i split = if b then (i ∷ split.0, split.1) else (split.0, i ∷ split.1)

sort_in-count :
    (b : Bool) (i : String) (split : List String × List String) (a : String)
    → count a (sort_in b i split).0 + count a (sort_in b i split).1
      ≡ hit a i + (count a split.0 + count a split.1)
sort_in-count true i split a = omega arith
sort_in-count false i split a = omega arith

split_attachments-count :
    (s : State) (pack : Pack) (is : List String) (a : String) {split : List String × List String}
    → split_attachments s pack is ≡ ok split
    → count a split.0 + count a split.1 ≡ count a is
unfolding split_attachments
split_attachments-count s pack [] a h =
    subst (λ x. count a x.0 + count a x.1 ≡ 0) (ok_injective h) refl
split_attachments-count s pack (i ∷ is) a {split} h =
    let (card, _, k) = >>=-eq-ok (card_of pack s i unknown_card) _ h in
    let (rest, e, l) = >>=-eq-ok (split_attachments s pack is) _ k in
    let ih = split_attachments-count s pack is a {split = rest} e in
    subst (λ x. count a x.0 + count a x.1 ≡ hit a i + count a is) (ok_injective l)
      (omega (arith, ih, sort_in-count (card.kind == CardKind.trait_attachment) i rest a))

-- What the dead player loses, in the order of `killPlayer`.
abbrev pub lost : Player → List String → List String
lost p others = p.hand ++ p.carried ++ p.equipped ++ others

corpse-owned :
    (a : String) (p : Player) (kept others : List String)
    → count a kept + count a others ≡ count a p.attachments
    → owned a (corpse p kept) + count a (lost p others) ≡ owned a p
corpse-owned a p kept others h = simp count-append (omega (arith, h))

-- The cards of the state with the dead player, whose lost cards are not there yet.
corpse-cards :
    (a : String) (s : State) (i : ℕ) (p : Player) (kept others : List String)
    → get_elem? s.players i ≡ some p
    → count a kept + count a others ≡ count a p.attachments
    → count a (all_cards (set_player s i (corpse p kept))) + count a (lost p others)
      ≡ count a (all_cards s)
corpse-cards a s i p kept others there h = omega (
  arith,
  cards-split a s,
  cards-split a (set_player s i (corpse p kept)),
  held-swap a s.players i p (corpse p kept) there,
  corpse-owned a p kept others h,
)

pub discard_all-cards :
    (a : String) (s : State) (is : List String) (pack : Pack) {t : State}
    → discard_all s is pack ≡ ok t
    → count a (all_cards t) ≡ count a (all_cards s) + count a is
discard_all-cards a s is pack {t} h =
    let f = discard_all-Filed s is pack {s' = t} h in
    subst (λ u. count a (all_cards u) ≡ count a (all_cards s) + count a is) (sym f.frame)
      (omega (
        arith,
        f.kept a,
        cards-split a s,
        cards-split a (record s { door_discard = f.doors; treasure_discard = f.treasures }),
      ))

-- The loot that a state holds is replaced by another.
replaced-cards :
    (a : String) (s : State) (l : DeathLoot)
    → count a (all_cards (record s { death_loot = some l })) + pooled a s.death_loot
      ≡ count a (all_cards s) + count a l.pool
replaced-cards a s l =
    omega (arith, cards-split a s, cards-split a (record s { death_loot = some l }), pooled-eq a l)

leave_loot-cards :
    (a : String) (s : State) (l : DeathLoot) (pack : Pack) {t : State}
    → leave_loot s l pack ≡ ok t
    → count a (all_cards t) + pooled a s.death_loot ≡ count a (all_cards s) + count a l.pool
unfolding leave_loot
leave_loot-cards a s l pack {t} h = elim (Bool-cases (is_empty l.pool)) [
  | inl q ↦
      subst
        (λ u.
          count a (all_cards u) + pooled a s.death_loot ≡ count a (all_cards s) + count a l.pool)
        (ok_injective (if_holds (is_empty l.pool) _ q h))
        (replaced-cards a s (record l { completed = true }))
  | inr q ↦ elim (Bool-cases (is_empty l.seat_order)) [
    | inl o ↦
        let (u, e, k) =
          >>=-eq-ok (discard_all s l.pool pack) _
            (if_holds (is_empty l.seat_order) _ o (if_fails (is_empty l.pool) _ q h)) in
        let last = record l { discarded_instance_ids = l.pool; pool = []; completed = true } in
        let same : u.death_loot ≡ s.death_loot =
          ap (λ v. v.death_loot) (discard_all-Filed s l.pool pack {s' = u} e).frame in
        subst
          (λ v.
            count a (all_cards v) + pooled a s.death_loot ≡ count a (all_cards s) + count a l.pool)
          (ok_injective k)
          (omega (
            arith,
            replaced-cards a u last,
            discard_all-cards a s l.pool pack {t = u} e,
            ap (pooled a) same,
          ))
    | inr o ↦
        subst
          (λ u.
            count a (all_cards u) + pooled a s.death_loot ≡ count a (all_cards s) + count a l.pool)
          (ok_injective (if_fails (is_empty l.seat_order) _ o (if_fails (is_empty l.pool) _ q h)))
          (replaced-cards a s l)
  ]
]

leave_cards-cards :
    (a : String) (r : RulesProfile) (s : State) (i : ℕ) (p : Player)
    (split : List String × List String) (pack : Pack) {t : State}
    → get_elem? s.players i ≡ some p
    → count a split.0 + count a split.1 ≡ count a p.attachments
    → leave_cards r s i p split pack ≡ ok t
    → count a (all_cards t) + (if r.death_loot then pooled a s.death_loot else 0)
      ≡ count a (all_cards s)
unfolding leave_cards
leave_cards-cards a r s i p split pack {t} there apart h =
    let dead = set_player s i (corpse p split.0) in
    let before_ = corpse-cards a s i p split.0 split.1 there apart in
    elim (Bool-cases r.death_loot) [
      | inl q ↦
          let seats = death_loot_seat_order dead i in
          let k = if_fails (not r.death_loot) _ (ap not q) h in
          rw (q) (
            omega (
              arith,
              before_,
              leave_loot-cards a dead (new_loot p.id (lost p split.1) seats) pack {t = t} k,
            ))
      | inr q ↦
          let k = if_holds (not r.death_loot) _ (ap not q) h in
          rw (q) (omega (arith, before_, discard_all-cards a dead (lost p split.1) pack {t = t} k))
    ]

-- When a player dies, every card lies as often on the table as before, but for one case: where the
-- profile leaves the cards of the dead to the others, the pool of an earlier death that is still
-- being shared out is overwritten, and its cards lie nowhere any more.
pub kill_player-cards :
    (a : String) (s : State) (i : ℕ) (pack : Pack) (r : RulesProfile) (t : State)
    → profile s ≡ ok r
    → kill_player s i pack ≡ ok t
    → count a (all_cards t) + (if r.death_loot then pooled a s.death_loot else 0)
      ≡ count a (all_cards s)
unfolding kill_player
kill_player-cards a s i pack r t known h =
    let (p, e1, h1) = >>=-eq-ok (player_at s i) _ h in
    let (_, h2) = >>-eq-ok (fail_when p.dead illegal_command) _ h1 in
    let (split, e3, h3) = >>=-eq-ok (split_attachments s pack p.attachments) _ h2 in
    let (r', e4, h4) = >>=-eq-ok (profile s) _ h3 in
    let same : r' ≡ r = ok_injective (sym e4 ∙ known) in
    let there : get_elem? s.players i ≡ some p = ground arith in
    leave_cards-cards a r s i p split pack {t = t} there
      (split_attachments-count s pack p.attachments a {split = split} e3)
      (subst (λ x. leave_cards x s i p split pack ≡ ok t) same h4)
