-- ===== src/Commands/Dealing/Exactness.antt =====
-- Each instance lies in one deck, once, backend/game/internal/game/content.go and effects.go.
use munchkin.Shared.{
  >>-eq-ok, >>=-eq-ok, Bool, Bool-cases, List, Map, String, String-Eq, [], ap, arith, count,
  count-append, fail_when, fail_when-eq-ok, false, has_key, hit, if_fails, if_holds, if◌then◌else◌,
  inl, inr, insert, lookup, lookup-insert, not, ok, ok_injective, pos_part, refl, subst, suc, zero,
  ℕ, ℕ-Eq, ℤ-Eq, ◌!=◌, ◌+◌, ◌==◌, ◌∷◌, ◌≡◌,
}
use munchkin.Shared.{invalid_content}
use munchkin.Commands.Dealing.{
  Deal, deal_cards, deal_copies, deal_copy, deal_missing, deal_theft, instance_name, is_theft_card,
  materialize, materialize_selected_profile, no_cards, put_in_deck, put_instance, selected_by,
  starting_deal,
}
use munchkin.Content.{Card, DeckKind, DeckKind-Eq, InteractionScope, InteractionScope-Eq, Pack}
use munchkin.Model.{CardInstance, Phase-Eq, Status-Eq}
use munchkin.Profile.{RulesProfile, RulesProfile-Eq}

-- 1 for a key of the map.
abbrev pub known : String → Map CardInstance → ℕ
known id m = if has_key id m then 1 else 0

known-insert :
    (w r : String) (v : CardInstance) (m : Map CardInstance)
    → known r (insert w v m) ≡ (if w == r then 1 else known r m)
known-insert w r v m = ground (arith, lookup-insert w r v m)

-- Every instance lies in the two decks exactly once, and nothing else does.
abbrev pub Exact : Deal → Type 0
Exact d = (id : String) → count id d.doors + count id d.treasures ≡ known id d.instances

-- A new card on one of the decks.
one_more :
    (id a : String) (v : CardInstance) (m : Map CardInstance) (n : ℕ)
    → has_key id m ≡ false
    → n ≡ known a m
    → n + hit a id ≡ known a (insert id v m)
unfolding hit
one_more id a v m n new h = elim (Bool-cases (id == a)) [
  | inl q ↦
      let same : id ≡ a = ground arith in
      let none_yet : known a m ≡ 0 =
        subst (λ b. known b m ≡ 0) same (ap (λ b. if b then 1 else 0) new) in
      ground (arith, known-insert id a v m)
  | inr q ↦ ground (arith, known-insert id a v m)
]

put_in_deck-Exact :
    (deck : DeckKind) (id : String) (card : Card) (d : Deal) {d' : Deal}
    → Exact d
    → has_key id d.instances ≡ false
    → put_in_deck deck id (put_instance id card d) ≡ ok d'
    → Exact d'
unfolding put_in_deck
put_in_deck-Exact DeckKind.door id card d x new h = subst Exact (ok_injective h) (λ a. omega (
  arith,
  count-append a d.doors (id ∷ []),
  one_more id a (record { id = id; definition_id = card.id }) d.instances
      (count a d.doors + count a d.treasures) new (x a),
))
put_in_deck-Exact DeckKind.treasure id card d x new h = subst Exact (ok_injective h) (λ a. omega (
  arith,
  count-append a d.treasures (id ∷ []),
  one_more id a (record { id = id; definition_id = card.id }) d.instances
      (count a d.doors + count a d.treasures) new (x a),
))
put_in_deck-Exact (DeckKind.other _) id card d x new h = absurd (ground arith)

module _ (itoa : ℕ → String) where
  deal_copy-Exact :
      (card : Card) (n : ℕ) (d : Deal) {d' : Deal}
      → Exact d
      → deal_copy itoa card n d ≡ ok d'
      → Exact d'
  unfolding deal_copy
  deal_copy-Exact card n d {d'} x h =
      let id = instance_name itoa card n in
      let (e, k) = >>-eq-ok (fail_when (has_key id d.instances) invalid_content) _ h in
      put_in_deck-Exact card.deck id card d {d' = d'} x
        (fail_when-eq-ok (has_key id d.instances) invalid_content e) k

  deal_copies-Exact :
      (card : Card) (left n : ℕ) (d : Deal) {d' : Deal}
      → Exact d
      → deal_copies itoa card n left d ≡ ok d'
      → Exact d'
  unfolding deal_copies
  deal_copies-Exact card zero n d x h = subst Exact (ok_injective h) x
  deal_copies-Exact card (suc left) n d x h =
      let (d1, e, k) = >>=-eq-ok (deal_copy itoa card n d) _ h in
      deal_copies-Exact card left (suc n) d1 (deal_copy-Exact card n d {d' = d1} x e) k

  deal_cards-Exact :
      (wanted : Card → Bool) (cards : List Card) (d : Deal) {d' : Deal}
      → Exact d
      → deal_cards itoa wanted cards d ≡ ok d'
      → Exact d'
  unfolding deal_cards
  deal_cards-Exact wanted [] d x h = subst Exact (ok_injective h) x
  deal_cards-Exact wanted (card ∷ cards) d {d'} x h = elim (Bool-cases (wanted card)) [
    | inl q ↦
        let (d1, e, k) =
          >>=-eq-ok (deal_copies itoa card 1 (pos_part card.copies) d) _
            (if_holds (wanted card) _ q h) in
        deal_cards-Exact wanted cards d1
          (deal_copies-Exact card (pos_part card.copies) 1 d {d' = d1} x e) k
    | inr q ↦ deal_cards-Exact wanted cards d {d' = d'} x (if_fails (wanted card) _ q h)
  ]

  deal_missing-Exact :
      (card : Card) (left n : ℕ) (d : Deal) {d' : Deal}
      → Exact d
      → deal_missing itoa card n left d ≡ ok d'
      → Exact d'
  unfolding deal_missing
  deal_missing-Exact card zero n d x h = subst Exact (ok_injective h) x
  deal_missing-Exact card (suc left) n d {d'} x h =
      let id = instance_name itoa card n in
      elim (Bool-cases (has_key id d.instances)) [
        | inl q ↦
            deal_missing-Exact card left (suc n) d {d' = d'} x
              (if_holds (has_key id d.instances) _ q h)
        | inr q ↦
            let (d1, e, k) =
              >>=-eq-ok (put_in_deck card.deck id (put_instance id card d)) _
                (if_fails (has_key id d.instances) _ q h) in
            deal_missing-Exact card left (suc n) d1 {d' = d'}
              (put_in_deck-Exact card.deck id card d {d' = d1} x q e) k
      ]

  deal_theft-Exact :
      (cards : List Card) (d : Deal) {d' : Deal}
      → Exact d
      → deal_theft itoa cards d ≡ ok d'
      → Exact d'
  unfolding deal_theft
  deal_theft-Exact [] d x h = subst Exact (ok_injective h) x
  deal_theft-Exact (card ∷ cards) d {d'} x h = elim (Bool-cases (is_theft_card itoa card)) [
    | inl q ↦
        let (d1, e, k) =
          >>=-eq-ok (deal_missing itoa card 1 (pos_part card.copies) d) _
            (if_holds (is_theft_card itoa card) _ q h) in
        deal_theft-Exact cards d1 {d' = d'}
          (deal_missing-Exact card (pos_part card.copies) 1 d {d' = d1} x e) k
    | inr q ↦ deal_theft-Exact cards d {d' = d'} x (if_fails (is_theft_card itoa card) _ q h)
  ]

  materialize_selected_profile-Exact :
      (pack : Pack) (r : RulesProfile) {d : Deal}
      → materialize_selected_profile itoa pack r ≡ ok d
      → Exact d
  unfolding materialize_selected_profile materialize lookup
  materialize_selected_profile-Exact pack r {d} h =
      let (d1, e, k) = >>=-eq-ok (materialize itoa pack) _ h in
      let x =
        deal_cards-Exact (λ card. card.interaction_scope != InteractionScope.other_players)
          pack.cards no_cards {d' = d1} (λ id. refl) e in
      elim (Bool-cases (not r.combat_responses)) [
        | inl q ↦ subst Exact (ok_injective (if_holds (not r.combat_responses) _ q k)) x
        | inr q ↦
            deal_cards-Exact (selected_by itoa r) pack.cards d1 {d' = d} x
              (if_fails (not r.combat_responses) _ q k)
      ]

  -- Whenever a new game can be dealt, each instance lies exactly once in the door deck or in the
  -- treasure deck, and no other card lies there. This holds for any text of the copy numbers, for
  -- the deal of two copies under one name is refused, or, for theft cards, left out.
  pub starting_deal-Exact :
      (pack : Pack) (r : RulesProfile) (d : Deal) → starting_deal itoa pack r ≡ ok d → Exact d
  unfolding starting_deal
  starting_deal-Exact pack r d h =
      let (d1, e, k) = >>=-eq-ok (materialize_selected_profile itoa pack r) _ h in
      let x = materialize_selected_profile-Exact pack r {d = d1} e in
      elim (Bool-cases r.theft) [
        | inl q ↦ deal_theft-Exact pack.cards d1 {d' = d} x (if_holds r.theft _ q k)
        | inr q ↦ subst Exact (ok_injective (if_fails r.theft _ q k)) x
      ]
