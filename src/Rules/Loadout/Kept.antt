-- ===== src/Rules/Loadout/Kept.antt =====
-- A legal loadout depends only on the player and the instances, backend/game/internal/game/rules.go.
use munchkin.Shared.{
  ◌≡◌, refl, String, List, [], ◌∷◌, Error, sym, ◌∙◌, ◌++◌, subst, pos, Result-cases, inl, inr, ◌≤ℤ◌,
}
use munchkin.Shared.{unknown_card, invalid_content}
use munchkin.Content.{Pack, TraitGroup}
use munchkin.Model.{State, Player}
use munchkin.Rules.Character.Frames.{
  card_of-instances, allowance_of-instances, item_restrictions_satisfied-instances,
  trait_capacity-instances, trait_count-instances,
}
use munchkin.Rules.Loadout.{item_of, worn, owned_big_items}
use munchkin.Rules.Loadout.Legal.{Legal, WithinCapacity}

module _ (s t : State) (pack : Pack) (same : s.instances ≡ t.instances) where
  item_of-instances : (i : String) (e : Error) → item_of pack s i e ≡ item_of pack t i e
  item_of-instances i e = rw (card_of-instances s t pack same i e) refl

  worn-instances : (p : Player) (is : List String) → worn s p pack is ≡ worn t p pack is
  unfolding worn
  worn-instances p [] = refl
  worn-instances p (i ∷ is) = rw (card_of-instances s t pack same i, worn-instances p is) refl

  owned_big_items-instances :
      (p : Player) (is : List String) → owned_big_items s p pack is ≡ owned_big_items t p pack is
  unfolding owned_big_items
  owned_big_items-instances p [] = refl
  owned_big_items-instances p (i ∷ is) = elim (Result-cases (item_of pack t i unknown_card)) [
    | inl (item, e) ↦
        rw (owned_big_items, item_of-instances i unknown_card, e, owned_big_items-instances p is)
          refl
    | inr (x, e) ↦
        rw (owned_big_items, item_of-instances i unknown_card, e, owned_big_items-instances p is)
          refl
  ]

  within-instances :
      (p : Player) (g : TraitGroup) → WithinCapacity s p pack g → WithinCapacity t p pack g
  within-instances p g (n, capacity, e, f, fit) = (
    n,
    capacity,
    sym (trait_count-instances s t pack same p g) ∙ e,
    sym (trait_capacity-instances s t pack same p g) ∙ f,
    fit,
  )

  pub Legal-instances : (p : Player) → Legal s p pack → Legal t p pack
  Legal-instances p (classes, races, may, (hands, slots, e, two, apart), (allowance, f, fit)) = (
    within-instances p TraitGroup.class classes,
    within-instances p TraitGroup.race races,
    λ i k u.
        let (item, g, a) = may i k u in
        (
          item,
          sym (item_of-instances i invalid_content) ∙ g,
          sym (item_restrictions_satisfied-instances s t pack same p item) ∙ a,
        ),
    (hands, slots, sym (worn-instances p p.equipped) ∙ e, two, apart),
    (
      allowance,
      sym (allowance_of-instances s t pack same p) ∙ f,
      subst (λ n. pos n ≤ℤ allowance) (owned_big_items-instances p (p.carried ++ p.equipped)) fit,
    ),
  )
