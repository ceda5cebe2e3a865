-- ===== src/Rules/Character/Frames.antt =====
-- What the readings of a player need of the state, backend/game/internal/game/rules.go: only its
-- instances.
use munchkin.Shared.{
  Error, List, Option-cases, String, String-Eq, [], arith, concat, get_elem?, inl, inr, ok, refl,
  some, ℕ, ℕ-Eq, ◌∷◌, ◌≡◌,
}
use munchkin.Content.{ItemSpec, ModifierTarget, ModifierTarget-Eq, Pack, TraitGroup, TraitGroup-Eq}
use munchkin.Model.{Player, State, definition_for_instance}
use munchkin.Rules.Character.{
  active_player_modifiers, allowance_of, card_of, character_tags, count_traits, definitions_of,
  item_restrictions_satisfied, player_at, player_definitions, trait_capacity, trait_count,
}

module _ (s t : State) (pack : Pack) (same : s.instances ≡ t.instances) where
  pub card_of-instances : (i : String) (e : Error) → card_of pack s i e ≡ card_of pack t i e
  unfolding definition_for_instance
  card_of-instances i e = rw (same) refl

  pub definitions_of-instances :
      (is : List String) → definitions_of s pack is ≡ definitions_of t pack is
  unfolding definitions_of
  definitions_of-instances [] = refl
  definitions_of-instances (i ∷ is) = rw (card_of-instances i, definitions_of-instances is) refl

  pub character_tags-instances : (p : Player) → character_tags s p pack ≡ character_tags t p pack
  unfolding character_tags player_definitions
  character_tags-instances p = rw (definitions_of-instances) refl

  pub active_player_modifiers-instances :
      (p : Player) (target : ModifierTarget) (tags : List String)
      → active_player_modifiers s p pack target tags ≡ active_player_modifiers t p pack target tags
  unfolding active_player_modifiers player_definitions
  active_player_modifiers-instances p target tags =
      rw
        (
          character_tags-instances p,
          definitions_of-instances (concat (p.equipped ∷ p.traits ∷ [])),
          definitions_of-instances p.persistent_curses,
        )
        refl

  pub allowance_of-instances : (p : Player) → allowance_of s p pack ≡ allowance_of t p pack
  unfolding allowance_of player_definitions
  allowance_of-instances p = rw (definitions_of-instances) refl

  pub item_restrictions_satisfied-instances :
      (p : Player) (item : ItemSpec)
      → item_restrictions_satisfied s p item pack ≡ item_restrictions_satisfied t p item pack
  unfolding item_restrictions_satisfied
  item_restrictions_satisfied-instances p item = elim (Option-cases item.restrictions) [
    | inl e ↦ rw (item_restrictions_satisfied, e) refl
    | inr (r, e) ↦ rw (item_restrictions_satisfied, e, character_tags-instances p) refl
  ]

  pub trait_capacity-instances :
      (p : Player) (g : TraitGroup) → trait_capacity s p g pack ≡ trait_capacity t p g pack
  unfolding trait_capacity
  trait_capacity-instances p g = rw (definitions_of-instances) refl

  count_traits-instances :
      (g : TraitGroup) (is : List String) → count_traits s g pack is ≡ count_traits t g pack is
  unfolding count_traits
  count_traits-instances g [] = refl
  count_traits-instances g (i ∷ is) = rw (card_of-instances i, count_traits-instances g is) refl

  pub trait_count-instances :
      (p : Player) (g : TraitGroup) → trait_count s p g pack ≡ trait_count t p g pack
  unfolding trait_count
  trait_count-instances p g = count_traits-instances g p.traits

pub player_at-found :
    (s : State) (i : ℕ) {p : Player} → player_at s i ≡ ok p → get_elem? s.players i ≡ some p
player_at-found s i h = ground arith
