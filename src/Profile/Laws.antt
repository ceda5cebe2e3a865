-- ===== src/Profile/Laws.antt =====
-- What the rules profiles promise one another and the validation.
use munchkin.Shared.{
  ℤ, String, Bool, true, some, ◌≡◌, ◌⊎◌, inl, inr, ◌↔◌, arith, done, Option-cases, String-discrete,
  ℤ-discrete, ℕ_discrete,
}
use munchkin.Profile.{
  RulesProfile, RulesProfile-discrete, first_edition_core_profile, lobby_multiplayer_profile,
  advanced_combat_profile, theft_profile, death_loot_profile, rules_profile, validate_profile,
}

-- The profiles that the program supports.
abbrev pub IsSupported : RulesProfile → Type 0
IsSupported p =
    (p ≡ first_edition_core_profile)
    ⊎ ((p ≡ lobby_multiplayer_profile)
        ⊎ ((p ≡ advanced_combat_profile) ⊎ ((p ≡ theft_profile) ⊎ (p ≡ death_loot_profile))))

rules_profile-IsSupported :
    (id : String) (version : ℤ) {p : RulesProfile}
    → rules_profile id version ≡ some p
    → (p.id ≡ id) × (p.version ≡ version) × IsSupported p
unfolding rules_profile death_loot_profile
rules_profile-IsSupported id version h = ground arith

validate_profile-IsSupported : (p : RulesProfile) → validate_profile p ≡ done → IsSupported p
unfolding validate_profile
validate_profile-IsSupported p h = elim (Option-cases (rules_profile p.id p.version)) [
  | inl e ↦ ground arith
  | inr (q, e) ↦ ground (arith, rules_profile-IsSupported p.id p.version {p = q} e)
]

IsSupported-validate_profile : (p : RulesProfile) → IsSupported p → validate_profile p ≡ done
unfolding validate_profile rules_profile death_loot_profile RulesProfile-discrete String-discrete
    ℤ-discrete ℕ_discrete
IsSupported-validate_profile p (inl e) = rw e
IsSupported-validate_profile p (inr (inl e)) = rw e
IsSupported-validate_profile p (inr (inr (inl e))) = rw e
IsSupported-validate_profile p (inr (inr (inr (inl e)))) = rw e
IsSupported-validate_profile p (inr (inr (inr (inr e)))) = rw e

-- A profile passes its validation exactly when it is one of the five that the program defines,
-- field by field.
pub validate_profile_iff : (p : RulesProfile) → (validate_profile p ≡ done) ↔ IsSupported p
validate_profile_iff p = (validate_profile-IsSupported p, IsSupported-validate_profile p)

-- `a` is enabled only where `b` is.
abbrev pub Needs : Bool → Bool → Type 0
Needs a b = a ≡ true → b ≡ true

-- In a profile that passes its validation the cards of the dead need theft, theft needs the player
-- economy, and the economy, the target effects and the advanced combat come together and need
-- combat responses.
pub validate_profile-ladder :
    (p : RulesProfile)
    → validate_profile p ≡ done
    → Needs p.death_loot p.theft
      × Needs p.theft p.player_economy
      × (p.player_economy ≡ p.advanced_combat)
      × (p.target_and_run_away ≡ p.advanced_combat)
      × Needs p.advanced_combat p.combat_responses
unfolding death_loot_profile
validate_profile-ladder p h = ground (arith, validate_profile-IsSupported p h)
