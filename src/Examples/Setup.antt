-- ===== src/Examples/Setup.antt =====
-- Rules profiles at concrete values.
use munchkin.Shared.{String-discrete, ℤ-discrete, ℕ_discrete, done, ◌≡◌, refl, ◌↔◌}
use munchkin.Profile.{RulesProfile-discrete, rules_profile, validate_profile, theft_profile}
use munchkin.Profile.Laws.{IsSupported, Needs, validate_profile_iff, validate_profile-ladder}

theft-supported : validate_profile theft_profile ≡ done
unfolding validate_profile rules_profile theft_profile RulesProfile-discrete String-discrete
    ℤ-discrete ℕ_discrete
theft-supported = refl

-- The profile with theft is one of the five.
validate_profile_iff_example : (validate_profile theft_profile ≡ done) ↔ IsSupported theft_profile
validate_profile_iff_example = validate_profile_iff theft_profile

validate_profile-ladder_example :
    Needs theft_profile.death_loot theft_profile.theft
    × Needs theft_profile.theft theft_profile.player_economy
    × (theft_profile.player_economy ≡ theft_profile.advanced_combat)
    × (theft_profile.target_and_run_away ≡ theft_profile.advanced_combat)
    × Needs theft_profile.advanced_combat theft_profile.combat_responses
validate_profile-ladder_example = validate_profile-ladder theft_profile theft-supported
