-- ===== src/Validation/Encounters.antt =====
-- The realised effects of an advanced combat, backend/game/internal/game/model.go.
use munchkin.Shared.{
  ℕ, ℕ-Eq, suc, String, String-Eq, Bool, true, false, not, ◌&&◌, ◌||◌, ◌==◌, ◌!=◌, if◌then◌else◌,
  List, [], ◌∷◌, Option, none, some, is_empty, contains, each, pos, ltb_ℤ, ℤ-Eq, Check, done,
  fail_when, err, ◌>>◌, ◌>>=◌,
}
use munchkin.Shared.{illegal_command, incompatible_state}
use munchkin.Content.{CombatCapabilityKind, CombatCapabilityKind-Eq}
use munchkin.Model.{State, Encounter, CombatEffect, CombatHelpAgreement}
use munchkin.Profile.{RulesProfile, profile}

-- The additional monsters: no empty name, and none that was there before.
unfoldable pub check_monsters : List String → List String → Check
check_monsters seen [] = done
check_monsters seen (m ∷ ms) =
    let rest = check_monsters (m ∷ seen) ms in
    do fail_when (m == "") illegal_command; fail_when (contains seen m) illegal_command; rest

malformed_effect : CombatCapabilityKind → List String → CombatEffect → Bool
malformed_effect CombatCapabilityKind.enhance_monster monsters f =
    ltb_ℤ f.amount (pos 1)
    || (ltb_ℤ (pos 10) f.amount
        || (f.target_effect_id != "" || not (contains monsters f.target_monster_instance_id)))
malformed_effect CombatCapabilityKind.counter_combat_effect monsters f =
    f.amount != pos 0
    || (f.target_monster_instance_id != "" || (f.target_effect_id == "" || not f.active))
malformed_effect _ monsters f = true

unfoldable pub check_effects : List String → List String → List CombatEffect → Check
unfolding malformed_effect
check_effects monsters seen [] = done
check_effects monsters seen (f ∷ fs) =
    let rest = check_effects monsters (f.id ∷ seen) fs in
    do
      fail_when (f.id == "") illegal_command
      fail_when (contains seen f.id) illegal_command
      fail_when (malformed_effect f.kind monsters f) illegal_command
      rest

-- The first effect of that name, as `slices.IndexFunc` finds it.
effect_by_id : String → List CombatEffect → Option CombatEffect
effect_by_id id [] = none
effect_by_id id (f ∷ fs) = if f.id == id then some f else effect_by_id id fs

-- A counter aims at an enhancement that is no longer active.
check_counter : List CombatEffect → CombatEffect → Check
unfolding effect_by_id
check_counter fs f =
    if f.kind != CombatCapabilityKind.counter_combat_effect
    then done
    else elim (effect_by_id f.target_effect_id fs) [
      | none ↦ err illegal_command
      | some g ↦
          fail_when (g.kind != CombatCapabilityKind.enhance_monster || g.active) illegal_command
    ]

-- `counterTargets[id]`: how many counters aim at an effect.
unfoldable pub counters_of : String → List CombatEffect → ℕ
counters_of id [] = 0
counters_of id (f ∷ fs) =
    let rest = counters_of id fs in
    if f.kind == CombatCapabilityKind.counter_combat_effect && f.target_effect_id == id
    then suc rest
    else rest

-- An enhancement has no counter while it is active, and exactly one otherwise.
check_enhancement : List CombatEffect → CombatEffect → Check
check_enhancement fs f =
    if f.kind != CombatCapabilityKind.enhance_monster
    then done
    else fail_when (counters_of f.id fs != (if f.active then 0 else 1)) illegal_command

forced : Option CombatHelpAgreement → Bool
forced none = false
forced (some a) = a.forced

unfoldable pub check_encounter : RulesProfile → Encounter → Check
unfolding check_counter check_enhancement forced
check_encounter p e = do
  fail_when
      (not p.advanced_combat
        && (not (is_empty e.additional_monster_instance_ids)
            || (not (is_empty e.combat_effects) || forced e.combat_help)))
      incompatible_state
  check_monsters (e.monster_instance_id ∷ []) e.additional_monster_instance_ids
  check_effects (e.monster_instance_id ∷ e.additional_monster_instance_ids) [] e.combat_effects
  each (check_counter e.combat_effects) e.combat_effects
  each (check_enhancement e.combat_effects) e.combat_effects

-- `State.validateAdvancedEncounter`.
unfoldable pub validate_advanced_encounter : State → Check
validate_advanced_encounter s = elim s.turn.encounter [
  | none ↦ done
  | some e ↦ do p ← profile s; check_encounter p e
]
