-- ===== src/Rules/Combat/Strength.antt =====
-- How a combat modifier counts, backend/game/internal/game/rules.go.
use munchkin.Shared.{
  +ℤ_assoc, +ℤ_parts, +ℤ_swap, >>=-eq-ok, Bool, List, Option, String, String-Eq, [], any, ap, arith,
  concat, eq_of_parts, if◌then◌else◌, none, ok, ok_injective, or_fail, pos, refl, some, subst, sym,
  true, ℕ, ℕ-Eq, ℤ, ℤ-Eq, ◌+ℤ◌, ◌==◌, ◌>>=◌, ◌||◌, ◌∙◌, ◌∷◌, ◌≡◌,
}
use munchkin.Shared.{illegal_command}
use munchkin.Cards.{contains_any}
use munchkin.Content.{Card, ModifierTarget, ModifierTarget-Eq, MonsterSpec, Pack}
use munchkin.Model.{
  CombatHelpAgreement, CombatHelpRewardStatus, CombatHelpRewardStatus-Eq, Encounter, Phase-Eq,
  Player, State, Status-Eq, definition_for_instance, player_by_id, player_index,
}
use munchkin.Rules.Character.{character_tags, definitions_of, player_at, player_definitions}
use munchkin.Rules.Character.Frames.{
  active_player_modifiers-instances, character_tags-instances, definitions_of-instances,
}
use munchkin.Rules.Combat.{
  CombatTotals, Side, card_ties, combat_totals, curse_ties, helper_side, monster_amount, monster_of,
  no_side, side_of, totals_from, totals_in, wins,
}

-- The encounter with so much more for the player.
abbrev pub strengthened : Encounter → ℕ → Encounter
strengthened e n = record e { player_combat_modifier = e.player_combat_modifier +ℤ pos n }

-- The same state with another encounter.
abbrev pub in_encounter : State → Encounter → State
in_encounter s e = record s { turn = record s.turn { encounter = some e } }

module _ (s t : State) (pack : Pack) (same : s.instances ≡ t.instances) where
  side_of-instances :
      (p : Player) (tags : List String) → side_of s p pack tags ≡ side_of t p pack tags
  unfolding side_of player_definitions
  side_of-instances p tags =
      rw
        (
          definitions_of-instances s t pack same (concat (p.equipped ∷ p.traits ∷ [])),
          active_player_modifiers-instances s t pack same p ModifierTarget.player_combat tags,
          active_player_modifiers-instances s t pack same p ModifierTarget.monster_combat tags,
        )
        refl

added : (a b c d x n : ℤ) → a +ℤ (x +ℤ n) +ℤ b +ℤ c +ℤ d ≡ a +ℤ x +ℤ b +ℤ c +ℤ d +ℤ n
added a b c d x n =
    ap (λ y. y +ℤ b +ℤ c +ℤ d) (+ℤ_assoc a x n)
    ∙ ap (λ y. y +ℤ c +ℤ d) (+ℤ_swap (a +ℤ x) n b)
    ∙ ap (λ y. y +ℤ d) (+ℤ_swap (a +ℤ x +ℤ b) n c)
    ∙ +ℤ_swap (a +ℤ x +ℤ b +ℤ c) n d

wins-more :
    (automatic tie : Bool) (player monster : ℤ) (n : ℕ)
    → wins automatic tie player monster ≡ true
    → wins automatic tie (player +ℤ pos n) monster ≡ true
unfolding wins
wins-more automatic tie player monster n h =
    ground (arith, +ℤ_parts player (pos n), eq_of_parts (player +ℤ pos n) monster)

-- How the result of the second combat compares to that of the first.
abbrev pub Strengthens : ℕ → CombatTotals → CombatTotals → Type 0
Strengthens n t t' =
    (t'.player_strength ≡ t.player_strength +ℤ pos n)
    × (t'.monster_strength ≡ t.monster_strength)
    × (t.player_wins ≡ true → t'.player_wins ≡ true)

totals_from-Strengthens :
    (e : Encounter) (n : ℕ) (own help : Side) (m : MonsterSpec) (tags : List String)
    (cards curses : List Card)
    → Strengthens n
        (totals_from e own help m tags cards curses)
        (totals_from (strengthened e n) own help m tags cards curses)
unfolding totals_from
totals_from-Strengthens e n own help m tags cards curses =
    let sum =
      added own.strength own.modifier (help.strength +ℤ help.modifier)
        (monster_amount ModifierTarget.player_combat tags m) e.player_combat_modifier (pos n) in
    (
      sum,
      refl,
      λ h.
          subst
            (λ x.
              wins (contains_any tags m.auto_defeat_character_tags)
                (any card_ties cards || any curse_ties curses) x
                (m.strength
                  +ℤ e.monster_combat_modifier
                  +ℤ own.monster_modifier
                  +ℤ help.monster_modifier
                  +ℤ monster_amount ModifierTarget.monster_combat tags m)
              ≡ true)
            (sym sum)
            (wins-more (contains_any tags m.auto_defeat_character_tags)
              (any card_ties cards || any curse_ties curses) _ _ n h),
    )

helper_side-instances :
    (s : State) (e : Encounter) (a : Option CombatHelpAgreement) (pack : Pack) (tags : List String)
    → helper_side s a pack tags ≡ helper_side (in_encounter s e) a pack tags
unfolding helper_side player_by_id player_index
helper_side-instances s e none pack tags = refl
helper_side-instances s e (some a) pack tags = λ j.
    if a.reward_status == CombatHelpRewardStatus.accepted
    then (or_fail (player_by_id s a.helper_player_id) illegal_command >>= λ helper.
        side_of-instances s (in_encounter s e) pack refl helper tags j)
    else ok no_side

totals_in-ok :
    (s : State) (e : Encounter) (i : ℕ) (pack : Pack) (p : Player) (m : MonsterSpec)
    (tags : List String) (cards : List Card) (own help : Side) (curses : List Card)
    → player_at s i ≡ ok p
    → monster_of s e pack ≡ ok m
    → character_tags s p pack ≡ ok tags
    → player_definitions s pack (p.equipped ∷ p.traits ∷ []) ≡ ok cards
    → side_of s p pack m.tags ≡ ok own
    → helper_side s e.combat_help pack m.tags ≡ ok help
    → definitions_of s pack p.persistent_curses ≡ ok curses
    → totals_in s e i pack ≡ ok (totals_from e own help m tags cards curses)
unfolding totals_in
totals_in-ok s e i pack p m tags cards own help curses f1 f2 f3 f4 f5 f6 f7 =
    rw (f1, f2, f3, f4, f5, f6, f7) refl

totals_in-Strengthens :
    (s : State) (i : ℕ) (pack : Pack) (e : Encounter) (n : ℕ) (t : CombatTotals)
    → totals_in s e i pack ≡ ok t
    → (t' : CombatTotals) × (totals_in (in_encounter s (strengthened e n)) (strengthened e n) i pack
        ≡ ok t')
      × Strengthens n t t'
unfolding totals_in monster_of player_definitions definition_for_instance
totals_in-Strengthens s i pack e n t h =
    let s' = in_encounter s (strengthened e n) in
    let (p, f1, h1) = >>=-eq-ok (player_at s i) _ h in
    let (m, f2, h2) = >>=-eq-ok (monster_of s e pack) _ h1 in
    let (tags, f3, h3) = >>=-eq-ok (character_tags s p pack) _ h2 in
    let (cards, f4, h4) = >>=-eq-ok (player_definitions s pack (p.equipped ∷ p.traits ∷ [])) _ h3 in
    let (own, f5, h5) = >>=-eq-ok (side_of s p pack m.tags) _ h4 in
    let (help, f6, h6) = >>=-eq-ok (helper_side s e.combat_help pack m.tags) _ h5 in
    let (curses, f7, h7) = >>=-eq-ok (definitions_of s pack p.persistent_curses) _ h6 in
    (
      totals_from (strengthened e n) own help m tags cards curses,
      totals_in-ok s' (strengthened e n) i pack p m tags cards own help curses f1 f2
          (sym (character_tags-instances s s' pack refl p) ∙ f3)
          (sym (definitions_of-instances s s' pack refl (concat (p.equipped ∷ p.traits ∷ []))) ∙ f4)
          (sym (side_of-instances s s' pack refl p m.tags) ∙ f5)
          (sym (helper_side-instances s (strengthened e n) e.combat_help pack m.tags) ∙ f6)
          (sym (definitions_of-instances s s' pack refl p.persistent_curses) ∙ f7),
      subst (λ x. Strengthens n x (totals_from (strengthened e n) own help m tags cards curses))
          (ok_injective h7) (totals_from-Strengthens e n own help m tags cards curses),
    )

-- Where a combat can be evaluated, so can the one in which the player's modifier is larger by n: the
-- strength of the player's side is larger by n, that of the monster's side is the same, and a combat
-- that was won stays won.
pub combat_totals-Strengthens :
    (s : State) (i : ℕ) (pack : Pack) (e : Encounter) (n : ℕ) (t : CombatTotals)
    → s.turn.encounter ≡ some e
    → combat_totals s i pack ≡ ok t
    → (t' : CombatTotals) × (combat_totals (in_encounter s (strengthened e n)) i pack ≡ ok t')
      × Strengthens n t t'
unfolding combat_totals
combat_totals-Strengthens s i pack e n t here h =
    let (e', f, k) = >>=-eq-ok (or_fail s.turn.encounter illegal_command) _ h in
    let same : e' ≡ e = ground arith in
    totals_in-Strengthens s i pack e n t (subst (λ x. totals_in s x i pack ≡ ok t) same k)
