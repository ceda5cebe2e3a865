-- ===== src/Effects/Immediate/Levels.antt =====
-- Gained levels and the end of the game, backend/game/internal/game/effects.go.
use munchkin.Shared.{
  +ℤ_parts, -ℤ_parts, >>=-eq-ok, Bool, Bool-cases, String-Eq, ap, arith, eq_of_parts, false,
  get_elem?, inl, inr, leb_ℤ, ok, ok_injective, pos, refl, some, subst, sym, true, ℕ, ℕ-Eq, ℤ, ℤ-Eq,
  ◌&&◌, ◌<ℤ◌, ◌==◌, ◌∙◌, ◌≡◌, ◌≤ℤ◌,
}
use munchkin.Cards.Transfers.Conservation.{get_elem?-set}
use munchkin.Commands.Dealing.Exactness.{known}
use munchkin.Content.{Effect}
use munchkin.Effects.Immediate.{after_gain, gain_level, gained_level}
use munchkin.Model.{Phase-Eq, Player, State, Status, Status-Eq}
use munchkin.Profile.{RulesProfile, RulesProfile-Eq, profile}

-- A gain leaves no level above the winning one, and one that may not win leaves a level below it.
gained_level-bounds :
    (level amount : ℤ) (can_win : Bool) (winning : ℤ)
    → (gained_level level amount can_win winning ≤ℤ winning)
      × (can_win ≡ false → gained_level level amount can_win winning <ℤ winning)
unfolding gained_level
gained_level-bounds level amount can_win winning = (
  (ground (arith, +ℤ_parts level amount, -ℤ_parts winning (pos 1))),
  λ h. ground (arith, +ℤ_parts level amount, -ℤ_parts winning (pos 1)),
)

-- What a gain leaves.
abbrev pub Gained : State → ℕ → Effect → ℤ → Type 0
Gained t i e winning =
    (q : Player) × (get_elem? t.players i ≡ some q)
    × (q.level ≤ℤ winning)
    × ((t.status == Status.finished) ≡ true
        → (e.can_win ≡ true) × (q.level ≡ winning) × (t.winner_player_id ≡ q.id))
    × (e.can_win ≡ false → q.level <ℤ winning)

after_gain-Gained :
    (s : State) (i : ℕ) (p : Player) (e : Effect) (winning : ℤ)
    → get_elem? s.players i ≡ some p
    → (s.status == Status.finished) ≡ false
    → Gained (after_gain s i p e winning) i e winning
unfolding after_gain
after_gain-Gained s i p e winning there open_ =
    let level = gained_level p.level e.amount e.can_win winning in
    let q : Player = record p { level = level } in
    let (top, below) = gained_level-bounds p.level e.amount e.can_win winning in
    let found = get_elem?-set s.players i p q there in
    elim (Bool-cases (e.can_win && leb_ℤ winning level)) [
      | inl b ↦ rw (b) (
        q,
        found,
        top,
        λ _. ((ground arith), eq_of_parts level winning (ground arith), refl),
        below,
      )
      | inr b ↦ rw (b) (q, found, top, (λ f. absurd (ground arith)), below)
    ]

-- When a gain of levels succeeds in an open game, the level of the player is afterwards at most the
-- winning one. The game is then finished only if the effect may win, and in that case the player has
-- exactly the winning level and is the winner; an effect that may not win leaves the player below
-- it.
pub gain_level-Gained :
    (s : State) (i : ℕ) (p : Player) (e : Effect) (r : RulesProfile) (t : State)
    → get_elem? s.players i ≡ some p
    → profile s ≡ ok r
    → (s.status == Status.finished) ≡ false
    → gain_level s i p e ≡ ok t
    → Gained t i e r.winning_level
unfolding gain_level
gain_level-Gained s i p e r t there known open_ h =
    let (r', e1, k) = >>=-eq-ok (profile s) _ h in
    let same : r' ≡ r = ok_injective (sym e1 ∙ known) in
    subst (λ u. Gained u i e r.winning_level)
      (ap (λ x. after_gain s i p e x.winning_level) (sym same) ∙ ok_injective k)
      (after_gain-Gained s i p e r.winning_level there open_)
