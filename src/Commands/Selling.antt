-- ===== src/Commands/Selling.antt =====
-- Selling items for levels, backend/game/internal/game/engine.go.
use munchkin.Shared.{
  List, Result, String, String-Eq, [], contains, fail_when, is_empty, leb_ℤ, ltb_ℤ, negsuc, not, ok,
  pos, suc, ℕ, ℕ-Eq, ℤ, ℤ-Eq, ◌&&◌, ◌+ℤ◌, ◌-ℤ◌, ◌/◌, ◌>>=◌, ◌>>◌, ◌||◌, ◌∷◌,
}
use munchkin.Shared.{illegal_command}
use munchkin.Cards.{unique_strings}
use munchkin.Commands.Guards.{require_phase, transition}
use munchkin.Commands.Kinds.{Command, EventType, StateChanged}
use munchkin.Content.{Pack}
use munchkin.DeathLoot.Conservation.{total}
use munchkin.Effects.Immediate.{min_ℤ}
use munchkin.Effects.Queue.{no_finalize, queue_loadout_resolution}
use munchkin.Model.{PendingFinalize, Phase, Phase-Eq, Player, State, Status-Eq}
use munchkin.Profile.{profile}
use munchkin.Rules.Character.{player_at}
use munchkin.Rules.Discarding.{discard_owned_all}
use munchkin.Rules.Loadout.{item_of, set_player}

-- `SaleLevelCost` of rules.go.
abbrev pub sale_level_cost : ℕ
sale_level_cost = 1000

-- The loop over the items: their value.
unfoldable pub sale_total : State → Player → Pack → List String → Result ℤ
sale_total s p pack [] = ok (pos 0)
sale_total s p pack (i ∷ is) = do
  fail_when (not (contains p.hand i) && (not (contains p.carried i) && not (contains p.equipped i)))
      illegal_command
  item ← item_of pack s i illegal_command
  rest ← sale_total s p pack is
  ok (item.value +ℤ rest)

-- `total / SaleLevelCost`, rounded towards zero.
unfoldable pub sale_levels : ℤ → ℤ
sale_levels (pos n) = pos (n / sale_level_cost)
sale_levels (negsuc n) = pos 0 -ℤ pos (suc n / sale_level_cost)

abbrev pub phase_only : Phase → PendingFinalize
phase_only phase = record no_finalize { phase = phase }

-- `handleSellItems`.
unfoldable pub handle_sell_items : State → Command → Pack → Result StateChanged
handle_sell_items s c pack = do
  i ← require_phase s c (Phase.preparation ∷ Phase.charity ∷ [])
  fail_when (is_empty c.instance_ids || not (unique_strings c.instance_ids)) illegal_command
  p ← player_at s i
  total ← sale_total s p pack c.instance_ids
  fail_when (ltb_ℤ (sale_levels total) (pos 1)) illegal_command
  r ← profile s
  fail_when (leb_ℤ (r.winning_level -ℤ pos 1) p.level) illegal_command
  sold ← discard_owned_all s i c.instance_ids pack
  q ← player_at sold i
  queued ←
      queue_loadout_resolution
        (set_player sold i
          (record q { level = min_ℤ (r.winning_level -ℤ pos 1) (q.level +ℤ sale_levels total) }))
        i "" [] (phase_only s.turn.phase) pack
  transition EventType.items_sold c queued.0 []
