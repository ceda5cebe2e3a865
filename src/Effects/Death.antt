-- ===== src/Effects/Death.antt =====
-- The death of a player, backend/game/internal/game/effects.go.
pub mod Conservation
use munchkin.Shared.{
  List, Result, String, String-Eq, [], fail_when, false, if◌then◌else◌, is_empty, not, ok, pos,
  signed_length, some, true, ℕ, ℕ-Eq, ℤ-Eq, ◌++◌, ◌==◌, ◌>>=◌, ◌>>◌, ◌∷◌,
}
use munchkin.Shared.{illegal_command, unknown_card}
use munchkin.Content.{CardKind, CardKind-Eq, Pack}
use munchkin.DeathLoot.{death_loot_seat_order, discard_all}
use munchkin.Model.{DeathLoot, Phase-Eq, Player, State, Status-Eq}
use munchkin.Profile.{RulesProfile, RulesProfile-Eq, profile}
use munchkin.Rules.Character.{card_of, player_at}
use munchkin.Rules.Loadout.{set_player}

-- The attachments that a dead player keeps, and those that go with the other cards.
unfoldable pub split_attachments : State → Pack → List String → Result (List String × List String)
split_attachments s pack [] = ok ([], [])
split_attachments s pack (i ∷ is) = do
  card ← card_of pack s i unknown_card
  rest ← split_attachments s pack is
  ok (if card.kind == CardKind.trait_attachment then (i ∷ rest.0, rest.1) else (rest.0, i ∷ rest.1))

abbrev pub corpse : Player → List String → Player
corpse p kept = record p {
  hand = [];
  carried = [];
  equipped = [];
  attachments = kept;
  cheat_targets = [];
  dead = true;
  needs_redraw = true;
}

-- The loot as `killPlayer` first builds it; the other fields are Go's zero values.
abbrev pub new_loot : String → List String → List String → DeathLoot
new_loot dead pool seats = record {
  dead_player_id = dead;
  initial_count = signed_length pool;
  pool = pool;
  seat_order = seats;
  seat_index = pos 0;
  picks = [];
  passed_player_ids = [];
  discarded_instance_ids = [];
  completed = false;
}

-- What becomes of the cards: they wait for the seats, or are discarded where there is none.
unfoldable pub leave_loot : State → DeathLoot → Pack → Result State
leave_loot s loot pack =
    if is_empty loot.pool
    then ok (record s { death_loot = some (record loot { completed = true }) })
    else if is_empty loot.seat_order
    then (discard_all s loot.pool pack >>= λ s'. ok (record s' {
      death_loot =
          some (record loot { discarded_instance_ids = loot.pool; pool = []; completed = true });
    }))
    else ok (record s { death_loot = some loot })

-- What the dead player loses goes to the discard piles, or to the others.
unfoldable pub leave_cards :
    RulesProfile → State → ℕ → Player → List String × List String → Pack → Result State
leave_cards r s i p split pack =
    if not r.death_loot
    then discard_all (set_player s i (corpse p split.0))
        (p.hand ++ p.carried ++ p.equipped ++ split.1) pack
    else leave_loot (set_player s i (corpse p split.0))
        (new_loot p.id (p.hand ++ p.carried ++ p.equipped ++ split.1)
          (death_loot_seat_order (set_player s i (corpse p split.0)) i))
        pack

-- `killPlayer`.
unfoldable pub kill_player : State → ℕ → Pack → Result State
kill_player s i pack = do
  p ← player_at s i
  fail_when p.dead illegal_command
  split ← split_attachments s pack p.attachments
  r ← profile s
  leave_cards r s i p split pack
