-- ===== src/Examples/Packs.antt =====
-- Card packs of one card, for the examples.
use munchkin.Shared.{pos, [], ◌∷◌, none, some}
use munchkin.Content.{
  Pack, Card, DeckKind, CardKind, InteractionScope, ItemSpec, ItemSlot, ItemSize,
}

abbrev pub door_card : Card
door_card = record {
  id = "card";
  name = "card";
  deck = DeckKind.door;
  kind = CardKind.other "";
  copies = pos 1;
  interaction_scope = InteractionScope.other "";
  monster = none;
  item = none;
  trait = none;
  attachment = none;
  effects = [];
  abilities = [];
  combat_capability = none;
  theft_capability = none;
  rules_text = "";
  flavor_text = "";
  image = "";
  alt_text = "";
}

abbrev pub door_pack : Pack
door_pack = record {
  schema_version = pos 1;
  set_id = "base";
  version = pos 1;
  author = "";
  license = "";
  source = "";
  content_digest = "";
  cards = door_card ∷ [];
  index = ("card", door_card) ∷ [];
}

abbrev pub hat : ItemSpec
hat = record {
  slot = ItemSlot.other "head";
  hands = pos 0;
  size = ItemSize.other "";
  value = pos 200;
  bonus = pos 1;
  escape_bonus = pos 0;
  hand_limit_bonus = pos 0;
  big_allowance = pos 0;
  restrictions = none;
  modifiers = [];
}

abbrev pub hat_card : Card
hat_card = record door_card { item = some hat }

abbrev pub hat_pack : Pack
hat_pack = record door_pack { cards = hat_card ∷ []; index = ("card", hat_card) ∷ [] }
