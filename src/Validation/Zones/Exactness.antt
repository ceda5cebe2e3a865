-- ===== src/Validation/Zones/Exactness.antt =====
-- The zones of card instances, `validateInstanceZones` of backend/game/internal/game/model.go.
use munchkin.Shared.{
  suc, ◌+◌, ◌≤◌, ◌<◌, ◌≡◌, refl, ap, sym, ◌∙◌, ◌↔◌, inl, inr, String, String-Eq, List, [], ◌∷◌,
  ◌++◌, Bool, true, false, not, ◌&&◌, ◌!=◌, ℕ-Eq, Map, has_key, lookup, keys, contains, concat, any,
  length, arith, count, hit, hit_self, contains-count, missing-count, count-contains, count-missing,
  any-false, any-false_inv, ok, ◌>>=◌, done, Result-cases, Bool-cases, is_empty,
}
use munchkin.Cards.{one_if, one_if-le, one_if-pos, count-le-length}
use munchkin.Model.{State, CardInstance}
use munchkin.Validation.Zones.{add_zone, add_zones, zones, validate_instance_zones}

-- All cards of a state, zone after zone.
abbrev pub all_cards : State → List String
all_cards s = concat (zones s)

module _ (m : Map CardInstance) where
  add_zone-append :
      (owners xs ys : List String)
      → add_zone m owners (xs ++ ys) ≡ (add_zone m owners xs >>= λ o. add_zone m o ys)
  unfolding add_zone
  add_zone-append owners [] ys = refl
  add_zone-append owners (x ∷ xs) ys = ground (arith, add_zone-append (x ∷ owners) xs ys)

  add_zones-concat :
      (owners : List String) (zs : List (List String))
      → add_zones m owners zs ≡ add_zone m owners (concat zs)
  unfolding add_zone add_zones
  add_zones-concat owners [] = refl
  add_zones-concat owners (z ∷ zs) =
      ap (λ k. add_zone m owners z >>= k) (λ i o. add_zones-concat o zs i)
      ∙ sym (add_zone-append owners z (concat zs))

  -- What the owners hold after a zone was added.
  add_zone-count :
      (owners xs : List String) {r : List String} (a : String)
      → add_zone m owners xs ≡ ok r
      → count a r ≡ count a owners + count a xs
  unfolding add_zone
  add_zone-count owners [] a h = ground arith
  add_zone-count owners (x ∷ xs) {r} a h = ground (arith, add_zone-count (x ∷ owners) xs {r = r} a)

  abbrev Distinct : List String → Type 0
  Distinct xs = (a : String) → count a xs ≤ 1

  Distinct-cons :
      (x : String) (xs : List String) → contains xs x ≡ false → Distinct xs → Distinct (x ∷ xs)
  unfolding hit
  Distinct-cons x xs h d a = ground (arith, missing-count x xs h, d a)

  add_zone-Distinct :
      (owners xs : List String) {r : List String}
      → Distinct owners
      → add_zone m owners xs ≡ ok r
      → Distinct r
  unfolding add_zone
  add_zone-Distinct owners [] d h = ground (arith)
  add_zone-Distinct owners (x ∷ xs) {r} d h = elim (Bool-cases (contains owners x)) [
    | inl there ↦ ground arith
    | inr new ↦ add_zone-Distinct (x ∷ owners) xs (Distinct-cons x owners new d) (ground arith)
  ]

  add_zone-known :
      (owners xs : List String) {r : List String} (a : String)
      → has_key a m ≡ false
      → add_zone m owners xs ≡ ok r
      → count a xs ≡ 0
  unfolding add_zone hit
  add_zone-known owners [] a k h = refl
  add_zone-known owners (x ∷ xs) {r} a k h =
      ground (arith, add_zone-known (x ∷ owners) xs {r = r} a)

  -- Known instances, none of which is claimed twice, are accepted.
  add_zone-ok :
      (owners xs : List String)
      → ((a : String) → count a owners + count a xs ≤ 1)
      → ((a : String) → 0 < count a xs → has_key a m ≡ true)
      → (r : List String) × (add_zone m owners xs ≡ ok r)
  unfolding add_zone
  add_zone-ok owners [] d k = (owners, refl)
  add_zone-ok owners (x ∷ xs) d k =
      let known : has_key x m ≡ true = k x (omega (arith, hit_self x)) in
      let new : contains owners x ≡ false =
        count-missing x owners (omega (arith, d x, hit_self x)) in
      let (r, e) =
        add_zone-ok (x ∷ owners) xs (λ a. omega (arith, d a)) (λ a p. k a (omega arith)) in
      (r, ground (arith))

has_key-count : (a : String) (m : Map CardInstance) → has_key a m ≡ true → 0 < count a (keys m)
unfolding lookup hit
has_key-count a [] h = cc
has_key-count a ((k, v) ∷ m) h = ground (arith, has_key-count a m)

count-has_key : (a : String) (m : Map CardInstance) → 0 < count a (keys m) → has_key a m ≡ true
unfolding lookup hit
count-has_key a [] h = absurd (omega arith)
count-has_key a ((k, v) ∷ m) h = ground (arith, count-has_key a m)

length-keys : (m : Map CardInstance) → length (keys m) ≡ length m
length-keys [] = refl
length-keys ((k, v) ∷ m) = ap suc (length-keys m)

-- Each instance lies in one zone, once, and the zones hold nothing else.
pub record EachInOneZone (s : State) : Type 0 where
  pub inhabited : is_empty s.instances ≡ false
  pub exact : (a : String) → count a (all_cards s) ≡ one_if (has_key a s.instances)

missing_below :
    (m : Map CardInstance) (owners : List String) (a b : String)
    → count b owners ≤ one_if (has_key b m)
    → has_key a m ≡ true
    → count a owners ≡ 0
    → count b (a ∷ owners) ≤ count b (keys m)
unfolding hit
missing_below m owners a b sub k z = ground (arith, has_key-count a m, has_key-count b m)

-- A missing key leaves fewer owners than entries.
missing-shorter :
    (m : Map CardInstance) (owners : List String) (a : String)
    → ((b : String) → count b owners ≤ one_if (has_key b m))
    → has_key a m ≡ true
    → count a owners ≡ 0
    → suc (length owners) ≤ length m
missing-shorter m owners a sub k z =
    omega (arith, length-keys m, count-le-length (a ∷ owners) (keys m) below)
  where
    below : (b : String) → count b (a ∷ owners) ≤ count b (keys m)
    below b = missing_below m owners a b (sub b) k z

-- Distinct owners that fill a map, or are as many as its entries, leave no key out.
key-owned :
    (m : Map CardInstance) (owners : List String) (a : String)
    → ((b : String) → count b owners ≤ one_if (has_key b m))
    → (length owners != length m && any (λ k. not (contains owners k)) (keys m)) ≡ false
    → has_key a m ≡ true
    → 0 < count a owners
key-owned m owners a sub h k = elim (Bool-cases (contains owners a)) [
  | inl there ↦ contains-count a owners there
  | inr missing ↦
      let few = missing-shorter m owners a sub k (missing-count a owners missing) in
      let kept = any-false_inv (λ k'. not (contains owners k')) (keys m) a in
      ground (arith, few, kept, has_key-count a m k)
]

distinct_known-sub :
    (m : Map CardInstance) (owners : List String) (b : String)
    → count b owners ≤ 1
    → (has_key b m ≡ false → count b owners ≡ 0)
    → count b owners ≤ one_if (has_key b m)
distinct_known-sub m owners b d k = ground arith

-- Whether an instance is left over.
abbrev left_over : Map CardInstance → List String → Bool
left_over m owners = length owners != length m && any (λ k. not (contains owners k)) (keys m)

owned-exact :
    (m : Map CardInstance) (cards : List String) {r : List String}
    → add_zone m [] cards ≡ ok r
    → left_over m r ≡ false
    → (a : String) → count a cards ≡ one_if (has_key a m)
owned-exact m cards {r} q h a = elim (Bool-cases (has_key a m)) [
  | inl known ↦ rw known (omega (arith, sum, distinct a, key-owned m r a below h known))
  | inr new ↦ rw new (add_zone-known m [] cards {r = r} a new q)
]
  where
    sum : count a r ≡ 0 + count a cards
    sum = add_zone-count m [] cards {r = r} a q

    distinct : (b : String) → count b r ≤ 1
    distinct = add_zone-Distinct m [] cards (λ b. omega arith) q

    below : (b : String) → count b r ≤ one_if (has_key b m)
    below b = distinct_known-sub m r b (distinct b) (λ n.
        add_zone-count m [] cards {r = r} b q
        ∙ omega (arith, add_zone-known m [] cards {r = r} b n q))

validate_instance_zones-EachInOneZone :
    (s : State) → validate_instance_zones s ≡ done → EachInOneZone s
unfolding validate_instance_zones
validate_instance_zones-EachInOneZone s h =
    elim (Result-cases (add_zones s.instances [] (zones s))) [
      | inr (e, q) ↦ ground arith
      | inl (r, q) ↦ record {
        inhabited = ground arith;
        exact =
            owned-exact s.instances (all_cards s)
              (sym (add_zones-concat s.instances [] (zones s)) ∙ q) (ground arith);
      }
    ]

exact-none-left :
    (m : Map CardInstance) (cards : List String) {r : List String}
    → ((a : String) → count a cards ≡ one_if (has_key a m))
    → add_zone m [] cards ≡ ok r
    → left_over m r ≡ false
exact-none-left m cards {r} exact q = rw none_missing (ground arith)
  where
    none_missing : any (λ k. not (contains r k)) (keys m) ≡ false
    none_missing =
        any-false (λ k. not (contains r k)) (keys m) (λ a k. owned_key a (count-has_key a m k))
      where
        owned_key : (a : String) → has_key a m ≡ true → not (contains r a) ≡ false
        owned_key a k = rw (
            count-contains a r
              (omega (arith, add_zone-count m [] cards {r = r} a q, exact a, ap one_if k)))

EachInOneZone-validate_instance_zones :
    (s : State) → EachInOneZone s → validate_instance_zones s ≡ done
unfolding validate_instance_zones
EachInOneZone-validate_instance_zones s z =
    let (r, q) =
      add_zone-ok s.instances [] (all_cards s)
        (λ a. omega (arith, z.exact a, one_if-le (has_key a s.instances)))
        (λ a p. one_if-pos (has_key a s.instances) (omega (arith, z.exact a))) in
    rw (add_zones-concat s.instances [] (zones s), q, z.inhabited, ◌>>=◌)
      (rw (exact-none-left s.instances (all_cards s) z.exact q))

-- The check of the zones accepts a state exactly when it has card instances, each of them lies in
-- one zone and only once, and no zone holds anything else.
pub validate_instance_zones_iff : (s : State) → (validate_instance_zones s ≡ done) ↔ EachInOneZone s
validate_instance_zones_iff s =
    (validate_instance_zones-EachInOneZone s, EachInOneZone-validate_instance_zones s)
