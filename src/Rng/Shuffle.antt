-- ===== src/Rng/Shuffle.antt =====
-- The shuffle of backend/game/internal/game/rng.go: its cards and its numbers.
use munchkin.Shared.{
  ℕ, zero, suc, ◌+◌, ◌-◌, ◌*◌, ◌%◌, ◌<◌, ◌≡◌, refl, inl, inr, String, List, [], ◌∷◌, some, length,
  length-set, get_elem?, set, Option-cases, arith, Eq, count, count-set, SameItems, String-Eq, ◌∙◌,
  ap,
}
use munchkin.Rng.{word, gamma, next_random, swap, shuffle_from, shuffle}

get_elem?-set {ℓ} :
    {A : Type ℓ} (xs : List A) (i j : ℕ) {y : A}
    → get_elem? xs j ≡ some y
    → get_elem? (set xs i y) j ≡ some y
get_elem?-set [] i j h = h
get_elem?-set (x ∷ xs) zero zero h = refl
get_elem?-set (x ∷ xs) zero (suc j) h = h
get_elem?-set (x ∷ xs) (suc i) zero h = h
get_elem?-set (x ∷ xs) (suc i) (suc j) h = get_elem?-set xs i j h

module _ {ℓ} {A : Type ℓ} ⦃e : Eq A⦄ where
  count-swap : (a : A) (xs : List A) (i j : ℕ) → count a (swap xs i j) ≡ count a xs
  unfolding swap
  count-swap a xs i j = elim (Option-cases (get_elem? xs i)) [
    | inl p ↦ rw (p, swap)
    | inr (x, p) ↦ elim (Option-cases (get_elem? xs j)) [
      | inl q ↦ rw (p, q, swap)
      | inr (y, q) ↦
          rw (p, q, swap)
            (omega (
              arith,
              count-set a y x xs i p,
              count-set a x y (set xs i y) j (get_elem?-set xs i j q),
            ))
    ]
  ]

count-shuffle_from :
    (a : String) (index : ℕ) (xs : List String) (state : ℕ)
    → count a (shuffle_from index xs state).0 ≡ count a xs
unfolding shuffle_from
count-shuffle_from a zero xs state = refl
count-shuffle_from a (suc index) xs state =
    count-shuffle_from a index _ _ ∙ count-swap a xs (suc index) _

-- A shuffle deals the same cards in another order: every card occurs as often as before.
pub shuffle-SameItems :
    (values : List String) (state : ℕ) → SameItems (shuffle values state).0 values
unfolding shuffle
shuffle-SameItems values state a = count-shuffle_from a (length values - 1) values state

length-swap {ℓ} : {A : Type ℓ} (xs : List A) (i j : ℕ) → length (swap xs i j) ≡ length xs
unfolding swap
length-swap xs i j = elim (Option-cases (get_elem? xs i)) [
  | inl p ↦ rw (p, swap)
  | inr (x, p) ↦ elim (Option-cases (get_elem? xs j)) [
    | inl q ↦ rw (p, q, swap)
    | inr (y, q) ↦ rw (p, q, swap) (length-set _ j x ∙ length-set xs i y)
  ]
]

length-shuffle_from :
    (index : ℕ) (xs : List String) (state : ℕ) → length (shuffle_from index xs state).0 ≡ length xs
unfolding shuffle_from
length-shuffle_from zero xs state = refl
length-shuffle_from (suc index) xs state =
    length-shuffle_from index _ _ ∙ length-swap xs (suc index) _

pub length-shuffle :
    (values : List String) (state : ℕ) → length (shuffle values state).0 ≡ length values
unfolding shuffle
length-shuffle values state = length-shuffle_from (length values - 1) values state

step-mod : (state k : ℕ) → ((state + gamma) % word + k) % word ≡ (state + (gamma + k)) % word
step-mod state k = omega arith

shuffle_from-state :
    (index : ℕ) (xs : List String) (state : ℕ)
    → state < word
    → (shuffle_from index xs state).1 ≡ (state + index * gamma) % word
unfolding shuffle_from next_random
shuffle_from-state zero xs state h = omega arith
shuffle_from-state (suc index) xs state h =
    shuffle_from-state index _ _ (omega arith)
    ∙ step-mod state (index * gamma)
    ∙ ap (λ t. (state + t) % word) (omega arith)

-- A shuffle of n cards draws n - 1 numbers, whatever the cards and the numbers drawn are: from a
-- state that is a uint64, the generator ends n - 1 increments further, modulo 2^64.
pub shuffle-state :
    (values : List String) (state : ℕ)
    → state < word
    → (shuffle values state).1 ≡ (state + (length values - 1) * gamma) % word
unfolding shuffle
shuffle-state values state h = shuffle_from-state (length values - 1) values state h
