-- ===== src/Shared/Counting.antt =====
-- How often an element occurs in a list. Two lists hold the same items when all counts agree,
-- whatever their order.
use Prim.Native.Nat.{ℕ, zero, suc, ◌+◌, ◌<◌}
use mathlib.Core.Path.{◌≡◌, refl}
use mathlib.Core.Bool.{Bool, true, false}
use mathlib.Core.List.{List, [], ◌∷◌, ◌++◌}
use mathlib.Core.Option.{some}
use native.Mathlib.Omega.{arith}
use munchkin.Shared.Logic.{Eq, ◌==◌, if◌then◌else◌}
use munchkin.Shared.Lists.{get_elem?, set, take, drop, contains, any}

module _ {ℓ} {A : Type ℓ} ⦃e : Eq A⦄ where
  -- 1 if the two are equal.
  unfoldable pub hit : A → A → ℕ
  hit a x = if x == a then 1 else 0

  pub hit_self : (a : A) → hit a a ≡ 1
  unfolding hit
  hit_self a = ground arith

  abbrev pub count : A → List A → ℕ
  count a [] = 0
  count a (x ∷ xs) = hit a x + count a xs

  abbrev pub SameItems : List A → List A → Type ℓ
  SameItems xs ys = (a : A) → count a xs ≡ count a ys

  pub count-append :
      (x : A) (front back : List A) → count x (front ++ back) ≡ count x front + count x back
  count-append x [] back = omega arith
  count-append x (y ∷ front) back = omega (arith, count-append x front back)

  pub count-set :
      (a v b : A) (xs : List A) (i : ℕ)
      → get_elem? xs i ≡ some b
      → count a (set xs i v) + hit a b ≡ count a xs + hit a v
  count-set a v b [] i h = cc
  count-set a v b (x ∷ xs) zero h = ground (arith)
  count-set a v b (x ∷ xs) (suc i) h = omega (arith, count-set a v b xs i h)

  pub count-take-drop :
      (a : A) (n : ℕ) (xs : List A) → count a (take n xs) + count a (drop n xs) ≡ count a xs
  count-take-drop a zero xs = omega arith
  count-take-drop a (suc n) [] = omega arith
  count-take-drop a (suc n) (x ∷ xs) = omega (arith, count-take-drop a n xs)

  pub contains-count : (a : A) (xs : List A) → contains xs a ≡ true → 0 < count a xs
  unfolding contains hit
  contains-count a [] h = cc
  contains-count a (x ∷ xs) h = ground (arith, contains-count a xs)

  pub missing-count : (a : A) (xs : List A) → contains xs a ≡ false → count a xs ≡ 0
  unfolding contains hit
  missing-count a [] h = refl
  missing-count a (x ∷ xs) h = ground (arith, missing-count a xs)

  -- An element is found exactly when it occurs.
  pub count-contains : (a : A) (xs : List A) → 0 < count a xs → contains xs a ≡ true
  unfolding contains hit
  count-contains a [] h = absurd (omega arith)
  count-contains a (x ∷ xs) h = ground (arith, count-contains a xs)

  pub any-false :
      (p : A → Bool) (xs : List A) → ((a : A) → 0 < count a xs → p a ≡ false) → any p xs ≡ false
  unfolding any hit
  any-false p [] h = refl
  any-false p (x ∷ xs) h = ground (arith, h x, any-false p xs (λ a q. h a (omega arith)))

  pub any-false_inv :
      (p : A → Bool) (xs : List A) (a : A) → any p xs ≡ false → 0 < count a xs → p a ≡ false
  unfolding any hit
  any-false_inv p [] a h q = absurd (omega arith)
  any-false_inv p (x ∷ xs) a h q = ground (arith, any-false_inv p xs a)

  pub count-missing : (a : A) (xs : List A) → count a xs ≡ 0 → contains xs a ≡ false
  unfolding contains hit
  count-missing a [] h = refl
  count-missing a (x ∷ xs) h = ground (arith, count-missing a xs)
