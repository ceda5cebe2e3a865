-- ===== src/Shared/Lists.antt =====
-- Go's slices as lists, measured and indexed by native numbers.
use Prim.Native.Nat.{ℕ, zero, suc, ◌+◌}
use mathlib.Core.Path.{◌≡◌, refl, ap}
use mathlib.Core.Logic.{◌≢◌}
use mathlib.Core.Bool.{Bool, true, false, ◌&&◌, ◌||◌}
use mathlib.Core.List.{List, [], ◌∷◌, ◌++◌}
use mathlib.Core.Option.{Option, none, some}
use native.Mathlib.Omega.{arith}
use munchkin.Shared.Logic.{Eq, ◌==◌, if◌then◌else◌}
use munchkin.Shared.Numbers.{ℤ, pos, negsuc, ◌+ℤ◌}

module _ {ℓ} {A : Type ℓ} where
  abbrev pub length : List A → ℕ
  length [] = 0
  length (x ∷ xs) = suc (length xs)

  -- `len(xs)`, as Go's signed `int`.
  abbrev pub signed_length : List A → ℤ
  signed_length xs = pos (length xs)

  abbrev pub get_elem? : List A → ℕ → Option A
  get_elem? [] i = none
  get_elem? (x ∷ xs) zero = some x
  get_elem? (x ∷ xs) (suc i) = get_elem? xs i

  -- `xs[i]` at a signed index: `none` where Go panics.
  abbrev pub elem_at : List A → ℤ → Option A
  elem_at xs (pos i) = get_elem? xs i
  elem_at xs (negsuc i) = none

  abbrev pub set : List A → ℕ → A → List A
  set [] i v = []
  set (x ∷ xs) zero v = v ∷ xs
  set (x ∷ xs) (suc i) v = x ∷ set xs i v

  abbrev pub take : ℕ → List A → List A
  take zero xs = []
  take (suc n) [] = []
  take (suc n) (x ∷ xs) = x ∷ take n xs

  abbrev pub drop : ℕ → List A → List A
  drop zero xs = xs
  drop (suc n) [] = []
  drop (suc n) (x ∷ xs) = drop n xs

  abbrev pub is_empty : List A → Bool
  is_empty [] = true
  is_empty (x ∷ xs) = false

  unfoldable pub any : (A → Bool) → List A → Bool
  any p [] = false
  any p (x ∷ xs) = p x || any p xs

  unfoldable pub all : (A → Bool) → List A → Bool
  all p [] = true
  all p (x ∷ xs) = p x && all p xs

  -- `slices.IndexFunc`, with `none` for -1.
  unfoldable pub find_index : (A → Bool) → List A → Option ℕ
  find_index p [] = none
  find_index p (x ∷ xs) =
      let rest = find_index p xs in
      if p x then some 0 else elim rest [ none ↦ none | some i ↦ some (suc i) ]

  -- `for _, x := range xs { total += f(x) }`.
  unfoldable pub sum_over : (A → ℤ) → List A → ℤ
  sum_over f [] = pos 0
  sum_over f (x ∷ xs) = f x +ℤ sum_over f xs

  -- The elements that pass a test, as a loop with `continue` keeps them.
  unfoldable pub keep : (A → Bool) → List A → List A
  keep p [] = []
  keep p (x ∷ xs) = let rest = keep p xs in if p x then x ∷ rest else rest

  pub length-append : (xs ys : List A) → length (xs ++ ys) ≡ length xs + length ys
  length-append [] ys = omega arith
  length-append (x ∷ xs) ys = omega (arith, length-append xs ys)

  pub length-set : (xs : List A) (i : ℕ) (v : A) → length (set xs i v) ≡ length xs
  length-set [] i v = refl
  length-set (x ∷ xs) zero v = refl
  length-set (x ∷ xs) (suc i) v = ap suc (length-set xs i v)

  pub get_elem?-set_self :
      (xs : List A) (i : ℕ) {p q : A} → get_elem? xs i ≡ some p → get_elem? (set xs i q) i ≡ some q
  get_elem?-set_self [] i h = cc
  get_elem?-set_self (x ∷ xs) zero h = refl
  get_elem?-set_self (x ∷ xs) (suc i) {p} {q} h = get_elem?-set_self xs i {p = p} {q = q} h

  pub get_elem?-set_other :
      (xs : List A) (i j : ℕ) (q : A) → i ≢ j → get_elem? (set xs i q) j ≡ get_elem? xs j
  get_elem?-set_other [] i j q n = refl
  get_elem?-set_other (x ∷ xs) zero zero q n = absurd (n refl)
  get_elem?-set_other (x ∷ xs) zero (suc j) q n = refl
  get_elem?-set_other (x ∷ xs) (suc i) zero q n = refl
  get_elem?-set_other (x ∷ xs) (suc i) (suc j) q n =
      get_elem?-set_other xs i j q (λ e. n (ap suc e))

module _ {ℓ} {A : Type ℓ} ⦃e : Eq A⦄ where
  -- `slices.Contains`.
  unfoldable pub contains : List A → A → Bool
  contains [] a = false
  contains (x ∷ xs) a = x == a || contains xs a

  -- `len(xs) == 1 && xs[0] == a`.
  abbrev pub is_sole : List A → A → Bool
  is_sole [] a = false
  is_sole (x ∷ []) a = x == a
  is_sole (x ∷ y ∷ xs) a = false

  -- `slices.Equal`.
  unfoldable pub same_list : List A → List A → Bool
  same_list [] [] = true
  same_list (x ∷ xs) (y ∷ ys) = x == y && same_list xs ys
  same_list _ _ = false

  -- `slices.Index`, with `none` for -1.
  abbrev pub index_of : List A → A → Option ℕ
  index_of xs a = find_index (λ x. x == a) xs

  -- The loop that refuses a value it has seen.
  unfoldable pub distinct_from : List A → List A → Bool
  distinct_from seen [] = true
  distinct_from seen (x ∷ xs) =
      let rest = distinct_from (x ∷ seen) xs in if contains seen x then false else rest

abbrev pub concat {ℓ} : {A : Type ℓ} → List (List A) → List A
concat [] = []
concat (xs ∷ xss) = xs ++ concat xss
