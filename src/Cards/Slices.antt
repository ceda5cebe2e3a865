-- ===== src/Cards/Slices.antt =====
-- The helpers on slices of strings, backend/game/internal/game/rules.go.
use munchkin.Shared.{
  ℕ, suc, ◌+◌, ◌≡◌, refl, String, String-Eq, List, [], ◌∷◌, ◌++◌, Bool, true, false, contains, any,
  if◌then◌else◌, ◌==◌, count, hit, arith, length, ◌≤◌, ◌<◌, count-contains, hit_self,
}

-- The values without the first occurrence of the target, and whether there was one.
unfoldable pub remove_string : List String → String → List String × Bool
remove_string [] target = ([], false)
remove_string (x ∷ xs) target =
    let rest = remove_string xs target in if x == target then (xs, true) else (x ∷ rest.0, rest.1)

-- The loop of `uniqueStrings`, with the set of values seen.
unfoldable pub unique_from : List String → List String → Bool
unique_from seen [] = true
unique_from seen (x ∷ xs) =
    let rest = unique_from (x ∷ seen) xs in
    if x == "" then false else if contains seen x then false else rest

unfoldable pub unique_strings : List String → Bool
unfolding unique_from
unique_strings values = unique_from [] values

unfoldable pub contains_any : List String → List String → Bool
contains_any values candidates = any (λ candidate. contains values candidate) candidates

unfoldable pub append_unique : List String → String → List String
append_unique values value = if contains values value then values else values ++ value ∷ []

-- 1 for a value that was removed.
abbrev pub one_if : Bool → ℕ
one_if true = 1
one_if false = 0

pub remove_string-contains :
    (xs : List String) (t : String) → (remove_string xs t).1 ≡ contains xs t
unfolding remove_string contains
remove_string-contains [] t = refl
remove_string-contains (x ∷ xs) t = ground (arith, remove_string-contains xs t)

-- A removal takes one occurrence of the target, if there is one, and keeps all else.
pub count-remove_string :
    (a t : String) (xs : List String)
    → contains xs t ≡ true
    → count a (remove_string xs t).0 + hit a t ≡ count a xs
unfolding remove_string contains
count-remove_string a t [] h = cc
count-remove_string a t (x ∷ xs) h = ground (arith, count-remove_string a t xs)

pub remove_string-missing :
    (xs : List String) (t : String) → contains xs t ≡ false → (remove_string xs t).0 ≡ xs
unfolding remove_string contains
remove_string-missing [] t h = refl
remove_string-missing (x ∷ xs) t h = ground (arith, remove_string-missing xs t)

pub length-remove_string :
    (t : String) (xs : List String)
    → contains xs t ≡ true
    → suc (length (remove_string xs t).0) ≡ length xs
unfolding remove_string contains
length-remove_string t [] h = cc
length-remove_string t (x ∷ xs) h = ground (arith, length-remove_string t xs)

-- A list whose every element occurs as often in another is no longer than that.
pub count-le-length :
    (xs ys : List String) → ((a : String) → count a xs ≤ count a ys) → length xs ≤ length ys
count-le-length [] ys h = omega arith
count-le-length (x ∷ xs) ys h =
    let there : contains ys x ≡ true = count-contains x ys (omega (arith, h x, hit_self x)) in
    omega (
      arith,
      length-remove_string x ys there,
      count-le-length xs (remove_string ys x).0
          (λ a. omega (arith, h a, count-remove_string a x ys there)),
    )

pub one_if-le : (b : Bool) → one_if b ≤ 1
one_if-le true = omega arith
one_if-le false = omega arith

pub one_if-pos : (b : Bool) → 0 < one_if b → b ≡ true
one_if-pos true h = refl
one_if-pos false h = absurd (omega arith)
