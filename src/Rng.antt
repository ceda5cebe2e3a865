-- ===== src/Rng.antt =====
-- The deterministic generator of the game, backend/game/internal/game/rng.go. The words are
-- uint64s: sums and products wrap.
pub mod Shuffle
use Prim.Native.Nat.{bit_xor}
use munchkin.Shared.{
  ℕ, zero, suc, ◌+◌, ◌-◌, ◌*◌, ◌/◌, ◌%◌, ◌^◌, String, List, Option, none, some, length, get_elem?,
  set, ℤ, pos,
}

abbrev pub word : ℕ
word = 18446744073709551616

abbrev pub gamma : ℕ
gamma = 0x9e3779b97f4a7c15

-- The value and the next state.
unfoldable pub next_random : ℕ → ℕ × ℕ
next_random state =
    let next = (state + gamma) % word in
    let mixed = bit_xor next (next / 2 ^ 30) * 0xbf58476d1ce4e5b9 % word in
    let again = bit_xor mixed (mixed / 2 ^ 27) * 0x94d049bb133111eb % word in
    (bit_xor again (again / 2 ^ 31), next)

-- `xs[i], xs[j] = xs[j], xs[i]`; out of range, where Go panics, it leaves the list alone.
unfoldable pub swap {ℓ} : {A : Type ℓ} → List A → ℕ → ℕ → List A
swap xs i j = elim (get_elem? xs i) [
  | none ↦ xs
  | some a ↦ elim (get_elem? xs j) [ none ↦ xs | some b ↦ set (set xs i b) j a ]
]

-- The loop of `shuffle`, with the index that it counts down from.
unfoldable pub shuffle_from : ℕ → List String → ℕ → List String × ℕ
shuffle_from zero result state = (result, state)
shuffle_from (suc index) result state =
    let (value, next) = next_random state in
    shuffle_from index (swap result (suc index) (value % suc (suc index))) next

unfoldable pub shuffle : List String → ℕ → List String × ℕ
unfolding shuffle_from
shuffle values state = shuffle_from (length values - 1) values state

unfoldable pub roll_d6 : ℕ → ℤ × ℕ
roll_d6 state = let (value, next) = next_random state in (pos (value % 6 + 1), next)
