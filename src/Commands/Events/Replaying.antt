-- ===== src/Commands/Events/Replaying.antt =====
-- Replaying a history in parts, `ReplayFrom` of backend/game/internal/game/event.go.
use munchkin.Shared.{
  >>=-eq-ok, List, Result-cases, String, String-Eq, [], ap, arith, inl, inr, length, ok,
  ok_injective, refl, suc, sym, ℕ, ℕ-Eq, ◌%◌, ◌++◌, ◌+◌, ◌<◌, ◌>>=◌, ◌^◌, ◌∙◌, ◌∷◌, ◌≡◌,
}
use munchkin.Commands.Events.{EventEnvelope, game_of, replay_from, replay_loop, replay_one}
use munchkin.Model.{State}

-- The name of the game after some events.
abbrev pub last_game : String → List EventEnvelope → String
last_game g [] = g
last_game g (v ∷ vs) = last_game (game_of g v) vs

same_index : (index : ℕ) (xs : List EventEnvelope) → suc index + length xs ≡ index + suc (length xs)
same_index index xs = omega arith

replay_loop-append :
    (initial : ℕ) (xs ys : List EventEnvelope) (index : ℕ) (g : String) (s : State)
    → replay_loop initial index g s (xs ++ ys) ≡ (
        replay_loop initial index g s xs >>= λ m.
        replay_loop initial (index + length xs) (last_game g xs) m ys)
unfolding replay_loop
replay_loop-append initial [] ys index g s = ap (λ k. replay_loop initial k g s ys) (omega arith)
replay_loop-append initial (x ∷ xs) ys index g s =
    elim (Result-cases (replay_one ((initial + index + 1) % 2 ^ 64) g s x)) [
      | inl (next, e) ↦
          rw (replay_loop, e)
            (replay_loop-append initial xs ys (suc index) (game_of g x) next
              ∙ ap
                  (λ k. replay_loop initial (suc index) (game_of g x) next xs >>= λ m.
                    replay_loop initial k (last_game (game_of g x) xs) m ys)
                  (same_index index xs))
      | inr (bad, e) ↦ rw (replay_loop, e) refl
    ]

-- Only the sum of the two numbers counts.
replay_loop-shift :
    (ys : List EventEnvelope) (a i b j : ℕ) (g : String) (s : State)
    → (a + i) % 2 ^ 64 ≡ (b + j) % 2 ^ 64
    → replay_loop a i g s ys ≡ replay_loop b j g s ys
unfolding replay_loop
replay_loop-shift [] a i b j g s h = refl
replay_loop-shift (y ∷ ys) a i b j g s h =
    let now : (a + i + 1) % 2 ^ 64 ≡ (b + j + 1) % 2 ^ 64 = omega (arith, h) in
    let later : (a + suc i) % 2 ^ 64 ≡ (b + suc j) % 2 ^ 64 = omega (arith, h) in
    λ k. replay_one (now k) g s y >>= λ next.
    replay_loop-shift ys a (suc i) b (suc j) (game_of g y) next later k

replay_one-ok :
    (expected : ℕ) (g : String) (s : State) (v : EventEnvelope) {t : State}
    → replay_one expected g s v ≡ ok t
    → (t.version ≡ expected) × (t.game_id ≡ game_of g v) × (v.game_id ≡ game_of g v)
unfolding replay_one
replay_one-ok expected g s v h = ground arith

replay_loop-Ends :
    (initial : ℕ) (xs : List EventEnvelope) (index : ℕ) (g : String) (s : State) {t : State}
    → s.version ≡ (initial + index) % 2 ^ 64
    → s.game_id ≡ g
    → replay_loop initial index g s xs ≡ ok t
    → (t.version ≡ (initial + (index + length xs)) % 2 ^ 64) × (t.game_id ≡ last_game g xs)
unfolding replay_loop
replay_loop-Ends initial [] index g s v n h =
    let same = ok_injective h in
    (omega (arith, v, ap (λ u. u.version) same), sym (ap (λ u. u.game_id) same) ∙ n)
replay_loop-Ends initial (x ∷ xs) index g s {t} v n h =
    let (next, e, k) = >>=-eq-ok (replay_one ((initial + index + 1) % 2 ^ 64) g s x) _ h in
    let (version, name, _) = replay_one-ok ((initial + index + 1) % 2 ^ 64) g s x {t = next} e in
    let start : next.version ≡ (initial + suc index) % 2 ^ 64 = omega (arith, version) in
    let (v', n') =
      replay_loop-Ends initial xs (suc index) (game_of g x) next {t = t} start name k in
    (omega (arith, v'), n')

-- A state whose version is a 64-bit number, after a history that is replayed from it, bears the
-- version that is larger by the number of the events, modulo 2 ^ 64.
pub replay_from-version :
    (s : State) (events : List EventEnvelope) (t : State)
    → s.version < 2 ^ 64
    → replay_from s events ≡ ok t
    → t.version ≡ (s.version + length events) % 2 ^ 64
unfolding replay_from
replay_from-version s events t small h =
    let (v, _) =
      replay_loop-Ends s.version events 0 s.game_id s {t = t} (omega (arith, small)) refl h in
    omega (arith, v)

-- A history may be replayed in parts: from a state whose version is a 64-bit number, replaying two
-- lists of events one after the other is replaying the first and then, from the state that it
-- leaves, the second, and the two ways fail alike.
pub replay_from-append :
    (s : State) (xs ys : List EventEnvelope)
    → s.version < 2 ^ 64
    → replay_from s (xs ++ ys) ≡ (replay_from s xs >>= λ m. replay_from m ys)
unfolding replay_from
replay_from-append s xs ys small =
    replay_loop-append s.version xs ys 0 s.game_id s
    ∙ elim (Result-cases (replay_loop s.version 0 s.game_id s xs)) [
      | inl (m, e) ↦
          let (v, n) =
            replay_loop-Ends s.version xs 0 s.game_id s {t = m} (omega (arith, small)) refl e in
          rw (e) (
            ap (λ g. replay_loop s.version (0 + length xs) g m ys) (sym n)
            ∙ replay_loop-shift ys s.version (0 + length xs) m.version 0 m.game_id m
                (omega (arith, v)))
      | inr (bad, e) ↦ rw (e) refl
    ]
