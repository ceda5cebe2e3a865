-- ===== src/Store/Due.antt =====
-- The due interactions of the store in memory, backend/game/internal/repository/memory/store.go.
pub mod Order
pub mod Answers
use munchkin.Shared.{
  Bool, Check, List, Result, String, String-Eq, Time, [], after, before, false, if◌then◌else◌, ltb,
  ltb_ℤ, none, ok, pos, pos_part, some, suc, take, true, ℕ, ℕ-Eq, ℤ, ℤ-Eq, ◌++◌, ◌==◌, ◌>>=◌, ◌>>◌,
  ◌∷◌,
}
use munchkin.Model.{Phase-Eq, Status-Eq}
use munchkin.Store.{GameRecord, InteractionDeadline, Records}
use Prim.Native.Char.{code}

-- `<` on strings. The order of the code points is that of the bytes in UTF-8.
unfoldable pub text_before : String → String → Bool
text_before s String.[] = false
text_before String.[] (String.◌∷◌ d t) = true
text_before (String.◌∷◌ c s) (String.◌∷◌ d t) =
    let rest = text_before s t in if code c == code d then rest else ltb (code c) (code d)

-- The order of `sort.Slice`.
unfoldable pub earlier : InteractionDeadline → InteractionDeadline → Bool
earlier a b =
    if a.deadline_at == b.deadline_at
    then text_before a.game_id b.game_id
    else before a.deadline_at b.deadline_at

-- The candidates in their order.
unfoldable pub into_sorted :
    InteractionDeadline → List InteractionDeadline → List InteractionDeadline
into_sorted d [] = d ∷ []
into_sorted d (e ∷ es) = let rest = into_sorted d es in if earlier d e then d ∷ e ∷ es else e ∷ rest

unfoldable pub sorted_candidates : List InteractionDeadline → List InteractionDeadline
sorted_candidates [] = []
sorted_candidates (d ∷ ds) = into_sorted d (sorted_candidates ds)

-- The deadline of a record, if it is due.
unfoldable pub due_deadline : Time → GameRecord → List InteractionDeadline
due_deadline now r = elim r.deadline [
  | none ↦ []
  | some d ↦ if after d.deadline_at now then [] else d ∷ []
]

-- The loop over the records. `ctx_err` is what `ctx.Err()` gives in each round.
unfoldable pub candidates : (ℕ → Check) → ℕ → Time → Records → Result (List InteractionDeadline)
candidates ctx_err round now [] = ok []
candidates ctx_err round now ((_, r) ∷ rest) = do
  ctx_err round
  others ← candidates ctx_err (suc round) now rest
  ok (due_deadline now r ++ others)

-- `DueInteractions` at a positive limit, the cut included.
unfoldable pub first_due : (ℕ → Check) → Records → Time → ℤ → Result (List InteractionDeadline)
first_due ctx_err store now limit = do
  found ← candidates ctx_err 0 now store
  ok (take (pos_part limit) (sorted_candidates found))

-- `DueInteractions`.
unfoldable pub due_interactions :
    (ℕ → Check) → Records → Time → ℤ → Result (List InteractionDeadline)
due_interactions ctx_err store now limit =
    if ltb_ℤ (pos 0) limit then first_due ctx_err store now limit else ok []
