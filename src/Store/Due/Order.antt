-- ===== src/Store/Due/Order.antt =====
-- What `DueInteractions` of backend/game/internal/repository/memory/store.go promises.
use munchkin.Shared.{
  Bool-cases, List, String, String-Eq, Time, [], ap, arith, before, false, if◌then◌else◌, inl, inr,
  leb_ℤ, length, negsuc, none, pos, pos_part, refl, some, sym, true, ℕ_discrete, ℤ, ℤ-Eq,
  ℤ-discrete, ◌++◌, ◌<ℤ◌, ◌<◌, ◌∷◌, ◌≡◌, ◌≢◌, ◌≤◌, ◌⊎◌,
}
use munchkin.Store.{InteractionDeadline, Records}
use munchkin.Store.Due.{earlier, into_sorted, sorted_candidates, text_before}
use Prim.Native.Char.{Char, code}
use mathlib.Core.List.{Perm, IsChain}
use mathlib.Core.List.Perm

-- The lexicographic order of strings by their code points, equal strings included.
pub data TextLeq : String → String → Type 0 where
  empty : (t : String) → TextLeq String.[] t
  smaller :
      (c d : Char) (s t : String) → code c < code d → TextLeq (String.◌∷◌ c s) (String.◌∷◌ d t)
  level :
      (c d : Char) (s t : String)
      → code c ≡ code d
      → TextLeq s t
      → TextLeq (String.◌∷◌ c s) (String.◌∷◌ d t)

-- The first deadline has an earlier time, or the same and a game whose name does not come later.
abbrev pub NotAfter : InteractionDeadline → InteractionDeadline → Type 0
NotAfter d e =
    (d.deadline_at <ℤ e.deadline_at)
    ⊎ ((d.deadline_at ≡ e.deadline_at) × TextLeq d.game_id e.game_id)

-- The deadlines of a store whose time is not after the given one.
abbrev pub due_list : Time → Records → List InteractionDeadline
due_list now [] = []
due_list now ((_, r) ∷ rest) = elim r.deadline [
  | none ↦ due_list now rest
  | some d ↦ if leb_ℤ d.deadline_at now then d ∷ due_list now rest else due_list now rest
]

-- The answer and the deadlines left out are together all that are due, in order; the answer is at
-- most as long as the limit, and nothing is left out of a shorter one.
abbrev pub Answered : Time → ℤ → Records → List InteractionDeadline → Type 0
Answered now limit store found =
    (left : List InteractionDeadline) × Perm (found ++ left) (due_list now store)
    × IsChain NotAfter (found ++ left)
    × (length found ≤ pos_part limit)
    × ((left ≡ []) ⊎ (length found ≡ pos_part limit))

text_before-TextLeq : (s t : String) → text_before t s ≡ false → TextLeq s t
unfolding text_before
text_before-TextLeq String.[] t h = TextLeq.empty t
text_before-TextLeq (String.◌∷◌ c s) String.[] h = absurd (ground arith)
text_before-TextLeq (String.◌∷◌ c s) (String.◌∷◌ d t) h = elim (ℕ_discrete (code d) (code c)) [
  | yes q ↦ TextLeq.level c d s t (sym q) (text_before-TextLeq s t (ground arith))
  | no n ↦ TextLeq.smaller c d s t (ground arith)
]

text_before-asym : (s t : String) → text_before s t ≡ true → text_before t s ≡ false
unfolding text_before
text_before-asym s String.[] h = absurd (ground arith)
text_before-asym String.[] (String.◌∷◌ d t) h = refl
text_before-asym (String.◌∷◌ c s) (String.◌∷◌ d t) h = ground (arith, text_before-asym s t)

-- Two times are the same, or one is before the other.
not_before : (s t : Time) → s ≢ t → before t s ≡ false → s <ℤ t
not_before (pos m) (pos n) apart h = elim (ℕ_discrete m n) [
  | yes q ↦ absurd (apart (ap pos q))
  | no k ↦ ground arith
]
not_before (pos m) (negsuc n) apart h = ground arith
not_before (negsuc m) (pos n) apart h = ground arith
not_before (negsuc m) (negsuc n) apart h = elim (ℕ_discrete m n) [
  | yes q ↦ absurd (apart (ap negsuc q))
  | no k ↦ ground arith
]

earlier-NotAfter : (d e : InteractionDeadline) → earlier e d ≡ false → NotAfter d e
unfolding earlier
earlier-NotAfter d e h = elim (ℤ-discrete e.deadline_at d.deadline_at) [
  | yes q ↦ inr (sym q, text_before-TextLeq d.game_id e.game_id (ground arith))
  | no n ↦ inl (not_before d.deadline_at e.deadline_at (λ q. n (sym q)) (ground arith))
]

earlier-asym : (d e : InteractionDeadline) → earlier d e ≡ true → earlier e d ≡ false
unfolding earlier
earlier-asym d e h = ground (arith, text_before-asym d.game_id e.game_id)

into_sorted-perm :
    (d : InteractionDeadline) (es : List InteractionDeadline) → Perm (into_sorted d es) (d ∷ es)
unfolding into_sorted
into_sorted-perm d [] = Perm.rfl
into_sorted-perm d (e ∷ es) = elim (Bool-cases (earlier d e)) [
  | inl q ↦ rw (q) Perm.rfl
  | inr q ↦ rw (q) (Perm.trans (Perm.cons e (into_sorted-perm d es)) (Perm.swap d e es))
]

into_sorted-after :
    (e d : InteractionDeadline) (es : List InteractionDeadline)
    → NotAfter e d
    → IsChain NotAfter (e ∷ es)
    → IsChain NotAfter (e ∷ into_sorted d es)
unfolding into_sorted
into_sorted-after e d [] h chain = IsChain.cons-cons h (IsChain.singleton d)
into_sorted-after e d (f ∷ fs) h (IsChain.cons-cons k chain) = elim (Bool-cases (earlier d f)) [
  | inl q ↦
      rw (q)
        (IsChain.cons-cons h (IsChain.cons-cons (earlier-NotAfter d f (earlier-asym d f q)) chain))
  | inr q ↦ rw (q) (IsChain.cons-cons k (into_sorted-after f d fs (earlier-NotAfter f d q) chain))
]

into_sorted-IsChain :
    (d : InteractionDeadline) (es : List InteractionDeadline)
    → IsChain NotAfter es
    → IsChain NotAfter (into_sorted d es)
unfolding into_sorted
into_sorted-IsChain d [] chain = IsChain.singleton d
into_sorted-IsChain d (e ∷ es) chain = elim (Bool-cases (earlier d e)) [
  | inl q ↦ rw (q) (IsChain.cons-cons (earlier-NotAfter d e (earlier-asym d e q)) chain)
  | inr q ↦ rw (q) (into_sorted-after e d es (earlier-NotAfter e d q) chain)
]

pub sorted_candidates-lem :
    (ds : List InteractionDeadline)
    → Perm (sorted_candidates ds) ds × IsChain NotAfter (sorted_candidates ds)
unfolding sorted_candidates
sorted_candidates-lem [] = (Perm.rfl, IsChain.nil)
sorted_candidates-lem (d ∷ ds) =
    let (same, chain) = sorted_candidates-lem ds in
    (
      Perm.trans (into_sorted-perm d (sorted_candidates ds)) (Perm.cons d same),
      into_sorted-IsChain d (sorted_candidates ds) chain,
    )
