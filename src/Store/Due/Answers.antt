-- ===== src/Store/Due/Answers.antt =====
-- What `DueInteractions` of backend/game/internal/repository/memory/store.go answers.
use munchkin.Shared.{
  Bool-cases, Check, Error, List, Option-cases, Result-cases, String, String-Eq, Time, [], after,
  ap, arith, done, drop, err, if◌then◌else◌, inl, inr, leb_ℤ, length, ltb_ℤ, ok, pos, pos_part,
  refl, subst, suc, sym, take, zero, ℕ, ℕ-Eq, ℕ_discrete, ℤ, ℤ-Eq, ◌++◌, ◌+◌, ◌<◌, ◌∷◌, ◌≡◌, ◌≤ℤ◌,
  ◌≤◌, ◌⊎◌,
}
use munchkin.Store.{GameRecord, InteractionDeadline, Records}
use munchkin.Store.Due.{candidates, due_deadline, due_interactions, first_due, sorted_candidates}
use munchkin.Store.Due.Order.{Answered, NotAfter, due_list, sorted_candidates-lem}
use mathlib.Core.List.{Perm, IsChain}

take-drop {ℓ} : {A : Type ℓ} (n : ℕ) (xs : List A) → take n xs ++ drop n xs ≡ xs
take-drop zero xs = refl
take-drop (suc n) [] = refl
take-drop (suc n) (x ∷ xs) = ap (λ ys. x ∷ ys) (take-drop n xs)

-- A cut that is shorter than its limit leaves nothing out.
length-take {ℓ} :
    {A : Type ℓ} (n : ℕ) (xs : List A)
    → (length (take n xs) ≤ n) × ((drop n xs ≡ []) ⊎ (length (take n xs) ≡ n))
length-take zero xs = (omega arith, inr refl)
length-take (suc n) [] = (omega arith, inl refl)
length-take (suc n) (x ∷ xs) =
    let (short, cut) = length-take n xs in
    (omega (arith, short), elim cut [ inl q ↦ inl q | inr q ↦ inr (ap suc q) ])

due_deadline-due_list :
    (now : Time) (id : String) (r : GameRecord) (rest : Records)
    → due_deadline now r ++ due_list now rest ≡ due_list now ((id, r) ∷ rest)
unfolding due_deadline
due_deadline-due_list now id r rest = elim (Option-cases r.deadline) [
  | inl q ↦ rw (q) refl
  | inr (d, q) ↦ rw (q) (kept d)
]
  where
    kept :
        (d : InteractionDeadline)
        → (if after d.deadline_at now then [] else d ∷ []) ++ due_list now rest
          ≡ (if leb_ℤ d.deadline_at now then d ∷ due_list now rest else due_list now rest)
    kept d = ground arith

-- The context gives no error in some rounds.
abbrev pub Undisturbed : (ℕ → Check) → ℕ → ℕ → Type 0
Undisturbed ctx_err from to = (k : ℕ) → from ≤ k → k < to → ctx_err k ≡ done

Undisturbed-suc :
    (ctx_err : ℕ → Check) (from to : ℕ)
    → ctx_err from ≡ done
    → Undisturbed ctx_err (suc from) to
    → Undisturbed ctx_err from to
Undisturbed-suc ctx_err from to now rest k a b = elim (ℕ_discrete from k) [
  | yes q ↦ subst (λ n. ctx_err n ≡ done) q now
  | no n ↦ rest k (omega arith) b
]

-- The loop stops at an error of the context in one of its rounds, or finds all that are due.
candidates-lem :
    (ctx_err : ℕ → Check) (round : ℕ) (now : Time) (store : Records)
    → ((k : ℕ) × (e : Error) × (k < round + length store)
        × (ctx_err k ≡ err e)
        × (candidates ctx_err round now store ≡ err e))
      ⊎ ((candidates ctx_err round now store ≡ ok (due_list now store))
          × Undisturbed ctx_err round (round + length store))
unfolding candidates
candidates-lem ctx_err round now [] = inr (refl, λ k a b. absurd (omega (arith, a, b)))
candidates-lem ctx_err round now ((id, r) ∷ rest) = elim (Result-cases (ctx_err round)) [
  | inr (e, q) ↦ inl (round, e, omega arith, q, rw (q) refl)
  | inl (_, q) ↦ elim (candidates-lem ctx_err (suc round) now rest) [
    | inl (k, e, b, c, p) ↦ inl (k, e, omega (arith, b), c, rw (q, p) refl)
    | inr (p, calm) ↦ inr (
      rw (q, p) (ap ok (due_deadline-due_list now id r rest)),
      Undisturbed-suc ctx_err round (round + suc (length rest)) q
          (λ k a b. calm k a (omega (arith, b))),
    )
  ]
]

cut-Answered :
    (now : Time) (limit : ℤ) (store : Records)
    → Answered now limit store (take (pos_part limit) (sorted_candidates (due_list now store)))
cut-Answered now limit store =
    let sorted = sorted_candidates (due_list now store) in
    let whole : take (pos_part limit) sorted ++ drop (pos_part limit) sorted ≡ sorted =
      take-drop (pos_part limit) sorted in
    let (same, chain) = sorted_candidates-lem (due_list now store) in
    let (short, all_) = length-take (pos_part limit) sorted in
    (
      drop (pos_part limit) sorted,
      subst (λ ds. Perm ds (due_list now store)) (sym whole) same,
      subst (IsChain NotAfter) (sym whole) chain,
      short,
      all_,
    )

-- The two outcomes of `DueInteractions`: an error of the context, or an answer.
abbrev pub Outcome : (ℕ → Check) → Records → Time → ℤ → Type 0
Outcome ctx_err store now limit =
    ((k : ℕ) × (e : Error) × (k < length store)
      × (ctx_err k ≡ err e)
      × (due_interactions ctx_err store now limit ≡ err e))
    ⊎ ((found : List InteractionDeadline) × (due_interactions ctx_err store now limit ≡ ok found)
        × ((limit ≤ℤ pos 0) ⊎ Undisturbed ctx_err 0 (length store))
        × Answered now limit store found)

-- `DueInteractions` fails only with an error that its context gives in one of the rounds, and answers
-- only when the limit is not positive or the context gives none. The answer and the deadlines left
-- out are together all deadlines of the store whose time has come, they are in the order of their
-- times and then of the names of the games, and the answer is as long as the limit, or shorter and
-- nothing is left out. A limit below 0 counts as 0.
pub due_interactions-Answered :
    (ctx_err : ℕ → Check) (store : Records) (now : Time) (limit : ℤ)
    → Outcome ctx_err store now limit
unfolding due_interactions first_due
due_interactions-Answered ctx_err store now limit = elim (Bool-cases (ltb_ℤ (pos 0) limit)) [
  | inl q ↦ elim (candidates-lem ctx_err 0 now store) [
    | inl (k, e, b, c, p) ↦ inl (k, e, omega (arith, b), c, rw (q, p) refl)
    | inr (p, calm) ↦ inr (
      take (pos_part limit) (sorted_candidates (due_list now store)),
      rw (q, p) refl,
      inr (λ k a b. calm k a (omega (arith, b))),
      cut-Answered now limit store,
    )
  ]
  | inr q ↦
      let none_ : pos_part limit ≡ 0 = ground arith in
      inr (
        [],
        rw (q) refl,
        inl (ground arith),
        subst (λ n. Answered now limit store (take n (sorted_candidates (due_list now store))))
            none_ (cut-Answered now limit store),
      )
]
