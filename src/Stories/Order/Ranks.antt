-- ===== src/Stories/Order/Ranks.antt =====
-- Acyclic dependencies: a rank that every dependency is below.
use mathlib.Core.List.{append_assoc}
use solutions_studio.Base.{
  ℕ, zero, suc, ◌+◌, ◌≤◌, ◌<◌, ◌≡◌, true, List, [], ◌∷◌, ◌++◌, arith, ℕ_discrete, length,
  if◌then◌else◌, inl, inr, Bool-cases,
}
use solutions_studio.Base.Text.{Text, same, has}
use solutions_studio.Base.Counts.{count, count-append, count_of_has, count_of_not_has}
use solutions_studio.Stories.Order.Edges.{Edge, pending, is_edge, pending_edge, IsOrdered}
use solutions_studio.Stories.Order.Loop.{IsExhausted}

abbrev pub IsRanked : List Edge → (Text → ℕ) → Type 0
IsRanked es rank = (a b : Text) → is_edge a b es ≡ true → rank a < rank b

-- With a rank, nothing is left waiting: by induction on a bound of the rank.
none_waiting :
    (nodes : List Text) (es : List Edge) (rank : Text → ℕ) (order : List Text)
    → IsRanked es rank
    → ((a b : Text) → is_edge a b es ≡ true → has a nodes ≡ true)
    → IsExhausted nodes es order
    → (bound : ℕ) (u : Text) → rank u < bound
    → has u nodes ≡ true
    → has u order ≡ true
none_waiting nodes es rank order ranked sources x zero u h k = absurd (omega arith)
none_waiting nodes es rank order ranked sources x (suc bound) u h k =
    elim (ℕ_discrete (count u (pending order es)) 0) [
      | yes free ↦ ground (arith, x.scheduled u, count_of_not_has u order)
      | no waits ↦
          let (a, e, absent) = pending_edge u order es waits in
          let there =
            none_waiting nodes es rank order ranked sources x bound a (omega (arith, ranked a u e))
              (sources a u e) in
          absurd (ground arith)
    ]

pub all_scheduled :
    (nodes : List Text) (es : List Edge) (rank : Text → ℕ) (order : List Text)
    → IsRanked es rank
    → ((a b : Text) → is_edge a b es ≡ true → has a nodes ≡ true)
    → IsExhausted nodes es order
    → (u : Text) → count u order ≡ (if has u nodes then 1 else 0)
all_scheduled nodes es rank order ranked sources x u = elim (Bool-cases (has u nodes)) [
  | inl k ↦ ground (
    arith,
    x.scheduled u,
    count_of_has u order
        (none_waiting nodes es rank order ranked sources x (suc (rank u)) u (omega arith) k),
  )
  | inr k ↦ ground (arith, x.scheduled u)
]

-- The position of a string, or the length where it is absent.
unfoldable pub position : Text → List Text → ℕ
position a [] = 0
position a (x ∷ xs) = let rest = position a xs in if same a x then 0 else suc rest

position-append :
    (a : Text) (xs ys : List Text)
    → position a (xs ++ ys) ≡ (if has a xs then position a xs else length xs + position a ys)
unfolding position has
position-append a [] ys = omega arith
position-append a (x ∷ xs) ys = ground (arith, position-append a xs ys)

position_lt : (a : Text) (xs : List Text) → has a xs ≡ true → position a xs < length xs
unfolding position has
position_lt a [] h = absurd (ground arith)
position_lt a (x ∷ xs) h = ground (arith, position_lt a xs)

-- In an ordered list without repetitions a prerequisite has the smaller position.
pub position_mono :
    (es : List Edge) (before xs : List Text) (a b : Text)
    → IsOrdered es before xs
    → ((u : Text) → count u (before ++ xs) ≤ 1)
    → is_edge a b es ≡ true
    → has b xs ≡ true
    → position a (before ++ xs) < position b (before ++ xs)
unfolding has count position
position_mono es before [] a b o distinct e h = absurd (ground arith)
position_mono es before (x ∷ xs) a b o distinct e h = elim (Bool-cases (same b x)) [
  | inl here ↦ ground (
    arith,
    o.0 a,
    distinct x,
    count-append x before (x ∷ xs),
    count_of_has x before,
    position_lt a before,
    position-append a before (x ∷ xs),
    position-append x before (x ∷ xs),
  )
  | inr there ↦ rw append_assoc at (
      position_mono es (before ++ x ∷ []) xs a b o.1 (λ u. rw append_assoc (distinct u)) e
        (ground arith))
]
