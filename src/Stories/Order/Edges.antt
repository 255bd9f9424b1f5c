-- ===== src/Stories/Order/Edges.antt =====
-- The dependency relation of a list of stories, and counts over its edges.
use solutions_studio.Base.{
  ◌+◌, ◌≡◌, refl, ◌≢◌, Bool, true, false, ◌&&◌, ◌||◌, List, [], ◌∷◌, ◌++◌, map, arith,
  if◌then◌else◌, inl, inr, Bool-cases,
}
use mathlib.Core.List.{append-nil, append_assoc}
use solutions_studio.Base.Text.{Text, same, has}
use solutions_studio.Base.Counts.{count, has-append}
use solutions_studio.Stories.Types.{Story, deps}

abbrev pub ids : List Story → List Text
ids stories = map (λ s. s.id) stories

-- (prerequisite, dependent), as often as the dependency is declared.
abbrev pub Edge : Type 0
Edge = Text × Text

abbrev pub known_edges : List Text → Text → List Text → List Edge
known_edges known id [] = []
known_edges known id (d ∷ ds) =
    let rest = known_edges known id ds in if has d known then (d, id) ∷ rest else rest

abbrev pub edges_among : List Text → List Story → List Edge
edges_among known [] = []
edges_among known (s ∷ ss) = known_edges known s.id (deps s) ++ edges_among known ss

abbrev pub edges : List Story → List Edge
edges stories = edges_among (ids stories) stories

-- The dependents of `a`.
unfoldable pub out : Text → List Edge → List Text
out a [] = []
out a ((d, s) ∷ es) = let rest = out a es in if same d a then s ∷ rest else rest

-- The dependents in the edges whose prerequisite is not yet `done`.
unfoldable pub pending : List Text → List Edge → List Text
pending done [] = []
pending done ((d, s) ∷ es) = let rest = pending done es in if has d done then rest else s ∷ rest

unfoldable pub is_edge : Text → Text → List Edge → Bool
is_edge a b [] = false
is_edge a b ((d, s) ∷ es) = same d a && same s b || is_edge a b es

pub count-pending_snoc :
    (v c : Text) (done : List Text) (es : List Edge)
    → has c done ≡ false
    → count v (pending done es) ≡ count v (out c es) + count v (pending (done ++ c ∷ []) es)
unfolding count pending out has
count-pending_snoc v c done [] h = omega arith
count-pending_snoc v c done ((d, s) ∷ es) h =
    ground (arith, has-append d done (c ∷ []), count-pending_snoc v c done es h)

-- A story with nothing pending has all its prerequisites done.
pub done_of_not_pending :
    (a b : Text) (done : List Text) (es : List Edge)
    → count b (pending done es) ≡ 0
    → is_edge a b es ≡ true
    → has a done ≡ true
unfolding count pending is_edge
done_of_not_pending a b done [] h e = cc
done_of_not_pending a b done ((d, s) ∷ es) h e = ground (arith, done_of_not_pending a b done es)

-- And one with something pending has a prerequisite that is not done.
pub pending_edge :
    (b : Text) (done : List Text) (es : List Edge)
    → count b (pending done es) ≢ 0
    → (a : Text) × (is_edge a b es ≡ true) × (has a done ≡ false)
unfolding count pending is_edge
pending_edge b done [] h = absurd (h refl)
pending_edge b done ((d, s) ∷ es) h = elim (Bool-cases (has d done)) [
  | inl old ↦ let (a, e, n) = pending_edge b done es (ground arith) in (a, ground arith, n)
  | inr new ↦ elim (Bool-cases (same s b)) [
    | inl here ↦ (d, ground arith, new)
    | inr there ↦ let (a, e, n) = pending_edge b done es (ground arith) in (a, ground arith, n)
  ]
]

pub is_edge_of_out : (a v : Text) (es : List Edge) → has v (out a es) ≡ true → is_edge a v es ≡ true
unfolding out is_edge has
is_edge_of_out a v [] h = h
is_edge_of_out a v ((d, s) ∷ es) h = ground (arith, is_edge_of_out a v es)

-- Each story stands behind the prerequisites that the edges give it; `before` is what precedes.
abbrev pub IsOrdered : List Edge → List Text → List Text → Type 0
IsOrdered es before [] = Unit
IsOrdered es before (b ∷ bs) =
    ((a : Text) → is_edge a b es ≡ true → has a before ≡ true) × IsOrdered es (before ++ b ∷ []) bs

pub IsOrdered-snoc :
    (es : List Edge) (before xs : List Text) (b : Text)
    → IsOrdered es before xs
    → ((a : Text) → is_edge a b es ≡ true → has a (before ++ xs) ≡ true)
    → IsOrdered es before (xs ++ b ∷ [])
IsOrdered-snoc es before [] b h last = (λ a e. rw append-nil at (last a e), tt)
IsOrdered-snoc es before (x ∷ xs) b h last =
    (h.0, IsOrdered-snoc es (before ++ x ∷ []) xs b h.1 (λ a e. rw append_assoc (last a e)))
