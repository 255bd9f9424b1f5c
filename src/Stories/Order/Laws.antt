-- ===== src/Stories/Order/Laws.antt =====
-- What the execution order promises.
use Prim.Native.Nat.{Ordering}
use solutions_studio.Base.{
  ℕ, ◌≤◌, ◌<◌, ◌≡◌, refl, ap, ◌≢◌, ◌⊎◌, true, ◌||◌, not, List, [], ◌∷◌, ◌++◌, arith, ◌==◌, length,
  length-map, is_empty, if◌then◌else◌, inl, inr, Bool-cases, inl, inr, Bool-cases,
}
use mathlib.Core.List.{Memᴰ}
use solutions_studio.Base.Text.{Text, has}
use solutions_studio.Base.Counts.{
  count, count_of_has, count_of_not_has, length-le_of_count, count_eq_of_length,
}
use solutions_studio.Base.Result.{ok}
use solutions_studio.Stories.Types.{Story, deps, StoryDependencyGraphValidationResult}
use solutions_studio.Stories.Order.{kahn, compute_topological_execution_order}
use solutions_studio.Stories.Order.Edges.{ids, edges, edges_among, known_edges, is_edge, IsOrdered}
use solutions_studio.Stories.Order.Loop.{IsExhausted}
use solutions_studio.Stories.Order.Ranks.{all_scheduled, position, position_mono}
use solutions_studio.Stories.Order.Start.{
  IsCanonical, is_edge-append, is_edge-known_edges, edge_targets, edge_sources, exhausted,
}

-- Story `b` declares `a` as a dependency, and `a` is one of the stories.
abbrev pub DependsOn : List Story → Text → Text → Type 0
DependsOn stories b a =
    (s : Story) × Memᴰ s stories
    × (s.id ≡ b)
    × (has a (deps s) ≡ true)
    × (has a (ids stories) ≡ true)

edge_of_mem :
    (a b : Text) (known : List Text) (s : Story) (ss : List Story)
    → Memᴰ s ss
    → s.id ≡ b
    → has a (deps s) ≡ true
    → has a known ≡ true
    → is_edge a b (edges_among known ss) ≡ true
edge_of_mem a b known s [] m i d k = elim m [ ]
edge_of_mem a b known s (t ∷ ss) (Memᴰ.head e) i d k = ground (
  arith,
  is_edge-append a b (known_edges known t.id (deps t)) (edges_among known ss),
  is_edge-known_edges a b known t.id (deps t),
  ap (λ (x : Story). x.id) e,
  ap (λ (x : Story). deps x) e,
)
edge_of_mem a b known s (t ∷ ss) (Memᴰ.tail m) i d k = ground (
  arith,
  is_edge-append a b (known_edges known t.id (deps t)) (edges_among known ss),
  edge_of_mem a b known s ss m i d k,
)

mem_of_edge :
    (a b : Text) (known : List Text) (ss : List Story)
    → is_edge a b (edges_among known ss) ≡ true
    → (s : Story) × Memᴰ s ss × (s.id ≡ b) × (has a (deps s) ≡ true)
unfolding is_edge
mem_of_edge a b known [] h = absurd (ground arith)
mem_of_edge a b known (s ∷ ss) h = elim (Bool-cases (is_edge a b (edges_among known ss))) [
  | inl later ↦ let (t, m, i, d) = mem_of_edge a b known ss later in (t, Memᴰ.tail m, i, d)
  | inr not_later ↦ (
    s,
    Memᴰ.head refl,
    ground (
      arith,
      is_edge-append a b (known_edges known s.id (deps s)) (edges_among known ss),
      is_edge-known_edges a b known s.id (deps s),
    ),
    ground (
      arith,
      is_edge-append a b (known_edges known s.id (deps s)) (edges_among known ss),
      is_edge-known_edges a b known s.id (deps s),
    ),
  )
]

-- Each story in the list stands behind those of its dependencies that are stories; `before` is what
-- precedes the list.
abbrev pub IsTopological : List Story → List Text → List Text → Type 0
IsTopological stories before [] = Unit
IsTopological stories before (b ∷ bs) =
    ((a : Text) → DependsOn stories b a → has a before ≡ true)
    × IsTopological stories (before ++ b ∷ []) bs

ordered-IsTopological :
    (stories : List Story) (before xs : List Text)
    → IsOrdered (edges stories) before xs
    → IsTopological stories before xs
ordered-IsTopological stories before [] h = tt
ordered-IsTopological stories before (x ∷ xs) h = (
  λ a (s, m, i, d, k). h.0 a (edge_of_mem a x (ids stories) s stories m i d k),
  ordered-IsTopological stories (before ++ x ∷ []) xs h.1,
)

-- What the function returns, by what the loop returns.
kahn_lem :
    (locale_compare : Text → Text → Ordering) (stories : List Story)
    → IsCanonical stories
    → (all : List Text) × (kahn locale_compare stories
        ≡ ok (if length all == length stories then all else []))
      × IsExhausted (ids stories) (edges stories) all
unfolding kahn
kahn_lem locale_compare stories canonical =
    let (all, e, x) = exhausted locale_compare stories canonical in (all, rw e (ground arith), x)

-- What a non-empty result is: every story exactly once, each behind its dependencies.
pub record IsExecutionOrder (stories : List Story) (order : List Text) : Type 0 where
  pub complete : (u : Text) → count u order ≡ count u (ids stories)
  pub distinct : (u : Text) → count u order ≤ 1
  pub topological : IsTopological stories [] order

exhausted-IsExecutionOrder :
    (stories : List Story) (all : List Text)
    → IsExhausted (ids stories) (edges stories) all
    → length all ≡ length stories
    → IsExecutionOrder stories all
exhausted-IsExecutionOrder stories all x e = record {
  complete =
      count_eq_of_length all (ids stories)
        (λ u. ground (arith, x.scheduled u, count_of_has u (ids stories)))
        (omega (arith, length-map (λ (s : Story). s.id) stories));
  distinct = λ u. ground (arith, x.scheduled u);
  topological = ordered-IsTopological stories [] all x.ordered;
}

-- With identifiers as `createStory` leaves them the function returns, and what it returns is empty or
-- holds every story exactly once, each behind those of its dependencies that are stories.
pub compute_topological_execution_order_sound :
    (locale_compare : Text → Text → Ordering) (stories : List Story)
    (validation : StoryDependencyGraphValidationResult)
    → IsCanonical stories
    → (order : List Text) × (compute_topological_execution_order locale_compare stories validation
        ≡ ok order)
      × ((order ≡ []) ⊎ IsExecutionOrder stories order)
unfolding compute_topological_execution_order
compute_topological_execution_order_sound locale_compare stories validation canonical =
    let (all, e, x) = kahn_lem locale_compare stories canonical in
    elim (Bool-cases
      (not validation.is_valid || not (is_empty validation.cycles) || is_empty stories)) [
        | inl refused ↦ ([], rw refused, inl refl)
        | inr checked ↦ elim (Bool-cases (length all == length stories)) [
          | inl same_length ↦ (
            all,
            rw (checked, e, same_length),
            inr (exhausted-IsExecutionOrder stories all x (ground arith)),
          )
          | inr shorter ↦ ([], rw (checked, e, shorter), inl refl)
        ]
      ]

-- The dependencies among the stories have no cycle: some rank falls along each of them.
abbrev pub IsAcyclic : List Story → Type 0
IsAcyclic stories = (rank : Text → ℕ) × ((a b : Text) → DependsOn stories b a → rank a < rank b)

DependsOn-of_edge :
    (stories : List Story) (a b : Text) → is_edge a b (edges stories) ≡ true → DependsOn stories b a
DependsOn-of_edge stories a b e =
    let (s, m, i, d) = mem_of_edge a b (ids stories) stories e in
    (s, m, i, d, edge_sources a b (ids stories) stories e)

topological-IsOrdered :
    (stories : List Story) (before xs : List Text)
    → IsTopological stories before xs
    → IsOrdered (edges stories) before xs
topological-IsOrdered stories before [] h = tt
topological-IsOrdered stories before (x ∷ xs) h = (
  λ a e. h.0 a (DependsOn-of_edge stories a x e),
  topological-IsOrdered stories (before ++ x ∷ []) xs h.1,
)

ranked_all :
    (stories : List Story) (all : List Text)
    → ((u : Text) → count u (ids stories) ≤ 1)
    → IsAcyclic stories
    → IsExhausted (ids stories) (edges stories) all
    → length all ≡ length stories
ranked_all stories all distinct (rank, falls) x =
    let counted =
      all_scheduled (ids stories) (edges stories) rank all
        (λ a b e. falls a b (DependsOn-of_edge stories a b e))
        (λ a b. edge_sources a b (ids stories) stories) x in
    omega (
      arith,
      length-map (λ (s : Story). s.id) stories,
      length-le_of_count all (ids stories)
          (λ u. ground (arith, counted u, count_of_has u (ids stories))),
      length-le_of_count (ids stories) all
          (λ u. ground (arith, counted u, distinct u, count_of_not_has u (ids stories))),
    )

-- Stories that passed validation, with distinct canonical identifiers and acyclic dependencies, are
-- all scheduled.
pub compute_topological_execution_order_complete :
    (locale_compare : Text → Text → Ordering) (stories : List Story)
    (validation : StoryDependencyGraphValidationResult)
    → IsCanonical stories
    → ((u : Text) → count u (ids stories) ≤ 1)
    → IsAcyclic stories
    → validation.is_valid ≡ true
    → validation.cycles ≡ []
    → (order : List Text) × (compute_topological_execution_order locale_compare stories validation
        ≡ ok order)
      × IsExecutionOrder stories order
unfolding compute_topological_execution_order
compute_topological_execution_order_complete locale_compare [] validation canonical distinct acyclic
      valid none =
    (
      [],
      ground arith,
      record {
        complete = λ u. refl;
        distinct = λ u. unfold count in omega arith;
        topological = tt;
      },
    )
compute_topological_execution_order_complete locale_compare (s ∷ ss) validation canonical distinct
      acyclic valid none =
    let (all, e, x) = kahn_lem locale_compare (s ∷ ss) canonical in
    let full = ranked_all (s ∷ ss) all distinct acyclic x in
    (all, ground (arith, e), exhausted-IsExecutionOrder (s ∷ ss) all x full)

execution_order-IsAcyclic :
    (stories : List Story) (order : List Text) → IsExecutionOrder stories order → IsAcyclic stories
execution_order-IsAcyclic stories order o = (
  λ u. position u order,
  λ a b (s, m, i, d, k).
      let e = edge_of_mem a b (ids stories) s stories m i d k in
      let target = edge_targets a b (ids stories) stories e in
      position_mono (edges stories) [] order a b
        (topological-IsOrdered stories [] order o.topological) o.distinct e
        (ground (arith, o.complete b, count_of_has b (ids stories), count_of_not_has b order)),
)

-- A non-empty result is a proof that the dependencies have no cycle, so for cyclic ones the result is
-- empty, whatever the validation said.
pub compute_topological_execution_order-IsAcyclic :
    (locale_compare : Text → Text → Ordering) (stories : List Story)
    (validation : StoryDependencyGraphValidationResult) (order : List Text)
    → IsCanonical stories
    → compute_topological_execution_order locale_compare stories validation ≡ ok order
    → order ≢ []
    → IsAcyclic stories
compute_topological_execution_order-IsAcyclic locale_compare stories validation order canonical e
      nonempty =
    let (found, f, outcome) =
      compute_topological_execution_order_sound locale_compare stories validation canonical in
    elim outcome [
      | inl empty ↦ absurd (nonempty (cc))
      | inr o ↦ execution_order-IsAcyclic stories found o
    ]
