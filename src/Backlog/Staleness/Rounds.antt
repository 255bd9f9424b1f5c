-- ===== src/Backlog/Staleness/Rounds.antt =====
-- The rounds of the second pass of ExportStaleness.ts: how many there are, and where they stop.
use solutions_studio.Base.{
  ℕ, zero, suc, ◌≤◌, ◌<◌, ◌≡◌, ◌⊎◌, inl, inr, refl, sym, ap, ◌∙◌, subst, ◌||◌, Bool, true, false,
  Option, none, some, List, [], ◌∷◌, arith, length, keep, length-keep, Bool-cases,
}
use solutions_studio.Base.Text.{Text, Text-discrete, has}
use solutions_studio.Base.Maps.{Map, get, set, keys}
use solutions_studio.Backlog.Types.{BacklogExportMapping}
use solutions_studio.Backlog.Staleness.{MutableStoryEvaluation}
use solutions_studio.Backlog.Staleness.Propagation.{
  is_current, is_hit, visit, sweep, propagate, propagate_all, impact,
}
use solutions_studio.Backlog.Staleness.Tainted.{
  Follows, AllFollow, visit_cases, sweep-Follows, NoneImpacted,
}

-- How many stories are current.
pub current_stories : Map MutableStoryEvaluation → ℕ
current_stories evaluations = length (keep (λ e. is_current e.1.classification) evaluations)

current_stories-set :
    (id : Text) (a b : MutableStoryEvaluation) (evaluations : Map MutableStoryEvaluation)
    → get id evaluations ≡ some a
    → is_current a.classification ≡ true
    → is_current b.classification ≡ false
    → suc (current_stories (set id b evaluations)) ≡ current_stories evaluations
unfolding current_stories get set keep
current_stories-set id a b [] e c n = absurd cc
current_stories-set id a b ((j, ev) ∷ rest) e c n = ground (arith, current_stories-set id a b rest)

hit_is_current :
    (mappings : Map BacklogExportMapping) (evaluations : Map MutableStoryEvaluation)
    (ev : MutableStoryEvaluation)
    → is_hit mappings evaluations ev ≡ true
    → is_current ev.classification ≡ true
unfolding is_hit
hit_is_current mappings evaluations ev h = ground arith

module _ (mappings : Map BacklogExportMapping) where
  -- A visit that changes something leaves one current story less.
  visit_progress :
      (id : Text) (evaluations : Map MutableStoryEvaluation)
      → (visit mappings id evaluations ≡ (evaluations, false))
        ⊎ (((visit mappings id evaluations).1 ≡ true)
            × (suc (current_stories ((visit mappings id evaluations).0))
                ≡ current_stories evaluations))
  visit_progress id evaluations = elim (visit_cases mappings id evaluations) [
    | inl (e, quiet) ↦ inl e
    | inr (ev, found, hit, e) ↦ inr (
        rw e (
          refl,
          current_stories-set id ev _ evaluations found (hit_is_current mappings evaluations ev hit)
              (unfold impact in refl),
        ))
  ]

  visit_fewer :
      (id : Text) (evaluations : Map MutableStoryEvaluation)
      → (current_stories ((visit mappings id evaluations).0) ≤ current_stories evaluations)
        × ((visit mappings id evaluations).1 ≡ true
            → current_stories ((visit mappings id evaluations).0) < current_stories evaluations)
  visit_fewer id evaluations = elim (visit_progress id evaluations) [
    | inl e ↦ rw e (omega arith, λ t. absurd cc)
    | inr (t, fewer) ↦ (omega arith, λ _. omega arith)
  ]

  -- A sweep leaves no more current stories, and fewer if it reports a change.
  sweep_fewer :
      (ids : List Text) (evaluations : Map MutableStoryEvaluation) (changed : Bool)
      → (current_stories ((sweep mappings ids evaluations changed).0) ≤ current_stories evaluations)
        × (changed ≡ false
            → (sweep mappings ids evaluations changed).1 ≡ true
            → current_stories ((sweep mappings ids evaluations changed).0)
              < current_stories evaluations)
  unfolding sweep
  sweep_fewer [] evaluations changed = (omega arith, λ f t. absurd cc)
  sweep_fewer (id ∷ ids) evaluations changed =
      let visited = visit mappings id evaluations in
      let (visit_le, visit_lt) = visit_fewer id evaluations in
      let (rest_le, rest_lt) = sweep_fewer ids visited.0 (changed || visited.1) in
      (
        omega arith,
        λ f t. elim (Bool-cases visited.1) [
          | inl hit ↦ let lt = visit_lt hit in omega arith
          | inr quiet ↦ let lt = rest_lt (cc (f, quiet)) t in omega arith
        ],
      )

  -- A sweep that reports no change has changed nothing and hits no entry.
  sweep_quiet :
      (ids : List Text) (evaluations : Map MutableStoryEvaluation) (changed : Bool)
      → (sweep mappings ids evaluations changed).1 ≡ false
      → ((sweep mappings ids evaluations changed).0 ≡ evaluations)
        × (changed ≡ false)
        × ((id : Text) (ev : MutableStoryEvaluation)
            → has id ids ≡ true
            → get id evaluations ≡ some ev
            → is_hit mappings evaluations ev ≡ false)
  unfolding sweep has
  sweep_quiet [] evaluations changed q = (refl, q, λ id ev m e. absurd cc)
  sweep_quiet (id ∷ ids) evaluations changed q =
      let visited = visit mappings id evaluations in
      let (same_map, quiet, rest) = sweep_quiet ids visited.0 (changed || visited.1) q in
      elim (visit_cases mappings id evaluations) [
        | inl (e, own) ↦
            let unchanged : visited.0 ≡ evaluations = ap (λ p. p.0) e in
            (
              same_map ∙ unchanged,
              ground (arith, quiet),
              λ u ev member f. elim (Text-discrete u id) [
                | yes p ↦ own ev (sym (ap (λ k. get k evaluations) p) ∙ f)
                | no n ↦
                    subst (λ es. is_hit mappings es ev ≡ false) unchanged
                      (rest u ev (ground (arith, member)) (ap (λ es. get u es) unchanged ∙ f))
              ],
            )
        | inr (ev, found, hit, e) ↦ absurd (ground (arith, quiet, ap (λ p. p.1) e))
      ]

has_key-get :
    (id : Text) (ev : MutableStoryEvaluation) (evaluations : Map MutableStoryEvaluation)
    → get id evaluations ≡ some ev
    → has id (keys evaluations) ≡ true
unfolding get has
has_key-get id ev [] e = absurd cc
has_key-get id ev ((j, v) ∷ rest) e = ground (arith, has_key-get id ev rest)

module _ (mappings : Map BacklogExportMapping) (direct : Map MutableStoryEvaluation) where
  -- What the second pass stops at.
  pub record IsSettled (evaluations : Map MutableStoryEvaluation) : Type 0 where
    pub follows : AllFollow mappings direct evaluations
    pub quiet :
        (id : Text) (ev : MutableStoryEvaluation)
        → get id evaluations ≡ some ev
        → is_hit mappings evaluations ev ≡ false

  propagate_settles :
      NoneImpacted mappings direct
      → (fuel : ℕ) (evaluations : Map MutableStoryEvaluation)
      → AllFollow mappings direct evaluations
      → current_stories evaluations < fuel
      → (settled : Map MutableStoryEvaluation) × (propagate mappings fuel evaluations
          ≡ some settled)
        × IsSettled settled
  unfolding propagate
  propagate_settles none_impacted zero evaluations follows enough = absurd (omega arith)
  propagate_settles none_impacted (suc fuel) evaluations follows enough =
      let swept = sweep mappings (keys evaluations) evaluations false in
      let follows_swept =
        sweep-Follows mappings direct none_impacted (keys evaluations) evaluations false follows in
      elim (Bool-cases swept.1) [
        | inl changed ↦
            let lt = (sweep_fewer mappings (keys evaluations) evaluations false).1 refl changed in
            let (settled, e, s) =
              propagate_settles none_impacted fuel swept.0 follows_swept (omega arith) in
            (settled, rw changed e, s)
        | inr over ↦
            let (same_map, _, quiet) =
              sweep_quiet mappings (keys evaluations) evaluations false over in
            (
              evaluations,
              rw (over, same_map) refl,
              record {
                follows = follows;
                quiet = λ id ev e. quiet id ev (has_key-get id ev evaluations e) e;
              },
            )
      ]

  Follows-refl : (id : Text) (o : Option MutableStoryEvaluation) → Follows mappings direct id o o
  Follows-refl id none = tt
  Follows-refl id (some ev) = (refl, inl refl)

  -- The rounds are enough, whatever the first pass left.
  pub propagate_all_settles :
      NoneImpacted mappings direct
      → (settled : Map MutableStoryEvaluation) × (propagate_all mappings direct ≡ some settled)
        × IsSettled settled
  unfolding propagate_all current_stories
  propagate_all_settles none_impacted =
      let bound = length-keep (λ e. is_current e.1.classification) direct in
      propagate_settles none_impacted (suc (length direct)) direct
        (λ id. Follows-refl id (get id direct)) (omega arith)
