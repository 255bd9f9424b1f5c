-- ===== src/Backlog/Staleness/Tainted.antt =====
-- Which exports the second pass of ExportStaleness.ts should call affected, without rounds: the stale
-- ones, those with a newer prerequisite, and those that depend on an affected one.
use solutions_studio.Base.{
  ◌≡◌, ◌≢◌, ◌⊎◌, ◌||◌, inl, inr, refl, sym, subst, ◌∙◌, Bool-cases, Option-cases, Bool, true, false,
  Option, none, some, List, [], ◌∷◌, arith, is_empty,
}
use solutions_studio.Base.Text.{Text, Text-discrete, has}
use solutions_studio.Base.Maps.{Map, get, set, get-set_same, get-set_other}
use solutions_studio.Base.Sets.{keep_found}
use solutions_studio.Stories.Types.{deps}
use solutions_studio.Backlog.Types.{BacklogExportMapping}
use solutions_studio.Backlog.Staleness.{
  ExportStalenessClassification, current, stale, impacted, unexported, MutableStoryEvaluation,
}
use solutions_studio.Backlog.Staleness.Propagation.{
  is_current, is_affected, is_affected_evaluation, stale_prereqs, version_changed_prereqs, is_hit,
  visit, sweep, impact,
}

-- What the body of the loop does at an entry.
pub visit_cases :
    (mappings : Map BacklogExportMapping) (id : Text) (evaluations : Map MutableStoryEvaluation)
    → ((visit mappings id evaluations ≡ (evaluations, false))
        × ((ev : MutableStoryEvaluation)
            → get id evaluations ≡ some ev
            → is_hit mappings evaluations ev ≡ false))
      ⊎ ((ev : MutableStoryEvaluation) × (get id evaluations ≡ some ev)
          × (is_hit mappings evaluations ev ≡ true)
          × (visit mappings id evaluations ≡ (
            set id
                (impact
                  (stale_prereqs evaluations (deps ev.story))
                  (version_changed_prereqs mappings ev.story)
                  ev)
                evaluations,
            true,
          )))
unfolding visit
visit_cases mappings id evaluations = elim (Option-cases (get id evaluations)) [
  | inl gone ↦ inl (rw (visit, gone) refl, λ ev e. cc)
  | inr (ev, e) ↦ elim (Bool-cases (is_hit mappings evaluations ev)) [
    | inl hit ↦ inr (ev, e, hit, rw (visit, e, hit) refl)
    | inr quiet ↦ inl (rw (visit, e, quiet) refl, λ other f. ground arith)
  ]
]

module _ (mappings : Map BacklogExportMapping) (direct : Map MutableStoryEvaluation) where
  pub data Tainted : Text → Type 0 where
    by_itself :
        (id : Text) (ev : MutableStoryEvaluation)
        → get id direct ≡ some ev
        → ev.classification ≡ stale
        → Tainted id
    by_version :
        (id : Text) (ev : MutableStoryEvaluation)
        → get id direct ≡ some ev
        → ev.classification ≡ current
        → is_empty (version_changed_prereqs mappings ev.story) ≡ false
        → Tainted id
    by_prerequisite :
        (id d : Text) (ev : MutableStoryEvaluation)
        → get id direct ≡ some ev
        → ev.classification ≡ current
        → has d (deps ev.story) ≡ true
        → Tainted d
        → Tainted id

  -- How an evaluation stands to the one that the first pass left.
  abbrev pub Follows : Text → (before after : Option MutableStoryEvaluation) → Type 0
  Follows id none none = Unit
  Follows id none (some b) = ⊥
  Follows id (some a) none = ⊥
  Follows id (some a) (some b) =
      (b.story ≡ a.story)
      × ((b.classification ≡ a.classification)
          ⊎ ((a.classification ≡ current) × (b.classification ≡ impacted) × Tainted id))

  abbrev pub AllFollow : Map MutableStoryEvaluation → Type 0
  AllFollow evaluations = (id : Text) → Follows id (get id direct) (get id evaluations)

  -- The first pass calls no export impacted.
  abbrev pub NoneImpacted : Type 0
  NoneImpacted =
      (id : Text) (ev : MutableStoryEvaluation)
      → get id direct ≡ some ev
      → ev.classification ≢ impacted

stale_of_affected :
    (c : ExportStalenessClassification) → c ≢ impacted → is_affected c ≡ true → c ≡ stale
stale_of_affected current n h = absurd cc
stale_of_affected stale n h = refl
stale_of_affected impacted n h = absurd (n refl)
stale_of_affected unexported n h = absurd cc

current_of_test : (c : ExportStalenessClassification) → is_current c ≡ true → c ≡ current
current_of_test current h = refl
current_of_test stale h = absurd cc
current_of_test impacted h = absurd cc
current_of_test unexported h = absurd cc

module _ (mappings : Map BacklogExportMapping) (direct : Map MutableStoryEvaluation)
    (none_impacted : NoneImpacted mappings direct) where
  -- An affected evaluation is a tainted one.
  pub affected-Tainted :
      (id : Text) (before after : Option MutableStoryEvaluation)
      → get id direct ≡ before
      → Follows mappings direct id before after
      → is_affected_evaluation after ≡ true
      → Tainted mappings direct id
  affected-Tainted id none none e f h = absurd cc
  affected-Tainted id none (some b) e f h = elim f [ ]
  affected-Tainted id (some a) none e f h = elim f [ ]
  affected-Tainted id (some a) (some b) e (story, inl kept) h =
      by_itself id a e (stale_of_affected a.classification (none_impacted id a e) (ground arith))
  affected-Tainted id (some a) (some b) e (story, inr (_, _, tainted)) h = tainted

  -- An evaluation that the second pass hits is tainted.
  is_hit-Tainted :
      (evaluations : Map MutableStoryEvaluation) (id : Text) (a b : MutableStoryEvaluation)
      → AllFollow mappings direct evaluations
      → get id direct ≡ some a
      → b.story ≡ a.story
      → a.classification ≡ current
      → is_hit mappings evaluations b ≡ true
      → Tainted mappings direct id
  unfolding is_hit
  is_hit-Tainted evaluations id a b all e story c h =
      elim (Bool-cases (is_empty (stale_prereqs evaluations (deps b.story)))) [
        | inl quiet ↦ by_version id a e c (rw (sym story) (ground arith))
        | inr found ↦
            let (d, member, affected) =
              keep_found (λ d. is_affected_evaluation (get d evaluations)) (deps b.story) found in
            by_prerequisite id d a e c (rw (sym story) member)
              (affected-Tainted d (get d direct) (get d evaluations) refl (all d) affected)
      ]

  is_hit-Follows :
      (evaluations : Map MutableStoryEvaluation) (id : Text)
      (before : Option MutableStoryEvaluation) (b : MutableStoryEvaluation)
      → AllFollow mappings direct evaluations
      → get id direct ≡ before
      → Follows mappings direct id before (some b)
      → is_hit mappings evaluations b ≡ true
      → Follows mappings direct id before (
          some (
            impact
              (stale_prereqs evaluations (deps b.story))
              (version_changed_prereqs mappings b.story)
              b))
  unfolding is_hit impact
  is_hit-Follows evaluations id none b all e f h = elim f [ ]
  is_hit-Follows evaluations id (some a) b all e (story, inl kept) h =
      let c : a.classification ≡ current =
        sym kept ∙ current_of_test b.classification (ground arith) in
      (story, inr (c, refl, is_hit-Tainted evaluations id a b all e story c h))
  is_hit-Follows evaluations id (some a) b all e (story, inr (c, i, tainted)) h =
      (story, inr (c, refl, tainted))

  -- Setting an evaluation that follows the first pass.
  set-Follows :
      (evaluations : Map MutableStoryEvaluation) (id : Text) (ev : MutableStoryEvaluation)
      → AllFollow mappings direct evaluations
      → Follows mappings direct id (get id direct) (some ev)
      → AllFollow mappings direct (set id ev evaluations)
  set-Follows evaluations id ev all f j = elim (Text-discrete j id) [
    | yes e ↦ rw (e, get-set_same id ev evaluations) f
    | no n ↦ rw (get-set_other id j ev evaluations n) (all j)
  ]

  pub visit-Follows :
      (id : Text) (evaluations : Map MutableStoryEvaluation)
      → AllFollow mappings direct evaluations
      → AllFollow mappings direct ((visit mappings id evaluations).0)
  visit-Follows id evaluations all = elim (visit_cases mappings id evaluations) [
    | inl (e, quiet) ↦ rw e all
    | inr (ev, found, hit, e) ↦ rw e (
        set-Follows evaluations id _ all (
          is_hit-Follows evaluations id (get id direct) ev all refl
            (subst (λ o. Follows mappings direct id (get id direct) o) found (all id)) hit))
  ]

  pub sweep-Follows :
      (ids : List Text) (evaluations : Map MutableStoryEvaluation) (changed : Bool)
      → AllFollow mappings direct evaluations
      → AllFollow mappings direct ((sweep mappings ids evaluations changed).0)
  unfolding sweep
  sweep-Follows [] evaluations changed all = all
  sweep-Follows (id ∷ ids) evaluations changed all =
      let visited = visit mappings id evaluations in
      sweep-Follows ids visited.0 (changed || visited.1) (visit-Follows id evaluations all)
