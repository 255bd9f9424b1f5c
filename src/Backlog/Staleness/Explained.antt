-- ===== src/Backlog/Staleness/Explained.antt =====
-- What the second pass of ExportStaleness.ts keeps of every evaluation, and the causes that a report
-- gives for its classification.
use solutions_studio.Base.{
  ℕ, zero, suc, ◌≡◌, ◌⊎◌, inl, inr, refl, subst, length, Bool, true, false, not, ◌||◌, some, List,
  [], ◌∷◌, ◌++◌, map, arith, All, is_empty, Bool-cases,
}
use solutions_studio.Base.Text.{Text}
use solutions_studio.Base.Maps.{Map, get, get-set_cases, keys}
use solutions_studio.Stories.Types.{deps}
use solutions_studio.Backlog.Types.{BacklogExportMapping}
use solutions_studio.Backlog.Staleness.{
  EvaluateExportStalenessParams, MutableStoryEvaluation, StalenessCause,
}
use solutions_studio.Backlog.Staleness.Propagation.{
  is_affected, stale_cause, version_cause, stale_prereqs, version_changed_prereqs, impact, is_hit,
  visit, sweep, propagate, propagate_all,
}
use solutions_studio.Backlog.Staleness.Report.{
  BaselineExportStalenessReport, report_of, report_stories, baseline_report, mappings_of, direct,
  evaluate_export_staleness,
}
use solutions_studio.Backlog.Staleness.Tainted.{visit_cases}
use solutions_studio.Backlog.Staleness.Rounds.{propagate_all_settles}
use solutions_studio.Backlog.Staleness.Laws.{none_impacted, direct-IsDirect, report_stories-All}

module _ (mappings : Map BacklogExportMapping) (P : MutableStoryEvaluation → Type 0)
    (step : (evaluations : Map MutableStoryEvaluation) (ev : MutableStoryEvaluation)
      → P ev
      → is_hit mappings evaluations ev ≡ true
      → P (
          impact
            (stale_prereqs evaluations (deps ev.story))
            (version_changed_prereqs mappings ev.story)
            ev)) where
  abbrev EachHas : Map MutableStoryEvaluation → Type 0
  EachHas evaluations =
      (id : Text) (ev : MutableStoryEvaluation) → get id evaluations ≡ some ev → P ev

  visit_keeps :
      (id : Text) (evaluations : Map MutableStoryEvaluation)
      → EachHas evaluations
      → EachHas ((visit mappings id evaluations).0)
  visit_keeps id evaluations all = elim (visit_cases mappings id evaluations) [
    | inl (e, quiet) ↦ rw e all
    | inr (ev, found, hit, e) ↦ rw e (λ j other f. elim (get-set_cases id j _ other evaluations f) [
      | inl (_, q) ↦ rw q (step evaluations ev (all id ev found) hit)
      | inr known ↦ all j other known
    ])
  ]

  sweep_keeps :
      (ids : List Text) (evaluations : Map MutableStoryEvaluation) (changed : Bool)
      → EachHas evaluations
      → EachHas ((sweep mappings ids evaluations changed).0)
  unfolding sweep
  sweep_keeps [] evaluations changed all = all
  sweep_keeps (id ∷ ids) evaluations changed all =
      let visited = visit mappings id evaluations in
      sweep_keeps ids visited.0 (changed || visited.1) (visit_keeps id evaluations all)

  propagate_keeps :
      (fuel : ℕ) (evaluations settled : Map MutableStoryEvaluation)
      → EachHas evaluations
      → propagate mappings fuel evaluations ≡ some settled
      → EachHas settled
  unfolding propagate
  propagate_keeps zero evaluations settled all e = absurd (ground (arith, e))
  propagate_keeps (suc fuel) evaluations settled all e =
      let swept = sweep mappings (keys evaluations) evaluations false in
      let kept = sweep_keeps (keys evaluations) evaluations false all in
      elim (Bool-cases swept.1) [
        | inl changed ↦ propagate_keeps fuel swept.0 settled kept (ground (arith, e))
        | inr over ↦
            let same_map : swept.0 ≡ settled = ground (arith, e, over) in
            subst (λ m. EachHas m) same_map kept
      ]

-- An evaluation gives causes exactly when it is affected.
abbrev IsExplained : MutableStoryEvaluation → Type 0
IsExplained ev = is_empty ev.causes ≡ not (is_affected ev.classification)

is_empty-map :
    {A B : Type 0} (f : A → B) (xs : List A) → is_empty xs ≡ false → is_empty (map f xs) ≡ false
is_empty-map f [] h = cc
is_empty-map f (x ∷ xs) h = refl

causes_added :
    (old stales changes : List StalenessCause)
    → (is_empty stales ≡ false) ⊎ (is_empty changes ≡ false)
    → is_empty (old ++ (stales ++ changes)) ≡ false
causes_added (c ∷ old) stales changes h = refl
causes_added [] (c ∷ stales) changes h = refl
causes_added [] [] (c ∷ changes) h = refl
causes_added [] [] [] (inl h) = cc
causes_added [] [] [] (inr h) = cc

impact-IsExplained :
    (mappings : Map BacklogExportMapping) (evaluations : Map MutableStoryEvaluation)
    (ev : MutableStoryEvaluation)
    → is_hit mappings evaluations ev ≡ true
    → IsExplained (
        impact
          (stale_prereqs evaluations (deps ev.story))
          (version_changed_prereqs mappings ev.story)
          ev)
unfolding impact is_hit
impact-IsExplained mappings evaluations ev hit =
    causes_added ev.causes (map stale_cause (stale_prereqs evaluations (deps ev.story)))
      (map version_cause (version_changed_prereqs mappings ev.story))
      (elim (Bool-cases (is_empty (stale_prereqs evaluations (deps ev.story)))) [
        | inl quiet ↦
            inr (
              is_empty-map version_cause (version_changed_prereqs mappings ev.story) (ground arith))
        | inr found ↦
            inl (is_empty-map stale_cause (stale_prereqs evaluations (deps ev.story)) found)
      ])

-- Every report of a stale or impacted story gives a cause, and no other report does.
pub evaluate_export_staleness_explained :
    (params : EvaluateExportStalenessParams)
    → (report : BaselineExportStalenessReport) × (evaluate_export_staleness params ≡ some report)
      × All (λ r. is_empty r.causes ≡ not (is_affected r.classification)) report.stories
unfolding evaluate_export_staleness baseline_report report_of propagate_all
evaluate_export_staleness_explained params =
    let (settled, e, w) =
      propagate_all_settles (mappings_of params) (direct params) (none_impacted params) in
    let explained =
      propagate_keeps (mappings_of params) (λ ev. IsExplained ev)
        (λ evaluations ev _ hit. impact-IsExplained (mappings_of params) evaluations ev hit)
        (suc (length (direct params))) (direct params) settled
        (λ id ev known. (direct-IsDirect params id ev known).explained) e in
    (
      baseline_report params (report_stories params (mappings_of params) settled params.stories),
      rw (evaluate_export_staleness, e) refl,
      report_stories-All params (mappings_of params) settled
          (λ r. is_empty r.causes ≡ not (is_affected r.classification)) explained params.stories,
    )
