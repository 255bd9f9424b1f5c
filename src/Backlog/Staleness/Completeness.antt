-- ===== src/Backlog/Staleness/Completeness.antt =====
-- Where the second pass of ExportStaleness.ts stops, every tainted story is affected.
use solutions_studio.Base.{
  ◌≡◌, inl, inr, refl, subst, ◌∙◌, Option-cases, true, false, some, arith, is_empty,
}
use solutions_studio.Base.Text.{Text, has}
use solutions_studio.Base.Maps.{Map, get}
use solutions_studio.Base.Sets.{keep_nonempty}
use solutions_studio.Stories.Types.{deps}
use solutions_studio.Backlog.Types.{BacklogExportMapping}
use solutions_studio.Backlog.Staleness.{current, MutableStoryEvaluation}
use solutions_studio.Backlog.Staleness.Propagation.{
  is_affected_evaluation, version_changed_prereqs, is_hit,
}
use solutions_studio.Backlog.Staleness.Tainted.{
  Tainted, by_itself, by_version, by_prerequisite, Follows, AllFollow,
}

hit_of_version :
    (mappings : Map BacklogExportMapping) (evaluations : Map MutableStoryEvaluation)
    (b : MutableStoryEvaluation)
    → b.classification ≡ current
    → is_empty (version_changed_prereqs mappings b.story) ≡ false
    → is_hit mappings evaluations b ≡ true
unfolding is_hit
hit_of_version mappings evaluations b c changed = rw (c, changed) (ground arith)

hit_of_prerequisite :
    (mappings : Map BacklogExportMapping) (evaluations : Map MutableStoryEvaluation)
    (b : MutableStoryEvaluation) (d : Text)
    → b.classification ≡ current
    → has d (deps b.story) ≡ true
    → is_affected_evaluation (get d evaluations) ≡ true
    → is_hit mappings evaluations b ≡ true
unfolding is_hit
hit_of_prerequisite mappings evaluations b d c member affected =
    rw
      (
        c,
        keep_nonempty (λ d. is_affected_evaluation (get d evaluations)) d (deps b.story) member
            affected,
      )
      refl

module _ (mappings : Map BacklogExportMapping)
    (direct evaluations : Map MutableStoryEvaluation) where
  -- The evaluation of a story that the first pass knows.
  pub follower :
      (id : Text) (a : MutableStoryEvaluation)
      → AllFollow mappings direct evaluations
      → get id direct ≡ some a
      → (b : MutableStoryEvaluation) × (get id evaluations ≡ some b)
        × Follows mappings direct id (some a) (some b)
  follower id a all e =
      let f : Follows mappings direct id (some a) (get id evaluations) =
        subst (λ o. Follows mappings direct id o (get id evaluations)) e (all id) in
      elim (Option-cases (get id evaluations)) [
        | inl gone ↦ elim (subst (λ o. Follows mappings direct id (some a) o) gone f) [ ]
        | inr (b, known) ↦ (b, known, subst (λ o. Follows mappings direct id (some a) o) known f)
      ]

  -- A tainted evaluation is affected once no evaluation is hit any more.
  pub Tainted-is_affected :
      AllFollow mappings direct evaluations
      → ((id : Text) (ev : MutableStoryEvaluation)
          → get id evaluations ≡ some ev
          → is_hit mappings evaluations ev ≡ false)
      → (id : Text) → Tainted mappings direct id
      → is_affected_evaluation (get id evaluations) ≡ true
  Tainted-is_affected all quiet id (by_itself _ a e s) =
      let (b, known, (story, cases)) = follower id a all e in
      rw known (elim cases [ inl kept ↦ rw (kept, s) refl | inr (c, i, t) ↦ rw i refl ])
  Tainted-is_affected all quiet id (by_version _ a e c changed) =
      let (b, known, (story, cases)) = follower id a all e in
      rw known (elim cases [
        | inl kept ↦ absurd (
            cc (
              quiet id b known,
              hit_of_version mappings evaluations b (kept ∙ c) (rw story changed),
            ))
        | inr (_, i, t) ↦ rw i refl
      ])
  Tainted-is_affected all quiet id (by_prerequisite _ d a e c member t) =
      let (b, known, (story, cases)) = follower id a all e in
      let affected = Tainted-is_affected all quiet d t in
      rw known (elim cases [
        | inl kept ↦ absurd (
            cc (
              quiet id b known,
              hit_of_prerequisite mappings evaluations b d (kept ∙ c) (rw story member) affected,
            ))
        | inr (_, i, u) ↦ rw i refl
      ])
