-- ===== src/Backlog/Staleness/Counts.antt =====
-- The counts of a report of ExportStaleness.ts.
use solutions_studio.Base.{
  ℕ, suc, ◌+◌, ◌≡◌, refl, true, Option, none, some, List, [], ◌∷◌, arith, All, length, length-map,
  keep, map, sym, ap, ◌∙◌, Bool-cases, Option-cases, inl, inr, if◌then◌else◌,
}
use solutions_studio.Base.Text.{Text}
use solutions_studio.Base.Maps.{Map, get}
use solutions_studio.Stories.Types.{Story}
use solutions_studio.Backlog.Types.{BacklogExportMapping}
use solutions_studio.Backlog.Staleness.{
  ExportStalenessClassification, current, stale, impacted, unexported,
  EvaluateExportStalenessParams, MutableStoryEvaluation,
}
use solutions_studio.Backlog.Staleness.Report.{
  StoryExportStalenessReport, BaselineExportStalenessReport, report_stories, same_classification,
  count_of, report_of, baseline_report, is_target, mappings_of, direct, evaluate_export_staleness,
}
use solutions_studio.Backlog.Staleness.Start.{is_known, evaluate_stories_known}
use solutions_studio.Backlog.Staleness.Tainted.{Follows}
use solutions_studio.Backlog.Staleness.Rounds.{IsSettled, propagate_all_settles}
use solutions_studio.Backlog.Staleness.Laws.{none_impacted, stored_keyed}

-- A report is of one classification.
count_cons :
    (r : StoryExportStalenessReport) (rs : List StoryExportStalenessReport)
    (c : ExportStalenessClassification)
    → count_of c (r ∷ rs)
      ≡ (if same_classification r.classification c then suc (count_of c rs) else count_of c rs)
unfolding count_of keep
count_cons r rs c = ground arith

class_total :
    (c : ExportStalenessClassification) (a b d e n : ℕ)
    → a + b + d + e ≡ n
    → (if same_classification c current then suc a else a)
        + (if same_classification c stale then suc b else b)
        + (if same_classification c impacted then suc d else d)
        + (if same_classification c unexported then suc e else e)
      ≡ suc n
class_total current a b d e n h = omega arith
class_total stale a b d e n h = omega arith
class_total impacted a b d e n h = omega arith
class_total unexported a b d e n h = omega arith

counts_total :
    (rs : List StoryExportStalenessReport)
    → count_of current rs + count_of stale rs + count_of impacted rs + count_of unexported rs
      ≡ length rs
counts_total [] = unfold count_of in unfold keep in refl
counts_total (r ∷ rs) =
    rw
      (
        count_cons r rs current,
        count_cons r rs stale,
        count_cons r rs impacted,
        count_cons r rs unexported,
      )
      (class_total r.classification (count_of current rs) (count_of stale rs) (count_of impacted rs)
        (count_of unexported rs) (length rs) (counts_total rs))

-- How many of each classification there are: current, stale, impacted, unexported.
pub record Totals : Type 0 where
  pub current_ones : ℕ
  pub stale_ones : ℕ
  pub impacted_ones : ℕ
  pub unexported_ones : ℕ

abbrev pub add_one : ExportStalenessClassification → Totals → Totals
add_one current t = record t { current_ones = suc t.current_ones }
add_one stale t = record t { stale_ones = suc t.stale_ones }
add_one impacted t = record t { impacted_ones = suc t.impacted_ones }
add_one unexported t = record t { unexported_ones = suc t.unexported_ones }

unfoldable pub totals : List ExportStalenessClassification → Totals
totals [] = record { current_ones = 0; stale_ones = 0; impacted_ones = 0; unexported_ones = 0 }
totals (c ∷ cs) = add_one c (totals cs)

abbrev counted : List StoryExportStalenessReport → Totals
counted rs = record {
  current_ones = count_of current rs;
  stale_ones = count_of stale rs;
  impacted_ones = count_of impacted rs;
  unexported_ones = count_of unexported rs;
}

counted_cons :
    (c : ExportStalenessClassification) (r : StoryExportStalenessReport)
    (rs : List StoryExportStalenessReport)
    → r.classification ≡ c
    → counted (r ∷ rs) ≡ add_one c (counted rs)
unfolding count_of keep
counted_cons current r rs e = rw e refl
counted_cons stale r rs e = rw e refl
counted_cons impacted r rs e = rw e refl
counted_cons unexported r rs e = rw e refl

counted_totals :
    (rs : List StoryExportStalenessReport) → counted rs ≡ totals (map (λ r. r.classification) rs)
unfolding totals
counted_totals [] = unfold count_of in unfold keep in refl
counted_totals (r ∷ rs) =
    counted_cons r.classification r rs refl ∙ ap (add_one r.classification) (counted_totals rs)

-- The identifiers of the stories that are asked for, in the order of the stories.
abbrev pub asked_for : EvaluateExportStalenessParams → List Text
asked_for params = keep (is_target params.target_story_ids) (map (λ s. s.id) params.stories)

-- Every target story that was evaluated gets a report under its own identifier.
map-report_stories :
    (params : EvaluateExportStalenessParams) (mappings : Map BacklogExportMapping)
    (evaluations : Map MutableStoryEvaluation)
    → ((id : Text) (ev : MutableStoryEvaluation) → get id evaluations ≡ some ev → ev.story.id ≡ id)
    → (stories : List Story) → All (λ s. is_known (get s.id evaluations) ≡ true) stories
    → map (λ r. r.story_id) (report_stories params mappings evaluations stories)
      ≡ keep (is_target params.target_story_ids) (map (λ s. s.id) stories)
unfolding report_stories report_of keep is_known
map-report_stories params mappings evaluations keyed [] known = refl
map-report_stories params mappings evaluations keyed (s ∷ ss) known =
    let rest = map-report_stories params mappings evaluations keyed ss known.1 in
    elim (Bool-cases (is_target params.target_story_ids s.id)) [
      | inl target ↦ elim (Option-cases (get s.id evaluations)) [
        | inl gone ↦ absurd (ground (arith, known.0))
        | inr (ev, e) ↦ rw (target, e) (cc (keyed s.id ev e, rest))
      ]
      | inr other ↦ rw other rest
    ]

known-Follows :
    (mappings : Map BacklogExportMapping) (before : Map MutableStoryEvaluation) (id : Text)
    (a b : Option MutableStoryEvaluation)
    → Follows mappings before id a b
    → is_known a ≡ true
    → is_known b ≡ true
unfolding is_known
known-Follows mappings before id none b f h = absurd cc
known-Follows mappings before id (some a) none f h = elim f [ ]
known-Follows mappings before id (some a) (some b) f h = refl

settled_known :
    (params : EvaluateExportStalenessParams) (settled : Map MutableStoryEvaluation)
    → IsSettled (mappings_of params) (direct params) settled
    → (stories : List Story) → All (λ s. is_known (get s.id (direct params)) ≡ true) stories
    → All (λ s. is_known (get s.id settled) ≡ true) stories
settled_known params settled w [] known = tt
settled_known params settled w (s ∷ ss) known = (
  known-Follows (mappings_of params) (direct params) s.id (get s.id (direct params))
      (get s.id settled) (w.follows s.id) known.0,
  settled_known params settled w ss known.1,
)

-- The rounds of the second pass end, and the report then is on the stories that are asked for, each as
-- often as it is given and in their order; its total is their number, and its four counts are those of
-- the classifications that it reports, and add up to the total.
pub evaluate_export_staleness_counts :
    (params : EvaluateExportStalenessParams)
    → (report : BaselineExportStalenessReport) × (evaluate_export_staleness params ≡ some report)
      × (map (λ r. r.story_id) report.stories ≡ asked_for params)
      × (report.total_stories ≡ length (asked_for params))
      × (record {
        current_ones = report.current_count;
        stale_ones = report.stale_count;
        impacted_ones = report.impacted_count;
        unexported_ones = report.unexported_count;
      }
          ≡ totals (map (λ r. r.classification) report.stories))
      × (report.current_count + report.stale_count + report.impacted_count + report.unexported_count
          ≡ report.total_stories)
unfolding baseline_report evaluate_export_staleness
evaluate_export_staleness_counts params =
    let (settled, e, w) =
      propagate_all_settles (mappings_of params) (direct params) (none_impacted params) in
    let reports = report_stories params (mappings_of params) settled params.stories in
    let own : map (λ r. r.story_id) reports ≡ asked_for params =
      map-report_stories params (mappings_of params) settled (stored_keyed params settled w)
        params.stories
        (settled_known params settled w params.stories
          (evaluate_stories_known params (mappings_of params) params.stories [])) in
    (
      baseline_report params reports,
      rw (evaluate_export_staleness, e) refl,
      own,
      sym (length-map (λ r. r.story_id) reports) ∙ ap length own,
      counted_totals reports,
      counts_total reports,
    )
