-- ===== src/Stories/Coverage/Laws.antt =====
-- Which requirements of a baseline its stories cover.
use Prim.Native.Nat.{Ordering}
use mathlib.Core.List.{Memᴰ}
use solutions_studio.Base.{
  ℕ, ◌+◌, ◌≡◌, refl, ap, sym, ◌∙◌, ◌↔◌, true, false, not, ◌&&◌, Option, List, [], ◌∷◌, arith, All,
  any, is_empty, length, map, keep, ltb, subst, ◌<◌, inl, inr, Bool-cases, if◌then◌else◌,
}
use solutions_studio.Base.Text.{Text, Text-discrete}
use solutions_studio.Base.Counts.{count, count-sort, count-map-sort, length-sort, sort}
use solutions_studio.Requirements.Types.{RequirementsBaseline}
use solutions_studio.Stories.Types.{Story}
use solutions_studio.Stories.Coverage.{
  RequirementCoverageEntry, BaselineRequirementCoverage, covers, Tally, tally, nothing_tallied,
  compare_entries, compute_requirement_coverage,
}
use solutions_studio.Base.Members.{sort_member, member_sort, keep_member, member_keep, All_member}
use solutions_studio.Stories.Coverage.Counting.{
  length-tally, count-tally, covered-tally, entries-tally, multi-tally,
}
use solutions_studio.Stories.Coverage.Naming.{IsNamed, IsEntry, any-IsNamed, IsNamed-any}

-- A story covers the revision.
abbrev pub IsCovered : List Story → Text → Type 0
IsCovered stories r = any (covers r) stories ≡ true

-- How often a revision is missing from the stories of a list of revisions.
abbrev pub missing : List Story → List Text → Text → ℕ
missing stories rs u = if any (covers u) stories then 0 else count u rs

uncovered_lem :
    (stories : List Story) (rs : List Text) (u : Text)
    → count u (tally stories rs nothing_tallied).uncovered ≡ missing stories rs u
unfolding count
uncovered_lem stories rs u = ground (arith, count-tally u stories rs nothing_tallied)

none_missing :
    (stories : List Story) (rs : List Text)
    → All (IsCovered stories) rs
    → (u : Text) → missing stories rs u ≡ 0
unfolding count
none_missing stories [] h u = ground arith
none_missing stories (r ∷ rs) h u = elim (Text-discrete u r) [
  | yes e ↦ ground (arith, h.0, ap (λ v. any (covers v) stories) e)
  | no n ↦ ground (arith, none_missing stories rs h.1 u)
]

all-IsCovered :
    (stories : List Story) (rs : List Text)
    → ((u : Text) → missing stories rs u ≡ 0)
    → All (IsCovered stories) rs
unfolding count
all-IsCovered stories [] h = tt
all-IsCovered stories (r ∷ rs) h =
    (ground (arith, h r), all-IsCovered stories rs (λ u. ground (arith, h u)))

is_empty_of_count : (xs : List Text) → ((u : Text) → count u xs ≡ 0) → is_empty xs ≡ true
unfolding count
is_empty_of_count [] h = refl
is_empty_of_count (x ∷ xs) h = absurd (ground (arith, h x))

count_of_is_empty : (xs : List Text) → is_empty xs ≡ true → (u : Text) → count u xs ≡ 0
unfolding count
count_of_is_empty [] h u = refl
count_of_is_empty (x ∷ xs) h u = cc

-- A list that has a revision as often as the baseline if it is selected, and else not at all.
pub record IsPart (selected : Text → Type 0) (rs part : List Text) : Type 0 where
  pub inside : (u : Text) → selected u → count u part ≡ count u rs
  pub outside : (u : Text) → ¬ selected u → count u part ≡ 0

-- What a coverage report says of its baseline.
pub record IsPartition (baseline : RequirementsBaseline) (stories : List Story)
    (c : BaselineRequirementCoverage) : Type 0 where
  pub total : c.total_requirements ≡ length baseline.requirement_revisions
  pub parts : c.covered_count + c.uncovered_count ≡ c.total_requirements
  pub covered_length : c.covered_count ≡ length c.covered_requirements
  pub uncovered_length : c.uncovered_count ≡ length c.uncovered_requirement_revision_ids
  pub covered :
      IsPart
        (IsNamed stories)
        baseline.requirement_revisions
        (map (λ e. e.requirement_revision_id) c.covered_requirements)
  pub uncovered :
      IsPart
        (λ u. ¬ IsNamed stories u)
        baseline.requirement_revisions
        c.uncovered_requirement_revision_ids
  pub entries : (e : RequirementCoverageEntry) → Memᴰ e c.covered_requirements → IsEntry stories e
  pub multi :
      (e : RequirementCoverageEntry)
      → Memᴰ e c.multi_covered_requirements
        ↔ (Memᴰ e c.covered_requirements × (1 < e.coverage_count))

not_named_lem :
    (stories : List Story) (u : Text) → ¬ IsNamed stories u → any (covers u) stories ≡ false
not_named_lem stories u n = elim (Bool-cases (any (covers u) stories)) [
  | inl named ↦ absurd (n (any-IsNamed stories u named))
  | inr missed ↦ missed
]

named_lem :
    (stories : List Story) (u : Text) → ¬ (¬ IsNamed stories u) → any (covers u) stories ≡ true
named_lem stories u n = elim (Bool-cases (any (covers u) stories)) [
  | inl named ↦ named
  | inr missed ↦ absurd (n (λ named. cc (missed, IsNamed-any stories u named)))
]

covered_lem :
    (stories : List Story) (rs : List Text)
    → IsPart
        (IsNamed stories)
        rs
        (map (λ e. e.requirement_revision_id) (tally stories rs nothing_tallied).covered)
unfolding count
covered_lem stories rs = record {
  inside =
      λ u n. ground (arith, covered-tally u stories rs nothing_tallied, IsNamed-any stories u n);
  outside =
      λ u n. ground (arith, covered-tally u stories rs nothing_tallied, not_named_lem stories u n);
}

missing_lem :
    (stories : List Story) (rs : List Text)
    → IsPart (λ u. ¬ IsNamed stories u) rs (tally stories rs nothing_tallied).uncovered
missing_lem stories rs = record {
  inside = λ u n. ground (arith, uncovered_lem stories rs u, not_named_lem stories u n);
  outside = λ u n. ground (arith, uncovered_lem stories rs u, named_lem stories u n);
}

-- Sorting changes no multiset.
IsPart-eq :
    {selected : Text → Type 0} (rs xs ys : List Text)
    → ((u : Text) → count u ys ≡ count u xs)
    → IsPart selected rs xs
    → IsPart selected rs ys
IsPart-eq rs xs ys e p = record {
  inside = λ u s. e u ∙ p.inside u s;
  outside = λ u n. e u ∙ p.outside u n;
}

module _ (locale_compare : Text → Text → Ordering) where
  uncovered-report :
      (baseline : RequirementsBaseline) (stories : List Story) (computed_at : Option Text)
      (now : Text) (u : Text)
      → count u
          (compute_requirement_coverage locale_compare baseline stories computed_at
            now).uncovered_requirement_revision_ids
        ≡ missing stories baseline.requirement_revisions u
  unfolding compute_requirement_coverage
  uncovered-report baseline stories computed_at now u =
      count-sort locale_compare u
        (tally stories baseline.requirement_revisions nothing_tallied).uncovered
      ∙ uncovered_lem stories baseline.requirement_revisions u

  multi_lem :
      (stories : List Story) (rs : List Text) (e : RequirementCoverageEntry)
      → Memᴰ e (sort (compare_entries locale_compare) (tally stories rs nothing_tallied).multi) ↔ (
          Memᴰ e (sort (compare_entries locale_compare) (tally stories rs nothing_tallied).covered)
          × (1 < e.coverage_count))
  multi_lem stories rs e =
      let t : Tally = tally stories rs nothing_tallied in
      let kept : t.multi ≡ keep (λ e. ltb 1 e.coverage_count) t.covered =
        multi-tally stories rs nothing_tallied (unfold keep in refl) in
      let by = compare_entries locale_compare in
      (
        λ m.
            let (n, h) =
              keep_member (λ e. ltb 1 e.coverage_count) t.covered e
                (subst (λ l. Memᴰ e l) kept (sort_member by e t.multi m)) in
            (member_sort by e t.covered n, ground (arith, h)),
        λ (m, h). member_sort by e t.multi (
            subst (λ l. Memᴰ e l) (sym kept)
              (member_keep (λ e. ltb 1 e.coverage_count) t.covered e (sort_member by e t.covered m)
                (ground (arith, h)))),
      )

  -- A coverage report lists a requirement revision as often as the baseline does: as covered if a story
  -- or one of its scenarios names it, and as uncovered if none does. The entry of a covered one lists
  -- the identifiers of just the stories that name it, and how many it lists; the entries with several
  -- are those that list more than one. The counts of covered and uncovered are the lengths of the
  -- lists, and add up to the baseline's.
  pub compute_requirement_coverage-IsPartition :
      (baseline : RequirementsBaseline) (stories : List Story) (computed_at : Option Text)
      (now : Text)
      → IsPartition baseline stories
          (compute_requirement_coverage locale_compare baseline stories computed_at now)
  unfolding compute_requirement_coverage
  compute_requirement_coverage-IsPartition baseline stories computed_at now =
      let rs = baseline.requirement_revisions in
      let t : Tally = tally stories rs nothing_tallied in
      let by = compare_entries locale_compare in
      record {
        total = refl;
        parts = omega (
          arith,
          length-tally stories rs nothing_tallied,
          length-sort by t.covered,
          length-sort locale_compare t.uncovered,
        );
        covered_length = refl;
        uncovered_length = refl;
        covered =
            IsPart-eq rs (map (λ e. e.requirement_revision_id) t.covered)
              (map (λ e. e.requirement_revision_id) (sort by t.covered))
              (λ u. count-map-sort by (λ e. e.requirement_revision_id) u t.covered)
              (covered_lem stories rs);
        uncovered =
            IsPart-eq rs t.uncovered (sort locale_compare t.uncovered)
              (λ u. count-sort locale_compare u t.uncovered) (missing_lem stories rs);
        entries = λ e m.
            All_member (IsEntry stories) t.covered (entries-tally stories rs nothing_tallied tt) e
              (sort_member by e t.covered m);
        multi = multi_lem stories rs;
      }

  fully_covered_lem :
      (baseline : RequirementsBaseline) (stories : List Story) (computed_at : Option Text)
      (now : Text)
      → (compute_requirement_coverage locale_compare baseline stories computed_at
          now).is_fully_covered
        ≡ (not (is_empty baseline.requirement_revisions)
            && is_empty
                (compute_requirement_coverage locale_compare baseline stories computed_at
                  now).uncovered_requirement_revision_ids)
  unfolding compute_requirement_coverage
  fully_covered_lem baseline stories computed_at now = ground arith

  -- A baseline is reported as fully covered exactly when it has a requirement revision and a story
  -- covers each of them.
  pub compute_requirement_coverage_is_fully_covered :
      (baseline : RequirementsBaseline) (stories : List Story) (computed_at : Option Text)
      (now : Text)
      → ((compute_requirement_coverage locale_compare baseline stories computed_at
            now).is_fully_covered
          ≡ true)
        ↔ ((is_empty baseline.requirement_revisions ≡ false)
            × All (IsCovered stories) baseline.requirement_revisions)
  compute_requirement_coverage_is_fully_covered baseline stories computed_at now =
      let c : BaselineRequirementCoverage =
        compute_requirement_coverage locale_compare baseline stories computed_at now in
      let p = uncovered-report baseline stories computed_at now in
      let f = fully_covered_lem baseline stories computed_at now in
      (
        λ h. (
          ground (arith, f),
          all-IsCovered stories baseline.requirement_revisions (λ u.
              sym (p u)
              ∙ count_of_is_empty c.uncovered_requirement_revision_ids (ground (arith, f)) u),
        ),
        λ (n, all).
            (ground (
              arith,
              f,
              is_empty_of_count c.uncovered_requirement_revision_ids
                  (λ u. p u ∙ none_missing stories baseline.requirement_revisions all u),
            )),
      )
