-- ===== src/Stories/Coverage/Counting.antt =====
-- The three lists that the loop over the requirements fills.
use mathlib.Core.List.{append-nil}
use solutions_studio.Base.{
  ◌+◌, ◌≡◌, refl, ap, Bool, true, false, not, List, [], ◌∷◌, arith, any, keep, map, is_empty,
  length, length-append, ◌++◌, All, Bool-cases, inl, inr, ltb, keep-append, if◌then◌else◌,
}
use solutions_studio.Base.Text.{Text, Text-discrete}
use solutions_studio.Base.Counts.{count, count-append, length-sort}
use solutions_studio.Base.Numbers.{compare_code_units}
use solutions_studio.Stories.Types.{Story}
use solutions_studio.Stories.Coverage.{
  RequirementCoverageEntry, covers, covering_story_ids, Tally, tally_one, tally, entry_of,
}
use solutions_studio.Base.Members.{All_snoc}
use solutions_studio.Stories.Coverage.Naming.{IsEntry, entry_of-IsEntry}

is_empty-keep :
    (p : Story → Bool) (ss : List Story)
    → length (map (λ s. s.id) (keep p ss)) ≡ 0
    → any p ss ≡ false
unfolding keep any
is_empty-keep p [] h = refl
is_empty-keep p (s ∷ ss) h = ground (arith, is_empty-keep p ss)

keep_none :
    (p : Story → Bool) (ss : List Story)
    → any p ss ≡ false
    → length (map (λ s. s.id) (keep p ss)) ≡ 0
unfolding keep any
keep_none p [] h = refl
keep_none p (s ∷ ss) h = ground (arith, keep_none p ss)

is_empty_of_length : (xs : List Text) → length xs ≡ 0 → is_empty xs ≡ true
is_empty_of_length [] h = refl
is_empty_of_length (x ∷ xs) h = absurd (omega arith)

length_of_is_empty : (xs : List Text) → is_empty xs ≡ true → length xs ≡ 0
length_of_is_empty [] h = refl
length_of_is_empty (x ∷ xs) h = cc

-- The code's test of the identifiers is whether a story covers the revision.
is_empty-covering_story_ids :
    (stories : List Story) (r : Text)
    → is_empty (covering_story_ids stories r) ≡ not (any (covers r) stories)
unfolding covering_story_ids
is_empty-covering_story_ids stories r = ground (
  arith,
  length-sort compare_code_units (map (λ s. s.id) (keep (covers r) stories)),
  is_empty-keep (covers r) stories,
  keep_none (covers r) stories,
  is_empty_of_length (covering_story_ids stories r),
  length_of_is_empty (covering_story_ids stories r),
)

-- Each revision goes to exactly one of the lists.
pub length-tally :
    (stories : List Story) (rs : List Text) (t : Tally)
    → length (tally stories rs t).covered + length (tally stories rs t).uncovered
      ≡ length rs + length t.covered + length t.uncovered
unfolding tally tally_one
length-tally stories [] t = omega arith
length-tally stories (r ∷ rs) t = ground (
  arith,
  length-tally stories rs (tally_one stories r t),
  length-append t.covered (entry_of r (covering_story_ids stories r) ∷ []),
  length-append t.uncovered (r ∷ []),
)

-- A revision that no story covers is pushed, and no other one.
count-tally_one :
    (u : Text) (stories : List Story) (r : Text) (t : Tally)
    → count u (tally_one stories r t).uncovered
      ≡ count u t.uncovered + (if any (covers u) stories then 0 else count u (r ∷ []))
unfolding tally_one count
count-tally_one u stories r t = elim (Text-discrete u r) [
  | yes e ↦ ground (
    arith,
    is_empty-covering_story_ids stories r,
    count-append u t.uncovered (r ∷ []),
    ap (λ v. any (covers v) stories) e,
  )
  | no n ↦ ground (arith, count-append u t.uncovered (r ∷ []))
]

pub count-tally :
    (u : Text) (stories : List Story) (rs : List Text) (t : Tally)
    → count u (tally stories rs t).uncovered
      ≡ count u t.uncovered + (if any (covers u) stories then 0 else count u rs)
unfolding tally count
count-tally u stories [] t = ground arith
count-tally u stories (r ∷ rs) t =
    ground (arith, count-tally u stories rs (tally_one stories r t), count-tally_one u stories r t)

map_snoc :
    (xs : List RequirementCoverageEntry) (e : RequirementCoverageEntry)
    → map (λ x. x.requirement_revision_id) (xs ++ e ∷ [])
      ≡ map (λ x. x.requirement_revision_id) xs ++ e.requirement_revision_id ∷ []
map_snoc [] e = refl
map_snoc (x ∷ xs) e = ap (λ l. x.requirement_revision_id ∷ l) (map_snoc xs e)

-- A revision that a story covers gets an entry, and no other one.
covered-tally_one :
    (u : Text) (stories : List Story) (r : Text) (t : Tally)
    → count u (map (λ e. e.requirement_revision_id) (tally_one stories r t).covered)
      ≡ count u (map (λ e. e.requirement_revision_id) t.covered)
        + (if any (covers u) stories then count u (r ∷ []) else 0)
unfolding tally_one count
covered-tally_one u stories r t =
    let snoc = map_snoc t.covered (entry_of r (covering_story_ids stories r)) in
    let counts = count-append u (map (λ e. e.requirement_revision_id) t.covered) (r ∷ []) in
    elim (Text-discrete u r) [
      | yes e ↦ ground (
        arith,
        is_empty-covering_story_ids stories r,
        snoc,
        counts,
        ap (λ v. any (covers v) stories) e,
      )
      | no n ↦ ground (arith, snoc, counts)
    ]

pub covered-tally :
    (u : Text) (stories : List Story) (rs : List Text) (t : Tally)
    → count u (map (λ e. e.requirement_revision_id) (tally stories rs t).covered)
      ≡ count u (map (λ e. e.requirement_revision_id) t.covered)
        + (if any (covers u) stories then count u rs else 0)
unfolding tally count
covered-tally u stories [] t = ground arith
covered-tally u stories (r ∷ rs) t =
    ground
      (arith, covered-tally u stories rs (tally_one stories r t), covered-tally_one u stories r t)

entries-tally_one :
    (stories : List Story) (r : Text) (t : Tally)
    → All (IsEntry stories) t.covered
    → All (IsEntry stories) (tally_one stories r t).covered
unfolding tally_one
entries-tally_one stories r t all = elim (Bool-cases (is_empty (covering_story_ids stories r))) [
  | inl none_found ↦ rw none_found all
  | inr some_found ↦ rw some_found (
      All_snoc (IsEntry stories) t.covered (entry_of r (covering_story_ids stories r)) all
        (entry_of-IsEntry stories r))
]

-- Every entry of the loop is what an entry should be.
pub entries-tally :
    (stories : List Story) (rs : List Text) (t : Tally)
    → All (IsEntry stories) t.covered
    → All (IsEntry stories) (tally stories rs t).covered
unfolding tally
entries-tally stories [] t all = all
entries-tally stories (r ∷ rs) t all =
    entries-tally stories rs (tally_one stories r t) (entries-tally_one stories r t all)

multi-tally_one :
    (stories : List Story) (r : Text) (t : Tally)
    → t.multi ≡ keep (λ e. ltb 1 e.coverage_count) t.covered
    → (tally_one stories r t).multi
      ≡ keep (λ e. ltb 1 e.coverage_count) (tally_one stories r t).covered
unfolding tally_one keep
multi-tally_one stories r t h =
    let e = entry_of r (covering_story_ids stories r) in
    ground (
      arith,
      h,
      keep-append (λ x. ltb 1 x.coverage_count) t.covered (e ∷ []),
      append-nil (keep (λ x. ltb 1 x.coverage_count) t.covered),
    )

-- The entries with several stories are those of the covered ones that have more than one.
pub multi-tally :
    (stories : List Story) (rs : List Text) (t : Tally)
    → t.multi ≡ keep (λ e. ltb 1 e.coverage_count) t.covered
    → (tally stories rs t).multi ≡ keep (λ e. ltb 1 e.coverage_count) (tally stories rs t).covered
unfolding tally
multi-tally stories [] t h = h
multi-tally stories (r ∷ rs) t h =
    multi-tally stories rs (tally_one stories r t) (multi-tally_one stories r t h)
