-- ===== src/Stories/Coverage/Naming.antt =====
-- Which stories name a requirement revision, for coverage in StoryReadiness.ts.
use mathlib.Core.List.{Memᴰ}
use solutions_studio.Base.{
  ◌≡◌, refl, subst, ◌↔◌, inl, inr, true, List, map, keep, any, length, arith, Bool-cases,
}
use solutions_studio.Base.Text.{Text, has}
use solutions_studio.Base.Numbers.{compare_code_units}
use solutions_studio.Stories.Types.{Story, GherkinScenario}
use solutions_studio.Stories.Coverage.{
  RequirementCoverageEntry, covers, covering_story_ids, entry_of,
}
use solutions_studio.Base.Members.{
  member_sort, sort_member, has_iff, any_member, member_any, keep_member, member_keep, map_member,
  member_map,
}

-- A story names the revision itself, or one of its scenarios does.
pub data Names (r : Text) (s : Story) : Type 0 where
  by_story : Memᴰ r s.requirement_revision_ids → Names r s
  by_scenario :
      (sc : GherkinScenario) → Memᴰ sc s.scenarios → Memᴰ r sc.requirement_revision_ids → Names r s

-- One of the stories names it.
pub record IsNamed (stories : List Story) (r : Text) : Type 0 where
  pub story : Story
  pub listed : Memᴰ story stories
  pub names : Names r story

-- An entry lists the identifiers of just those stories that name its revision, and how many it lists.
pub record IsEntry (stories : List Story) (e : RequirementCoverageEntry) : Type 0 where
  pub covering :
      (id : Text)
      → Memᴰ id e.covering_story_ids
        ↔ ((s : Story) × Memᴰ s stories × (s.id ≡ id) × Names e.requirement_revision_id s)
  pub counted : e.coverage_count ≡ length e.covering_story_ids

covers-Names : (r : Text) (s : Story) → covers r s ≡ true → Names r s
unfolding covers
covers-Names r s h = elim (Bool-cases (has r s.requirement_revision_ids)) [
  | inl own ↦ by_story ((has_iff r s.requirement_revision_ids).0 own)
  | inr other ↦
      let (sc, m, named) =
        any_member (λ (sc : GherkinScenario). has r sc.requirement_revision_ids) s.scenarios
          (ground (arith, h, other)) in
      by_scenario sc m ((has_iff r sc.requirement_revision_ids).0 named)
]

pub Names-covers : (r : Text) (s : Story) → Names r s → covers r s ≡ true
unfolding covers
Names-covers r s (by_story m) = rw ((has_iff r s.requirement_revision_ids).1 m) refl
Names-covers r s (by_scenario sc n m) =
    let named =
      member_any (λ (sc : GherkinScenario). has r sc.requirement_revision_ids) s.scenarios sc n
        ((has_iff r sc.requirement_revision_ids).1 m) in
    ground (arith, named)

pub any-IsNamed :
    (stories : List Story) (r : Text) → any (covers r) stories ≡ true → IsNamed stories r
any-IsNamed stories r h =
    let (s, m, c) = any_member (covers r) stories h in
    record { story = s; listed = m; names = covers-Names r s c }

pub IsNamed-any :
    (stories : List Story) (r : Text) → IsNamed stories r → any (covers r) stories ≡ true
IsNamed-any stories r n =
    member_any (covers r) stories n.story n.listed (Names-covers r n.story n.names)

-- The entry that the loop makes.
pub entry_of-IsEntry :
    (stories : List Story) (r : Text) → IsEntry stories (entry_of r (covering_story_ids stories r))
unfolding covering_story_ids
entry_of-IsEntry stories r = record {
  covering = λ id. (
    λ m.
        let (s, n, e) =
          map_member (λ s. s.id) (keep (covers r) stories) id
            (sort_member compare_code_units id (map (λ s. s.id) (keep (covers r) stories)) m) in
        let (listed, c) = keep_member (covers r) stories s n in (s, listed, e, covers-Names r s c),
    λ (s, listed, e, names).
        member_sort compare_code_units id (map (λ s. s.id) (keep (covers r) stories)) (
          subst (λ i. Memᴰ i (map (λ s. s.id) (keep (covers r) stories))) e
            (member_map (λ s. s.id) (keep (covers r) stories) s
              (member_keep (covers r) stories s listed (Names-covers r s names)))),
  );
  counted = refl;
}
