-- ===== src/Store/Active.antt =====
-- What looking for the active approval of a candidate finds.
use solutions_studio.Base.{
  ◌≡◌, ◌∙◌, sym, inl, inr, true, false, none, some, Option, List, [], ◌∷◌, find, arith, is_empty,
}
use solutions_studio.Base.Text.{Text, Text-discrete, has, same, to_lower}
use solutions_studio.Base.Maps.{get, keys, has_key}
use solutions_studio.Base.Counts.{sort}
use solutions_studio.Base.Members.{find-none, find-some, member_sort, sort_member}
use solutions_studio.Base.Result.{ok, Result-cases}
use solutions_studio.Governance.Types.{CandidateApprovalRecord}
use solutions_studio.Governance.Factories.{is_active}
use solutions_studio.Store.Approvals.{
  Host, Files, passes, collect, list_governance_approvals, get_active_governance_approval,
}
use solutions_studio.Store.Listing.{AllFiled, ListsAll, collect_sound, collect_complete}

pub has_key-get :
    (id : Text) (a : CandidateApprovalRecord) (files : Files)
    → get id files ≡ some a
    → has_key id files ≡ true
unfolding get has
has_key-get id a [] e = absurd (ground arith)
has_key-get id a ((j, v) ∷ rest) e = ground (arith, has_key-get id a rest)

same_refl : (t : Text) → same t t ≡ true
same_refl t = ground arith

passes_own :
    (sha : Text) (a : CandidateApprovalRecord)
    → to_lower a.candidate_sha ≡ to_lower sha
    → passes (some sha) none a ≡ true
unfolding passes
passes_own sha a l = rw (l, same_refl (to_lower sha)) (ground arith)

-- A candidate that is named is the one of what passes.
pub sha_of_passes :
    (sha : Text) (a : CandidateApprovalRecord)
    → is_empty sha ≡ false
    → passes (some sha) none a ≡ true
    → to_lower a.candidate_sha ≡ to_lower sha
unfolding passes
sha_of_passes sha a n h = elim (Text-discrete (to_lower a.candidate_sha) (to_lower sha)) [
  | yes e ↦ e
  | no d ↦ absurd (ground (arith, h))
]

module _ (host : Host) (files : Files) where
  -- The listing that an active approval is looked for in.
  active_parts :
      (sha : Text) (found : Option CandidateApprovalRecord)
      → get_active_governance_approval host sha files ≡ ok found
      → (as_ : List CandidateApprovalRecord) × (collect host
            (some sha)
            none
            (host.read_dir (keys files))
            files
          ≡ ok as_)
        × (found
            ≡ find
                (λ a. is_active a.status)
                (sort (λ a b. host.locale_compare b.decided_at a.decided_at) as_))
  unfolding get_active_governance_approval list_governance_approvals
  active_parts sha found h =
      elim (Result-cases (collect host (some sha) none (host.read_dir (keys files)) files)) [
        | inr (e, thrown) ↦ absurd (ground (arith, h, thrown))
        | inl (as_, known) ↦ (as_, known, ground (arith, h, known))
      ]

  module _ (all : AllFiled host files) where
    pub active_filed :
        (sha : Text) (b : CandidateApprovalRecord)
        → get_active_governance_approval host sha files ≡ ok (some b)
        → (get b.id files ≡ some b)
          × (is_active b.status ≡ true)
          × (passes (some sha) none b ≡ true)
    active_filed sha b h =
        let (as_, known, e) = active_parts sha (some b) h in
        let (member, is_it) =
          find-some (λ (a : CandidateApprovalRecord). is_active a.status)
            (sort (λ (a b : CandidateApprovalRecord). host.locale_compare b.decided_at a.decided_at)
              as_)
            b (sym e) in
        let (filed, p) =
          collect_sound host files all (some sha) none (host.read_dir (keys files)) as_ known b (
            sort_member
              (λ (a b : CandidateApprovalRecord). host.locale_compare b.decided_at a.decided_at) b
              as_ member) in
        (filed, is_it, p)

    pub none_active :
        ListsAll host
        → (sha : Text) (a : CandidateApprovalRecord) (id : Text)
        → get_active_governance_approval host sha files ≡ ok none
        → get id files ≡ some a
        → to_lower a.candidate_sha ≡ to_lower sha
        → is_active a.status ≡ false
    none_active lists sha a id h e l =
        let (as_, known, f) = active_parts sha none h in
        let listed : has id (host.read_dir (keys files)) ≡ true =
          lists (keys files) id ∙ has_key-get id a files e in
        find-none (λ (a : CandidateApprovalRecord). is_active a.status)
          (sort (λ (a b : CandidateApprovalRecord). host.locale_compare b.decided_at a.decided_at)
            as_)
          (sym f) a
          (member_sort
            (λ (a b : CandidateApprovalRecord). host.locale_compare b.decided_at a.decided_at) a as_
            (collect_complete host files all (some sha) none (host.read_dir (keys files)) as_ known
              id a listed e (passes_own sha a l)))
