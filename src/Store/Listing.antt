-- ===== src/Store/Listing.antt =====
-- What listing finds of the approvals that are filed in FilesystemRequirementsRepository.ts.
use mathlib.Core.List.{Memᴰ}
use mathlib.Core.List.Memᴰ.{cases_cons}
use solutions_studio.Base.{
  ◌≡◌, ◌⊎◌, inl, inr, refl, sym, ap, subst, ◌∙◌, true, Option, none, some, List, [], ◌∷◌,
  if◌then◌else◌, arith, Bool-cases, Option-cases,
}
use solutions_studio.Base.Text.{Text, Text-discrete, has}
use solutions_studio.Base.Maps.{get}
use solutions_studio.Base.Result.{ok, Result-cases}
use solutions_studio.Governance.Types.{CandidateApprovalRecord}
use solutions_studio.Store.Schema.{parse_approval, recreate}
use solutions_studio.Store.Approvals.{
  Host, Files, assert_safe_identifier, resolve_store_path, read_record, read_file,
  get_governance_approval, passes, push_found, collect,
}

-- A record that stands under its own identifier and that reading gives back.
pub record IsFiled (host : Host) (id : Text) (a : CandidateApprovalRecord) : Type 0 where
  pub keyed : a.id ≡ id
  pub safe : assert_safe_identifier id ≡ ok tt
  pub resolved : resolve_store_path id ≡ ok id
  pub parsed : parse_approval host.is_email a ≡ ok a
  pub recreated : recreate a ≡ ok a

abbrev pub AllFiled : Host → Files → Type 0
AllFiled host files =
    (id : Text) (a : CandidateApprovalRecord) → get id files ≡ some a → IsFiled host id a

-- A directory lists the files that it has.
abbrev pub ListsAll : Host → Type 0
ListsAll host = (ids : List Text) (id : Text) → has id (host.read_dir ids) ≡ has id ids

module _ (host : Host) (files : Files) where
  read_of_get :
      (id : Text) (found : Option CandidateApprovalRecord)
      → get_governance_approval host id files ≡ ok found
      → read_file host (get id files) ≡ ok found
  unfolding get_governance_approval resolve_store_path
  read_of_get id found h = ground arith

no_record : (host : Host) (b : CandidateApprovalRecord) → read_file host none ≡ ok (some b) → ⊥
unfolding read_file
no_record host b h = ground arith

empty_collected :
    (host : Host) (f r : Option Text) (files : Files) (as_ : List CandidateApprovalRecord)
    (a : CandidateApprovalRecord)
    → collect host f r [] files ≡ ok as_
    → Memᴰ a as_
    → ⊥
unfolding collect
empty_collected host f r files [] a h m = elim m [ ]
empty_collected host f r files (b ∷ bs) a h m = ground (arith, h)

-- What one round of the loop adds.
collect_parts :
    (host : Host) (f r : Option Text) (id : Text) (ids : List Text) (files : Files)
    (as_ : List CandidateApprovalRecord)
    → collect host f r (id ∷ ids) files ≡ ok as_
    → (found : Option CandidateApprovalRecord) × (rest : List CandidateApprovalRecord)
      × (get_governance_approval host id files ≡ ok found)
      × (collect host f r ids files ≡ ok rest)
      × (as_ ≡ push_found f r found rest)
unfolding collect
collect_parts host f r id ids files as_ h =
    elim (Result-cases (get_governance_approval host id files)) [
      | inr (e, thrown) ↦ absurd (ground (arith, h, thrown))
      | inl (found, known) ↦ elim (Result-cases (collect host f r ids files)) [
        | inr (e, thrown) ↦ absurd (ground (arith, h, known, thrown))
        | inl (rest, others) ↦ (found, rest, known, others, ground (arith, h, known, others))
      ]
    ]

member_push :
    (f r : Option Text) (a : CandidateApprovalRecord) (rest : List CandidateApprovalRecord)
    → passes f r a ≡ true
    → Memᴰ a (push_found f r (some a) rest)
unfolding push_found
member_push f r a rest p = rw p (Memᴰ.head refl)

member_push_rest :
    (f r : Option Text) (found : Option CandidateApprovalRecord) (a : CandidateApprovalRecord)
    (rest : List CandidateApprovalRecord)
    → Memᴰ a rest
    → Memᴰ a (push_found f r found rest)
unfolding push_found
member_push_rest f r none a rest m = m
member_push_rest f r (some b) a rest m = elim (Bool-cases (passes f r b)) [
  | inl yes_ ↦ rw yes_ (Memᴰ.tail m)
  | inr no_ ↦ rw no_ m
]

push_member :
    (f r : Option Text) (found : Option CandidateApprovalRecord) (a : CandidateApprovalRecord)
    (rest : List CandidateApprovalRecord)
    → Memᴰ a (push_found f r found rest)
    → ((found ≡ some a) × (passes f r a ≡ true)) ⊎ Memᴰ a rest
unfolding push_found
push_member f r none a rest m = inr m
push_member f r (some b) a rest m = elim (Bool-cases (passes f r b)) [
  | inl yes_ ↦ elim (cases_cons (subst (λ t. Memᴰ a (if t then b ∷ rest else rest)) yes_ m)) [
    | inl e ↦ inl (ap (λ x. some x) (sym e), ap (λ x. passes f r x) e ∙ yes_)
    | inr later ↦ inr later
  ]
  | inr no_ ↦ inr (subst (λ t. Memᴰ a (if t then b ∷ rest else rest)) no_ m)
]

module _ (host : Host) (files : Files) (all : AllFiled host files) where
  read_file-IsFiled :
      (id : Text) (a : CandidateApprovalRecord)
      → IsFiled host id a
      → read_file host (some a) ≡ ok (some a)
  unfolding read_file read_record
  read_file-IsFiled id a w = rw w.parsed (rw w.recreated refl)

  pub get_governance_approval-IsFiled :
      (id : Text) (a : CandidateApprovalRecord)
      → get id files ≡ some a
      → get_governance_approval host id files ≡ ok (some a)
  unfolding get_governance_approval
  get_governance_approval-IsFiled id a e =
      let w = all id a e in rw w.safe (rw w.resolved (rw e (read_file-IsFiled id a w)))

  found_is_filed :
      (id : Text) (b : CandidateApprovalRecord)
      → get_governance_approval host id files ≡ ok (some b)
      → (get id files ≡ some b) × (b.id ≡ id)
  found_is_filed id b h =
      let r = read_of_get host files id (some b) h in
      elim (Option-cases (get id files)) [
        | inl gone ↦ absurd (no_record host b (ap (λ o. read_file host o) (sym gone) ∙ r))
        | inr (a, e) ↦
            let same_record : a ≡ b = ground (
              arith,
              sym (read_file-IsFiled id a (all id a e)) ∙ ap (λ o. read_file host o) (sym e) ∙ r,
            ) in
            (
              e ∙ ap (λ x. some x) same_record,
              sym (ap (λ (x : CandidateApprovalRecord). x.id) same_record) ∙ (all id a e).keyed,
            )
      ]

  -- Every approval that is collected is filed and passes the filter.
  pub collect_sound :
      (f r : Option Text) (ids : List Text) (as_ : List CandidateApprovalRecord)
      → collect host f r ids files ≡ ok as_
      → (a : CandidateApprovalRecord) → Memᴰ a as_
      → (get a.id files ≡ some a) × (passes f r a ≡ true)
  collect_sound f r [] as_ h a m = absurd (empty_collected host f r files as_ a h m)
  collect_sound f r (id ∷ ids) as_ h a m =
      let (found, rest, known, others, e) = collect_parts host f r id ids files as_ h in
      elim (push_member f r found a rest (subst (λ l. Memᴰ a l) e m)) [
        | inl (own, p) ↦
            let (filed, keyed) = found_is_filed id a (known ∙ ap (λ x. ok x) own) in
            (ap (λ k. get k files) keyed ∙ filed, p)
        | inr later ↦ collect_sound f r ids rest others a later
      ]

  -- Every filed approval of a listed file that passes the filter is collected.
  pub collect_complete :
      (f r : Option Text) (ids : List Text) (as_ : List CandidateApprovalRecord)
      → collect host f r ids files ≡ ok as_
      → (id : Text) (a : CandidateApprovalRecord) → has id ids ≡ true
      → get id files ≡ some a
      → passes f r a ≡ true
      → Memᴰ a as_
  unfolding has
  collect_complete f r [] as_ h id a m e p = absurd cc
  collect_complete f r (j ∷ ids) as_ h id a m e p =
      let (found, rest, known, others, pushed) = collect_parts host f r j ids files as_ h in
      rw pushed (elim (Text-discrete id j) [
        | yes same_id ↦
            let own : found ≡ some a = ground (
              arith,
              sym known
                  ∙ ap (λ k. get_governance_approval host k files) (sym same_id)
                  ∙ get_governance_approval-IsFiled id a e,
            ) in
            rw own (member_push f r a rest p)
        | no n ↦
            member_push_rest f r found a rest
              (collect_complete f r ids rest others id a (ground (arith, m)) e p)
      ])
