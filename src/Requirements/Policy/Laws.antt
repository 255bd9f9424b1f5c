-- ===== src/Requirements/Policy/Laws.antt =====
-- What a policy constraint revision holds, and what revising it keeps.
use solutions_studio.Base.{suc, ◌≤◌, ◌≡◌, true, false, some, ◌++◌, arith, value_or}
use solutions_studio.Base.Text.{Text, codes, trim, is_blank, trim-trim}
use solutions_studio.Base.Numbers.{to_ℕ, to_ℕ_positive, decimal}
use solutions_studio.Base.Result.{ok}
use solutions_studio.Ids.{assert_non_empty, create_policy_constraint_revision_id}
use solutions_studio.Requirements.Types.{PolicyConstraintRevision}
use solutions_studio.Requirements.Policy.{
  CreatePolicyConstraintRevisionParams, PolicyConstraintChanges, is_policy_state,
  policy_revision_id, create_policy_constraint_revision, revise_policy_constraint,
}

pub record IsWellFormed (r : PolicyConstraintRevision) : Type 0 where
  pub numbered : 1 ≤ r.revision
  pub stated : is_blank r.statement ≡ false
  pub authorised : is_blank r.authority_reference ≡ false
  pub attributed : is_blank r.created_by ≡ false
  pub state_listed : is_policy_state r.state ≡ true

pub create_policy_constraint_revision-IsWellFormed :
    (params : CreatePolicyConstraintRevisionParams) (now : Text) {r : PolicyConstraintRevision}
    → create_policy_constraint_revision params now ≡ ok r
    → IsWellFormed r
unfolding create_policy_constraint_revision
create_policy_constraint_revision-IsWellFormed params now h = ground (
  arith,
  to_ℕ_positive params.revision,
  trim-trim params.statement,
  trim-trim params.authority_reference,
  trim-trim params.created_by,
)

-- What revising does, whenever it succeeds: the next revision of the same constraint, under the
-- identifier that the constraint and the revision number give.
pub record IsSuccessor (previous : PolicyConstraintRevision) (changes : PolicyConstraintChanges)
    (next : PolicyConstraintRevision) : Type 0 where
  pub well_formed : IsWellFormed next
  pub same_constraint : next.policy_constraint_id ≡ previous.policy_constraint_id
  pub numbered : next.revision ≡ suc previous.revision
  pub linked : next.supersedes ≡ some previous.id
  pub state_kept : next.state ≡ value_or changes.state previous.state
  pub identified :
      next.id
      ≡ trim (previous.policy_constraint_id ++ codes "@r" ++ decimal (suc previous.revision))
  pub statement : next.statement ≡ trim (value_or changes.statement previous.statement)
  pub author : next.created_by ≡ trim changes.created_by

revise_policy_constraint-IsWellFormed :
    (previous : PolicyConstraintRevision) (changes : PolicyConstraintChanges) (now : Text)
    {next : PolicyConstraintRevision}
    → revise_policy_constraint previous changes now ≡ ok next
    → IsWellFormed next
unfolding revise_policy_constraint
revise_policy_constraint-IsWellFormed previous changes now h =
    create_policy_constraint_revision-IsWellFormed _ now h

-- What revising a policy constraint returns, when it does, is a well-formed revision of the same
-- constraint under the next number, that supersedes the previous one, has its state unless the
-- changes give one, is stated by the trimmed statement of the changes, or by the old one if they give
-- none, and created by their author, and whose identifier is the constraint's, followed by `@r` and the
-- number in decimals, trimmed.
pub revise_policy_constraint-IsSuccessor :
    (previous : PolicyConstraintRevision) (changes : PolicyConstraintChanges) (now : Text)
    {next : PolicyConstraintRevision}
    → revise_policy_constraint previous changes now ≡ ok next
    → IsSuccessor previous changes next
unfolding revise_policy_constraint create_policy_constraint_revision to_ℕ policy_revision_id
    create_policy_constraint_revision_id assert_non_empty
revise_policy_constraint-IsSuccessor previous changes now h =
    ground (arith, revise_policy_constraint-IsWellFormed previous changes now h)
