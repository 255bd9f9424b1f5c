-- ===== src/Requirements/Policy.antt =====
-- packages/domain/src/requirements/PolicyConstraintRevision.ts. `now()` is the argument `now`.
pub mod Laws
use solutions_studio.Base.{
  ℕ, suc, Bool, true, false, not, Option, none, some, List, [], ◌∷◌, ◌++◌, value_or,
}
use solutions_studio.Base.Text.{Text, trim, is_blank, codes}
use solutions_studio.Base.Numbers.{Number, integer, pos, is_not_positive_integer, to_ℕ, decimal}
use solutions_studio.Base.Result.{Result, ok, throw, ◌>>=◌, ◌>>◌, throw_if}
use solutions_studio.Ids.{IdError, create_policy_constraint_revision_id}
use solutions_studio.Requirements.Types.{
  PolicyConstraintState, PolicyConstraintRevision, DomainError, invalid_id, invalid_revision_number,
  empty_statement, empty_authority_reference, empty_created_by, invalid_policy_state,
}

pub record CreatePolicyConstraintRevisionParams : Type 0 where
  pub id : Option Text
  pub policy_constraint_id : Text
  pub revision : Number
  pub statement : Text
  pub authority_reference : Text
  pub state : Option PolicyConstraintState
  pub created_at : Option Text
  pub created_by : Text
  pub supersedes : Option Text

pub record PolicyConstraintChanges : Type 0 where
  pub statement : Option Text
  pub authority_reference : Option Text
  pub state : Option PolicyConstraintState
  pub created_by : Text
  pub created_at : Option Text

unfoldable pub is_policy_state : PolicyConstraintState → Bool
is_policy_state (PolicyConstraintState.unlisted _) = false
is_policy_state _ = true

-- An identifier's error passes through the factory that creates it.
abbrev pub lift_id {ℓ} : {A : Type ℓ} → Result IdError A → Result DomainError A
lift_id (ok a) = ok a
lift_id (throw e) = throw (invalid_id e)

-- `id ?? createPolicyConstraintRevisionId(`${policyConstraintId}@r${revision}`)`.
unfoldable pub policy_revision_id : Option Text → Text → ℕ → Result DomainError Text
policy_revision_id (some id) constraint revision = ok id
policy_revision_id none constraint revision =
    lift_id (create_policy_constraint_revision_id (constraint ++ codes "@r" ++ decimal revision))

unfoldable pub create_policy_constraint_revision :
    CreatePolicyConstraintRevisionParams
    → (now : Text) → Result DomainError PolicyConstraintRevision
create_policy_constraint_revision params now = do
  throw_if (is_not_positive_integer params.revision) (invalid_revision_number params.revision)
  throw_if (is_blank params.statement) empty_statement
  throw_if (is_blank params.authority_reference) empty_authority_reference
  throw_if (is_blank params.created_by) empty_created_by
  let state = value_or params.state PolicyConstraintState.accepted
  throw_if (not (is_policy_state state)) (invalid_policy_state state)
  id ← policy_revision_id params.id params.policy_constraint_id (to_ℕ params.revision)
  ok (record {
    id = id;
    policy_constraint_id = params.policy_constraint_id;
    revision = to_ℕ params.revision;
    statement = trim params.statement;
    authority_reference = trim params.authority_reference;
    state = state;
    created_at = value_or params.created_at now;
    created_by = trim params.created_by;
    supersedes = params.supersedes;
  })

unfoldable pub revise_policy_constraint :
    PolicyConstraintRevision
    → PolicyConstraintChanges
    → (now : Text) → Result DomainError PolicyConstraintRevision
revise_policy_constraint previous changes now =
    create_policy_constraint_revision
      (record {
        id = none;
        policy_constraint_id = previous.policy_constraint_id;
        revision = integer (pos (suc previous.revision));
        statement = value_or changes.statement previous.statement;
        authority_reference = value_or changes.authority_reference previous.authority_reference;
        state = some (value_or changes.state previous.state);
        created_by = changes.created_by;
        created_at = changes.created_at;
        supersedes = some previous.id;
      })
      now
