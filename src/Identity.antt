-- ===== src/Identity.antt =====
-- packages/domain/src/identity/AuthenticatedActor.ts. The set of capabilities, which refuses changes,
-- is the list of its members; a string outside an enumeration is `unlisted`.
pub mod Laws
mod Samples
use solutions_studio.Base.{
  Bool, true, false, not, ◌||◌, Option, none, some, List, [], ◌∷◌, ◌++◌, any, if◌then◌else◌,
}
use solutions_studio.Base.Text.{Text, Text-discrete, trim, is_blank}
use solutions_studio.Base.Maps.{Map}
use solutions_studio.Base.Result.{Result, ok, throw, ◌>>=◌, ◌>>◌, throw_if, traverse}
use solutions_studio.Ids.{IdError, create_actor_id}

pub data ActorKind : Type 0 where
  human system agent : ActorKind
  unlisted : Text → ActorKind

pub data ApplicationCapability : Type 0 where
  requirements_reconcile candidate_approve policy_constraint_author : ApplicationCapability
  engineering_decision_author engineering_decision_approve : ApplicationCapability
  baseline_create projection_generate backlog_export operator_admin : ApplicationCapability
  unlisted : Text → ApplicationCapability

unfoldable pub ApplicationCapability-discrete : Discrete ApplicationCapability
ApplicationCapability-discrete = hlevel Text-discrete

abbrev pub same_capability : (a b : ApplicationCapability) → Bool
same_capability a b = elim (ApplicationCapability-discrete a b) [ yes _ ↦ true | no _ ↦ false ]

pub record AuthenticatedActor : Type 0 where
  pub id : Text
  pub name : Text
  pub email : Option Text
  pub actor_type : ActorKind
  pub capabilities : List ApplicationCapability
  pub metadata : Option (Map Text)

pub data ActorError : Type 0 where
  invalid_id : IdError → ActorError
  empty_name : ActorError
  invalid_actor_type : ActorKind → ActorError
  invalid_capability : ApplicationCapability → ActorError

-- `isValidCapability`, of a string.
unfoldable pub is_valid_capability : ApplicationCapability → Bool
is_valid_capability (ApplicationCapability.unlisted _) = false
is_valid_capability _ = true

-- `ACTOR_TYPES.includes`.
unfoldable pub is_actor_type : ActorKind → Bool
is_actor_type (ActorKind.unlisted _) = false
is_actor_type _ = true

-- `capabilities.has`.
unfoldable pub has_member : ApplicationCapability → List ApplicationCapability → Bool
has_member c cs = any (same_capability c) cs

-- `new ImmutableSet(entries)`.
unfoldable pub set_of_capabilities :
    List ApplicationCapability → List ApplicationCapability → List ApplicationCapability
unfolding has_member
set_of_capabilities [] set = set
set_of_capabilities (c ∷ cs) set =
    set_of_capabilities cs (if has_member c set then set else set ++ c ∷ [])

unfoldable pub check_capability : ApplicationCapability → Result ActorError ApplicationCapability
check_capability c = do throw_if (not (is_valid_capability c)) (invalid_capability c); ok c

abbrev pub lift_id : Result IdError Text → Result ActorError Text
lift_id (ok a) = ok a
lift_id (throw e) = throw (invalid_id e)

-- `email?.trim() || undefined`.
unfoldable pub trim_actor_email : Option Text → Option Text
trim_actor_email none = none
trim_actor_email (some e) = if is_blank e then none else some (trim e)

-- The argument has the fields of an actor.
unfoldable pub create_authenticated_actor :
    AuthenticatedActor → Result ActorError AuthenticatedActor
create_authenticated_actor props = do
  id ← lift_id (create_actor_id props.id)
  throw_if (is_blank props.name) empty_name
  throw_if (not (is_actor_type props.actor_type)) (invalid_actor_type props.actor_type)
  raw ← traverse check_capability props.capabilities
  ok (record {
    id = id;
    name = trim props.name;
    email = trim_actor_email props.email;
    actor_type = props.actor_type;
    capabilities = set_of_capabilities raw [];
    metadata = props.metadata;
  })

unfoldable pub has_capability : AuthenticatedActor → ApplicationCapability → Bool
unfolding has_member
has_capability actor c =
    if has_member operator_admin actor.capabilities then true else has_member c actor.capabilities
