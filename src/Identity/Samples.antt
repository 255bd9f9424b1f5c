-- ===== src/Identity/Samples.antt =====
-- An actor who was given a capability twice, and an unknown one.
use solutions_studio.Base.{◌≡◌, refl, true, ◌||◌, none, some, List, [], ◌∷◌, All, any}
use solutions_studio.Base.Text.{codes, trim, Text-discrete}
use solutions_studio.Base.Result.{ok, throw}
use solutions_studio.Ids.{assert_non_empty, create_actor_id}
use solutions_studio.Identity.{
  human, ApplicationCapability, candidate_approve, backlog_export, operator_admin,
  AuthenticatedActor, invalid_capability, is_valid_capability, is_actor_type, has_member,
  set_of_capabilities, check_capability, trim_actor_email, create_authenticated_actor,
  has_capability, ApplicationCapability-discrete,
}
use solutions_studio.Identity.Laws.{IsActor, create_authenticated_actor-has_capability}

abbrev props : List ApplicationCapability → AuthenticatedActor
props capabilities = record {
  id = codes " ana";
  name = codes "Ana ";
  email = some (codes " ");
  actor_type = human;
  capabilities = capabilities;
  metadata = none;
}

abbrev actor : AuthenticatedActor
actor = record {
  id = codes "ana";
  name = codes "Ana";
  email = none;
  actor_type = human;
  capabilities = candidate_approve ∷ backlog_export ∷ [];
  metadata = none;
}

-- What runs in the tests.
program : Unit {0}
unfolding create_authenticated_actor create_actor_id assert_non_empty trim check_capability
    is_valid_capability is_actor_type set_of_capabilities has_member trim_actor_email any
    ApplicationCapability-discrete Text-discrete
program = tt

actor_created :
    create_authenticated_actor (props (candidate_approve ∷ backlog_export ∷ candidate_approve ∷ []))
    ≡ ok actor
unfolding program
actor_created = refl

unknown_refused :
    create_authenticated_actor (props (ApplicationCapability.unlisted (codes "all") ∷ []))
    ≡ throw (invalid_capability (ApplicationCapability.unlisted (codes "all")))
unfolding program
unknown_refused = refl

create_authenticated_actor-has_capability_example :
    IsActor actor
    × All
        (λ c. is_valid_capability c ≡ true)
        (candidate_approve ∷ backlog_export ∷ candidate_approve ∷ [])
    × ((c : ApplicationCapability)
        → has_capability actor c ≡ (
            has_member operator_admin (candidate_approve ∷ backlog_export ∷ candidate_approve ∷ [])
            || has_member c (candidate_approve ∷ backlog_export ∷ candidate_approve ∷ [])))
create_authenticated_actor-has_capability_example =
    create_authenticated_actor-has_capability
      (props (candidate_approve ∷ backlog_export ∷ candidate_approve ∷ [])) actor actor_created
