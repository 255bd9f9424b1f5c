-- ===== src/Identity/Laws.antt =====
-- Who may do what: the capabilities of a created actor.
use solutions_studio.Base.{
  ◌≡◌, ◌∙◌, refl, true, false, ◌||◌, List, [], ◌∷◌, ◌++◌, arith, any, any-append, All, Bool-cases,
  inl, inr,
}
use solutions_studio.Base.Text.{IsWritten, IsWritten-trim, is_blank, trim}
use solutions_studio.Base.Result.{ok, traverse, traverse_parts, Result-cases}
use solutions_studio.Ids.{assert_non_empty, create_actor_id}
use solutions_studio.Identity.{
  ApplicationCapability, operator_admin, ApplicationCapability-discrete, same_capability,
  AuthenticatedActor, is_valid_capability, is_actor_type, has_member, set_of_capabilities,
  check_capability, create_authenticated_actor, has_capability,
}

has_member-append :
    (c d : ApplicationCapability) (set : List ApplicationCapability)
    → has_member c (set ++ d ∷ []) ≡ (has_member c set || same_capability c d)
unfolding has_member any
has_member-append c d set = any-append (same_capability c) set (d ∷ []) ∙ ground arith

has_member-cons :
    (c d : ApplicationCapability) (cs : List ApplicationCapability)
    → has_member c (d ∷ cs) ≡ (same_capability c d || has_member c cs)
unfolding has_member any
has_member-cons c d cs = refl

-- A capability that is the same as a member is one.
same_member :
    (c d : ApplicationCapability) (set : List ApplicationCapability)
    → has_member d set ≡ true
    → same_capability c d ≡ true
    → has_member c set ≡ true
same_member c d set present h = elim (ApplicationCapability-discrete c d) [
  | yes e ↦ rw e present
  | no n ↦ absurd (ground (arith, h))
]

-- Taking duplicates out keeps the members.
has_member-set_of_capabilities :
    (c : ApplicationCapability) (cs set : List ApplicationCapability)
    → has_member c (set_of_capabilities cs set) ≡ (has_member c cs || has_member c set)
unfolding set_of_capabilities
has_member-set_of_capabilities c [] set = unfold has_member in unfold any in refl
has_member-set_of_capabilities c (d ∷ cs) set = elim (Bool-cases (has_member d set)) [
  | inl present ↦ rw present (
      has_member-set_of_capabilities c cs set
      ∙ ground (arith, has_member-cons c d cs, same_member c d set present))
  | inr absent ↦ rw absent (
      has_member-set_of_capabilities c cs (set ++ d ∷ [])
      ∙ ground (arith, has_member-cons c d cs, has_member-append c d set))
]

-- The checks pass the capabilities on as they are, and all of them are listed.
traverse-check_capability :
    (cs ds : List ApplicationCapability)
    → traverse check_capability cs ≡ ok ds
    → (ds ≡ cs) × All (λ c. is_valid_capability c ≡ true) cs
unfolding check_capability
traverse-check_capability [] ds h = (ground (arith, h), tt)
traverse-check_capability (c ∷ cs) [] h = absurd (ground (arith, h))
traverse-check_capability (c ∷ cs) (d ∷ ds) h =
    let (first, others) = traverse_parts check_capability c d cs ds h in
    let (same_list, listed) = traverse-check_capability cs ds others in
    (ground (arith, first, same_list), (ground (arith, first), listed))

-- What went into an actor.
record ActorParts (props actor : AuthenticatedActor) : Type 0 where
  identified : is_blank props.id ≡ false
  made : actor.id ≡ trim props.id
  named : is_blank props.name ≡ false
  name : actor.name ≡ trim props.name
  typed : is_actor_type actor.actor_type ≡ true
  raw : List ApplicationCapability
  checked : traverse check_capability props.capabilities ≡ ok raw
  capabilities : actor.capabilities ≡ set_of_capabilities raw []

actor_parts :
    (props actor : AuthenticatedActor)
    → create_authenticated_actor props ≡ ok actor
    → ActorParts props actor
unfolding create_authenticated_actor create_actor_id assert_non_empty
actor_parts props actor h = elim (Result-cases (traverse check_capability props.capabilities)) [
  | inr (e, thrown) ↦ absurd (ground (arith, h, thrown))
  | inl (raw, known) ↦ record {
    identified = ground (arith, h);
    made = ground (arith, h);
    named = ground (arith, h);
    name = ground (arith, h);
    typed = ground (arith, h);
    raw = raw;
    checked = known;
    capabilities = ground (arith, h, known);
  }
]

-- A created actor has a written identifier and name and a listed type.
pub record IsActor (actor : AuthenticatedActor) : Type 0 where
  pub id : IsWritten actor.id
  pub name : IsWritten actor.name
  pub typed : is_actor_type actor.actor_type ≡ true

-- An actor is created only from listed capabilities, is well-formed, and may do exactly what it was
-- given, or everything if it was given the administrator's capability.
pub create_authenticated_actor-has_capability :
    (props actor : AuthenticatedActor)
    → create_authenticated_actor props ≡ ok actor
    → IsActor actor
      × All (λ c. is_valid_capability c ≡ true) props.capabilities
      × ((c : ApplicationCapability)
          → has_capability actor c
            ≡ (has_member operator_admin props.capabilities || has_member c props.capabilities))
unfolding has_capability
create_authenticated_actor-has_capability props actor h =
    let p = actor_parts props actor h in
    let (same_list, listed) = traverse-check_capability props.capabilities p.raw p.checked in
    (
      record {
        id = rw p.made (IsWritten-trim props.id p.identified);
        name = rw p.name (IsWritten-trim props.name p.named);
        typed = p.typed;
      },
      listed,
      λ c.
          let own = has_member-set_of_capabilities c p.raw [] in
          let admin = has_member-set_of_capabilities operator_admin p.raw [] in
          rw p.capabilities
            (unfold has_member in unfold any in ground (arith, own, admin, same_list)),
    )
