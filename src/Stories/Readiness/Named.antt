-- ===== src/Stories/Readiness/Named.antt =====
-- What the story that StoryReadiness.ts evaluates names, and what concerns it.
use mathlib.Core.List.{Memᴰ}
use solutions_studio.Base.{
  ◌≡◌, refl, ap, ◌∙◌, Bool, true, false, not, ◌||◌, Option, none, some, List, [], ◌∷◌, any, every,
  keep, arith, value_or, is_empty,
}
use solutions_studio.Base.Text.{Text, has}
use solutions_studio.Base.Maps.{get}
use solutions_studio.Base.Sets.{add_all, set_of, has-add_all, has-set_of}
use solutions_studio.Base.Members.{has_iff, member_any}
use solutions_studio.Requirements.Types.{
  FindingType, RequirementReviewState, RequirementResolutionState, clear, PolicyConstraintState,
  RequirementRevision, PolicyConstraintRevision, RequirementsBaseline, CandidateFinding,
  EngineeringDecision, EngineeringDecisionState, proposed,
}
use solutions_studio.Requirements.Baseline.{is_accepted, is_clear, is_policy_accepted}
use solutions_studio.Requirements.Finding.{is_finding_type, is_open}
use solutions_studio.Stories.Types.{Story, GherkinScenario}
use solutions_studio.Stories.Coverage.Naming.{Names, Names-covers}
use solutions_studio.Stories.Readiness.{
  StoryReadinessPolicy, StoryReadinessEvaluationContext, all_story_req_ids, all_story_pol_ids,
  add_policies, policy_map, is_ready_requirement, is_ready_policy, is_offending_policy,
  check_policy_constraints, policy_constraints_valid,
}
use solutions_studio.Stories.Readiness.Rules.{
  is_blocking_type, is_blocking_finding, allows_deferred, is_failing_state, is_failing_decision,
  same_type,
}
use solutions_studio.Stories.Readiness.Laws.{has-all_story_req_ids, kept_none, none_failing}

-- The story names a policy constraint revision itself, or one of its scenarios does.
pub data NamesPolicy (p : Text) (s : Story) : Type 0 where
  by_story : Memᴰ p (value_or s.policy_constraint_revision_ids []) → NamesPolicy p s
  by_scenario :
      (sc : GherkinScenario)
      → Memᴰ sc s.scenarios
      → Memᴰ p (value_or sc.policy_constraint_revision_ids [])
      → NamesPolicy p s

-- The types of findings that block: those that the policy lists, and else all of the enumeration.
pub data BlocksBy : Option StoryReadinessPolicy → FindingType → Type 0 where
  by_default : {t : FindingType} → is_finding_type t ≡ true → BlocksBy none t
  unlimited :
      {t : FindingType} (p : StoryReadinessPolicy)
      → p.blocking_finding_types ≡ none
      → is_finding_type t ≡ true
      → BlocksBy (some p) t
  listed :
      {t : FindingType} (p : StoryReadinessPolicy) (ts : List FindingType)
      → p.blocking_finding_types ≡ some ts
      → Memᴰ t ts
      → BlocksBy (some p) t

-- The finding affects a revision that the story names, or no revision but the story's baseline.
pub data Concerns (s : Story) (f : CandidateFinding) : Type 0 where
  revision : (r : Text) → Memᴰ r f.affected_requirement_revisions → Names r s → Concerns s f
  whole_baseline :
      f.affected_requirement_revisions ≡ [] → f.baseline_id ≡ some s.baseline_id → Concerns s f

has-add_policies :
    (u : Text) (scs : List GherkinScenario) (ids : List Text)
    → has u (add_policies scs ids) ≡ (
        any (λ (sc : GherkinScenario). has u (value_or sc.policy_constraint_revision_ids [])) scs
        || has u ids)
unfolding add_policies any
has-add_policies u [] ids = refl
has-add_policies u (sc ∷ scs) ids = ground (
  arith,
  has-add_policies u scs (add_all (value_or sc.policy_constraint_revision_ids []) ids),
  has-add_all u (value_or sc.policy_constraint_revision_ids []) ids,
)

NamesPolicy-has : (u : Text) (s : Story) → NamesPolicy u s → has u (all_story_pol_ids s) ≡ true
unfolding all_story_pol_ids
NamesPolicy-has u s n =
    let e =
      has-add_policies u s.scenarios (set_of (value_or s.policy_constraint_revision_ids [])) in
    let own = has-set_of u (value_or s.policy_constraint_revision_ids []) in
    elim n [
      | by_story m ↦
          let h = (has_iff u (value_or s.policy_constraint_revision_ids [])).1 m in
          ground (arith, e, own, h)
      | by_scenario sc l m ↦
          let h =
            member_any
              (λ (sc : GherkinScenario). has u (value_or sc.policy_constraint_revision_ids []))
              s.scenarios sc l ((has_iff u (value_or sc.policy_constraint_revision_ids [])).1 m) in
          ground (arith, e, own, h)
    ]

named_ids : (u : Text) (s : Story) → Names u s → has u (all_story_req_ids s) ≡ true
named_ids u s n = has-all_story_req_ids u s ∙ Names-covers u s n

accepted_state :
    (p : PolicyConstraintState) → is_policy_accepted p ≡ true → p ≡ PolicyConstraintState.accepted
unfolding is_policy_accepted
accepted_state p h = ground (arith, h)

accepted_review :
    (r : RequirementReviewState) → is_accepted r ≡ true → r ≡ RequirementReviewState.accepted
unfolding is_accepted
accepted_review r h = ground (arith, h)

clear_resolution : (r : RequirementResolutionState) → is_clear r ≡ true → r ≡ clear
unfolding is_clear
clear_resolution r h = ground (arith, h)

pub ready_requirement :
    (o : Option RequirementRevision)
    → is_ready_requirement o ≡ true
    → (r : RequirementRevision) × (o ≡ some r)
      × (r.review_state ≡ RequirementReviewState.accepted)
      × (r.resolution_state ≡ clear)
unfolding is_ready_requirement
ready_requirement none h = absurd cc
ready_requirement (some r) h = (
  r,
  refl,
  accepted_review r.review_state (ground arith),
  clear_resolution r.resolution_state (ground arith),
)

ready_policy :
    (o : Option PolicyConstraintRevision)
    → is_ready_policy o ≡ true
    → (p : PolicyConstraintRevision) × (o ≡ some p) × (p.state ≡ PolicyConstraintState.accepted)
unfolding is_ready_policy
ready_policy none h = absurd cc
ready_policy (some p) h = (p, refl, accepted_state p.state h)

-- The policy constraint is in the baseline and accepted.
pub record IsValidPolicy (context : StoryReadinessEvaluationContext) (b : RequirementsBaseline)
    (u : Text) : Type 0 where
  pub member : has u b.policy_constraint_revisions ≡ true
  pub policy : PolicyConstraintRevision
  pub found : get u (policy_map (value_or context.policy_constraint_revisions []) []) ≡ some policy
  pub accepted : policy.state ≡ PolicyConstraintState.accepted

no_named : (xs : List Text) (u : Text) → has u xs ≡ true → is_empty xs ≡ false
unfolding has
no_named [] u h = cc
no_named (x ∷ xs) u h = refl

pub policies_passed :
    (context : StoryReadinessEvaluationContext) (b : RequirementsBaseline) (u : Text)
    → context.baseline ≡ some b
    → check_policy_constraints context ≡ none
    → NamesPolicy u context.story
    → IsValidPolicy context b u
unfolding check_policy_constraints is_offending_policy
policies_passed context b u given passed n =
    let ids = all_story_pol_ids context.story in
    let known = policy_map (value_or context.policy_constraint_revisions []) [] in
    let h = NamesPolicy-has u context.story n in
    let fine =
      kept_none (is_offending_policy b known) ids u
        (none_failing policy_constraints_valid (keep (is_offending_policy b known) ids)
          (ground (arith, given, passed, no_named ids u h)))
        h in
    let (p, found, accepted) = ready_policy (get u known) (ground (arith, fine)) in
    record {
      member = ground (arith, fine, has-set_of u b.policy_constraint_revisions);
      policy = p;
      found = found;
      accepted = accepted;
    }

BlocksBy-is_blocking_type :
    (policy : Option StoryReadinessPolicy) (t : FindingType)
    → BlocksBy policy t
    → is_blocking_type policy t ≡ true
unfolding is_blocking_type
BlocksBy-is_blocking_type policy t (by_default h) = h
BlocksBy-is_blocking_type policy t (unlimited p e h) = rw e h
BlocksBy-is_blocking_type policy t (listed p ts e m) =
    rw e (member_any (same_type t) ts t m (ground arith))

-- An open finding of a blocking type that concerns the story blocks it.
pub blocking_lem :
    (policy : Option StoryReadinessPolicy) (s : Story) (f : CandidateFinding)
    → is_open f.disposition ≡ true
    → BlocksBy policy f.type
    → Concerns s f
    → is_blocking_finding policy s (all_story_req_ids s) f ≡ true
unfolding is_blocking_finding any
blocking_lem policy s f opened blocks (revision r m n) =
    let typed = BlocksBy-is_blocking_type policy f.type blocks in
    let hit =
      member_any (λ v. has v (all_story_req_ids s)) f.affected_requirement_revisions r m
        (named_ids r s n) in
    ground (arith, opened, typed, hit)
blocking_lem policy s f opened blocks (whole_baseline e own) =
    let typed = BlocksBy-is_blocking_type policy f.type blocks in
    rw (opened, typed, e, own) (ground arith)

-- The decision is about the story's baseline, and about a revision that the story names or none.
pub data Decides (s : Story) (d : EngineeringDecision) : Type 0 where
  decision_on :
      (r : Text)
      → d.baseline_id ≡ s.baseline_id
      → Memᴰ r d.requirement_revision_ids
      → Names r s
      → Decides s d
  decision_on_all : d.baseline_id ≡ s.baseline_id → d.requirement_revision_ids ≡ [] → Decides s d

-- The states that fail a decision: rejected, and proposed if the policy does not allow that.
pub data FailsBy : Option StoryReadinessPolicy → EngineeringDecisionState → Type 0 where
  by_rejection :
      {policy : Option StoryReadinessPolicy} → FailsBy policy EngineeringDecisionState.rejected
  by_proposal :
      (p : StoryReadinessPolicy)
      → p.allow_deferred_engineering_decisions ≡ some false
      → FailsBy (some p) proposed

FailsBy-is_failing_state :
    (policy : Option StoryReadinessPolicy) (state : EngineeringDecisionState)
    → FailsBy policy state
    → is_failing_state (allows_deferred policy) state ≡ true
unfolding is_failing_state allows_deferred
FailsBy-is_failing_state policy state by_rejection = refl
FailsBy-is_failing_state policy state (by_proposal p e) = rw e refl

-- A decision on the story in such a state fails it.
pub failing_lem :
    (policy : Option StoryReadinessPolicy) (s : Story) (d : EngineeringDecision)
    → Decides s d
    → FailsBy policy d.state
    → is_failing_decision (allows_deferred policy) s (all_story_req_ids s) d ≡ true
unfolding is_failing_decision
failing_lem policy s d (decision_on r e m n) fails =
    let hit =
      member_any (λ v. has v (all_story_req_ids s)) d.requirement_revision_ids r m
        (named_ids r s n) in
    let state = FailsBy-is_failing_state policy d.state fails in rw (e, state) (ground (arith, hit))
failing_lem policy s d (decision_on_all e none_given) fails =
    let state = FailsBy-is_failing_state policy d.state fails in
    rw (e, state, none_given) (ground arith)

pub every_member {ℓ} :
    {A : Type ℓ} (p : A → Bool) (xs : List A) (x : A)
    → every (λ y. not (p y)) xs ≡ true
    → Memᴰ x xs
    → p x ≡ false
unfolding every
every_member p [] x h m = elim m [ ]
every_member p (y ∷ ys) x h (Memᴰ.head e) = ap p e ∙ ground arith
every_member p (y ∷ ys) x h (Memᴰ.tail m) = every_member p ys x (ground arith) m
