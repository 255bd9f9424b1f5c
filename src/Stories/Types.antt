-- ===== src/Stories/Types.antt =====
-- The data of packages/domain/src/requirements/Story.ts and of StoryDependencyGraph.ts.
use solutions_studio.Base.{ℕ, Bool, Option, List, [], value_or}
use solutions_studio.Base.Text.{Text}
use solutions_studio.Base.Result.{Result, ok, throw}
use solutions_studio.Ids.{IdError}

pub record StoryNarrative : Type 0 where
  pub role : Text
  pub feature : Text
  pub benefit : Text
  pub raw_text : Option Text

-- A step's keyword; `unlisted` is a string outside the union.
pub data GherkinStepKeyword : Type 0 where
  given when then and but : GherkinStepKeyword
  unlisted : Text → GherkinStepKeyword

pub record GherkinStep : Type 0 where
  pub keyword : GherkinStepKeyword
  pub text : Text

pub record GherkinScenario : Type 0 where
  pub id : Option Text
  pub title : Text
  pub requirement_revision_ids : List Text
  pub policy_constraint_revision_ids : Option (List Text)
  pub steps : List GherkinStep
  pub raw_text : Option Text

pub record Story : Type 0 where
  pub id : Text
  pub baseline_id : Text
  pub title : Text
  pub narrative : StoryNarrative
  pub requirement_revision_ids : List Text
  pub policy_constraint_revision_ids : Option (List Text)
  pub scenarios : List GherkinScenario
  pub acceptance_criteria : List Text
  pub gherkin_text : Text
  pub created_at : Text
  pub dependencies : Option (List Text)
  pub version : Option ℕ

-- `s.dependencies ?? []`.
abbrev pub deps : Story → List Text
deps s = value_or s.dependencies []

-- What a cyclic or dangling dependency is reported as. An entry of `errors` is one of its cases.
pub data DependencyError : Type 0 where
  self_dependency : (story : Text) → DependencyError
  unknown_dependency : (story dependency : Text) → DependencyError
  cycle : List Text → DependencyError

pub record StoryDependencyGraphValidationResult : Type 0 where
  pub is_valid : Bool
  pub errors : List DependencyError
  pub missing_node_ids : List Text
  pub self_dependencies : List Text
  pub cycles : List (List Text)

-- The errors that the functions on the graph throw. `out_of_fuel` is the model's own: the rounds of a
-- loop were bounded too tightly.
pub data GraphError : Type 0 where
  invalid_id : IdError → GraphError
  out_of_fuel : GraphError
  missing_story_dependency_node : (referrer dependency : Text) → GraphError
  story_self_dependency : Text → GraphError
  story_dependency_cycle : List Text → GraphError
  graph_validation_failed : List DependencyError → GraphError

abbrev pub lift_id : Result IdError Text → Result GraphError Text
lift_id (ok a) = ok a
lift_id (throw e) = throw (invalid_id e)
