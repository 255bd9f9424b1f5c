-- ===== src/Stories/Order/Samples.antt =====
-- Small sets of stories, their execution order, and the theorems at them.
use Prim.Native.String.{String}
use solutions_studio.Base.{◌≡◌, refl, ◌⊎◌, true, none, some, List, [], ◌∷◌, arith, ◌≤◌}
use solutions_studio.Base.Text.{Text, codes, Text-discrete, has}
use solutions_studio.Base.Numbers.{compare_code_units}
use solutions_studio.Base.Maps.{get, set}
use solutions_studio.Base.Counts.{sort, count}
use solutions_studio.Base.Result.{ok}
use solutions_studio.Ids.{create_story_id}
use solutions_studio.Stories.Types.{Story, StoryDependencyGraphValidationResult}
use solutions_studio.Stories.Order.{compute_topological_execution_order, add_deps, add_link, relax}
use solutions_studio.Stories.Order.Edges.{ids}
use solutions_studio.Stories.Order.Start.{IsCanonical}
use solutions_studio.Stories.Order.Laws.{
  IsExecutionOrder, IsAcyclic, compute_topological_execution_order_sound,
  compute_topological_execution_order_complete, compute_topological_execution_order-IsAcyclic,
}

abbrev story : String → List Text → Story
story id dependencies = record {
  id = codes id;
  baseline_id = codes "BASE-1";
  title = codes "t";
  narrative = record {
    role = codes "r";
    feature = codes "f";
    benefit = codes "b";
    raw_text = none;
  };
  requirement_revision_ids = codes "REQ-1@r1" ∷ [];
  policy_constraint_revision_ids = none;
  scenarios = [];
  acceptance_criteria = [];
  gherkin_text = codes "g";
  created_at = codes "2026-01-01T00:00:00Z";
  dependencies = some dependencies;
  version = none;
}

abbrev pub valid : StoryDependencyGraphValidationResult
valid = record {
  is_valid = true;
  errors = [];
  missing_node_ids = [];
  self_dependencies = [];
  cycles = [];
}

-- "c" waits for both others and names an unknown story, which is skipped.
abbrev chain : List Story
chain =
    story "c" (codes "b" ∷ codes "a" ∷ codes "z" ∷ [])
    ∷ story "b" (codes "a" ∷ codes "a" ∷ [])
    ∷ story "a" []
    ∷ []

abbrev chain_order : List Text
chain_order = codes "a" ∷ codes "b" ∷ codes "c" ∷ []

-- What runs in the tests.
program : Unit {0}
unfolding compute_topological_execution_order add_deps add_link relax compare_code_units
    Text-discrete get set has sort create_story_id
program = tt

chain_ordered : compute_topological_execution_order compare_code_units chain valid ≡ ok chain_order
unfolding program
chain_ordered = refl

abbrev loop : List Story
loop = story "a" (codes "b" ∷ []) ∷ story "b" (codes "a" ∷ []) ∷ []

loop_refused : compute_topological_execution_order compare_code_units loop valid ≡ ok []
unfolding program
loop_refused = refl

chain-IsCanonical : IsCanonical chain
unfolding create_story_id
chain-IsCanonical = (refl, (refl, (refl, tt)))

compute_topological_execution_order_sound_example :
    (order : List Text) × (compute_topological_execution_order compare_code_units chain valid
      ≡ ok order)
    × ((order ≡ []) ⊎ IsExecutionOrder chain order)
compute_topological_execution_order_sound_example =
    compute_topological_execution_order_sound compare_code_units chain valid chain-IsCanonical

compute_topological_execution_order-IsAcyclic_example : IsAcyclic chain
compute_topological_execution_order-IsAcyclic_example =
    compute_topological_execution_order-IsAcyclic compare_code_units chain valid chain_order
      chain-IsCanonical chain_ordered (λ e. cc)

chain_distinct : (u : Text) → count u (ids chain) ≤ 1
unfolding count
chain_distinct u = ground arith

compute_topological_execution_order_complete_example :
    (order : List Text) × (compute_topological_execution_order compare_code_units chain valid
      ≡ ok order)
    × IsExecutionOrder chain order
compute_topological_execution_order_complete_example =
    compute_topological_execution_order_complete compare_code_units chain valid chain-IsCanonical
      chain_distinct compute_topological_execution_order-IsAcyclic_example refl refl
