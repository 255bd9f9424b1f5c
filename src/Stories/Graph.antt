-- ===== src/Stories/Graph.antt =====
-- `validateStoryDependencies` of packages/domain/src/requirements/StoryDependencyGraph.ts.
mod Samples
use Prim.Native.Nat.{Ordering}
use solutions_studio.Base.{not, ◌&&◌, List, [], ◌∷◌, ◌++◌, map, is_empty, if◌then◌else◌}
use solutions_studio.Base.Text.{Text, same, codes}
use solutions_studio.Base.Result.{Result, ok, ◌>>=◌}
use solutions_studio.Base.Maps.{Map, has_key}
use solutions_studio.Base.Counts.{sort}
use solutions_studio.Base.Sets.{add}
use solutions_studio.Base.Numbers.{compare_code_units}
use solutions_studio.Stories.Types.{
  Story, deps, DependencyError, self_dependency, unknown_dependency, cycle,
  StoryDependencyGraphValidationResult, GraphError,
}
use solutions_studio.Stories.Order.{story_map}
use solutions_studio.Stories.CycleSearch.{detect_cycles, join}

-- What the loops over the dependencies have collected.
pub record Collected : Type 0 where
  pub missing : List Text
  pub selfs : List Text
  pub errors : List DependencyError

unfoldable pub check_dependency : Map Story → Text → Text → Collected → Collected
check_dependency known id dep c =
    if same dep id
    then record c { selfs = add id c.selfs; errors = c.errors ++ self_dependency id ∷ [] }
    else if not (has_key dep known)
    then record c {
      missing = add dep c.missing;
      errors = c.errors ++ unknown_dependency id dep ∷ [];
    }
    else c

unfoldable pub check_dependencies : Map Story → Text → List Text → Collected → Collected
unfolding check_dependency
check_dependencies known id [] c = c
check_dependencies known id (d ∷ ds) c =
    check_dependencies known id ds (check_dependency known id d c)

unfoldable pub check_stories : Map Story → List Story → Collected → Collected
unfolding check_dependencies
check_stories known [] c = c
check_stories known (s ∷ ss) c = check_stories known ss (check_dependencies known s.id (deps s) c)

-- The text of an entry of `errors`, by which they are sorted.
unfoldable pub error_text : DependencyError → Text
unfolding join
error_text (self_dependency s) =
    codes "Story '" ++ (s ++ codes "' cannot declare a dependency on itself")
error_text (unknown_dependency s d) =
    codes "Story '" ++ (s ++ (codes "' references unknown dependency story '" ++ (d ++ codes "'")))
error_text (cycle c) = codes "Dependency cycle detected: [" ++ (join (codes " -> ") c ++ codes "]")

abbrev compare_errors : DependencyError → DependencyError → Ordering
compare_errors a b = compare_code_units (error_text a) (error_text b)

abbrev pub nothing_collected : Collected
nothing_collected = record { missing = []; selfs = []; errors = [] }

module _ (locale_compare : Text → Text → Ordering) where
  unfoldable pub validate_story_dependencies :
      List Story → Result GraphError StoryDependencyGraphValidationResult
  unfolding check_stories
  validate_story_dependencies stories = do
    let c = check_stories (story_map stories []) stories nothing_collected
    cycles ← detect_cycles locale_compare stories
    ok (record {
      is_valid = is_empty c.missing && (is_empty c.selfs && is_empty cycles);
      errors = sort compare_errors (c.errors ++ map cycle cycles);
      missing_node_ids = sort locale_compare c.missing;
      self_dependencies = sort locale_compare c.selfs;
      cycles = cycles;
    })
