-- ===== src/Stories/Order.antt =====
-- `computeTopologicalExecutionOrder` of packages/domain/src/requirements/StoryDependencyGraph.ts.
-- `localeCompare` is the argument `locale_compare`: its collation is the host's.
mod Edges
mod Filling
mod Relaxing
mod Loop
pub mod Start
mod Ranks
pub mod Laws
pub mod Samples
use Prim.Native.Nat.{Ordering}
use solutions_studio.Base.{
  ℕ, zero, suc, Bool, true, false, not, ◌||◌, Option, none, some, List, [], ◌∷◌, ◌++◌, map,
  is_empty, length, value_or, if◌then◌else◌, ◌==◌,
}
use solutions_studio.Base.Text.{Text, same}
use solutions_studio.Base.Result.{Result, ok, throw, ◌>>=◌}
use solutions_studio.Base.Numbers.{ℤ, pos, negsuc, add_one, sub_one, is_zero}
use solutions_studio.Base.Maps.{Map, get, set, keys, has_key}
use solutions_studio.Base.Counts.{sort}
use solutions_studio.Ids.{IdError, create_story_id}
use solutions_studio.Stories.Types.{
  Story, deps, StoryDependencyGraphValidationResult, GraphError, out_of_fuel, lift_id,
}

-- `storyMap`.
unfoldable pub story_map : List Story → Map Story → Map Story
story_map [] m = m
story_map (s ∷ ss) m = story_map ss (set s.id s m)

pub record Links : Type 0 where
  pub adjacency : Map (List Text)
  -- The code may take an in-degree below zero.
  pub in_degree : Map ℤ

-- The first loop: `adjacency.set(s.id, []); inDegree.set(s.id, 0)`.
pub init_links : List Story → Links → Links
init_links [] l = l
init_links (s ∷ ss) l =
    init_links ss
      (record { adjacency = set s.id [] l.adjacency; in_degree = set s.id (pos 0) l.in_degree })

-- `adjacency.get(depId)!.push(id); inDegree.set(id, (inDegree.get(id) ?? 0) + 1)`.
pub add_link : Text → Text → Links → Links
add_link id dep l = record {
  adjacency = set dep (value_or (get dep l.adjacency) [] ++ id ∷ []) l.adjacency;
  in_degree = set id (add_one (value_or (get id l.in_degree) (pos 0))) l.in_degree;
}

-- The inner loop over the dependencies of a story, and the outer one over the stories.
pub add_deps : Map Story → Text → List Text → Links → Links
add_deps known id [] l = l
add_deps known id (d ∷ ds) l = add_deps known id ds (if has_key d known then add_link id d l else l)

pub add_stories : Map Story → List Story → Links → Links
add_stories known [] l = l
add_stories known (s ∷ ss) l = add_stories known ss (add_deps known s.id (deps s) l)

-- The entries with in-degree 0, in the order of the map.
pub initial_queue : Map ℤ → List Text
initial_queue [] = []
initial_queue ((id, deg) ∷ m) =
    let rest = initial_queue m in if is_zero deg then id ∷ rest else rest

module _ (locale_compare : Text → Text → Ordering) where
  -- The body of the loop over the dependents of a scheduled story.
  pub relax_one : Text → Map ℤ × List Text → Map ℤ × List Text
  relax_one dep (in_degree, queue) =
      let remaining = sub_one (value_or (get dep in_degree) (pos 0)) in
      (
        set dep remaining in_degree,
        if is_zero remaining then sort locale_compare (queue ++ dep ∷ []) else queue,
      )

  pub relax : List Text → Map ℤ × List Text → Map ℤ × List Text
  unfolding relax_one
  relax [] st = st
  relax (d ∷ ds) st = relax ds (relax_one d st)

  -- The `while` loop; `fuel` bounds its rounds.
  pub schedule :
      (fuel : ℕ) (adjacency : Map (List Text)) (in_degree : Map ℤ) (queue order : List Text)
      → Result GraphError (List Text)
  schedule zero adjacency in_degree queue order = throw out_of_fuel
  schedule (suc fuel) adjacency in_degree [] order = ok order
  schedule (suc fuel) adjacency in_degree (current ∷ queue) order = do
    id ← lift_id (create_story_id current)
    let st = relax (value_or (get current adjacency) []) (in_degree, queue)
    schedule fuel adjacency st.0 st.1 (order ++ id ∷ [])

  -- The order of stories that were validated: the body behind the guard.
  pub kahn : List Story → Result GraphError (List Text)
  unfolding story_map init_links add_stories initial_queue schedule
  kahn stories = do
    let known = story_map stories []
    let links =
        add_stories known stories (init_links stories (record { adjacency = []; in_degree = [] }))
    let queue = sort locale_compare (initial_queue links.in_degree)
    order ← schedule (suc (length stories)) links.adjacency links.in_degree queue []
    ok (if not (length order == length stories) then [] else order)

  pub compute_topological_execution_order :
      List Story → StoryDependencyGraphValidationResult → Result GraphError (List Text)
  unfolding kahn
  compute_topological_execution_order stories validation =
      if not validation.is_valid || not (is_empty validation.cycles) || is_empty stories
      then ok []
      else kahn stories
