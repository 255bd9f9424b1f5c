-- ===== src/Stories/Cycles.antt =====
-- `findStronglyConnectedComponents` and `findCyclicStoryIds` of
-- packages/domain/src/requirements/StoryDependencyGraph.ts: Tarjan's algorithm.
mod Neighbors
pub mod Depth
use Prim.Native.Nat.{Ordering, min}
use solutions_studio.Base.{
  ℕ, zero, suc, ◌+◌, Bool, true, false, not, Option, none, some, List, [], ◌∷◌, ◌++◌, length,
  value_or, if◌then◌else◌, ◌==◌,
}
use solutions_studio.Base.Text.{Text, same, has}
use solutions_studio.Base.Result.{Result, ok, throw, ◌>>=◌}
use solutions_studio.Base.Maps.{Map, get, set, keys, has_key}
use solutions_studio.Base.Counts.{sort}
use solutions_studio.Base.Sets.{add, add_all}
use solutions_studio.Ids.{create_story_id}
use solutions_studio.Stories.Types.{Story, deps, GraphError, out_of_fuel, lift_id}
use solutions_studio.Stories.Order.{story_map}

-- `adjacency`: an empty list for each story, then each known dependency's dependents.
unfoldable pub empty_adjacency : List Story → Map (List Text) → Map (List Text)
empty_adjacency [] m = m
empty_adjacency (s ∷ ss) m = empty_adjacency ss (set s.id [] m)

unfoldable pub adjoin : Map Story → Text → List Text → Map (List Text) → Map (List Text)
adjoin known id [] m = m
adjoin known id (d ∷ ds) m =
    adjoin known id ds (if has_key d known then set d (value_or (get d m) [] ++ id ∷ []) m else m)

unfoldable pub fill_adjacency : Map Story → List Story → Map (List Text) → Map (List Text)
unfolding adjoin
fill_adjacency known [] m = m
fill_adjacency known (s ∷ ss) m = fill_adjacency known ss (adjoin known s.id (deps s) m)

-- The variables that `strongConnect` shares; the end of the array `stack` is the head of the list.
pub record Search : Type 0 where
  pub index : ℕ
  pub indices : Map ℕ
  pub lowlink : Map ℕ
  pub on_stack : Map Bool
  pub stack : List Text
  pub sccs : List (List Text)

unfoldable pub enter : Text → Search → Search
enter u st = record {
  index = st.index + 1;
  indices = set u st.index st.indices;
  lowlink = set u st.index st.lowlink;
  on_stack = set u true st.on_stack;
  stack = u ∷ st.stack;
  sccs = st.sccs;
}

-- `lowlink.set(u, Math.min(lowlink.get(u)!, n))`.
unfoldable pub lower_link : Text → ℕ → Search → Search
lower_link u n st = record st { lowlink = set u (min (value_or (get u st.lowlink) 0) n) st.lowlink }

-- The popping loop: what is above `u` on the stack and `u` itself. An empty stack would make `pop`
-- undefined, which `createStoryId` rejects.
unfoldable pub pop_component :
    Text → List Text → List Text → Map Bool → Result GraphError (List Text × List Text × Map Bool)
pop_component u scc [] on_stack = do id ← lift_id (create_story_id []); ok (id ∷ scc, [], on_stack)
pop_component u scc (w ∷ stack) on_stack = do
  id ← lift_id (create_story_id w)
  let rest = pop_component u (scc ++ id ∷ []) stack (set w false on_stack)
  if same w u then ok (scc ++ id ∷ [], stack, set w false on_stack) else rest

abbrev self_loop : Text → Option Story → Bool
self_loop id none = false
self_loop id (some s) = has id (deps s)

-- `story?.dependencies?.includes(id)`.
abbrev pub depends_on_itself : Map Story → Text → Bool
depends_on_itself known id = self_loop id (get id known)

module _ (locale_compare : Text → Text → Ordering) where
  -- Sorts the neighbours of every story.
  unfoldable pub sort_neighbors : Map (List Text) → Map (List Text)
  sort_neighbors [] = []
  sort_neighbors ((k, ns) ∷ m) = (k, sort locale_compare ns) ∷ sort_neighbors m

  unfoldable pub sorted_adjacency : List Story → Map (List Text)
  unfolding sort_neighbors empty_adjacency fill_adjacency story_map
  sorted_adjacency stories =
      sort_neighbors (fill_adjacency (story_map stories []) stories (empty_adjacency stories []))

  -- The loop over the neighbours `vs` of `u`; `connect` is the recursive call.
  unfoldable pub visit_neighbors :
      (Text → Search → Result GraphError Search)
      → Text
      → List Text
      → Search
      → Result GraphError Search
  unfolding lower_link
  visit_neighbors connect u [] st = ok st
  visit_neighbors connect u (v ∷ vs) st =
      let seen = visit_neighbors connect u vs (
        if value_or (get v st.on_stack) false
        then lower_link u (value_or (get v st.indices) 0) st
        else st) in
      let unseen = (do
        st' ← connect v st
        visit_neighbors connect u vs (lower_link u (value_or (get v st'.lowlink) 0) st')) in
      if not (has_key v st.indices) then unseen else seen

  -- Closes the component of `u` if `u` is its root.
  unfoldable pub close : Text → Search → Result GraphError Search
  unfolding pop_component
  close u st =
      if value_or (get u st.lowlink) 0 == value_or (get u st.indices) 0
      then (do
        (scc, stack, on_stack) ← pop_component u [] st.stack st.on_stack
        ok (record st {
          stack = stack;
          on_stack = on_stack;
          sccs = st.sccs ++ sort locale_compare scc ∷ [];
        }))
      else ok st

  -- `strongConnect`; `fuel` bounds the depth of the recursion.
  unfoldable pub strong_connect : Map (List Text) → ℕ → Text → Search → Result GraphError Search
  unfolding enter visit_neighbors close
  strong_connect adjacency zero u st = throw out_of_fuel
  strong_connect adjacency (suc fuel) u st = do
    st' ←
        visit_neighbors (strong_connect adjacency fuel) u (value_or (get u adjacency) [])
          (enter u st)
    close u st'

  unfoldable pub connect_all : Map (List Text) → ℕ → List Text → Search → Result GraphError Search
  unfolding strong_connect
  connect_all adjacency fuel [] st = ok st
  connect_all adjacency fuel (u ∷ us) st =
      let seen = connect_all adjacency fuel us st in
      let unseen = (do
        st' ← strong_connect adjacency fuel u st
        connect_all adjacency fuel us st') in
      if not (has_key u st.indices) then unseen else seen

  -- `a[0].localeCompare(b[0])`.
  abbrev first : List Text → Text
  first [] = []
  first (x ∷ xs) = x

  abbrev compare_first : List Text → List Text → Ordering
  compare_first a b = locale_compare (first a) (first b)

  unfoldable pub find_strongly_connected_components :
      List Story → Result GraphError (List (List Text))
  unfolding sorted_adjacency connect_all
  find_strongly_connected_components stories = do
    let known = story_map stories []
    let all_ids = sort locale_compare (keys known)
    st ←
        connect_all (sorted_adjacency stories) (suc (length stories)) all_ids
          (record { index = 0; indices = []; lowlink = []; on_stack = []; stack = []; sccs = [] })
    ok (sort compare_first st.sccs)

  -- The loop over the components.
  unfoldable pub collect_cyclic : Map Story → List (List Text) → List Text → List Text
  collect_cyclic known [] cyclic = cyclic
  collect_cyclic known ([] ∷ sccs) cyclic = collect_cyclic known sccs cyclic
  collect_cyclic known ((id ∷ []) ∷ sccs) cyclic =
      collect_cyclic known sccs (if depends_on_itself known id then add id cyclic else cyclic)
  collect_cyclic known ((id ∷ jd ∷ scc) ∷ sccs) cyclic =
      collect_cyclic known sccs (add_all (id ∷ jd ∷ scc) cyclic)

  unfoldable pub find_cyclic_story_ids : List Story → Result GraphError (List Text)
  unfolding find_strongly_connected_components collect_cyclic
  find_cyclic_story_ids stories = do
    sccs ← find_strongly_connected_components stories
    ok (collect_cyclic (story_map stories []) sccs [])
