-- ===== src/Stories/CycleSearch.antt =====
-- `normalizeCycle`, `findCycleForStory` and `detectCycles` of
-- packages/domain/src/requirements/StoryDependencyGraph.ts.
pub mod Rounds
use Prim.Native.Nat.{Ordering}
use solutions_studio.Base.{
  ℕ, zero, suc, ◌+◌, Bool, true, false, not, Option, none, some, List, [], ◌∷◌, ◌++◌, length,
  value_or, is_empty, if◌then◌else◌, leb,
}
use solutions_studio.Base.Text.{Text, same, has, codes}
use solutions_studio.Base.Result.{Result, ok, throw, ◌>>=◌, traverse}
use solutions_studio.Base.Maps.{Map, get}
use solutions_studio.Base.Counts.{sort}
use solutions_studio.Base.Sets.{add}
use solutions_studio.Ids.{create_story_id}
use solutions_studio.Stories.Types.{Story, GraphError, out_of_fuel, lift_id}
use solutions_studio.Stories.Order.{story_map}
use solutions_studio.Stories.Cycles.{sorted_adjacency, depends_on_itself, find_cyclic_story_ids}

-- `xs.slice(0, -1)`.
unfoldable pub init : List Text → List Text
init [] = []
init (x ∷ []) = []
init (x ∷ y ∷ xs) = x ∷ init (y ∷ xs)

unfoldable pub drop : ℕ → List Text → List Text
drop zero xs = xs
drop (suc n) [] = []
drop (suc n) (x ∷ xs) = drop n xs

unfoldable pub take : ℕ → List Text → List Text
take zero xs = []
take (suc n) [] = []
take (suc n) (x ∷ xs) = x ∷ take n xs

abbrev first_of_list : List Text → Text
first_of_list [] = []
first_of_list (x ∷ xs) = x

-- `xs.join(sep)`.
unfoldable pub join : Text → List Text → Text
join sep [] = []
join sep (x ∷ []) = x
join sep (x ∷ y ∷ xs) = x ++ (sep ++ join sep (y ∷ xs))

abbrev is_lt : Ordering → Bool
is_lt Ordering.lt = true
is_lt _ = false

-- An entry of the queue: a story and the path to it.
abbrev pub QueueEntry : Type 0
QueueEntry = Text × List Text

-- What a loop over neighbours comes to: an early return, or a longer queue.
pub data Scan : Type 0 where
  returned : List Text → Scan
  queued : List QueueEntry → Scan

-- The loop over the neighbours of the story where the search starts.
unfoldable pub scan_start : Text → List Text → List Text → List QueueEntry → Result GraphError Scan
scan_start story cyclic [] queue = ok (queued queue)
scan_start story cyclic (n ∷ ns) queue =
    let rest = (do
      id ← lift_id (create_story_id n)
      scan_start story cyclic ns
          (if has id cyclic then queue ++ (n, story ∷ n ∷ []) ∷ [] else queue)) in
    if same n story then ok (returned (story ∷ story ∷ [])) else rest

-- How many edges there are: each is queued at most twice.
unfoldable pub edge_total : Map (List Text) → ℕ
edge_total [] = 0
edge_total ((k, ns) ∷ m) = length ns + edge_total m

module _ (locale_compare : Text → Text → Ordering) where
  -- The loop that looks for the least node: `i` is the position of the list's head.
  unfoldable pub least_index : (i min_index : ℕ) → Text → List Text → ℕ
  least_index i min_index least [] = min_index
  least_index i min_index least (x ∷ xs) =
      let less = is_lt (locale_compare x least) in
      least_index (suc i) (if less then i else min_index) (if less then x else least) xs

  unfoldable pub normalize_cycle : List Text → List Text
  unfolding least_index init drop take
  normalize_cycle raw =
      if leb (length raw) 1
      then raw
      else let nodes = init raw in
        if leb (length nodes) 1
        then raw
        else let i = least_index 0 0 (first_of_list nodes) nodes in
          let rotated = drop i nodes ++ take i nodes in rotated ++ first_of_list rotated ∷ []

  -- The loop over the neighbours of a story on a path from `story`.
  unfoldable pub scan_next :
      Text
      → List Text
      → (visited path : List Text) → List Text
      → List QueueEntry
      → Result GraphError Scan
  unfolding normalize_cycle
  scan_next story cyclic visited path [] queue = ok (queued queue)
  scan_next story cyclic visited path (n ∷ ns) queue =
      let back = (do
        ids ← traverse (λ p. lift_id (create_story_id p)) (path ++ story ∷ [])
        ok (returned (normalize_cycle ids))) in
      let skip = scan_next story cyclic visited path ns queue in
      let push = (do
        id ← lift_id (create_story_id n)
        scan_next story cyclic visited path ns
            (if has id cyclic then queue ++ (n, path ++ n ∷ []) ∷ [] else queue)) in
      if same n story then back else if has n visited then skip else push

  -- The `while` loop; `fuel` bounds its rounds.
  unfoldable pub search_back :
      Text
      → List Text
      → Map (List Text)
      → ℕ
      → (visited : List Text) → List QueueEntry
      → Result GraphError (Option (List Text))
  unfolding scan_next
  search_back story cyclic adjacency zero visited queue = throw out_of_fuel
  search_back story cyclic adjacency (suc fuel) visited [] = ok none
  search_back story cyclic adjacency (suc fuel) visited ((current, path) ∷ queue) =
      let skip = search_back story cyclic adjacency fuel visited queue in
      let expand = (do
        scan ←
            scan_next story cyclic (add current visited) path (value_or (get current adjacency) [])
              queue
        elim scan [
          | returned c ↦ ok (some c)
          | queued q ↦ search_back story cyclic adjacency fuel (add current visited) q
        ]) in
      if has current visited then skip else expand

  unfoldable pub find_cycle_for_story : Text → List Story → Result GraphError (Option (List Text))
  unfolding scan_start search_back edge_total
  find_cycle_for_story story stories = do
    cyclic ← find_cyclic_story_ids locale_compare stories
    let adjacency = sorted_adjacency locale_compare stories
    let search = (do
      scan ← scan_start story cyclic (value_or (get story adjacency) []) []
      elim scan [
        | returned c ↦ ok (some c)
        | queued q ↦ search_back story cyclic adjacency (suc (length q + edge_total adjacency)) [] q
      ])
    let own =
        if depends_on_itself (story_map stories []) story
        then ok (some (story ∷ story ∷ []))
        else search
    if not (has story cyclic) then ok none else own

  -- The loop over the cyclic stories: a cycle is kept unless its key was seen.
  unfoldable pub collect_cycles :
      List Story
      → List Text
      → (seen : List Text) → (detected : List (List Text)) → Result GraphError (List (List Text))
  unfolding join
  collect_cycles stories [] seen detected = ok detected
  collect_cycles stories (id ∷ ids) seen detected = do
    found ← find_cycle_for_story id stories
    elim found [
      | none ↦ collect_cycles stories ids seen detected
      | some cycle ↦
          let key = join (codes "->") cycle in
          collect_cycles stories ids (add key seen)
            (if has key seen then detected else detected ++ cycle ∷ [])
    ]

  abbrev compare_joined : List Text → List Text → Ordering
  compare_joined a b = locale_compare (join (codes "->") a) (join (codes "->") b)

  unfoldable pub detect_cycles : List Story → Result GraphError (List (List Text))
  unfolding collect_cycles
  detect_cycles stories = do
    cyclic ← find_cyclic_story_ids locale_compare stories
    detected ← collect_cycles stories (sort locale_compare cyclic) [] []
    ok (if is_empty cyclic then [] else sort compare_joined detected)
