-- ===== src/Stories/Cycles/Depth.antt =====
-- The recursion of `strongConnect` in StoryDependencyGraph.ts is never deeper than there are stories.
use Prim.Native.Nat.{Ordering}
use solutions_studio.Base.{
  ℕ, zero, suc, ◌≤◌, ◌<◌, ◌≡◌, ◌≢◌, ap, Bool, true, false, List, [], ◌∷◌, ◌++◌, map, length,
  length-map, subst, ◌==◌, arith, value_or, Bool-cases, inl, inr, if◌then◌else◌,
}
use solutions_studio.Base.Text.{Text, has, Text-discrete}
use solutions_studio.Base.Maps.{Map, get, set, keys, has_key, has_key-set}
use solutions_studio.Base.Counts.{sort}
use solutions_studio.Base.Result.{Result, ok, throw, ◌>>=◌, Result-cases}
use solutions_studio.Ids.{create_story_id}
use solutions_studio.Stories.Types.{Story, GraphError, out_of_fuel}
use solutions_studio.Stories.Order.{story_map}
use solutions_studio.Stories.Cycles.{
  Search, enter, lower_link, pop_component, sorted_adjacency, visit_neighbors, close,
  strong_connect, connect_all, find_strongly_connected_components, find_cyclic_story_ids,
}
use solutions_studio.Stories.Cycles.Neighbors.{
  AllIn, Closed, sorted_adjacency-Closed, sort-AllIn, keys-story_map,
}

-- How many of the identifiers have no index yet.
unfoldable pub unvisited : List Text → Map ℕ → ℕ
unvisited [] m = 0
unvisited (u ∷ us) m = let rest = unvisited us m in if has_key u m then rest else suc rest

unvisited_le : (us : List Text) (m : Map ℕ) → unvisited us m ≤ length us
unfolding unvisited
unvisited_le [] m = omega arith
unvisited_le (u ∷ us) m = ground (arith, unvisited_le us m)

unvisited-set :
    (us : List Text) (k : Text) (n : ℕ) (m : Map ℕ) → unvisited us (set k n m) ≤ unvisited us m
unfolding unvisited
unvisited-set [] k n m = omega arith
unvisited-set (u ∷ us) k n m = ground (arith, unvisited-set us k n m, has_key-set k u n m)

-- A first visit leaves one less.
unvisited-visit :
    (us : List Text) (k : Text) (n : ℕ) (m : Map ℕ)
    → has k us ≡ true
    → has_key k m ≡ false
    → unvisited us (set k n m) < unvisited us m
unfolding unvisited has
unvisited-visit [] k n m h fresh = absurd cc
unvisited-visit (u ∷ us) k n m h fresh = elim (Text-discrete k u) [
  | yes e ↦
      ground (arith, fresh, ap (λ v. has_key v m) e, unvisited-set us k n m, has_key-set k u n m)
  | no d ↦ ground (arith, fresh, unvisited-visit us k n m, has_key-set k u n m)
]

-- A search that ended, with no more identifiers to visit than before, or an error of the code's own.
unfoldable pub Fine : List Text → ℕ → Result GraphError Search → Type 0
Fine us n (ok st) = unvisited us st.indices ≤ n
Fine us n (throw e) = e ≢ out_of_fuel

bind-Fine :
    (us : List Text) (m n : ℕ) (r : Result GraphError Search)
    (next : Search → Result GraphError Search)
    → Fine us m r
    → ((st : Search) → unvisited us st.indices ≤ m → Fine us n (next st))
    → Fine us n (r >>= next)
unfolding Fine
bind-Fine us m n (ok st) next h f = f st h
bind-Fine us m n (throw e) next h f = h

pop_component-Fine :
    (u : Text) (scc stack : List Text) (on_stack : Map Bool) (e : GraphError)
    → pop_component u scc stack on_stack ≡ throw e
    → e ≢ out_of_fuel
unfolding pop_component
pop_component-Fine u scc [] on_stack e h = ground (arith, h)
pop_component-Fine u scc (w ∷ stack) on_stack e h = elim (Result-cases (create_story_id w)) [
  | inr (d, thrown) ↦ ground (arith, h, thrown)
  | inl (id, made) ↦
      ground (arith, h, made, pop_component-Fine u (scc ++ id ∷ []) stack (set w false on_stack) e)
]

module _ (locale_compare : Text → Text → Ordering) (us : List Text) where
  close-Fine :
      (n : ℕ) (u : Text) (st : Search)
      → unvisited us st.indices ≤ n
      → Fine us n (close locale_compare u st)
  unfolding close Fine
  close-Fine n u st h =
      elim (Bool-cases (value_or (get u st.lowlink) 0 == value_or (get u st.indices) 0)) [
        | inl root ↦ elim (Result-cases (pop_component u [] st.stack st.on_stack)) [
          | inr (e, thrown) ↦
              rw (root, thrown) (pop_component-Fine u [] st.stack st.on_stack e thrown)
          | inl (r, popped) ↦ rw (root, popped) h
        ]
        | inr inner ↦ rw inner h
      ]

  link_kept :
      (b : Bool) (u : Text) (k : ℕ) (st : Search) (n : ℕ)
      → unvisited us st.indices ≤ n
      → unvisited us (if b then lower_link u k st else st).indices ≤ n
  unfolding lower_link
  link_kept true u k st n h = h
  link_kept false u k st n h = h

  visit_neighbors-Fine :
      (n : ℕ) (connect : Text → Search → Result GraphError Search)
      → ((v : Text) (st : Search)
          → has v us ≡ true
          → has_key v st.indices ≡ false
          → unvisited us st.indices ≤ n
          → Fine us n (connect v st))
      → (u : Text) (vs : List Text) (st : Search) → AllIn us vs
      → unvisited us st.indices ≤ n
      → Fine us n (visit_neighbors locale_compare connect u vs st)
  unfolding visit_neighbors Fine
  visit_neighbors-Fine n connect c u [] st all h = h
  visit_neighbors-Fine n connect c u (v ∷ vs) st all h = elim (Bool-cases (has_key v st.indices)) [
    | inl seen ↦ rw seen (
        visit_neighbors-Fine n connect c u vs
          (if value_or (get v st.on_stack) false
            then lower_link u (value_or (get v st.indices) 0) st
            else st)
          all.1
          (link_kept (value_or (get v st.on_stack) false) u (value_or (get v st.indices) 0) st n h))
    | inr unseen ↦ rw unseen (
        bind-Fine us n n (connect v st)
          (λ st'.
            visit_neighbors locale_compare connect u vs
              (lower_link u (value_or (get v st'.lowlink) 0) st'))
          (c v st all.0 unseen h)
          (λ st' g.
            visit_neighbors-Fine n connect c u vs
              (lower_link u (value_or (get v st'.lowlink) 0) st') all.1 (unfold lower_link in g)))
  ]

  -- With more fuel than there are identifiers to visit, the search ends.
  strong_connect-Fine :
      (adjacency : Map (List Text))
      → Closed us adjacency
      → (fuel n : ℕ) (u : Text) (st : Search) → n < fuel
      → has u us ≡ true
      → has_key u st.indices ≡ false
      → unvisited us st.indices ≤ n
      → Fine us n (strong_connect locale_compare adjacency fuel u st)
  unfolding strong_connect
  strong_connect-Fine adjacency closed zero n u st f m fresh h = absurd (omega arith)
  strong_connect-Fine adjacency closed (suc fuel) zero u st f m fresh h =
      absurd (omega (arith, h, unvisited-visit us u st.index st.indices m fresh))
  strong_connect-Fine adjacency closed (suc fuel) (suc n) u st f m fresh h =
      bind-Fine us n (suc n)
        (visit_neighbors locale_compare (strong_connect locale_compare adjacency fuel) u
          (value_or (get u adjacency) []) (enter u st))
        (close locale_compare u)
        (visit_neighbors-Fine n (strong_connect locale_compare adjacency fuel)
          (λ v s i j k. strong_connect-Fine adjacency closed fuel n v s (omega arith) i j k) u
          (value_or (get u adjacency) []) (enter u st) (closed u)
          (unfold enter in omega (arith, h, unvisited-visit us u st.index st.indices m fresh)))
        (λ s g. close-Fine (suc n) u s (omega (arith, g)))

  connect_all-Fine :
      (adjacency : Map (List Text))
      → Closed us adjacency
      → (fuel n : ℕ) (vs : List Text) (st : Search) → n < fuel
      → AllIn us vs
      → unvisited us st.indices ≤ n
      → Fine us n (connect_all locale_compare adjacency fuel vs st)
  unfolding connect_all Fine
  connect_all-Fine adjacency closed fuel n [] st f all h = h
  connect_all-Fine adjacency closed fuel n (v ∷ vs) st f all h =
      elim (Bool-cases (has_key v st.indices)) [
        | inl seen ↦ rw seen (connect_all-Fine adjacency closed fuel n vs st f all.1 h)
        | inr unseen ↦ rw unseen (
            bind-Fine us n n (strong_connect locale_compare adjacency fuel v st)
              (λ s. connect_all locale_compare adjacency fuel vs s)
              (strong_connect-Fine adjacency closed fuel n v st f all.0 unseen h)
              (λ s g. connect_all-Fine adjacency closed fuel n vs s f all.1 g))
      ]

map_self : (xs ys : List Text) → ((u : Text) → has u xs ≡ true → has u ys ≡ true) → AllIn ys xs
unfolding has
map_self [] ys f = tt
map_self (x ∷ xs) ys f = (f x (ground arith), map_self xs ys (λ u h. f u (ground (arith, h))))

own_ids : (stories : List Story) → AllIn (map (λ s. s.id) stories) (map (λ s. s.id) stories)
own_ids stories = map_self (map (λ s. s.id) stories) (map (λ s. s.id) stories) (λ u h. h)

-- The search for components ends for every list of stories: the depth that it is given suffices.
pub find_strongly_connected_components_ends :
    (locale_compare : Text → Text → Ordering) (stories : List Story) (e : GraphError)
    → find_strongly_connected_components locale_compare stories ≡ throw e
    → e ≢ out_of_fuel
unfolding find_strongly_connected_components unvisited Fine
find_strongly_connected_components_ends locale_compare stories e h =
    let us = map (λ (s : Story). s.id) stories in
    let ids = sort locale_compare (keys (story_map stories [])) in
    let start : Search = record {
      index = 0;
      indices = [];
      lowlink = [];
      on_stack = [];
      stack = [];
      sccs = [];
    } in
    let fine =
      connect_all-Fine locale_compare us (sorted_adjacency locale_compare stories)
        (sorted_adjacency-Closed locale_compare us stories (own_ids stories)) (suc (length stories))
        (length stories) ids start (omega arith)
        (sort-AllIn locale_compare us (keys (story_map stories []))
          (keys-story_map us stories [] (own_ids stories) tt))
        (omega (arith, unvisited_le us [], length-map (λ (s : Story). s.id) stories)) in
    elim (Result-cases (
      connect_all locale_compare (sorted_adjacency locale_compare stories) (suc (length stories))
        ids start)) [
          | inl (st, done) ↦ absurd (ground (arith, h, done))
          | inr (d, thrown) ↦
              let own : d ≢ out_of_fuel = subst (λ r. Fine us (length stories) r) thrown fine in
              ground (arith, h, thrown, own)
        ]

pub find_cyclic_story_ids_ends :
    (locale_compare : Text → Text → Ordering) (stories : List Story) (e : GraphError)
    → find_cyclic_story_ids locale_compare stories ≡ throw e
    → e ≢ out_of_fuel
unfolding find_cyclic_story_ids
find_cyclic_story_ids_ends locale_compare stories e h =
    elim (Result-cases (find_strongly_connected_components locale_compare stories)) [
      | inl (s, done) ↦ absurd (ground (arith, h, done))
      | inr (d, thrown) ↦ ground (
        arith,
        h,
        thrown,
        find_strongly_connected_components_ends locale_compare stories d thrown,
      )
    ]
