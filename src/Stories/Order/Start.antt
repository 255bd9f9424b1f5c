-- ===== src/Stories/Order/Start.antt =====
-- The state in which the loop starts, and what it ends with.
use Prim.Native.Nat.{Ordering}
use solutions_studio.Base.{
  suc, ◌≡◌, refl, true, ◌&&◌, ◌||◌, List, [], ◌∷◌, ◌++◌, arith, length, length-map, All, inl, inr,
  Bool-cases,
}
use solutions_studio.Base.Text.{Text, same, has}
use solutions_studio.Base.Counts.{count, sort, count-sort}
use solutions_studio.Base.Result.{ok}
use solutions_studio.Ids.{create_story_id}
use solutions_studio.Stories.Types.{Story, deps}
use solutions_studio.Stories.Order.{
  Links, schedule, story_map, init_links, add_stories, initial_queue,
}
use solutions_studio.Stories.Order.Edges.{
  ids, Edge, edges, edges_among, known_edges, pending, is_edge,
}
use solutions_studio.Stories.Order.Filling.{
  no_links, links-IsFilled, count-initial_queue, count-initial_queue_outside,
}
use solutions_studio.Stories.Order.Relaxing.{State}
use solutions_studio.Stories.Order.Loop.{IsExhausted, schedule_lem}

-- `createStory` trims identifiers and rejects empty ones, so creating one again changes nothing.
abbrev pub IsCanonical : List Story → Type 0
IsCanonical stories = All (λ s. create_story_id s.id ≡ ok s.id) stories

pub canonical_of_has :
    (u : Text) (stories : List Story)
    → IsCanonical stories
    → has u (ids stories) ≡ true
    → create_story_id u ≡ ok u
unfolding has
canonical_of_has u [] c h = cc
canonical_of_has u (s ∷ ss) c h = ground (arith, c.0, canonical_of_has u ss c.1)

pub is_edge-append :
    (a b : Text) (xs ys : List Edge) → is_edge a b (xs ++ ys) ≡ (is_edge a b xs || is_edge a b ys)
unfolding is_edge
is_edge-append a b [] ys = refl
is_edge-append a b ((d, s) ∷ xs) ys = ground (arith, is_edge-append a b xs ys)

-- An edge of one story: what it declares, among the known ones.
pub is_edge-known_edges :
    (a b : Text) (known : List Text) (id : Text) (ds : List Text)
    → is_edge a b (known_edges known id ds) ≡ (same id b && (has a ds && has a known))
unfolding is_edge has
is_edge-known_edges a b known id [] = ground arith
is_edge-known_edges a b known id (d ∷ ds) = ground (arith, is_edge-known_edges a b known id ds)

pub edge_targets :
    (a b : Text) (known : List Text) (ss : List Story)
    → is_edge a b (edges_among known ss) ≡ true
    → has b (ids ss) ≡ true
unfolding is_edge has
edge_targets a b known [] h = cc
edge_targets a b known (s ∷ ss) h = ground (
  arith,
  is_edge-append a b (known_edges known s.id (deps s)) (edges_among known ss),
  is_edge-known_edges a b known s.id (deps s),
  edge_targets a b known ss,
)

pub edge_sources :
    (a b : Text) (known : List Text) (ss : List Story)
    → is_edge a b (edges_among known ss) ≡ true
    → has a known ≡ true
unfolding is_edge
edge_sources a b known [] h = cc
edge_sources a b known (s ∷ ss) h = ground (
  arith,
  is_edge-append a b (known_edges known s.id (deps s)) (edges_among known ss),
  is_edge-known_edges a b known s.id (deps s),
  edge_sources a b known ss,
)

module _ (locale_compare : Text → Text → Ordering) (stories : List Story) where
  abbrev pub links : Links
  links = add_stories (story_map stories []) stories (init_links stories no_links)

  pub start :
      State
        (ids stories)
        []
        []
        (pending [] (edges stories))
        links.in_degree
        (sort locale_compare (initial_queue links.in_degree))
  unfolding count
  start =
      let f = links-IsFilled stories in
      record {
        degree = λ u h. ground (arith, f.degree u h);
        placed = λ u. elim (Bool-cases (has u (ids stories))) [
          | inl known ↦ ground (
            arith,
            count-sort locale_compare u (initial_queue links.in_degree),
            count-initial_queue u (count u (pending [] (edges stories))) links.in_degree
                (f.distinct u) (f.degree u known),
          )
          | inr unknown ↦ ground (
            arith,
            count-sort locale_compare u (initial_queue links.in_degree),
            count-initial_queue_outside u links.in_degree (f.outside u unknown),
          )
        ];
      }

  -- The loop's result, before its length is compared.
  pub exhausted :
      IsCanonical stories
      → (order : List Text) × (schedule locale_compare
            (suc (length stories))
            links.adjacency
            links.in_degree
            (sort locale_compare (initial_queue links.in_degree))
            []
          ≡ ok order)
        × IsExhausted (ids stories) (edges stories) order
  exhausted canonical =
      schedule_lem locale_compare (ids stories) (edges stories) links.adjacency
        (links-IsFilled stories).adjacent (λ a b. edge_targets a b (ids stories) stories)
        (λ u. canonical_of_has u stories canonical) (suc (length stories)) [] _ _
        (omega (arith, length-map (λ (s : Story). s.id) stories)) start tt
