-- ===== src/Stories/Order/Filling.antt =====
-- What the maps hold when the loop over the queue starts.
use solutions_studio.Base.{
  ℕ, suc, ◌≤◌, ◌≡◌, refl, Bool, true, false, ◌||◌, none, some, List, [], ◌∷◌, ◌++◌, arith, ◌==◌,
  if◌then◌else◌, inl, inr, Bool-cases, ◌∙◌,
}
use mathlib.Core.List.{append-nil, append_assoc}
use solutions_studio.Base.Text.{Text, same, has}
use solutions_studio.Base.Maps.{Map, get, set, keys, has_key, get-set, has_key-set}
use solutions_studio.Base.Counts.{count, count-append, count_of_not_has}
use solutions_studio.Stories.Types.{Story, deps}
use solutions_studio.Base.Numbers.{ℤ, pos}
use solutions_studio.Stories.Order.{
  Links, story_map, init_links, add_link, add_deps, add_stories, initial_queue,
}
use solutions_studio.Stories.Order.Edges.{ids, Edge, known_edges, edges_among, edges, out, pending}

has_key-story_map :
    (d : Text) (stories : List Story) (m : Map Story)
    → has_key d (story_map stories m) ≡ (has d (ids stories) || has_key d m)
unfolding story_map has
has_key-story_map d [] m = refl
has_key-story_map d (s ∷ ss) m =
    ground (arith, has_key-story_map d ss (set s.id s m), has_key-set s.id d s m)

-- What is in the map of a prerequisite and of a dependent after the edges `es`.
pub record IsFilled (nodes : List Text) (es : List Edge) (l : Links) : Type 0 where
  pub adjacent : (u : Text) → has u nodes ≡ true → get u l.adjacency ≡ some (out u es)
  pub degree :
      (u : Text) → has u nodes ≡ true → get u l.in_degree ≡ some (pos (count u (pending [] es)))
  pub outside : (u : Text) → has u nodes ≡ false → get u l.in_degree ≡ none
  pub distinct : (u : Text) → count u (keys l.in_degree) ≤ 1

count-keys-set {ℓ} :
    {V : Type ℓ} (u k : Text) (v : V) (m : Map V)
    → count u (keys (set k v m)) ≡ (
        if has_key k m
        then count u (keys m)
        else if same u k
        then suc (count u (keys m))
        else count u (keys m))
unfolding count set has
count-keys-set u k v [] = ground arith
count-keys-set u k v ((j, w) ∷ m) = ground (arith, count-keys-set u k v m)

distinct-set {ℓ} :
    {V : Type ℓ} (u k : Text) (v : V) (m : Map V)
    → count u (keys m) ≤ 1
    → count u (keys (set k v m)) ≤ 1
distinct-set u k v m h = ground (arith, count-keys-set u k v m, count_of_not_has k (keys m))

out-snoc :
    (u a b : Text) (es : List Edge)
    → out u (es ++ (a, b) ∷ []) ≡ (if same a u then out u es ++ b ∷ [] else out u es)
unfolding out
out-snoc u a b [] = ground arith
out-snoc u a b ((d, s) ∷ es) = ground (arith, out-snoc u a b es)

pending-snoc :
    (a b : Text) (es : List Edge) → pending [] (es ++ (a, b) ∷ []) ≡ pending [] es ++ b ∷ []
unfolding pending has
pending-snoc a b [] = refl
pending-snoc a b ((d, s) ∷ es) = ground (arith, pending-snoc a b es)

add_link-IsFilled :
    (nodes : List Text) (es : List Edge) (l : Links) (id dep : Text)
    → IsFilled nodes es l
    → has id nodes ≡ true
    → has dep nodes ≡ true
    → IsFilled nodes (es ++ (dep, id) ∷ []) (add_link id dep l)
unfolding add_link count
add_link-IsFilled nodes es l id dep f i d = record {
  adjacent = λ u h. ground (
    arith,
    f.adjacent u h,
    f.adjacent dep d,
    out-snoc u dep id es,
    get-set dep u (out dep es ++ id ∷ []) l.adjacency,
  );
  degree = λ u h. ground (
    arith,
    f.degree u h,
    f.degree id i,
    pending-snoc dep id es,
    count-append u (pending [] es) (id ∷ []),
    get-set id u (pos (suc (count id (pending [] es)))) l.in_degree,
  );
  outside = λ u h. ground (
    arith,
    f.outside u h,
    get-set id u (pos (suc (count id (pending [] es)))) l.in_degree,
    f.degree id i,
  );
  distinct = λ u. distinct-set u id _ l.in_degree (f.distinct u);
}

add_deps-IsFilled :
    (nodes : List Text) (known : Map Story) (id : Text) (ds : List Text) (es : List Edge)
    (l : Links)
    → ((d : Text) → has_key d known ≡ has d nodes)
    → has id nodes ≡ true
    → IsFilled nodes es l
    → IsFilled nodes (es ++ known_edges nodes id ds) (add_deps known id ds l)
unfolding add_deps
add_deps-IsFilled nodes known id [] es l k i f = rw append-nil f
add_deps-IsFilled nodes known id (d ∷ ds) es l k i f = elim (Bool-cases (has d nodes)) [
  | inl there ↦
      let linked = add_link-IsFilled nodes es l id d f i there in
      let rest =
        add_deps-IsFilled nodes known id ds (es ++ (d, id) ∷ []) (add_link id d l) k i linked in
      rw (k d, there) (rw append_assoc at rest)
  | inr absent ↦ rw (k d, absent) (add_deps-IsFilled nodes known id ds es l k i f)
]

add_stories-IsFilled :
    (nodes : List Text) (known : Map Story) (ss : List Story) (es : List Edge) (l : Links)
    → ((d : Text) → has_key d known ≡ has d nodes)
    → ((d : Text) → has d (ids ss) ≡ true → has d nodes ≡ true)
    → IsFilled nodes es l
    → IsFilled nodes (es ++ edges_among nodes ss) (add_stories known ss l)
unfolding add_stories has
add_stories-IsFilled nodes known [] es l k i f = rw append-nil f
add_stories-IsFilled nodes known (s ∷ ss) es l k i f = rw (← append_assoc) (
    add_stories-IsFilled nodes known ss (es ++ known_edges nodes s.id (deps s)) _ k
      (λ d h. i d (ground arith))
      (add_deps-IsFilled nodes known s.id (deps s) es l k (i s.id (ground arith)) f))

init_links_lem :
    (u : Text) (ss : List Story) (l : Links)
    → (get u (init_links ss l).adjacency ≡ (if has u (ids ss) then some [] else get u l.adjacency))
      × (get u (init_links ss l).in_degree
          ≡ (if has u (ids ss) then some (pos 0) else get u l.in_degree))
unfolding init_links has
init_links_lem u [] l = (refl, refl)
init_links_lem u (s ∷ ss) l = ground (
  arith,
  get-set s.id u [] l.adjacency,
  get-set s.id u (pos 0) l.in_degree,
  init_links_lem u ss
      (record { adjacency = set s.id [] l.adjacency; in_degree = set s.id (pos 0) l.in_degree }),
)

init_links_distinct :
    (u : Text) (ss : List Story) (l : Links)
    → count u (keys l.in_degree) ≤ 1
    → count u (keys (init_links ss l).in_degree) ≤ 1
unfolding init_links
init_links_distinct u [] l h = h
init_links_distinct u (s ∷ ss) l h =
    init_links_distinct u ss
      (record { adjacency = set s.id [] l.adjacency; in_degree = set s.id (pos 0) l.in_degree })
      (distinct-set u s.id (pos 0) l.in_degree h)

or_false : (b : Bool) → (b || false) ≡ b
or_false true = refl
or_false false = refl

abbrev pub no_links : Links
no_links = record { adjacency = []; in_degree = [] }

-- The maps describe the edges of the stories.
pub links-IsFilled :
    (stories : List Story)
    → IsFilled
        (ids stories)
        (edges stories)
        (add_stories (story_map stories []) stories (init_links stories no_links))
links-IsFilled stories =
    add_stories-IsFilled (ids stories) (story_map stories []) stories []
      (init_links stories no_links)
      (λ d. unfold has in (has_key-story_map d stories [] ∙ or_false (has d (ids stories))))
      (λ d h. h)
      (record {
        adjacent = λ u h. unfold out get in ground (arith, init_links_lem u stories no_links);
        degree =
            λ u h. unfold pending count get in ground (arith, init_links_lem u stories no_links);
        outside = λ u h. unfold get in ground (arith, init_links_lem u stories no_links);
        distinct = λ u. init_links_distinct u stories no_links (unfold count in omega arith);
      })

-- How often the queue holds a story at the start.
count-initial_queue-le : (v : Text) (m : Map ℤ) → count v (initial_queue m) ≤ count v (keys m)
unfolding initial_queue count
count-initial_queue-le v [] = omega arith
count-initial_queue-le v ((j, d) ∷ m) = ground (arith, count-initial_queue-le v m)

pub count-initial_queue :
    (v : Text) (n : ℕ) (m : Map ℤ)
    → count v (keys m) ≤ 1
    → get v m ≡ some (pos n)
    → count v (initial_queue m) ≡ (if n == 0 then 1 else 0)
unfolding initial_queue count get
count-initial_queue v n [] h e = cc
count-initial_queue v n ((j, d) ∷ m) h e =
    ground (arith, count-initial_queue v n m, count-initial_queue-le v m)

pub count-initial_queue_outside :
    (v : Text) (m : Map ℤ) → get v m ≡ none → count v (initial_queue m) ≡ 0
unfolding initial_queue count get
count-initial_queue_outside v [] e = refl
count-initial_queue_outside v ((j, d) ∷ m) e = ground (arith, count-initial_queue_outside v m)
