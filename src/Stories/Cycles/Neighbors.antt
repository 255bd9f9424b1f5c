-- ===== src/Stories/Cycles/Neighbors.antt =====
-- The neighbours in the graph of StoryDependencyGraph.ts are stories.
use Prim.Native.Nat.{Ordering}
use solutions_studio.Base.{
  ◌≡◌, refl, true, List, [], ◌∷◌, ◌++◌, map, All, arith, value_or, Bool-cases, inl, inr,
}
use solutions_studio.Base.Text.{Text, same, has}
use solutions_studio.Base.Maps.{Map, get, set, keys, has_key, get-set}
use solutions_studio.Base.Counts.{sort, sort_insert}
use solutions_studio.Stories.Types.{Story, deps}
use solutions_studio.Stories.Order.{story_map}
use solutions_studio.Stories.Cycles.{
  empty_adjacency, adjoin, fill_adjacency, sort_neighbors, sorted_adjacency,
}

abbrev pub AllIn : List Text → List Text → Type 0
AllIn ids xs = All (λ x. has x ids ≡ true) xs

All_snoc_in :
    (ids xs : List Text) (x : Text) → AllIn ids xs → has x ids ≡ true → AllIn ids (xs ++ x ∷ [])
All_snoc_in ids [] x all h = (h, tt)
All_snoc_in ids (y ∷ ys) x all h = (all.0, All_snoc_in ids ys x all.1 h)

-- Every list of the map is of stories.
abbrev pub Closed : List Text → Map (List Text) → Type 0
Closed ids m = (u : Text) → AllIn ids (value_or (get u m) [])

set-Closed :
    (ids : List Text) (k : Text) (ns : List Text) (m : Map (List Text))
    → AllIn ids ns
    → Closed ids m
    → Closed ids (set k ns m)
set-Closed ids k ns m all c u = elim (Bool-cases (same u k)) [
  | inl own ↦ rw (get-set k u ns m, own) all
  | inr other ↦ rw (get-set k u ns m, other) (c u)
]

empty_adjacency-Closed :
    (ids : List Text) (stories : List Story) (m : Map (List Text))
    → Closed ids m
    → Closed ids (empty_adjacency stories m)
unfolding empty_adjacency
empty_adjacency-Closed ids [] m c = c
empty_adjacency-Closed ids (s ∷ ss) m c =
    empty_adjacency-Closed ids ss (set s.id [] m) (set-Closed ids s.id [] m tt c)

adjoin-Closed :
    (ids : List Text) (known : Map Story) (id : Text) (ds : List Text) (m : Map (List Text))
    → has id ids ≡ true
    → Closed ids m
    → Closed ids (adjoin known id ds m)
unfolding adjoin
adjoin-Closed ids known id [] m h c = c
adjoin-Closed ids known id (d ∷ ds) m h c = elim (Bool-cases (has_key d known)) [
  | inl there ↦ rw there (
      adjoin-Closed ids known id ds (set d (value_or (get d m) [] ++ id ∷ []) m) h (
        set-Closed ids d (value_or (get d m) [] ++ id ∷ []) m
          (All_snoc_in ids (value_or (get d m) []) id (c d) h) c))
  | inr gone ↦ rw gone (adjoin-Closed ids known id ds m h c)
]

fill_adjacency-Closed :
    (ids : List Text) (known : Map Story) (stories : List Story) (m : Map (List Text))
    → AllIn ids (map (λ s. s.id) stories)
    → Closed ids m
    → Closed ids (fill_adjacency known stories m)
unfolding fill_adjacency
fill_adjacency-Closed ids known [] m all c = c
fill_adjacency-Closed ids known (s ∷ ss) m all c =
    fill_adjacency-Closed ids known ss (adjoin known s.id (deps s) m) all.1
      (adjoin-Closed ids known s.id (deps s) m all.0 c)

module _ (locale_compare : Text → Text → Ordering) where
  sort_insert-AllIn :
      (ids : List Text) (x : Text) (xs : List Text)
      → has x ids ≡ true
      → AllIn ids xs
      → AllIn ids (sort_insert locale_compare x xs)
  unfolding sort_insert
  sort_insert-AllIn ids x [] h all = (h, tt)
  sort_insert-AllIn ids x (y ∷ ys) h all =
      let rest = sort_insert-AllIn ids x ys h all.1 in
      elim (locale_compare x y)
        as (λ c. AllIn ids (elim c as (λ _. List Text) [
          | Ordering.gt ↦ y ∷ sort_insert locale_compare x ys
          | _ ↦ x ∷ y ∷ ys
        ])) [ Ordering.gt ↦ (all.0, rest) | Ordering.lt ↦ (h, all) | Ordering.eq ↦ (h, all) ]

  pub sort-AllIn : (ids xs : List Text) → AllIn ids xs → AllIn ids (sort locale_compare xs)
  unfolding sort
  sort-AllIn ids [] all = tt
  sort-AllIn ids (x ∷ xs) all =
      sort_insert-AllIn ids x (sort locale_compare xs) all.0 (sort-AllIn ids xs all.1)

  get-sort_neighbors :
      (m : Map (List Text)) (u : Text)
      → value_or (get u (sort_neighbors locale_compare m)) []
        ≡ sort locale_compare (value_or (get u m) [])
  unfolding sort_neighbors get sort
  get-sort_neighbors [] u = refl
  get-sort_neighbors ((k, ns) ∷ m) u = ground (arith, get-sort_neighbors m u)

  -- The neighbours of every story are stories.
  pub sorted_adjacency-Closed :
      (ids : List Text) (stories : List Story)
      → AllIn ids (map (λ s. s.id) stories)
      → Closed ids (sorted_adjacency locale_compare stories)
  unfolding sorted_adjacency get
  sorted_adjacency-Closed ids stories all u =
      let filled =
        fill_adjacency-Closed ids (story_map stories []) stories (empty_adjacency stories []) all
          (empty_adjacency-Closed ids stories [] (λ v. tt)) in
      rw
        (get-sort_neighbors
          (fill_adjacency (story_map stories []) stories (empty_adjacency stories [])) u)
        (sort-AllIn ids _ (filled u))

keys-set-AllIn :
    {V : Type 0} (ids : List Text) (k : Text) (v : V) (m : Map V)
    → has k ids ≡ true
    → AllIn ids (keys m)
    → AllIn ids (keys (set k v m))
unfolding set
keys-set-AllIn ids k v [] h all = (h, tt)
keys-set-AllIn ids k v ((i, w) ∷ m) h all = elim (Bool-cases (same k i)) [
  | inl own ↦ rw own all
  | inr other ↦ rw other (all.0, keys-set-AllIn ids k v m h all.1)
]

pub keys-story_map :
    (ids : List Text) (stories : List Story) (m : Map Story)
    → AllIn ids (map (λ s. s.id) stories)
    → AllIn ids (keys m)
    → AllIn ids (keys (story_map stories m))
unfolding story_map
keys-story_map ids [] m all old = old
keys-story_map ids (s ∷ ss) m all old =
    keys-story_map ids ss (set s.id s m) all.1 (keys-set-AllIn ids s.id s m all.0 old)
