-- ===== src/Stories/CycleSearch/Rounds.antt =====
-- The breadth-first search of `findCycleForStory` in StoryDependencyGraph.ts ends: a story is expanded
-- once, so that its neighbours are queued once, and each round takes an entry off the queue.
use Prim.Native.Nat.{Ordering}
use solutions_studio.Base.{
  ℕ, zero, suc, ◌+◌, ◌≤◌, ◌<◌, ◌≡◌, ◌≢◌, refl, ap, subst, Bool, true, false, Option, none, some,
  List, [], ◌∷◌, ◌++◌, length, length-append, arith, value_or, Bool-cases, inl, inr, if◌then◌else◌,
}
use solutions_studio.Base.Text.{Text, same, has, codes, Text-discrete}
use solutions_studio.Base.Maps.{Map, get}
use solutions_studio.Base.Counts.{sort}
use solutions_studio.Base.Sets.{add, has-add}
use solutions_studio.Base.Result.{Result, ok, throw, ◌>>=◌, Result-cases, traverse}
use solutions_studio.Ids.{create_story_id}
use solutions_studio.Stories.Types.{Story, GraphError, out_of_fuel, lift_id}
use solutions_studio.Stories.Order.{story_map}
use solutions_studio.Stories.Cycles.{sorted_adjacency, depends_on_itself, find_cyclic_story_ids}
use solutions_studio.Stories.Cycles.Depth.{find_cyclic_story_ids_ends}
use solutions_studio.Stories.CycleSearch.{
  QueueEntry, Scan, returned, queued, scan_start, edge_total, normalize_cycle, scan_next, join,
  search_back, find_cycle_for_story, collect_cycles, detect_cycles,
}

-- A result, or an error of the code's own.
unfoldable pub Ends : {A : Type 0} → Result GraphError A → Type 0
Ends (ok a) = Unit
Ends (throw e) = e ≢ out_of_fuel

pub bind-Ends :
    {A B : Type 0} (r : Result GraphError A) (next : A → Result GraphError B)
    → Ends r
    → ((a : A) → r ≡ ok a → Ends (next a))
    → Ends (r >>= next)
unfolding Ends
bind-Ends (ok a) next h f = f a refl
bind-Ends (throw e) next h f = h

pub thrown-Ends :
    {A : Type 0} (r : Result GraphError A)
    → ((e : GraphError) → r ≡ throw e → e ≢ out_of_fuel)
    → Ends r
unfolding Ends
thrown-Ends (ok a) f = tt
thrown-Ends (throw e) f = f e refl

lift_id-Ends : (t : Text) → Ends (lift_id (create_story_id t))
unfolding Ends
lift_id-Ends t = elim (Result-cases (create_story_id t)) [
  | inl (u, made) ↦ rw made tt
  | inr (e, thrown) ↦ rw thrown (λ p. cc)
]

traverse-Ends : (ts : List Text) → Ends (traverse (λ p. lift_id (create_story_id p)) ts)
unfolding traverse Ends
traverse-Ends [] = tt
traverse-Ends (t ∷ ts) = bind-Ends (lift_id (create_story_id t)) _ (lift_id-Ends t) (λ u e.
    bind-Ends (traverse (λ p. lift_id (create_story_id p)) ts) _ (traverse-Ends ts) (λ us f. tt))

-- A scan that ended, with at most so many entries in the queue.
unfoldable pub Scanned : ℕ → Result GraphError Scan → Type 0
Scanned n (ok (returned c)) = Unit
Scanned n (ok (queued q)) = length q ≤ n
Scanned n (throw e) = e ≢ out_of_fuel

bind-Scanned :
    (n : ℕ) (id : Text) (next : Text → Result GraphError Scan)
    → ((u : Text) → Scanned n (next u))
    → Scanned n (lift_id (create_story_id id) >>= next)
unfolding Scanned
bind-Scanned n id next f = elim (Result-cases (create_story_id id)) [
  | inl (u, made) ↦ rw made (f u)
  | inr (e, thrown) ↦ rw thrown (λ p. cc)
]

pub Scanned-Ends :
    {B : Type 0} (n : ℕ) (r : Result GraphError Scan) (next : Scan → Result GraphError B)
    → Scanned n r
    → ((c : List Text) → Ends (next (returned c)))
    → ((q : List QueueEntry) → length q ≤ n → Ends (next (queued q)))
    → Ends (r >>= next)
unfolding Scanned Ends
Scanned-Ends n (ok (returned c)) next h f g = f c
Scanned-Ends n (ok (queued q)) next h f g = g q h
Scanned-Ends n (throw e) next h f g = h

push_le :
    (b : Bool) (queue : List QueueEntry) (entry : QueueEntry) (n k : ℕ)
    → length queue + suc k ≤ n
    → length (if b then queue ++ entry ∷ [] else queue) + k ≤ n
push_le true queue entry n k h = omega (arith, h, length-append queue (entry ∷ []))
push_le false queue entry n k h = omega (arith, h)

-- What is left to queue: the neighbours of the stories that were not visited.
unfoldable pub left : List Text → Map (List Text) → ℕ
left visited [] = 0
left visited ((k, ns) ∷ m) =
    let rest = left visited m in if has k visited then rest else length ns + rest

left_le : (visited : List Text) (m : Map (List Text)) → left visited m ≤ edge_total m
unfolding left edge_total
left_le visited [] = omega arith
left_le visited ((k, ns) ∷ m) = ground (arith, left_le visited m)

left-add_le :
    (u : Text) (visited : List Text) (m : Map (List Text)) → left (add u visited) m ≤ left visited m
unfolding left
left-add_le u visited [] = omega arith
left-add_le u visited ((k, ns) ∷ m) = ground (arith, left-add_le u visited m, has-add k u visited)

left-add :
    (u : Text) (visited : List Text) (m : Map (List Text))
    → has u visited ≡ false
    → length (value_or (get u m) []) + left (add u visited) m ≤ left visited m
unfolding left get
left-add u visited [] h = omega arith
left-add u visited ((k, ns) ∷ m) h = elim (Text-discrete u k) [
  | yes e ↦
      ground (arith, h, ap (λ v. has v visited) e, left-add_le u visited m, has-add k u visited)
  | no n ↦ ground (arith, h, left-add u visited m, has-add k u visited)
]

scan_start-Scanned :
    (story : Text) (cyclic ns : List Text) (queue : List QueueEntry) (n : ℕ)
    → length queue + length ns ≤ n
    → Scanned n (scan_start story cyclic ns queue)
unfolding scan_start Scanned
scan_start-Scanned story cyclic [] queue n h = omega (arith, h)
scan_start-Scanned story cyclic (v ∷ vs) queue n h = elim (Bool-cases (same v story)) [
  | inl own ↦ rw own tt
  | inr other ↦ rw other (
      bind-Scanned n v _ (λ id.
        scan_start-Scanned story cyclic vs _ n
          (push_le (has id cyclic) queue (v, story ∷ v ∷ []) n (length vs) h)))
]

module _ (locale_compare : Text → Text → Ordering) (story : Text) (cyclic : List Text) where
  back-Scanned :
      (n : ℕ) (path : List Text)
      → Scanned n (
          traverse (λ p. lift_id (create_story_id p)) path
          >>= (λ ids. ok (returned (normalize_cycle locale_compare ids))))
  unfolding Scanned Ends
  back-Scanned n path = elim (Result-cases (traverse (λ p. lift_id (create_story_id p)) path)) [
    | inl (ids, made) ↦ rw made tt
    | inr (e, thrown) ↦ rw thrown (subst Ends thrown (traverse-Ends path))
  ]

  scan_next-Scanned :
      (visited path ns : List Text) (queue : List QueueEntry) (n : ℕ)
      → length queue + length ns ≤ n
      → Scanned n (scan_next locale_compare story cyclic visited path ns queue)
  unfolding scan_next Scanned
  scan_next-Scanned visited path [] queue n h = omega (arith, h)
  scan_next-Scanned visited path (v ∷ vs) queue n h = elim (Bool-cases (same v story)) [
    | inl own ↦ rw own (back-Scanned n (path ++ story ∷ []))
    | inr other ↦ elim (Bool-cases (has v visited)) [
      | inl seen ↦ rw (other, seen) (scan_next-Scanned visited path vs queue n (omega (arith, h)))
      | inr fresh ↦
          rw (other, fresh)
            (bind-Scanned n v _ (λ id.
              scan_next-Scanned visited path vs _ n
                (push_le (has id cyclic) queue (v, path ++ v ∷ []) n (length vs) h)))
    ]
  ]

  search_back-Ends :
      (adjacency : Map (List Text)) (fuel : ℕ) (visited : List Text) (queue : List QueueEntry)
      → length queue + left visited adjacency < fuel
      → Ends (search_back locale_compare story cyclic adjacency fuel visited queue)
  unfolding search_back
  search_back-Ends adjacency zero visited queue h = absurd (omega (arith, h))
  search_back-Ends adjacency (suc fuel) visited [] h = unfold Ends in tt
  search_back-Ends adjacency (suc fuel) visited ((current, path) ∷ queue) h =
      elim (Bool-cases (has current visited)) [
        | inl seen ↦ rw seen (search_back-Ends adjacency fuel visited queue (omega (arith, h)))
        | inr fresh ↦ rw fresh (
            let ns = value_or (get current adjacency) [] in
            Scanned-Ends (length queue + length ns) _ _
              (scan_next-Scanned (add current visited) path ns queue (length queue + length ns)
                (omega arith))
              (λ c. unfold Ends in tt)
              (λ q l.
                search_back-Ends adjacency fuel (add current visited) q
                  (omega (arith, h, l, left-add current visited adjacency fresh))))
      ]

module _ (locale_compare : Text → Text → Ordering) where
  pub find_cyclic_story_ids-Ends :
      (stories : List Story) → Ends (find_cyclic_story_ids locale_compare stories)
  find_cyclic_story_ids-Ends stories =
      thrown-Ends (find_cyclic_story_ids locale_compare stories)
        (λ e. find_cyclic_story_ids_ends locale_compare stories e)

  searched-Ends :
      (story : Text) (cyclic : List Text) (adjacency : Map (List Text))
      → Ends (do
        scan ← scan_start story cyclic (value_or (get story adjacency) []) []
        elim scan [
          | returned c ↦ ok (some c)
          | queued q ↦
              search_back locale_compare story cyclic adjacency
                (suc (length q + edge_total adjacency))
                []
                q
        ])
  searched-Ends story cyclic adjacency =
      let ns = value_or (get story adjacency) [] in
      Scanned-Ends (length ns) _ _ (scan_start-Scanned story cyclic ns [] (length ns) (omega arith))
        (λ c. unfold Ends in tt)
        (λ q l.
          search_back-Ends locale_compare story cyclic adjacency
            (suc (length q + edge_total adjacency)) [] q (omega (arith, left_le [] adjacency)))

  pub find_cycle_for_story-Ends :
      (story : Text) (stories : List Story)
      → Ends (find_cycle_for_story locale_compare story stories)
  unfolding find_cycle_for_story
  find_cycle_for_story-Ends story stories =
      bind-Ends (find_cyclic_story_ids locale_compare stories) _
        (find_cyclic_story_ids-Ends stories)
        (λ cyclic found. elim (Bool-cases (has story cyclic)) [
          | inl there ↦ elim (Bool-cases (depends_on_itself (story_map stories []) story)) [
            | inl itself ↦ rw (there, itself) (unfold Ends in tt)
            | inr not_itself ↦
                rw (there, not_itself)
                  (searched-Ends story cyclic (sorted_adjacency locale_compare stories))
          ]
          | inr gone ↦ rw gone (unfold Ends in tt)
        ])

  kept-Ends :
      (stories : List Story) (ids seen : List Text) (detected : List (List Text))
      (found : Option (List Text))
      → ((s : List Text) (d : List (List Text))
          → Ends (collect_cycles locale_compare stories ids s d))
      → Ends {A = List (List Text)} (elim found [
        | none ↦ collect_cycles locale_compare stories ids seen detected
        | some cycle ↦
            collect_cycles locale_compare stories ids
              (add (join (codes "->") cycle) seen)
              (if has (join (codes "->") cycle) seen then detected else detected ++ cycle ∷ [])
      ])
  kept-Ends stories ids seen detected none each = each seen detected
  kept-Ends stories ids seen detected (some cycle) each = each _ _

  collect_cycles-Ends :
      (stories : List Story) (ids seen : List Text) (detected : List (List Text))
      → Ends (collect_cycles locale_compare stories ids seen detected)
  unfolding collect_cycles
  collect_cycles-Ends stories [] seen detected = unfold Ends in tt
  collect_cycles-Ends stories (id ∷ ids) seen detected =
      bind-Ends (find_cycle_for_story locale_compare id stories) _
        (find_cycle_for_story-Ends id stories)
        (λ found e.
          kept-Ends stories ids seen detected found (λ s d. collect_cycles-Ends stories ids s d))

  -- The detection of cycles never runs out of the fuel of its loops.
  pub detect_cycles-Ends : (stories : List Story) → Ends (detect_cycles locale_compare stories)
  unfolding detect_cycles Ends
  detect_cycles-Ends stories =
      bind-Ends (find_cyclic_story_ids locale_compare stories) _
        (find_cyclic_story_ids-Ends stories)
        (λ cyclic found.
          bind-Ends (collect_cycles locale_compare stories (sort locale_compare cyclic) [] []) _
            (collect_cycles-Ends stories (sort locale_compare cyclic) [] []) (λ detected e. tt))
