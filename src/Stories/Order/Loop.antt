-- ===== src/Stories/Order/Loop.antt =====
-- The loop over the queue ends within its fuel and schedules what does not wait.
use Prim.Native.Nat.{Ordering}
use solutions_studio.Base.{
  ℕ, zero, suc, ◌+◌, ◌≤◌, ◌<◌, ◌≡◌, refl, true, ◌&&◌, some, List, [], ◌∷◌, ◌++◌, arith, ◌==◌,
  length, length-append, if◌then◌else◌,
}
use solutions_studio.Base.Text.{Text, has}
use solutions_studio.Base.Maps.{Map, get}
use solutions_studio.Base.Counts.{count, count-append, count_of_has, length-le_of_count}
use solutions_studio.Base.Result.{ok}
use solutions_studio.Ids.{create_story_id}
use solutions_studio.Base.Numbers.{ℤ}
use solutions_studio.Stories.Order.{schedule}
use solutions_studio.Stories.Order.Edges.{
  Edge, out, pending, is_edge, is_edge_of_out, count-pending_snoc, done_of_not_pending, IsOrdered,
  IsOrdered-snoc,
}
use solutions_studio.Stories.Order.Relaxing.{State, relax-State}

-- The stories that are scheduled are those that wait for none.
pub record IsExhausted (nodes : List Text) (es : List Edge) (order : List Text) : Type 0 where
  pub scheduled :
      (u : Text)
      → count u order ≡ (if has u nodes && (count u (pending order es) == 0) then 1 else 0)
  pub ordered : IsOrdered es [] order

module _ (locale_compare : Text → Text → Ordering) (nodes : List Text) (es : List Edge)
    (adjacency : Map (List Text))
    (adjacent : (u : Text) → has u nodes ≡ true → get u adjacency ≡ some (out u es))
    (targets : (a b : Text) → is_edge a b es ≡ true → has b nodes ≡ true)
    (canonical : (u : Text) → has u nodes ≡ true → create_story_id u ≡ ok u) where
  State-next :
      (current : Text) (done queue : List Text) (in_degree : Map ℤ)
      → State nodes done [] (pending done es) in_degree (current ∷ queue)
      → State nodes
          (done ++ current ∷ [])
          (out current es)
          (pending (done ++ current ∷ []) es)
          in_degree
          queue
  unfolding count
  State-next current done queue in_degree st = record {
    degree = λ u h. ground (
      arith,
      st.degree u h,
      st.placed current,
      count_of_has current done,
      count-pending_snoc u current done es,
    );
    placed = λ u. ground (
      arith,
      st.placed u,
      st.placed current,
      count_of_has current done,
      count-pending_snoc u current done es,
      count-append u done (current ∷ []),
    );
  }

  done-le-nodes :
      (done queue rest : List Text) (in_degree : Map ℤ)
      → State nodes done [] rest in_degree queue
      → length done ≤ length nodes
  unfolding count
  done-le-nodes done queue rest in_degree st =
      length-le_of_count done nodes (λ u. ground (arith, st.placed u, count_of_has u nodes))

  pub schedule_lem :
      (fuel : ℕ) (done queue : List Text) (in_degree : Map ℤ)
      → length nodes < fuel + length done
      → State nodes done [] (pending done es) in_degree queue
      → IsOrdered es [] done
      → (order : List Text) × (schedule locale_compare fuel adjacency in_degree queue done
          ≡ ok order)
        × IsExhausted nodes es order
  unfolding schedule count
  schedule_lem zero done queue in_degree h st o =
      absurd (omega (arith, done-le-nodes done queue (pending done es) in_degree st))
  schedule_lem (suc fuel) done [] in_degree h st o =
      (done, refl, record { scheduled = λ u. ground (arith, st.placed u); ordered = o })
  schedule_lem (suc fuel) done (current ∷ queue) in_degree h st o =
      let known : has current nodes ≡ true = ground (arith, st.placed current) in
      let next =
        relax-State locale_compare nodes (done ++ current ∷ []) (pending (done ++ current ∷ []) es)
          (out current es) in_degree queue
          (λ u m. targets current u (is_edge_of_out current u es m))
          (State-next current done queue in_degree st) in
      let ordered =
        IsOrdered-snoc es [] done current o
          (λ a e. done_of_not_pending a current done es (ground (arith, st.placed current)) e) in
      rw (canonical current known, adjacent current known)
        (schedule_lem fuel (done ++ current ∷ []) _ _
          (omega (arith, length-append done (current ∷ []))) next ordered)
