-- ===== src/Stories/Order/Relaxing.antt =====
-- The in-degrees and the queue while the dependents of a scheduled story are visited.
use Prim.Native.Nat.{Ordering}
use solutions_studio.Base.{
  ◌+◌, ◌≡◌, true, ◌&&◌, some, List, [], ◌∷◌, ◌++◌, arith, ◌==◌, if◌then◌else◌,
}
use solutions_studio.Base.Text.{Text, has}
use solutions_studio.Base.Maps.{Map, get, get-set}
use solutions_studio.Base.Counts.{count, count-append, count-sort}
use solutions_studio.Base.Numbers.{ℤ, pos}
use solutions_studio.Stories.Order.{relax_one, relax}

-- `ds` are the visits that are left for the scheduled story, `rest` the dependents in the edges whose
-- prerequisite is not scheduled. A story is scheduled or queued, once, when it waits for neither.
pub record State (nodes done ds rest : List Text) (in_degree : Map ℤ) (queue : List Text)
    : Type 0 where
  pub degree :
      (u : Text) → has u nodes ≡ true → get u in_degree ≡ some (pos (count u ds + count u rest))
  pub placed :
      (u : Text)
      → count u done + count u queue
        ≡ (if has u nodes && (count u ds + count u rest == 0) then 1 else 0)

module _ (locale_compare : Text → Text → Ordering) (nodes done rest : List Text) where
  relax_one-State :
      (d : Text) (ds : List Text) (in_degree : Map ℤ) (queue : List Text)
      → has d nodes ≡ true
      → State nodes done (d ∷ ds) rest in_degree queue
      → State nodes done ds rest
          (relax_one locale_compare d (in_degree, queue)).0
          (relax_one locale_compare d (in_degree, queue)).1
  unfolding relax_one count
  relax_one-State d ds in_degree queue known st = record {
    degree = λ u h. ground (
      arith,
      st.degree u h,
      st.degree d known,
      get-set d u (pos (count d ds + count d rest)) in_degree,
    );
    placed = λ u. ground (
      arith,
      st.placed u,
      st.placed d,
      st.degree d known,
      count-sort locale_compare u (queue ++ d ∷ []),
      count-append u queue (d ∷ []),
    );
  }

  pub relax-State :
      (ds : List Text) (in_degree : Map ℤ) (queue : List Text)
      → ((u : Text) → has u ds ≡ true → has u nodes ≡ true)
      → State nodes done ds rest in_degree queue
      → State nodes done [] rest
          (relax locale_compare ds (in_degree, queue)).0
          (relax locale_compare ds (in_degree, queue)).1
  unfolding relax has
  relax-State [] in_degree queue known st = st
  relax-State (d ∷ ds) in_degree queue known st =
      relax-State ds _ _ (λ u h. known u (ground arith))
        (relax_one-State d ds in_degree queue (known d (ground arith)) st)
