-- ===== src/Base/Sets.antt =====
-- A JavaScript `Set` of strings: its members, in the order in which they were first added.
use solutions_studio.Base.{
  ◌≤◌, ◌≡◌, refl, ap, inl, inr, Bool, false, Bool-cases, is_empty, keep, true, ◌||◌, List, [], ◌∷◌,
  ◌++◌, arith, length, if◌then◌else◌,
}
use solutions_studio.Base.Text.{Text, Text-discrete, same, has}
use solutions_studio.Base.Counts.{
  count, count-append, has-append, count_of_has, count_of_not_has, count_eq_of_length,
}

-- `s.add(a)`: a member stays where it is.
unfoldable pub add : Text → List Text → List Text
unfolding has
add a xs = if has a xs then xs else xs ++ a ∷ []

unfoldable pub add_all : List Text → List Text → List Text
unfolding add
add_all [] xs = xs
add_all (a ∷ as_) xs = add_all as_ (add a xs)

-- `new Set(xs)`.
unfoldable pub set_of : List Text → List Text
unfolding add_all
set_of xs = add_all xs []

pub has-add : (u a : Text) (xs : List Text) → has u (add a xs) ≡ (same u a || has u xs)
unfolding add has
has-add u a xs = ground (arith, has-append u xs (a ∷ []))

pub has-add_all : (u : Text) (as_ xs : List Text) → has u (add_all as_ xs) ≡ (has u as_ || has u xs)
unfolding add_all has
has-add_all u [] xs = refl
has-add_all u (a ∷ as_) xs = ground (arith, has-add_all u as_ (add a xs), has-add u a xs)

count-add : (u a : Text) (xs : List Text) → count u xs ≤ 1 → count u (add a xs) ≤ 1
unfolding add count
count-add u a xs h = ground (arith, count-append u xs (a ∷ []), count_of_not_has a xs)

pub count-add_all : (u : Text) (as_ xs : List Text) → count u xs ≤ 1 → count u (add_all as_ xs) ≤ 1
unfolding add_all
count-add_all u [] xs h = h
count-add_all u (a ∷ as_) xs h = count-add_all u as_ (add a xs) (count-add u a xs h)

pub has-set_of : (u : Text) (xs : List Text) → has u (set_of xs) ≡ has u xs
unfolding set_of
has-set_of u xs = unfold has in ground (arith, has-add_all u xs [])

pub count-set_of : (u : Text) (xs : List Text) → count u (set_of xs) ≤ 1
unfolding set_of
count-set_of u xs = count-add_all u xs [] (unfold count in omega arith)

-- Two sets of the same size, one of which contains the other, have the same members.
pub has_eq_of_size :
    (xs ys : List Text)
    → ((u : Text) → has u xs ≡ true → has u ys ≡ true)
    → length (set_of ys) ≡ length (set_of xs)
    → (u : Text) → has u xs ≡ has u ys
has_eq_of_size xs ys sub size u =
    let counts =
      count_eq_of_length (set_of xs) (set_of ys)
        (λ v. ground (
          arith,
          sub v,
          has-set_of v xs,
          has-set_of v ys,
          count-set_of v xs,
          count_of_has v (set_of ys),
          count_of_not_has v (set_of xs),
        ))
        (ground arith) u in
    ground (
      arith,
      counts,
      has-set_of u xs,
      has-set_of u ys,
      count_of_has u (set_of xs),
      count_of_has u (set_of ys),
      count_of_not_has u (set_of xs),
      count_of_not_has u (set_of ys),
    )

-- What a filter leaves nothing of, and what it finds.
pub keep_found :
    (p : Text → Bool) (xs : List Text)
    → is_empty (keep p xs) ≡ false
    → (x : Text) × (has x xs ≡ true) × (p x ≡ true)
unfolding keep has
keep_found p [] h = absurd cc
keep_found p (x ∷ xs) h = elim (Bool-cases (p x)) [
  | inl passes ↦ (x, ground arith, passes)
  | inr fails ↦
      let (y, member, passes) = keep_found p xs (ground arith) in (y, ground arith, passes)
]

pub keep_nonempty :
    (p : Text → Bool) (x : Text) (xs : List Text)
    → has x xs ≡ true
    → p x ≡ true
    → is_empty (keep p xs) ≡ false
unfolding keep has
keep_nonempty p x [] h t = absurd cc
keep_nonempty p x (y ∷ ys) h t = elim (Text-discrete x y) [
  | yes e ↦ ground (arith, ap p e)
  | no n ↦ ground (arith, keep_nonempty p x ys)
]
