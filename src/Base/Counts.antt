-- ===== src/Base/Counts.antt =====
-- Lists of strings as multisets: how often a string occurs.
use Prim.Native.Nat.{Ordering}
use solutions_studio.Base.{
  ℕ, suc, ◌+◌, ◌-◌, ◌≤◌, ◌<◌, ◌≡◌, refl, true, false, ◌||◌, List, [], ◌∷◌, ◌++◌, arith, length, map,
  if◌then◌else◌,
}
use solutions_studio.Base.Text.{Text, same, has}

unfoldable pub count : Text → List Text → ℕ
count a [] = 0
count a (x ∷ xs) = if same a x then suc (count a xs) else count a xs

pub count-append : (a : Text) (xs ys : List Text) → count a (xs ++ ys) ≡ count a xs + count a ys
unfolding count
count-append a [] ys = omega arith
count-append a (x ∷ xs) ys = ground (arith, count-append a xs ys)

pub has-append : (a : Text) (xs ys : List Text) → has a (xs ++ ys) ≡ (has a xs || has a ys)
unfolding has
has-append a [] ys = refl
has-append a (x ∷ xs) ys = ground (arith, has-append a xs ys)

pub count_of_has : (a : Text) (xs : List Text) → has a xs ≡ true → 0 < count a xs
unfolding has count
count_of_has a [] h = cc
count_of_has a (x ∷ xs) h = ground (arith, count_of_has a xs)

pub count_of_not_has : (a : Text) (xs : List Text) → has a xs ≡ false → count a xs ≡ 0
unfolding has count
count_of_not_has a [] h = refl
count_of_not_has a (x ∷ xs) h = ground (arith, count_of_not_has a xs)

-- Takes the first occurrence out.
remove : Text → List Text → List Text
remove a [] = []
remove a (x ∷ xs) = let rest = remove a xs in if same a x then xs else x ∷ rest

count-remove :
    (a b : Text) (xs : List Text)
    → count b (remove a xs) ≡ (if same b a then count b xs - 1 else count b xs)
unfolding count remove
count-remove a b [] = ground arith
count-remove a b (x ∷ xs) = ground (arith, count-remove a b xs)

length-remove :
    (a : Text) (xs : List Text) → 0 < count a xs → length xs ≡ suc (length (remove a xs))
unfolding count remove
length-remove a [] h = absurd (omega arith)
length-remove a (x ∷ xs) h = ground (arith, length-remove a xs)

-- A list whose strings occur at least as often in another is no longer than it.
pub length-le_of_count :
    (xs ys : List Text) → ((a : Text) → count a xs ≤ count a ys) → length xs ≤ length ys
unfolding count
length-le_of_count [] ys h = omega arith
length-le_of_count (x ∷ xs) ys h = ground (
  arith,
  h x,
  length-remove x ys,
  length-le_of_count xs (remove x ys) (λ a. ground (arith, h a, count-remove x a ys)),
)

-- If it is as long, the strings occur equally often.
pub count_eq_of_length :
    (xs ys : List Text)
    → ((a : Text) → count a xs ≤ count a ys)
    → length xs ≡ length ys
    → (a : Text) → count a xs ≡ count a ys
unfolding count
count_eq_of_length [] [] h e a = refl
count_eq_of_length [] (y ∷ ys) h e a = absurd (omega arith)
count_eq_of_length (x ∷ xs) ys h e a = ground (
  arith,
  h x,
  length-remove x ys,
  count-remove x a ys,
  count_eq_of_length xs (remove x ys) (λ b. ground (arith, h b, count-remove x b ys))
      (ground (arith, h x, length-remove x ys)) a,
)

-- `xs.sort(compare)`: a stable sort, with the comparator as a sign.
module _ {ℓ} {A : Type ℓ} (compare : A → A → Ordering) where
  unfoldable pub sort_insert : A → List A → List A
  sort_insert x [] = x ∷ []
  sort_insert x (y ∷ ys) =
      let rest = sort_insert x ys in elim (compare x y) [ Ordering.gt ↦ y ∷ rest | _ ↦ x ∷ y ∷ ys ]

  unfoldable pub sort : List A → List A
  unfolding sort_insert
  sort [] = []
  sort (x ∷ xs) = sort_insert x (sort xs)

module _ (compare : Text → Text → Ordering) where
  count-sort_insert :
      (a x : Text) (ys : List Text) → count a (sort_insert compare x ys) ≡ count a (x ∷ ys)
  unfolding count sort_insert
  count-sort_insert a x [] = refl
  count-sort_insert a x (y ∷ ys) = ground (arith, count-sort_insert a x ys)

  pub count-sort : (a : Text) (xs : List Text) → count a (sort compare xs) ≡ count a xs
  unfolding count sort
  count-sort a [] = refl
  count-sort a (x ∷ xs) = ground (arith, count-sort_insert a x (sort compare xs), count-sort a xs)

module _ {ℓ} {A : Type ℓ} (compare : A → A → Ordering) where
  length-sort_insert : (x : A) (ys : List A) → length (sort_insert compare x ys) ≡ suc (length ys)
  unfolding sort_insert
  length-sort_insert x [] = refl
  length-sort_insert x (y ∷ ys) = ground (arith, length-sort_insert x ys)

  pub length-sort : (xs : List A) → length (sort compare xs) ≡ length xs
  unfolding sort
  length-sort [] = refl
  length-sort (x ∷ xs) = ground (arith, length-sort_insert x (sort compare xs), length-sort xs)

module _ {A : Type 0} (compare : A → A → Ordering) (f : A → Text) where
  count-map-sort_insert :
      (a : Text) (x : A) (ys : List A)
      → count a (map f (sort_insert compare x ys)) ≡ count a (f x ∷ map f ys)
  unfolding count sort_insert
  count-map-sort_insert a x [] = refl
  count-map-sort_insert a x (y ∷ ys) = ground (arith, count-map-sort_insert a x ys)

  pub count-map-sort :
      (a : Text) (xs : List A) → count a (map f (sort compare xs)) ≡ count a (map f xs)
  unfolding count sort
  count-map-sort a [] = refl
  count-map-sort a (x ∷ xs) =
      ground (arith, count-map-sort_insert a x (sort compare xs), count-map-sort a xs)
