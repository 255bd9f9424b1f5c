-- ===== src/Base/Members.antt =====
-- The members of a list, and what `find`, `filter`, `some`, `includes` and `sort` do to them.
use Prim.Native.Nat.{Ordering}
use mathlib.Core.List.{Memᴰ}
use mathlib.Core.List.Memᴰ.{cases_cons}
use solutions_studio.Base.{
  ◌≡◌, refl, sym, ap, subst, ◌∙◌, ◌⊎◌, ◌↔◌, inl, inr, Bool, true, false, some, none, List, [], ◌∷◌,
  ◌++◌, map, All, any, keep, find, arith, Bool-cases,
}
use solutions_studio.Base.Text.{Text, Text-discrete, has}
use solutions_studio.Base.Counts.{sort_insert, sort}

module _ {ℓ} {A : Type ℓ} where
  pub find-none :
      (p : A → Bool) (xs : List A) → find p xs ≡ none → (x : A) → Memᴰ x xs → p x ≡ false
  unfolding find
  find-none p [] h x m = elim m [ ]
  find-none p (y ∷ ys) h x (Memᴰ.head e) = ap p e ∙ ground arith
  find-none p (y ∷ ys) h x (Memᴰ.tail m) = find-none p ys (ground arith) x m

  pub find-some :
      (p : A → Bool) (xs : List A) (x : A) → find p xs ≡ some x → Memᴰ x xs × (p x ≡ true)
  unfolding find
  find-some p [] x h = absurd (ground arith)
  find-some p (y ∷ ys) x h = elim (Bool-cases (p y)) [
    | inl passes ↦ let e : y ≡ x = ground arith in (Memᴰ.head (sym e), sym (ap p e) ∙ passes)
    | inr fails ↦ let (m, passes) = find-some p ys x (ground arith) in (Memᴰ.tail m, passes)
  ]

module _ {ℓ} {A : Type ℓ} (compare : A → A → Ordering) where
  insert_cases :
      (x y : A) (ys : List A)
      → (sort_insert compare x (y ∷ ys) ≡ y ∷ sort_insert compare x ys)
        ⊎ (sort_insert compare x (y ∷ ys) ≡ x ∷ y ∷ ys)
  unfolding sort_insert
  insert_cases x y ys =
      elim (compare x y)
        as (λ c.
          (elim c as (λ _. List A) [ Ordering.gt ↦ y ∷ sort_insert compare x ys | _ ↦ x ∷ y ∷ ys ]
            ≡ y ∷ sort_insert compare x ys)
          ⊎ (elim c as (λ _. List A) [ Ordering.gt ↦ y ∷ sort_insert compare x ys | _ ↦ x ∷ y ∷ ys ]
              ≡ x ∷ y ∷ ys)) [
                | Ordering.gt ↦ inl refl
                | Ordering.lt ↦ inr refl
                | Ordering.eq ↦ inr refl
              ]

  member_sort_insert : (x z : A) (ys : List A) → Memᴰ z (x ∷ ys) → Memᴰ z (sort_insert compare x ys)
  member_sort_insert x z [] m = unfold sort_insert in m
  member_sort_insert x z (y ∷ ys) m = elim (insert_cases x y ys) [
    | inr e ↦ rw e m
    | inl e ↦ rw e (elim (cases_cons m) [
      | inl here ↦ Memᴰ.tail (member_sort_insert x z ys (Memᴰ.head here))
      | inr later ↦ elim (cases_cons later) [
        | inl here ↦ Memᴰ.head here
        | inr there ↦ Memᴰ.tail (member_sort_insert x z ys (Memᴰ.tail there))
      ]
    ])
  ]

  sort_insert_member : (x z : A) (ys : List A) → Memᴰ z (sort_insert compare x ys) → Memᴰ z (x ∷ ys)
  unfolding sort_insert
  sort_insert_member x z [] m = m
  sort_insert_member x z (y ∷ ys) m = elim (insert_cases x y ys) [
    | inr e ↦ subst (λ l. Memᴰ z l) e m
    | inl e ↦ elim (cases_cons (subst (λ l. Memᴰ z l) e m)) [
      | inl here ↦ Memᴰ.tail (Memᴰ.head here)
      | inr there ↦ elim (cases_cons (sort_insert_member x z ys there)) [
        | inl here ↦ Memᴰ.head here
        | inr later ↦ Memᴰ.tail (Memᴰ.tail later)
      ]
    ]
  ]

  pub member_sort : (z : A) (xs : List A) → Memᴰ z xs → Memᴰ z (sort compare xs)
  unfolding sort
  member_sort z [] m = m
  member_sort z (x ∷ xs) (Memᴰ.head e) = member_sort_insert x z (sort compare xs) (Memᴰ.head e)
  member_sort z (x ∷ xs) (Memᴰ.tail m) =
      member_sort_insert x z (sort compare xs) (Memᴰ.tail (member_sort z xs m))

  pub sort_member : (z : A) (xs : List A) → Memᴰ z (sort compare xs) → Memᴰ z xs
  unfolding sort
  sort_member z [] m = m
  sort_member z (x ∷ xs) m = elim (cases_cons (sort_insert_member x z (sort compare xs) m)) [
    | inl here ↦ Memᴰ.head here
    | inr there ↦ Memᴰ.tail (sort_member z xs there)
  ]

member_of_has : (a : Text) (xs : List Text) → has a xs ≡ true → Memᴰ a xs
unfolding has
member_of_has a [] h = absurd cc
member_of_has a (x ∷ xs) h = elim (Text-discrete a x) [
  | yes e ↦ Memᴰ.head e
  | no n ↦ Memᴰ.tail (member_of_has a xs (ground arith))
]

has_of_member : (a : Text) (xs : List Text) → Memᴰ a xs → has a xs ≡ true
unfolding has
has_of_member a [] m = elim m [ ]
has_of_member a (x ∷ xs) (Memᴰ.head e) = ground (arith, e)
has_of_member a (x ∷ xs) (Memᴰ.tail m) = ground (arith, has_of_member a xs m)

pub has_iff : (a : Text) (xs : List Text) → (has a xs ≡ true) ↔ Memᴰ a xs
has_iff a xs = (member_of_has a xs, has_of_member a xs)

module _ {A : Type 0} where
  pub any_member :
      (p : A → Bool) (xs : List A) → any p xs ≡ true → (x : A) × Memᴰ x xs × (p x ≡ true)
  unfolding any
  any_member p [] h = absurd cc
  any_member p (x ∷ xs) h = elim (Bool-cases (p x)) [
    | inl passes ↦ (x, Memᴰ.head refl, passes)
    | inr fails ↦ let (y, m, passes) = any_member p xs (ground arith) in (y, Memᴰ.tail m, passes)
  ]

  pub member_any : (p : A → Bool) (xs : List A) (x : A) → Memᴰ x xs → p x ≡ true → any p xs ≡ true
  unfolding any
  member_any p [] x m h = elim m [ ]
  member_any p (y ∷ ys) x (Memᴰ.head e) h = ground (arith, ap p e, h)
  member_any p (y ∷ ys) x (Memᴰ.tail m) h = ground (arith, member_any p ys x m h)

  pub All_member : (P : A → Type 0) (xs : List A) → All P xs → (x : A) → Memᴰ x xs → P x
  All_member P [] all x m = elim m [ ]
  All_member P (y ∷ ys) all x (Memᴰ.head e) = subst P (sym e) all.0
  All_member P (y ∷ ys) all x (Memᴰ.tail m) = All_member P ys all.1 x m

  pub All_snoc : (P : A → Type 0) (xs : List A) (x : A) → All P xs → P x → All P (xs ++ x ∷ [])
  All_snoc P [] x all h = (h, tt)
  All_snoc P (y ∷ ys) x all h = (all.0, All_snoc P ys x all.1 h)

  pub keep_member :
      (p : A → Bool) (xs : List A) (x : A) → Memᴰ x (keep p xs) → Memᴰ x xs × (p x ≡ true)
  unfolding keep
  keep_member p [] x m = elim m [ ]
  keep_member p (y ∷ ys) x m = elim (Bool-cases (p y)) [
    | inl passes ↦
        let kept : keep p (y ∷ ys) ≡ y ∷ keep p ys = rw passes refl in
        elim (cases_cons (subst (λ l. Memᴰ x l) kept m)) [
          | inl e ↦ (Memᴰ.head e, ap p e ∙ passes)
          | inr later ↦ let (n, h) = keep_member p ys x later in (Memᴰ.tail n, h)
        ]
    | inr fails ↦
        let kept : keep p (y ∷ ys) ≡ keep p ys = rw fails refl in
        let (n, h) = keep_member p ys x (subst (λ l. Memᴰ x l) kept m) in (Memᴰ.tail n, h)
  ]

  pub member_keep :
      (p : A → Bool) (xs : List A) (x : A) → Memᴰ x xs → p x ≡ true → Memᴰ x (keep p xs)
  unfolding keep
  member_keep p [] x m h = elim m [ ]
  member_keep p (y ∷ ys) x (Memᴰ.head e) h =
      let passes : p y ≡ true = sym (ap p e) ∙ h in rw passes (Memᴰ.head e)
  member_keep p (y ∷ ys) x (Memᴰ.tail m) h =
      let later = member_keep p ys x m h in
      elim (Bool-cases (p y)) [
        | inl passes ↦ rw passes (Memᴰ.tail later)
        | inr fails ↦ rw fails later
      ]

  pub map_member :
      (f : A → Text) (xs : List A) (t : Text) → Memᴰ t (map f xs) → (x : A) × Memᴰ x xs × (f x ≡ t)
  map_member f [] t m = elim m [ ]
  map_member f (x ∷ xs) t (Memᴰ.head e) = (x, Memᴰ.head refl, sym e)
  map_member f (x ∷ xs) t (Memᴰ.tail m) = let (y, n, e) = map_member f xs t m in (y, Memᴰ.tail n, e)

  pub member_map : (f : A → Text) (xs : List A) (x : A) → Memᴰ x xs → Memᴰ (f x) (map f xs)
  member_map f [] x m = elim m [ ]
  member_map f (y ∷ ys) x (Memᴰ.head e) = Memᴰ.head (ap f e)
  member_map f (y ∷ ys) x (Memᴰ.tail m) = Memᴰ.tail (member_map f ys x m)
