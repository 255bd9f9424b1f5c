-- ===== src/Base/Result.antt =====
-- A result or a thrown error, with the operators of `do`.
use solutions_studio.Base.{
  ℕ, suc, ◌≡◌, refl, ◌⊎◌, inl, inr, arith, All, length, Bool, Option, none, some, true, false, List,
  [], ◌∷◌,
}

pub data Result {ℓ} (E : Type 0) (A : Type ℓ) : Type ℓ where
  ok : A → Result E A
  throw : E → Result E A

module _ {E : Type 0} where
  infixl 5 ◌>>=◌ ◌>>◌
  -- A thrown error passes what follows by.
  abbrev pub ◌>>=◌ {ℓ κ} : {A : Type ℓ} {B : Type κ} → Result E A → (A → Result E B) → Result E B
  throw error >>= rest = throw error
  ok value >>= rest = rest value

  abbrev pub ◌>>◌ {ℓ} : {B : Type ℓ} → Result E (Unit {0}) → Result E B → Result E B
  m >> k = m >>= λ _. k

-- `if (test) throw e;`
module _ {E : Type 0} where
  abbrev pub throw_if : Bool → E → Result E (Unit {0})
  throw_if true e = throw e
  throw_if false e = ok tt

  -- `xs.map(f)`, where `f` may throw.
  abbrev pub traverse {ℓ κ} :
      {A : Type ℓ} {B : Type κ} → (A → Result E B) → List A → Result E (List B)
  traverse f [] = ok []
  traverse f (x ∷ xs) = do y ← f x; ys ← traverse f xs; ok (y ∷ ys)

  -- A list that is not given stays undefined.
  abbrev pub traverse_option {ℓ κ} :
      {A : Type ℓ} {B : Type κ} → (A → Result E B) → Option (List A) → Result E (Option (List B))
  traverse_option f none = ok none
  traverse_option f (some xs) = do ys ← traverse f xs; ok (some ys)

  -- `traverse` with the index, from `i` on.
  abbrev pub traverse_at {ℓ κ} :
      {A : Type ℓ} {B : Type κ} → (ℕ → A → Result E B) → ℕ → List A → Result E (List B)
  traverse_at f i [] = ok []
  traverse_at f i (x ∷ xs) = do y ← f i x; ys ← traverse_at f (suc i) xs; ok (y ∷ ys)

pub Result-cases {ℓ} :
    {E : Type 0} {A : Type ℓ} (r : Result E A) → ((a : A) × (r ≡ ok a)) ⊎ ((e : E) × (r ≡ throw e))
Result-cases (ok a) = inl (a, refl)
Result-cases (throw e) = inr (e, refl)

module _ {ℓ κ} {E : Type 0} {A : Type ℓ} {B : Type κ} (f : A → Result E B) where
  pub traverse_parts :
      (x : A) (y : B) (xs : List A) (ys : List B)
      → traverse f (x ∷ xs) ≡ ok (y ∷ ys)
      → (f x ≡ ok y) × (traverse f xs ≡ ok ys)
  traverse_parts x y xs ys h = ground arith

  -- What holds of each result holds of all of them, and there are as many as arguments.
  pub traverse-All {ν} :
      (P : B → Type ν)
      → ((x : A) (y : B) → f x ≡ ok y → P y)
      → (xs : List A) (ys : List B) → traverse f xs ≡ ok ys
      → All P ys × (length ys ≡ length xs)
  traverse-All P step [] ys h = ground arith
  traverse-All P step (x ∷ xs) [] h = absurd (ground arith)
  traverse-All P step (x ∷ xs) (y ∷ ys) h =
      let (first, others) = traverse_parts x y xs ys h in
      let (all, same_length) = traverse-All P step xs ys others in
      ((step x y first, all), omega (arith, same_length))

module _ {ℓ κ} {E : Type 0} {A : Type ℓ} {B : Type κ} (f : ℕ → A → Result E B) where
  traverse_at_parts :
      (i : ℕ) (x : A) (y : B) (xs : List A) (ys : List B)
      → traverse_at f i (x ∷ xs) ≡ ok (y ∷ ys)
      → (f i x ≡ ok y) × (traverse_at f (suc i) xs ≡ ok ys)
  traverse_at_parts i x y xs ys h = ground arith

  pub traverse_at-All {ν} :
      (P : B → Type ν)
      → ((i : ℕ) (x : A) (y : B) → f i x ≡ ok y → P y)
      → (i : ℕ) (xs : List A) (ys : List B) → traverse_at f i xs ≡ ok ys
      → All P ys × (length ys ≡ length xs)
  traverse_at-All P step i [] ys h = ground arith
  traverse_at-All P step i (x ∷ xs) [] h = absurd (ground arith)
  traverse_at-All P step i (x ∷ xs) (y ∷ ys) h =
      let (first, others) = traverse_at_parts i x y xs ys h in
      let (all, same_length) = traverse_at-All P step (suc i) xs ys others in
      ((step i x y first, all), omega (arith, same_length))
