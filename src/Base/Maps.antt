-- ===== src/Base/Maps.antt =====
-- A JavaScript `Map` with string keys: the entries in the order in which their keys were first set.
use solutions_studio.Base.{
  ◌≡◌, ◌≢◌, ◌⊎◌, inl, inr, sym, ◌∙◌, refl, Bool, true, Option, none, some, List, [], ◌∷◌, map,
  arith, if◌then◌else◌,
}
use solutions_studio.Base.Text.{Text, Text-discrete, same, has}

abbrev pub Map {ℓ} : Type ℓ → Type ℓ
Map V = List (Text × V)

module _ {ℓ} {V : Type ℓ} where
  unfoldable pub get : Text → Map V → Option V
  get k [] = none
  get k ((j, v) ∷ m) = let rest = get k m in if same k j then some v else rest

  unfoldable pub set : Text → V → Map V → Map V
  set k v [] = (k, v) ∷ []
  set k v ((j, w) ∷ m) = let rest = set k v m in if same k j then (j, v) ∷ m else (j, w) ∷ rest

  abbrev pub keys : Map V → List Text
  keys m = map (λ e. e.0) m

  -- `m.has(k)`.
  abbrev pub has_key : Text → Map V → Bool
  has_key k m = has k (keys m)

module _ {ℓ} {V : Type ℓ} where
  pub get-set :
      (k j : Text) (v : V) (m : Map V) → get j (set k v m) ≡ (if same j k then some v else get j m)
  unfolding get set
  get-set k j v [] = refl
  get-set k j v ((i, w) ∷ m) = ground (arith, get-set k j v m)

  -- Setting an existing key leaves the keys as they are.
  pub keys-set : (k : Text) (v : V) (m : Map V) → has_key k m ≡ true → keys (set k v m) ≡ keys m
  unfolding set has
  keys-set k v [] h = ground arith
  keys-set k v ((i, w) ∷ m) h = ground (arith, keys-set k v m)

  pub has_key-set :
      (k j : Text) (v : V) (m : Map V)
      → has_key j (set k v m) ≡ (if same j k then true else has_key j m)
  unfolding set has
  has_key-set k j v [] = ground arith
  has_key-set k j v ((i, w) ∷ m) = ground (arith, has_key-set k j v m)

  pub get-set_same : (k : Text) (v : V) (m : Map V) → get k (set k v m) ≡ some v
  get-set_same k v m = ground (arith, get-set k k v m)

  pub get-set_other : (k j : Text) (v : V) (m : Map V) → j ≢ k → get j (set k v m) ≡ get j m
  get-set_other k j v m n = ground (arith, get-set k j v m)

  pub get-set_cases :
      (k j : Text) (v w : V) (m : Map V)
      → get j (set k v m) ≡ some w
      → ((j ≡ k) × (w ≡ v)) ⊎ (get j m ≡ some w)
  get-set_cases k j v w m e = elim (Text-discrete j k) [
    | yes p ↦ inl (p, ground (arith, get-set k j v m))
    | no n ↦ inr (sym (get-set_other k j v m n) ∙ e)
  ]

  -- Setting a key back to what it had.
  pub set-restore : (k : Text) (v w : V) (m : Map V) → get k m ≡ some v → set k v (set k w m) ≡ m
  unfolding get set
  set-restore k v w [] e = absurd (ground arith)
  set-restore k v w ((j, u) ∷ m) e = ground (arith, e, set-restore k v w m)
