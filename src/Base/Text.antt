-- ===== src/Base/Text.antt =====
-- JavaScript strings as lists of UTF-16 code units: `===`, `trim`, `toLowerCase` and truthiness,
-- with lists of strings read as sets (`includes`, `Set.has`).
use Prim.Native.Char.{code}
use Prim.Native.String.{String}
use solutions_studio.Base.{
  ℕ, ◌+◌, ◌≡◌, refl, Bool, true, false, not, ◌&&◌, ◌||◌, Option, none, some, List, [], ◌∷◌, map,
  arith, ℕ_discrete, leb, ◌==◌, if◌then◌else◌, is_empty, every, inl, inr, Bool-cases,
}

abbrev pub Text : Type 0
Text = List ℕ

unfoldable pub Text-discrete : Discrete Text
unfolding ℕ_discrete
Text-discrete = hlevel ℕ_discrete

-- `a === b`.
abbrev pub same : Text → Text → Bool
same a b = elim (Text-discrete a b) [ yes _ ↦ true | no _ ↦ false ]

-- `===` on strings that may be undefined.
abbrev pub same_option : Option Text → Option Text → Bool
same_option none none = true
same_option (some a) (some b) = same a b
same_option _ _ = false

-- The code units of a literal.
abbrev pub codes : String → Text
codes String.[] = []
codes (String.◌∷◌ c s) = code c ∷ codes s

-- A string is falsy when it is empty; so is an undefined one.
abbrev pub is_truthy : Option Text → Bool
is_truthy none = false
is_truthy (some t) = not (is_empty t)

-- ECMAScript's white space and line terminators.
unfoldable pub is_space : ℕ → Bool
is_space c =
    (leb 9 c && leb c 13)
    || c == 32
    || c == 160
    || c == 5760
    || (leb 8192 c && leb c 8202)
    || c == 8232
    || c == 8233
    || c == 8239
    || c == 8287
    || c == 12288
    || c == 65279

trim_start : Text → Text
trim_start [] = []
trim_start (c ∷ s) = let rest = trim_start s in if is_space c then rest else c ∷ s

-- Drops `c` if it is a space and nothing is left behind it.
abbrev trim_char : ℕ → Text → Text
trim_char c [] = if is_space c then [] else c ∷ []
trim_char c (d ∷ s) = c ∷ d ∷ s

trim_end : Text → Text
trim_end [] = []
trim_end (c ∷ s) = trim_char c (trim_end s)

unfoldable pub trim : Text → Text
unfolding is_space trim_start trim_end
trim t = trim_end (trim_start t)

-- `t.trim().length === 0`.
abbrev pub is_blank : Text → Bool
is_blank t = is_empty (trim t)

-- `toLowerCase` on the letters A to Z; other code units are kept.
unfoldable pub lower_char : ℕ → ℕ
lower_char c = if leb 65 c && leb c 90 then c + 32 else c

unfoldable pub to_lower : Text → Text
unfolding lower_char
to_lower = map lower_char

-- `xs.includes(a)`, `new Set(xs).has(a)`.
unfoldable pub has : Text → List Text → Bool
has a [] = false
has a (x ∷ xs) = same a x || has a xs

trim_start-trim_end :
    (c : ℕ) (s : Text) → is_space c ≡ false → trim_start (trim_end (c ∷ s)) ≡ trim_end (c ∷ s)
unfolding trim_end trim_start
trim_start-trim_end c s h = ground arith

trim_end-trim_end : (s : Text) → trim_end (trim_end s) ≡ trim_end s
unfolding trim_end
trim_end-trim_end [] = refl
trim_end-trim_end (c ∷ s) = ground (arith, trim_end-trim_end s)

trim_start_cases : (s : Text) → trim_start (trim_end (trim_start s)) ≡ trim_end (trim_start s)
unfolding trim_start
trim_start_cases [] = unfold trim_end in refl
trim_start_cases (c ∷ s) = elim (Bool-cases (is_space c)) [
  | inl space ↦ rw space (trim_start_cases s)
  | inr other ↦ rw other (trim_start-trim_end c s other)
]

-- Trimming twice is trimming once.
pub trim-trim : (t : Text) → trim (trim t) ≡ trim t
unfolding trim
trim-trim t = rw (trim_start_cases t, trim_end-trim_end)

trim_start_id : (t : Text) → every (λ c. not (is_space c)) t ≡ true → trim_start t ≡ t
unfolding trim_start every
trim_start_id [] h = refl
trim_start_id (c ∷ t) h = ground arith

trim_end_id : (t : Text) → every (λ c. not (is_space c)) t ≡ true → trim_end t ≡ t
unfolding trim_end every
trim_end_id [] h = refl
trim_end_id (c ∷ []) h = ground arith
trim_end_id (c ∷ d ∷ t) h = ground (arith, trim_end_id (d ∷ t))

-- A text without spaces is trimmed.
pub trim_id : (t : Text) → every (λ c. not (is_space c)) t ≡ true → trim t ≡ t
unfolding trim
trim_id t h = ground (arith, trim_start_id t, trim_end_id t)

pub lower_char-lower_char : (c : ℕ) → lower_char (lower_char c) ≡ lower_char c
unfolding lower_char
lower_char-lower_char c = ground arith

pub to_lower-to_lower : (t : Text) → to_lower (to_lower t) ≡ to_lower t
unfolding to_lower
to_lower-to_lower [] = refl
to_lower-to_lower (c ∷ t) = cc (lower_char-lower_char c, to_lower-to_lower t)

-- Something is written, without spaces around it.
pub record IsWritten (t : Text) : Type 0 where
  pub nonblank : is_blank t ≡ false
  pub trimmed : trim t ≡ t

pub IsWritten-trim : (t : Text) → is_blank t ≡ false → IsWritten (trim t)
IsWritten-trim t h = record { nonblank = ground (arith, trim-trim t); trimmed = trim-trim t }

trim_test : trim (codes "  a b ") ≡ codes "a b"
unfolding trim
trim_test = refl

has_test : has (codes "b") (codes "a" ∷ codes "b" ∷ []) ≡ true
unfolding has Text-discrete
has_test = refl
