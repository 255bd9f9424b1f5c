-- ===== src/Ids/Instant/Laws.antt =====
-- Which rendered dates are instants.
use Prim.Native.Nat.{◌/◌, ◌%◌}
use solutions_studio.Base.{
  ◌∙◌, sym, ℕ, ◌+◌, ◌*◌, ◌≤◌, ◌<◌, ◌≡◌, ◌≢◌, ◌⊎◌, ◌↔◌, inl, inr, true, some, [], ◌∷◌, arith, leb,
  Bool-cases, ◌==◌,
}
use solutions_studio.Base.Text.{Text}
use solutions_studio.Base.Result.{ok}
use solutions_studio.Ids.{assert_non_empty}
use solutions_studio.Ids.Instant.{
  two_digits, two_digits_in, char, fraction, zone, is_leap_year, days_in_month, is_valid_instant,
  create_instant,
}

-- Two decimal digits.
abbrev pub render_two : ℕ → Text → Text
render_two n rest = (b'0' + n / 10) ∷ (b'0' + n % 10) ∷ rest

-- A moment in UTC, as `toISOString` renders it up to the fraction of a second.
abbrev pub render : (year month day hour minute second : ℕ) → Text
render year month day hour minute second = render_two (year / 100) (
    render_two (year % 100) (
      b'-'
      ∷ render_two month (
          b'-'
          ∷ render_two day (
              b'T'
              ∷ render_two hour
                  (b':' ∷ render_two minute (b':' ∷ render_two second (b'Z' ∷ [])))))))

two_digits-render_two :
    (n : ℕ) (rest : Text) → n < 100 → two_digits (render_two n rest) ≡ some (n, rest)
unfolding two_digits
two_digits-render_two n rest h = ground arith

two_digits_in-render_two :
    (low high n : ℕ) (rest : Text)
    → low ≤ n
    → n ≤ high
    → high < 100
    → two_digits_in low high (render_two n rest) ≡ some (n, rest)
unfolding two_digits_in
two_digits_in-render_two low high n rest l h b =
    ground (arith, two_digits-render_two n rest (omega arith))

-- A year that is a multiple of 400, or of 4 and not of 100.
abbrev pub IsLeap : ℕ → Type 0
IsLeap year =
    ((k : ℕ) × (year ≡ 400 * k)) ⊎ (((k : ℕ) × (year ≡ 4 * k)) × ¬ ((k : ℕ) × (year ≡ 100 * k)))

-- The months that have a 31st.
abbrev pub IsLong : ℕ → Type 0
IsLong month =
    (month ≡ 1)
    ⊎ (month ≡ 3)
    ⊎ (month ≡ 5)
    ⊎ (month ≡ 7)
    ⊎ (month ≡ 8)
    ⊎ (month ≡ 10)
    ⊎ (month ≡ 12)

-- The day is one that the month has in the year, by the Gregorian calendar.
abbrev pub IsDay : (year month day : ℕ) → Type 0
IsDay year month day =
    (day ≤ 28)
    ⊎ ((day ≡ 29) × ((month ≢ 2) ⊎ IsLeap year))
    ⊎ ((day ≡ 30) × (month ≢ 2))
    ⊎ ((day ≡ 31) × IsLong month)

is_leap_year-IsLeap : (year : ℕ) → is_leap_year year ≡ true → IsLeap year
unfolding is_leap_year
is_leap_year-IsLeap year h = elim (Bool-cases (year % 400 == 0)) [
  | inl fours ↦ inl (year / 400, ground (arith, fours))
  | inr others ↦
      inr ((year / 4, ground (arith, h, others)), λ (k, e). absurd (ground (arith, h, others, e)))
]

IsLeap-is_leap_year : (year : ℕ) → IsLeap year → is_leap_year year ≡ true
unfolding is_leap_year
IsLeap-is_leap_year year (inl (k, e)) = ground (arith, e)
IsLeap-is_leap_year year (inr ((k, e), n)) = elim (Bool-cases (year % 100 == 0)) [
  | inl hundreds ↦ absurd (n (year / 100, ground (arith, hundreds)))
  | inr others ↦ ground (arith, e, others)
]

long_lem :
    (month : ℕ)
    → 1 ≤ month
    → month ≤ 12
    → month ≢ 2
    → month ≢ 4
    → month ≢ 6
    → month ≢ 9
    → month ≢ 11
    → IsLong month
long_lem month m1 m a b c d e = ground arith

days_lem :
    (year month day : ℕ)
    → 1 ≤ month
    → month ≤ 12
    → day ≤ 31
    → leb day (days_in_month year month) ≡ true
    → IsDay year month day
unfolding days_in_month
days_lem year month day m1 m d h = elim (Bool-cases (leb day 28)) [
  | inl low ↦ inl (ground arith)
  | inr high ↦ elim (Bool-cases (month == 2)) [
    | inl february ↦ inr (inl (ground arith, inr (is_leap_year-IsLeap year (ground arith))))
    | inr other ↦ elim (Bool-cases (day == 31)) [
      | inl last ↦ inr (
          inr (
            inr (
              ground arith,
              long_lem month m1 m (ground arith) (ground arith) (ground arith) (ground arith)
                  (ground arith),
            )))
      | inr sooner ↦ elim (Bool-cases (day == 30)) [
        | inl thirty ↦ inr (inr (inl (ground arith, ground arith)))
        | inr earlier ↦ inr (inl (ground arith, inl (ground arith)))
      ]
    ]
  ]
]

days_conv : (year month day : ℕ) → IsDay year month day → leb day (days_in_month year month) ≡ true
unfolding days_in_month
days_conv year month day (inl low) = ground arith
days_conv year month day (inr (inl (e, inl n))) = ground arith
days_conv year month day (inr (inl (e, inr leap))) = ground (arith, IsLeap-is_leap_year year leap)
days_conv year month day (inr (inr (inl (e, n)))) = ground arith
days_conv year month day (inr (inr (inr (e, long)))) = ground arith

rendered :
    (year month day hour minute second : ℕ)
    → year < 10_000
    → 1 ≤ month
    → month ≤ 12
    → 1 ≤ day
    → day ≤ 31
    → hour ≤ 23
    → minute ≤ 59
    → second ≤ 59
    → is_valid_instant (render year month day hour minute second)
      ≡ leb day (days_in_month year month)
unfolding is_valid_instant char fraction zone
rendered year month day hour minute second y m1 m d1 d h mi s =
    rw
      (
        two_digits-render_two (year / 100) _ (omega arith),
        two_digits-render_two (year % 100) _ (omega arith),
        two_digits_in-render_two 1 12 month _ m1 m (omega arith),
        two_digits_in-render_two 1 31 day _ d1 d (omega arith),
        two_digits_in-render_two 0 23 hour _ (omega arith) h (omega arith),
        two_digits_in-render_two 0 59 minute _ (omega arith) mi (omega arith),
        two_digits_in-render_two 0 59 second _ (omega arith) s (omega arith),
      )
      (ground arith)

-- A moment with its fields in their ranges is a valid instant exactly when the day is one of the month:
-- the 29th of February only in a leap year, the 30th in every other month, the 31st in seven of them.
pub is_valid_instant-render :
    (year month day hour minute second : ℕ)
    → year < 10_000
    → 1 ≤ month
    → month ≤ 12
    → 1 ≤ day
    → day ≤ 31
    → hour ≤ 23
    → minute ≤ 59
    → second ≤ 59
    → (is_valid_instant (render year month day hour minute second) ≡ true) ↔ IsDay year month day
is_valid_instant-render year month day hour minute second y m1 m d1 d h mi s =
    let e = rendered year month day hour minute second y m1 m d1 d h mi s in
    (
      λ valid. days_lem year month day m1 m d (sym e ∙ valid),
      λ listed. e ∙ days_conv year month day listed,
    )

-- What `createInstant` returns is an instant.
pub create_instant-valid : (t u : Text) → create_instant t ≡ ok u → is_valid_instant u ≡ true
unfolding create_instant assert_non_empty
create_instant-valid t u h = ground arith
