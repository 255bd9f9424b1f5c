-- ===== src/Ids/Samples.antt =====
-- Instants at work.
use solutions_studio.Base.{◌≡◌, ◌↔◌, refl, true, false, arith}
use solutions_studio.Base.Text.{codes}
use solutions_studio.Base.Result.{ok}
use solutions_studio.Ids.{assert_non_empty}
use solutions_studio.Ids.Instant.{is_valid_instant, create_instant}
use solutions_studio.Ids.Instant.Laws.{IsDay, render, is_valid_instant-render}

leap_day_test : is_valid_instant (codes "2024-02-29T23:59:59.125+05:30") ≡ true
unfolding is_valid_instant
leap_day_test = refl

no_leap_day_test : is_valid_instant (codes "2100-02-29T00:00:00Z") ≡ false
unfolding is_valid_instant
no_leap_day_test = refl

no_zone_test : is_valid_instant (codes "2024-01-01T00:00:00") ≡ false
unfolding is_valid_instant
no_zone_test = refl

bare_point_test : is_valid_instant (codes "2024-01-01T00:00:00.Z") ≡ false
unfolding is_valid_instant
bare_point_test = refl

trimmed_test : create_instant (codes " 2024-01-01T00:00:00Z ") ≡ ok (codes "2024-01-01T00:00:00Z")
unfolding create_instant is_valid_instant assert_non_empty
trimmed_test = refl

is_valid_instant-render_example :
    (is_valid_instant (render 1900 2 29 12 0 0) ≡ true) ↔ IsDay 1900 2 29
is_valid_instant-render_example =
    is_valid_instant-render 1900 2 29 12 0 0 (omega arith) (omega arith) (omega arith) (omega arith)
      (omega arith) (omega arith) (omega arith) (omega arith)
