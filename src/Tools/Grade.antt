-- ===== src/Tools/Grade.antt =====
-- letterGrade and letterGradeFromPercent of internal/service/header_grader.go.
use target_service.Prelude.{ℕ, ◌*◌, ◌/◌, leb, ◌==◌, if◌then◌else◌}

pub data Grade : Type 0 where
  grade_a grade_b grade_c grade_d grade_f : Grade

unfoldable pub letter_grade_from_percent : ℕ → Grade
letter_grade_from_percent pct =
    if leb 90 pct
    then grade_a
    else if leb 80 pct
    then grade_b
    else if leb 70 pct
    then grade_c
    else if leb 60 pct
    then grade_d
    else grade_f

-- The maximum is no negative number: `max <= 0` is zero.
unfoldable pub letter_grade : ℕ → ℕ → Grade
unfolding letter_grade_from_percent
letter_grade score max = if max == 0 then grade_f else letter_grade_from_percent (score * 100 / max)
