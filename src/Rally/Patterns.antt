-- ===== src/Rally/Patterns.antt =====
-- ParsePattern of pkg/contract/rally.go on tagged tasks.
use rallish.Prelude.{◌≡◌, ◌≢◌, refl, ◌++◌, Text, codes}
use rallish.Rally.Types.{
  ok, Pattern, unknown, freeform, cycle, discuss, help, pattern_name, pattern_tag, parse_pattern,
  trim_left_spaces,
}

-- A task that starts with no space, after the tag of a known pattern, is parsed to that pattern and that
-- task.
pub parse_pattern-pattern_name :
    (p : Pattern) (task : Text)
    → p ≢ unknown
    → trim_left_spaces task ≡ task
    → parse_pattern (pattern_tag ++ (pattern_name p ++ (codes "] " ++ task))) ≡ ok (p, task)
unfolding parse_pattern
parse_pattern-pattern_name unknown task known e = absurd (known refl)
parse_pattern-pattern_name freeform task known e = rw e
parse_pattern-pattern_name cycle task known e = rw e
parse_pattern-pattern_name discuss task known e = rw e
parse_pattern-pattern_name help task known e = rw e
