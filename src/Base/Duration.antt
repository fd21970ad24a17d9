-- ===== src/Base/Duration.antt =====
-- Go's `time.Duration` in nanoseconds, and `time.ParseDuration` on durations that are not negative;
-- a negative one is read as an error. Fractions are exact, rounded down.
use Prim.Native.Nat.{ℕ, ◌+◌, ◌-◌, ◌*◌, ◌/◌}
use Prim.Native.Char.{code}
use Prim.Native.String.{String, ◌++◌}
use mathlib.Core.Bool.{Bool, true, false, ◌&&◌, ◌||◌}
use mathlib.Core.Option.{Option, none, some}
use mathlib.Core.Path.{◌≡◌, refl}
use text.Mathlib.Text.{◌==◌}
use agent_comms.Base.Tests.{leb, if◌then◌else◌}

abbrev pub second : ℕ
second = 1_000_000_000

abbrev pub minute : ℕ
minute = 60 * second

abbrev pub hour : ℕ
hour = 60 * minute

-- The unit of a term of the duration.
unit_of : String → Option ℕ
unit_of u =
    if u == "ns"
    then some 1
    else if u == "us" || u == "µs" || u == "μs"
    then some 1_000
    else if u == "ms"
    then some 1_000_000
    else if u == "s"
    then some second
    else if u == "m"
    then some minute
    else if u == "h"
    then some hour
    else none

pub data Mode : Type 0 where
  whole fraction unit failed : Mode

-- The term being read: its digits, the scale of the fraction, whether a digit was seen, its unit.
pub record Reader : Type 0 where
  pub total : ℕ
  pub value : ℕ
  pub part : ℕ
  pub scale : ℕ
  pub digits : Bool
  pub unit_name : String
  pub mode : Mode

start : Reader
start = record {
  total = 0;
  value = 0;
  part = 0;
  scale = 1;
  digits = false;
  unit_name = "";
  mode = whole;
}

add_term : Reader → Option ℕ → Reader
add_term r none = record r { mode = failed }
add_term r (some u) = record r {
  total = r.total + r.value * u + r.part * u / r.scale;
  value = 0;
  part = 0;
  scale = 1;
  digits = false;
  unit_name = "";
  mode = whole;
}

-- The unit ends: its term is added.
end_unit : Reader → Reader
unfolding unit_of add_term
end_unit r = add_term r (unit_of r.unit_name)

is_digit : ℕ → Bool
is_digit n = leb b'0' n && leb n b'9'

is_dot : ℕ → Bool
is_dot n = leb n b'.' && leb b'.' n

-- A digit or a dot starts a term, or goes on with it.
number : ℕ → Reader → Reader
unfolding is_digit is_dot
number n r = elim r.mode [
  | whole ↦
      if is_digit n
      then record r { value = r.value * 10 + (n - b'0'); digits = true }
      else record r { mode = fraction }
  | fraction ↦
      if is_dot n
      then record r { mode = failed }
      else record r { part = r.part * 10 + (n - b'0'); scale = r.scale * 10; digits = true }
  | unit ↦ r
  | failed ↦ r
]

-- A letter of a unit, which wants a digit before it.
letter : String → Reader → Reader
letter c r = elim r.mode [
  | unit ↦ record r { unit_name = r.unit_name ++ c }
  | failed ↦ r
  | _ ↦ if r.digits then record r { unit_name = c; mode = unit } else record r { mode = failed }
]

in_unit : Mode → Bool
in_unit unit = true
in_unit _ = false

step : ℕ → String → Reader → Reader
unfolding number letter in_unit end_unit is_digit is_dot
step n c r =
    if is_digit n || is_dot n
    then number n (if in_unit r.mode then end_unit r else r)
    else letter c r

read : String → Reader → Reader
unfolding step
read String.[] r = r
read (String.◌∷◌ c s) r = read s (step (code c) (String.◌∷◌ c String.[]) r)

close : Reader → Reader
unfolding in_unit end_unit
close r = if in_unit r.mode then end_unit r else record r { mode = failed }

-- A leading plus sign is dropped.
unsigned : String → String
unsigned String.[] = String.[]
unsigned (String.◌∷◌ c s) = if leb (code c) b'+' && leb b'+' (code c) then s else String.◌∷◌ c s

done : Reader → Option ℕ
done r = elim r.mode [
  | whole ↦ if leb r.total 9_223_372_036_854_775_807 then some r.total else none
  | _ ↦ none
]

unfoldable pub parse_duration : String → Option ℕ
unfolding read start unsigned close done
parse_duration s = let t = unsigned s in if t == "0" then some 0 else done (close (read t start))

-- `d, _ := time.ParseDuration(s)`
abbrev pub or_zero : Option ℕ → ℕ
or_zero none = 0
or_zero (some n) = n

default_lease_test : parse_duration "4h" ≡ some (4 * hour)
unfolding parse_duration
default_lease_test = refl

mixed_test : parse_duration "1h15m30.5s" ≡ some (hour + 15 * minute + 30 * second + 500_000_000)
unfolding parse_duration
mixed_test = refl

bad_test : parse_duration "-4h" ≡ none
unfolding parse_duration
bad_test = refl

bare_test : parse_duration "4" ≡ none
unfolding parse_duration
bare_test = refl
