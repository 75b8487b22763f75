-- ===== src/Write/Timetable.antt =====
-- backend/app/write/timetable.py: the clash test of two weekly timetables, and the timetable that
-- a fused time text of the school stands for.
pub mod Clash
pub mod Fused
use nsysu_crs.Common.{
  ℕ, zero, suc, ◌+◌, ◌-◌, Text, codes, contains, Bool, true, false, not, ◌&&◌, ◌||◌, Option, none,
  some, List, [], ◌∷◌, any, all, keep, leb, ◌==◌, if◌then◌else◌, Result, ok, raise, ◌>>=◌,
}
use nsysu_crs.Common.Sorting.{sort_by}

-- PERIOD_CODES
abbrev pub period_codes : Text
period_codes = codes "A1234B56789CDEF"

-- `ch.upper()` of one character. No letter beyond ASCII has a period code for its upper case, so
-- that the others may stay as they are.
abbrev pub to_upper : ℕ → ℕ
to_upper c = if leb b'a' c && leb c b'z' then c - 32 else c

-- UnknownPeriodCodeError
pub data UnknownPeriodCode : Type 0 where
  unknown_period_code : ℕ → UnknownPeriodCode

abbrev pub is_period : ℕ → Bool
is_period ch = contains (to_upper ch) period_codes

-- `codes.add(c)` of a set, which is a list with no element twice.
abbrev pub set_add : ℕ → Text → Text
set_add c s = if contains c s then s else c ∷ s

parse_day_loop : Text → Text → Result UnknownPeriodCode Text
parse_day_loop acc [] = ok acc
parse_day_loop acc (ch ∷ raw) =
    let next = parse_day_loop (set_add (to_upper ch) acc) raw in
    if is_period ch then next else raise (unknown_period_code ch)

unfoldable pub parse_day_string : Text → Result UnknownPeriodCode Text
unfolding parse_day_loop
parse_day_string raw = parse_day_loop [] raw

-- A slot behind the end reads as the empty text.
unfoldable pub slot : List Text → ℕ → Text
slot [] day = []
slot (t ∷ ts) zero = t
slot (t ∷ ts) (suc day) = slot ts day

abbrev pub shares : Text → Text → Bool
shares s t = any (λ c. contains c t) s

-- The body of the loop over the days: `later` is what the later days give.
conflict_day : Text → Text → Result UnknownPeriodCode Bool → Result UnknownPeriodCode Bool
conflict_day raw_a raw_b later = do
  codes_a ← parse_day_string raw_a
  elim codes_a [
    | [] ↦ later
    | c ∷ cs ↦ do
      codes_b ← parse_day_string raw_b
      if shares (c ∷ cs) codes_b then ok true else later
  ]

conflict_loop : ℕ → ℕ → List Text → List Text → Result UnknownPeriodCode Bool
unfolding conflict_day
conflict_loop zero day a b = ok false
conflict_loop (suc n) day a b =
    let later = conflict_loop n (suc day) a b in conflict_day (slot a day) (slot b day) later

unfoldable pub is_conflict_days : List Text → List Text → Result UnknownPeriodCode Bool
unfolding conflict_loop
is_conflict_days a b = conflict_loop 7 0 a b

-- `str.isspace` of one character.
abbrev pub is_space : ℕ → Bool
is_space c =
    (leb 9 c && leb c 13)
    || (leb 28 c && leb c 32)
    || c == 0x85
    || c == 0xa0
    || c == 0x1680
    || (leb 0x2000 c && leb c 0x200a)
    || c == 0x2028
    || c == 0x2029
    || c == 0x202f
    || c == 0x205f
    || c == 0x3000

unfoldable pub strip_left : Text → Text
strip_left [] = []
strip_left (c ∷ t) = let rest = strip_left t in if is_space c then rest else c ∷ t

-- A character in front of what is left behind it.
abbrev pub strip_end : ℕ → Text → Text
strip_end c [] = if is_space c then [] else c ∷ []
strip_end c (d ∷ r) = c ∷ d ∷ r

unfoldable pub strip_right : Text → Text
strip_right [] = []
strip_right (c ∷ t) = strip_end c (strip_right t)

-- `text.strip()`
abbrev pub strip : Text → Text
strip t = strip_right (strip_left t)

-- _DAY_TO_INDEX
abbrev pub day_index : ℕ → Option ℕ
day_index c =
    if c == 0x4e00
    then some 0
    else if c == 0x4e8c
    then some 1
    else if c == 0x4e09
    then some 2
    else if c == 0x56db
    then some 3
    else if c == 0x4e94
    then some 4
    else if c == 0x516d
    then some 5
    else if c == 0x65e5
    then some 6
    else none

abbrev pub is_comma : ℕ → Bool
is_comma c = c == b',' || c == 0xff0c

-- The class `[0-9A-Ea-e,，]` of _FUSED_TIME.
abbrev pub in_fused_run : ℕ → Bool
in_fused_run c =
    (leb b'0' c && leb c b'9')
    || (leb b'A' c && leb c b'E')
    || (leb b'a' c && leb c b'e')
    || is_comma c

abbrev pub match_day : Option ℕ → Text → Option (ℕ × Text)
match_day none run = none
match_day (some day) run = if all in_fused_run run then some (day, run) else none

-- The match of _FUSED_TIME: a weekday and a run that is not empty.
unfoldable pub match_fused : Text → Option (ℕ × Text)
match_fused [] = none
match_fused (d ∷ []) = none
match_fused (d ∷ c ∷ run) = match_day (day_index d) (c ∷ run)

-- `[""] * 7` with one slot written.
abbrev pub week_with : ℕ → Text → List Text
week_with zero t = t ∷ [] ∷ [] ∷ [] ∷ [] ∷ [] ∷ [] ∷ []
week_with (suc zero) t = [] ∷ t ∷ [] ∷ [] ∷ [] ∷ [] ∷ [] ∷ []
week_with (suc (suc zero)) t = [] ∷ [] ∷ t ∷ [] ∷ [] ∷ [] ∷ [] ∷ []
week_with (suc (suc (suc zero))) t = [] ∷ [] ∷ [] ∷ t ∷ [] ∷ [] ∷ [] ∷ []
week_with (suc (suc (suc (suc zero)))) t = [] ∷ [] ∷ [] ∷ [] ∷ t ∷ [] ∷ [] ∷ []
week_with (suc (suc (suc (suc (suc zero))))) t = [] ∷ [] ∷ [] ∷ [] ∷ [] ∷ t ∷ [] ∷ []
week_with _ t = [] ∷ [] ∷ [] ∷ [] ∷ [] ∷ [] ∷ t ∷ []

fused_days : Option (ℕ × Text) → Result UnknownPeriodCode (Option (List Text))
fused_days none = ok none
fused_days (some (day, run)) = do
  periods ← parse_day_string (keep (λ c. not (is_comma c)) run)
  ok (some (week_with day (sort_by (λ c. c ∷ []) periods)))

-- `None` and the empty text are both "not times".
unfoldable pub days_from_fused : Option Text → Result UnknownPeriodCode (Option (List Text))
unfolding fused_days
days_from_fused none = ok none
days_from_fused (some []) = ok none
days_from_fused (some (c ∷ times)) = fused_days (match_fused (strip (c ∷ times)))
