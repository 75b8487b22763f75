-- ===== src/Examples/Batches.antt =====
-- Batches of operations: their canonical form, their preview, and their payload.
use nsysu_crs.Common.{
  ℤ, pos, negsuc, ap, ℕ, zero, suc, ◌+◌, ◌<◌, Text, codes, text_eq, contains, ◌≡◌, ◌≢◌, ◌↔◌, refl,
  ap, Bool, true, none, some, List, [], ◌∷◌, All, get_elem?, arith, ok, pos,
}
use mathlib.Core.Option
use nsysu_crs.Common.Decimal.{is_digits, digits_value}
use nsysu_crs.Common.Sorting.{IsIncreasing}
use nsysu_crs.Write.Canonical.{
  Action, add, drop, CanonicalOp, op_key, canonical_ops, canonical_segments,
  parse_canonical_segments, payload_hash,
}
use nsysu_crs.Write.Canonical.Order.{
  first_with, add_op, canonical_ops-eq_iff, first-canonical_ops, canonical_ops-IsIncreasing,
  canonical_ops_order_matters,
}
use nsysu_crs.Write.Canonical.RoundTrip.{IsWritable, parse-canonical_segments, payload_hash-parse}
use nsysu_crs.Write.Timetable.{slot, is_conflict_days, days_from_fused}
use nsysu_crs.Write.Timetable.Clash.{IsReadable, IsReadableWeek, Meets, conflict_iff}
use nsysu_crs.Write.Timetable.Fused.{late_period_unread}
use nsysu_crs.Write.Preview.{
  CourseInfo, ResolvedOp, ClashTarget, OpVerdict, Selections, evaluate_ops,
}
use nsysu_crs.Write.Preview.Safe.{IsSound, PairsClear, evaluate_ops_safe}
use nsysu_crs.Write.Preview.Total.{evaluate_ops_returns}
use nsysu_crs.Write.Preview.Verdicts.{AreAbout, evaluate_ops_about}
use nsysu_crs.Write.Payload.{Dict, dict_get, rows_total, slot_key, send_name, build, ssprs_rows}
use nsysu_crs.Write.Payload.Rows.{
  Slot, action_slot, code_slot, priority_slot, letter, slot_of, build_fits, build_slots,
  build_replays,
}

abbrev drop_op : Text → CanonicalOp
drop_op code = record { action = drop; code = code; priority = none }

abbrev batch : List CanonicalOp
batch = add_op (codes "GEAE2331") (pos 3) ∷ drop_op (codes "CSE10001") ∷ []

abbrev turned : List CanonicalOp
turned = drop_op (codes "CSE10001") ∷ add_op (codes "GEAE2331") (pos 3) ∷ []

abbrev same : Text → Text
same t = t

batch-IsWritable : All IsWritable batch
unfolding contains
batch-IsWritable = (
  record { fits = refl; natural = refl; named = refl; no_colon = refl; no_bar = refl },
  (record { fits = refl; natural = refl; named = refl; no_colon = refl; no_bar = refl }, tt),
)

batch_filled : batch ≢ []
batch_filled h = cc

payload_hash-parse_example :
    Option.map
      (payload_hash same (codes "M123040001"))
      (parse_canonical_segments (canonical_segments (canonical_ops batch)))
    ≡ some (payload_hash same (codes "M123040001") batch)
payload_hash-parse_example =
    payload_hash-parse same (codes "M123040001") batch batch_filled batch-IsWritable

parse-canonical_segments_example : parse_canonical_segments (canonical_segments batch) ≡ some batch
parse-canonical_segments_example = parse-canonical_segments batch batch_filled batch-IsWritable

canonical_ops-eq_iff_example :
    (canonical_ops batch ≡ canonical_ops turned)
    ↔ ((k : Text) → first_with k batch ≡ first_with k turned)
canonical_ops-eq_iff_example = canonical_ops-eq_iff batch turned

first-canonical_ops_example :
    first_with (op_key (drop_op (codes "CSE10001"))) (canonical_ops batch)
    ≡ first_with (op_key (drop_op (codes "CSE10001"))) batch
first-canonical_ops_example = first-canonical_ops (op_key (drop_op (codes "CSE10001"))) batch

canonical_ops-IsIncreasing_example : IsIncreasing op_key (canonical_ops batch)
canonical_ops-IsIncreasing_example = canonical_ops-IsIncreasing batch

abbrev size : ℤ → ℕ
size (pos n) = n
size (negsuc n) = n

one_not_two : pos 1 ≢ pos 2
one_not_two h = absurd (omega (arith, ap size h))

canonical_ops_order_matters_example :
    canonical_ops (add_op (codes "GEAE2331") (pos 1) ∷ add_op (codes "GEAE2331") (pos 2) ∷ [])
    ≢ canonical_ops (add_op (codes "GEAE2331") (pos 2) ∷ add_op (codes "GEAE2331") (pos 1) ∷ [])
canonical_ops_order_matters_example =
    canonical_ops_order_matters (codes "GEAE2331") (pos 1) (pos 2) one_not_two

-- Timetables of one weekday.
abbrev mondays : Text → List Text
mondays periods = periods ∷ []

mondays-IsReadable : (periods : Text) → IsReadable periods → IsReadableWeek (mondays periods)
unfolding slot
mondays-IsReadable periods h zero k = h
mondays-IsReadable periods h (suc day) k = refl

early-IsReadable : IsReadableWeek (mondays (codes "34"))
unfolding contains
early-IsReadable = mondays-IsReadable (codes "34") refl

late-IsReadable : IsReadableWeek (mondays (codes "4B"))
unfolding contains
late-IsReadable = mondays-IsReadable (codes "4B") refl

conflict_iff_example :
    (r : Bool) × (is_conflict_days (mondays (codes "34")) (mondays (codes "4B")) ≡ ok r)
    × ((r ≡ true) ↔ (
        (d : ℕ) × (d < 7)
        × (c : ℕ) × Meets (mondays (codes "34")) d c
        × Meets (mondays (codes "4B")) d c))
conflict_iff_example =
    conflict_iff (mondays (codes "34")) (mondays (codes "4B")) early-IsReadable late-IsReadable

late_period_unread_example : days_from_fused (some (codes "三9F")) ≡ ok none
unfolding contains
late_period_unread_example = late_period_unread (codes "三9F") refl

-- Two adds that clash with each other, and a drop of a selected course.
abbrev course : Text → Text → CourseInfo
course code periods = record {
  course_id = none;
  code = some code;
  class_time = mondays periods;
  restrict = some (pos 60);
  select_n = some (pos 10);
  selected_n = some (pos 60);
  remaining = some (pos 0);
  ingested_at = none;
}

abbrev op_on : ℕ → Action → Text → Text → ResolvedOp
op_on index action code periods = record {
  index = index;
  action = action;
  ident = code;
  priority = none;
  course = course code periods;
}

abbrev ops : List ResolvedOp
ops =
    op_on 0 add (codes "GEAE2331") (codes "34")
    ∷ op_on 1 add (codes "GEAE2332") (codes "4B")
    ∷ op_on 2 drop (codes "CSE10001") (codes "12")
    ∷ []

abbrev selections : Selections
selections = record {
  selected_codes = codes "CSE10001" ∷ [];
  targets = record { label = codes "CSE10001"; days = mondays (codes "12") } ∷ [];
}

first-IsReadable : IsReadableWeek (mondays (codes "12"))
unfolding contains
first-IsReadable = mondays-IsReadable (codes "12") refl

targets-IsReadable : All (λ (t : ClashTarget). IsReadableWeek t.days) selections.targets
targets-IsReadable = (first-IsReadable, tt)

ops-IsReadable : All (λ (op : ResolvedOp). IsReadableWeek op.course.class_time) ops
ops-IsReadable = (early-IsReadable, (late-IsReadable, (first-IsReadable, tt)))

evaluate_ops_returns_example : (vs : List OpVerdict) × (evaluate_ops selections ops ≡ ok vs)
evaluate_ops_returns_example = evaluate_ops_returns selections targets-IsReadable ops ops-IsReadable

abbrev verdicts : List OpVerdict
verdicts = (evaluate_ops_returns selections targets-IsReadable ops ops-IsReadable).0

verdicts_ok : evaluate_ops selections ops ≡ ok verdicts
verdicts_ok = (evaluate_ops_returns selections targets-IsReadable ops ops-IsReadable).1

evaluate_ops_safe_example : All (IsSound selections ops) verdicts × PairsClear verdicts
evaluate_ops_safe_example = evaluate_ops_safe selections ops verdicts verdicts_ok

evaluate_ops_about_example : AreAbout ops verdicts
evaluate_ops_about_example = evaluate_ops_about selections ops verdicts verdicts_ok

-- The form of three rows.
abbrev hidden : Dict
hidden = (codes "MAX_ADD", codes "3") ∷ (codes "SCH_COD", codes "N") ∷ []

three_rows : rows_total hidden ssprs_rows ≡ 3
unfolding rows_total dict_get text_eq is_digits digits_value
three_rows = refl

abbrev payload : Dict
payload = ((build_fits batch hidden ssprs_rows).0 (rw three_rows (omega arith))).0

payload_built : build batch hidden ssprs_rows ≡ ok payload
payload_built = ((build_fits batch hidden ssprs_rows).0 (rw three_rows (omega arith))).1

build_slots_example :
    dict_get (slot_key (letter code_slot) (1 + 1)) payload
    ≡ some (slot_of code_slot (get_elem? batch 1))
build_slots_example =
    build_slots batch hidden payload ssprs_rows payload_built code_slot 1
      (rw three_rows (omega arith))

abbrev head_of : Text → ℕ
head_of [] = 0
head_of (c ∷ t) = c

not_send : codes "SCH_COD" ≢ send_name
not_send h = cc

not_slot :
    (s : Slot) (r : ℕ)
    → r < 1 + rows_total hidden ssprs_rows
    → slot_key (letter s) r ≢ codes "SCH_COD"
unfolding slot_key
not_slot action_slot r h e = absurd (omega (arith, ap head_of e))
not_slot code_slot r h e = absurd (omega (arith, ap head_of e))
not_slot priority_slot r h e = absurd (omega (arith, ap head_of e))

build_replays_example : dict_get (codes "SCH_COD") payload ≡ dict_get (codes "SCH_COD") hidden
build_replays_example =
    build_replays batch hidden payload ssprs_rows payload_built (codes "SCH_COD") not_send
      (λ s r lo hi. not_slot s r hi)
