-- ===== src/Write/Payload.antt =====
-- backend/app/write/payload.py: the form payload, built over the scraped hidden inputs. A Python
-- dict is its list of entries in insertion order, with each key once.
pub mod Rows
use nsysu_crs.Common.{
  ℕ, zero, suc, ◌+◌, Text, text_eq, codes, Bool, true, false, Option, none, some, List, [], ◌∷◌,
  ◌++◌, ltb, length, if◌then◌else◌, Result, ok, raise, String,
}
use nsysu_crs.Common.Decimal.{decimal, pad_two, is_digits, digits_value}
use nsysu_crs.Write.Canonical.{padded, Action, add, drop, rest, CanonicalOp, action_text}

abbrev pub Dict : Type 0
Dict = List (Text × Text)

-- d.get(key)
unfoldable pub dict_get : Text → Dict → Option Text
dict_get key [] = none
dict_get key ((k, v) ∷ d) = if text_eq k key then some v else dict_get key d

-- d[key] = value: in place, or at the end.
unfoldable pub dict_set : Text → Text → Dict → Dict
dict_set key value [] = (key, value) ∷ []
dict_set key value ((k, v) ∷ d) =
    let later = (k, v) ∷ dict_set key value d in if text_eq k key then (k, value) ∷ d else later

-- d.get(key, default)
abbrev pub dict_get_or : Text → Text → Dict → Text
dict_get_or key default d = elim (dict_get key d) [ none ↦ default | some v ↦ v ]

-- d.setdefault(key, value)
unfoldable pub set_default : Text → Text → Dict → Dict
set_default key value d = elim (dict_get key d) [ none ↦ dict_set key value d | some v ↦ d ]

-- SSPRS_ROWS, STAGE5_ROWS, SEND_NAME, SEND_DEFAULT
abbrev pub ssprs_rows : ℕ
ssprs_rows = 15

abbrev pub stage5_rows : ℕ
stage5_rows = 10

abbrev pub send_name : Text
send_name = codes "send"

abbrev pub send_default : Text
send_default = codes "提交"

-- ValueError: more operations than rows.
pub data PayloadError : Type 0 where
  too_many_ops : PayloadError

unfoldable pub rows_total : Dict → ℕ → ℕ
rows_total hidden default_rows = elim (dict_get (codes "MAX_ADD") hidden) [
  | none ↦ default_rows
  | some raw ↦ if is_digits raw then digits_value raw else default_rows
]

-- The key of a row's slot: a letter and the row's number.
unfoldable pub slot_key : ℕ → ℕ → Text
slot_key letter row = letter ∷ decimal row

abbrev pub priority_slot : CanonicalOp → Text
priority_slot op = elim op.priority [ some p ↦ padded p | none ↦ [] ]

-- The three slots of a row: of the operation in it, or of a rest row.
abbrev pub row_slots : Option CanonicalOp → Text × Text × Text
row_slots none = (codes "N", [], [])
row_slots (some op) = (action_text op.action, op.code, priority_slot op)

unfoldable pub write_row : ℕ → Option CanonicalOp → Dict → Dict
write_row row op payload =
    let (d, c, t) = row_slots op in
    dict_set (slot_key b'T' row) t
      (dict_set (slot_key b'C' row) c (dict_set (slot_key b'D' row) d payload))

abbrev pub head_op : List CanonicalOp → Option CanonicalOp
head_op [] = none
head_op (op ∷ ops) = some op

abbrev pub tail_ops : List CanonicalOp → List CanonicalOp
tail_ops [] = []
tail_ops (op ∷ ops) = ops

-- `for row in range(1, rows + 1)`: `left` rounds from `row` on, with the operations not placed yet.
unfoldable pub write_rows : ℕ → ℕ → List CanonicalOp → Dict → Dict
write_rows zero row ops payload = payload
write_rows (suc left) row ops payload =
    write_rows left (suc row) (tail_ops ops) (write_row row (head_op ops) payload)

unfoldable pub build : List CanonicalOp → Dict → ℕ → Result PayloadError Dict
build ops hidden default_rows =
    let rows = rows_total hidden default_rows in
    if ltb rows (length ops)
    then raise too_many_ops
    else ok (
        dict_set send_name (dict_get_or send_name send_default hidden)
          (write_rows rows 1 ops hidden))

unfoldable pub build_payload_ssprs : List CanonicalOp → Dict → Result PayloadError Dict
build_payload_ssprs ops hidden = build ops hidden ssprs_rows

unfoldable pub build_payload_stage5 : List CanonicalOp → Dict → Result PayloadError Dict
build_payload_stage5 ops hidden = build ops hidden stage5_rows
