-- ===== src/Write/Payload/Rows.antt =====
-- What stands in a built payload: the operations in their rows, and the scraped form elsewhere.
use nsysu_crs.Common.{
  ℕ, zero, suc, ◌+◌, ◌≤◌, ◌<◌, Text, text_eq, text_eq_refl, text_eq_iff, ◌≡◌, ◌≢◌, refl, sym, ap,
  ◌∙◌, Option, some, List, [], ◌∷◌, get_elem?, length, ltb, arith, inl, inr, Bool-cases,
  if◌then◌else◌, Result, ok, raise, ok_injective,
}
use nsysu_crs.Common.Decimal.{decimal_injective}
use nsysu_crs.Write.Canonical.{CanonicalOp}
use nsysu_crs.Write.Payload.{
  Dict, dict_get, dict_set, dict_get_or, send_name, send_default, PayloadError, too_many_ops,
  rows_total, slot_key, row_slots, write_row, head_op, tail_ops, write_rows, build,
}

-- The three slots of a row.
pub data Slot : Type 0 where
  action_slot code_slot priority_slot : Slot

abbrev pub letter : Slot → ℕ
letter action_slot = b'D'
letter code_slot = b'C'
letter priority_slot = b'T'

abbrev pub slot_of : Slot → Option CanonicalOp → Text
slot_of action_slot op = (row_slots op).0
slot_of code_slot op = (row_slots op).1
slot_of priority_slot op = (row_slots op).2

pub get-set :
    (k j v : Text) (d : Dict)
    → dict_get k (dict_set j v d) ≡ (if text_eq j k then some v else dict_get k d)
unfolding dict_get dict_set
get-set k j v [] = refl
get-set k j v ((i, w) ∷ d) =
    ground (arith, get-set k j v d, text_eq_iff i j, text_eq_iff i k, text_eq_iff j k)

get-set_self : (k v : Text) (d : Dict) → dict_get k (dict_set k v d) ≡ some v
get-set_self k v d = get-set k k v d ∙ rw text_eq_refl

get-set_ne : (k j v : Text) (d : Dict) → j ≢ k → dict_get k (dict_set j v d) ≡ dict_get k d
get-set_ne k j v d h = elim (Bool-cases (text_eq j k)) [
  | inl e ↦ absurd (h ((text_eq_iff j k).0 e))
  | inr e ↦ get-set k j v d ∙ rw e
]

slot_key_row : (s t : Slot) (m n : ℕ) → slot_key (letter s) m ≡ slot_key (letter t) n → m ≡ n
unfolding slot_key
slot_key_row s t m n h = decimal_injective m n (cc h)

slot_key-letter :
    (s t : Slot) (m n : ℕ) → slot_key (letter s) m ≡ slot_key (letter t) n → letter s ≡ letter t
unfolding slot_key
slot_key-letter s t m n h = cc h

-- A key that is no slot of the row.
abbrev OutOfRow : Text → ℕ → Type 0
OutOfRow k row = (s : Slot) → slot_key (letter s) row ≢ k

write_row_other :
    (k : Text) (row : ℕ) (op : Option CanonicalOp) (d : Dict)
    → OutOfRow k row
    → dict_get k (write_row row op d) ≡ dict_get k d
unfolding write_row
write_row_other k row op d h =
    get-set_ne k (slot_key b'T' row) _ _ (h priority_slot)
    ∙ get-set_ne k (slot_key b'C' row) _ _ (h code_slot)
    ∙ get-set_ne k (slot_key b'D' row) _ _ (h action_slot)

write_row_slot :
    (s : Slot) (row : ℕ) (op : Option CanonicalOp) (d : Dict)
    → dict_get (slot_key (letter s) row) (write_row row op d) ≡ some (slot_of s op)
unfolding write_row
write_row_slot priority_slot row op d = get-set_self _ _ _
write_row_slot code_slot row op d =
    get-set_ne (slot_key b'C' row) (slot_key b'T' row) _ _
      (λ e. absurd (omega (arith, slot_key-letter priority_slot code_slot row row e)))
    ∙ get-set_self _ _ _
write_row_slot action_slot row op d =
    get-set_ne (slot_key b'D' row) (slot_key b'T' row) _ _
      (λ e. absurd (omega (arith, slot_key-letter priority_slot action_slot row row e)))
    ∙ get-set_ne (slot_key b'D' row) (slot_key b'C' row) _ _
        (λ e. absurd (omega (arith, slot_key-letter code_slot action_slot row row e)))
    ∙ get-set_self _ _ _

rows_other :
    (k : Text) (left row : ℕ) (ops : List CanonicalOp) (d : Dict)
    → ((r : ℕ) → row ≤ r → r < row + left → OutOfRow k r)
    → dict_get k (write_rows left row ops d) ≡ dict_get k d
unfolding write_rows
rows_other k zero row ops d h = refl
rows_other k (suc left) row ops d h =
    rows_other k left (suc row) (tail_ops ops) (write_row row (head_op ops) d)
      (λ r lo hi. h r (omega arith) (omega arith))
    ∙ write_row_other k row (head_op ops) d (h row (omega arith) (omega arith))

head-get : (ops : List CanonicalOp) → head_op ops ≡ get_elem? ops 0
head-get [] = refl
head-get (op ∷ ops) = refl

tail-get : (ops : List CanonicalOp) (i : ℕ) → get_elem? (tail_ops ops) i ≡ get_elem? ops (suc i)
tail-get [] i = refl
tail-get (op ∷ ops) i = refl

rows_slot :
    (s : Slot) (left row i : ℕ) (ops : List CanonicalOp) (d : Dict)
    → i < left
    → dict_get (slot_key (letter s) (row + i)) (write_rows left row ops d)
      ≡ some (slot_of s (get_elem? ops i))
unfolding write_rows
rows_slot s zero row i ops d h = elim h [ ]
rows_slot s (suc left) row zero ops d h =
    let e : row + 0 ≡ row = omega arith in
    rw e (
      rows_other (slot_key (letter s) row) left (suc row) (tail_ops ops)
        (write_row row (head_op ops) d)
        (λ r lo hi t p. absurd (omega (arith, slot_key_row t s r row p)))
      ∙ write_row_slot s row (head_op ops) d
      ∙ ap (λ o. some (slot_of s o)) (head-get ops))
rows_slot s (suc left) row (suc i) ops d h =
    let e : row + suc i ≡ suc row + i = omega arith in
    rw e (
      rows_slot s left (suc row) i (tail_ops ops) (write_row row (head_op ops) d) (omega arith)
      ∙ ap (λ o. some (slot_of s o)) (tail-get ops i))

-- A batch that fits into the form's rows is built, and a longer one is refused.
pub build_fits :
    (ops : List CanonicalOp) (hidden : Dict) (default_rows : ℕ)
    → (length ops ≤ rows_total hidden default_rows
        → (payload : Dict) × (build ops hidden default_rows ≡ ok payload))
      × (rows_total hidden default_rows < length ops
          → build ops hidden default_rows ≡ raise too_many_ops)
unfolding build
build_fits ops hidden default_rows = (λ h. (_, fits h), λ h. ground arith)
  where
    fits :
        length ops ≤ rows_total hidden default_rows
        → build ops hidden default_rows
          ≡ ok (
              dict_set send_name
                (dict_get_or send_name send_default hidden)
                (write_rows (rows_total hidden default_rows) 1 ops hidden))
    fits h = ground arith

head_code : Text → ℕ
head_code [] = 0
head_code (c ∷ t) = c

send_not_slot : (s : Slot) (r : ℕ) → slot_key (letter s) r ≢ send_name
unfolding slot_key head_code
send_not_slot action_slot r e = absurd (omega (arith, ap head_code e))
send_not_slot code_slot r e = absurd (omega (arith, ap head_code e))
send_not_slot priority_slot r e = absurd (omega (arith, ap head_code e))

built :
    (ops : List CanonicalOp) (hidden : Dict) (default_rows : ℕ) (payload : Dict)
    → build ops hidden default_rows ≡ ok payload
    → payload
      ≡ dict_set send_name
          (dict_get_or send_name send_default hidden)
          (write_rows (rows_total hidden default_rows) 1 ops hidden)
unfolding build
built ops hidden default_rows payload h =
    elim (Bool-cases (ltb (rows_total hidden default_rows) (length ops))) [
      | inl e ↦ absurd (refused (rw e at h))
      | inr e ↦ sym (ok_injective (rw e at h))
    ]
  where
    refused : ◌≡◌ {A = Result PayloadError Dict} (raise too_many_ops) (ok payload) → ⊥
    refused e = cc

module _ (ops : List CanonicalOp) (hidden payload : Dict) (default_rows : ℕ)
    (done : build ops hidden default_rows ≡ ok payload) where
  -- Each row of a built payload has, in its three slots, the action, code and priority text of the
  -- operation in that place of the batch, or those of a rest row behind the batch's end.
  pub build_slots :
      (s : Slot) (i : ℕ)
      → i < rows_total hidden default_rows
      → dict_get (slot_key (letter s) (1 + i)) payload ≡ some (slot_of s (get_elem? ops i))
  build_slots s i h = rw (built ops hidden default_rows payload done) (
      get-set_ne (slot_key (letter s) (1 + i)) send_name _ _ (λ e. send_not_slot s (1 + i) (sym e))
      ∙ rows_slot s (rows_total hidden default_rows) 1 i ops hidden h)

  -- Each field that is no slot of the form's rows, and not the submit button, has the value of the
  -- scraped form, or is missing as it is there.
  pub build_replays :
      (k : Text)
      → k ≢ send_name
      → ((s : Slot) (r : ℕ)
          → 1 ≤ r
          → r < 1 + rows_total hidden default_rows
          → slot_key (letter s) r ≢ k)
      → dict_get k payload ≡ dict_get k hidden
  build_replays k h slots = rw (built ops hidden default_rows payload done) (
      get-set_ne k send_name _ _ (λ e. h (sym e))
      ∙ rows_other k (rows_total hidden default_rows) 1 ops hidden (λ r lo hi s. slots s r lo hi))
