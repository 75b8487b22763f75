-- ===== src/Write/Canonical.antt =====
-- backend/app/write/canonical.py: the canonical form of a batch of operations, its text, the parse
-- of that text, and the hash and the token that are taken of it.
pub mod Order
pub mod RoundTrip
use nsysu_crs.Common.{
  ℤ, pos, negsuc, ◌+◌, ℕ, Text, codes, text_eq, ◌≡◌, ◌≢◌, Bool, true, false, not, ◌&&◌, Option,
  none, some, List, [], ◌∷◌, ◌++◌, map, ◌==◌, if◌then◌else◌, String,
}
use nsysu_crs.Common.Decimal.{decimal, pad_two, is_digits, digits_value}
use nsysu_crs.Common.Sorting.{sort_by, collapse_after}
use nsysu_crs.Common.Split.{split_on, join, partition}

pub data Action : Type 0 where
  drop add rest : Action

-- ACTION_ORDER
abbrev pub action_order : Action → ℕ
action_order drop = 0
action_order add = 1
action_order rest = 2

abbrev pub action_text : Action → Text
action_text drop = b'-' ∷ []
action_text add = b'+' ∷ []
action_text rest = b'N' ∷ []

-- `action in ACTION_ORDER`, with the action that the text names.
unfoldable pub action_of : Text → Option Action
action_of t =
    if text_eq t (b'-' ∷ [])
    then some drop
    else if text_eq t (b'+' ∷ [])
    then some add
    else if text_eq t (b'N' ∷ [])
    then some rest
    else none

pub record CanonicalOp : Type 0 where
  pub action : Action
  pub code : Text
  pub priority : Option ℤ

-- What `__post_init__` asks for: a priority on an add, and on nothing else.
abbrev pub priority_fits : Action → Option ℤ → Bool
priority_fits add (some _) = true
priority_fits add none = false
priority_fits drop none = true
priority_fits drop (some _) = false
priority_fits rest none = true
priority_fits rest (some _) = false

-- The constructor; `none` is the ValueError.
unfoldable pub make_op : Action → Text → Option ℤ → Option CanonicalOp
make_op action code priority =
    if priority_fits action priority
    then some (record { action = action; code = code; priority = priority })
    else none

-- The sort key `(ACTION_ORDER[op.action], op.code)`.
abbrev pub op_key : CanonicalOp → Text
op_key op = action_order op.action ∷ op.code

collapse : List CanonicalOp → List CanonicalOp
collapse [] = []
collapse (op ∷ ops) = op ∷ collapse_after op_key op ops

unfoldable pub canonical_ops : List CanonicalOp → List CanonicalOp
unfolding collapse
canonical_ops ops = collapse (sort_by op_key ops)

-- `f"{priority:02d}"`
abbrev pub padded : ℤ → Text
padded (pos n) = pad_two n
padded (negsuc n) = b'-' ∷ decimal (n + 1)

abbrev pub priority_text : CanonicalOp → Text
priority_text op = elim op.action [
  | add ↦ elim op.priority [ some p ↦ padded p | none ↦ [] ]
  | _ ↦ []
]

abbrev pub segment : CanonicalOp → Text
segment op = action_text op.action ++ (b':' ∷ (op.code ++ (b':' ∷ priority_text op)))

unfoldable pub canonical_segments : List CanonicalOp → Text
canonical_segments ops = join b'|' (map segment ops)

-- A `for` loop that appends, and that an exception ends.
abbrev pub each_parsed {ℓ} : {A : Type ℓ} → (Text → Option A) → List Text → Option (List A)
each_parsed f [] = some []
each_parsed f (t ∷ ts) = elim (f t) [
  | none ↦ none
  | some a ↦ elim (each_parsed f ts) [ none ↦ none | some more ↦ some (a ∷ more) ]
]

abbrev pub is_empty : Text → Bool
is_empty [] = true
is_empty (c ∷ t) = false

parse_priority : Action → Text → Text → Option CanonicalOp
unfolding make_op
parse_priority add code tt' =
    if is_digits tt' then make_op add code (some (pos (digits_value tt'))) else none
parse_priority action code tt' = if is_empty tt' then make_op action code none else none

parse_fields : Option Action → Text → Option CanonicalOp
unfolding parse_priority action_of
parse_fields none tail = none
parse_fields (some action) tail =
    let (code, found, tt') = partition b':' tail in
    if found && not (is_empty code) then parse_priority action code tt' else none

unfoldable pub parse_segment : Text → Option CanonicalOp
unfolding parse_fields action_of
parse_segment s =
    let (action, found, tail) = partition b':' s in
    if found then parse_fields (action_of action) tail else none

unfoldable pub parse_canonical_segments : Text → Option (List CanonicalOp)
parse_canonical_segments segments = each_parsed parse_segment (split_on b'|' segments)

unfoldable pub canonical_string : Text → List CanonicalOp → Text
unfolding canonical_segments
canonical_string student_no ops =
    let segments = canonical_segments (canonical_ops ops) in
    if is_empty segments then student_no ++ (b'|' ∷ []) else student_no ++ (b'|' ∷ segments)

-- `hashlib.sha256(...).hexdigest()` is a parameter.
unfoldable pub payload_hash : (Text → Text) → Text → List CanonicalOp → Text
payload_hash sha256_hex student_no ops = sha256_hex (canonical_string student_no ops)

-- So is the unpadded URL-safe base64 of the digest.
unfoldable pub confirm_token : (Text → Text) → Text → List CanonicalOp → Text → Text
confirm_token sha256_b64 student_no ops secret =
    sha256_b64 (student_no ++ (b'|' ∷ (canonical_segments ops ++ (b'|' ∷ secret))))
