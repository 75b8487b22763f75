-- ===== src/Write/Canonical/RoundTrip.antt =====
-- `parse_canonical_segments` undoes `canonical_segments`, so that the hash which the submit side
-- derives again is the one that was previewed.
use nsysu_crs.Common.{
  Bool, ℤ, pos, negsuc, Text, text_eq, contains, ◌≡◌, ◌≢◌, refl, true, false, Option, none, some,
  List, [], ◌∷◌, ◌++◌, map, All, arith,
}
use nsysu_crs.Common.Decimal.{pad_two, is_digits-pad_two, value-pad_two, digits-free}
use nsysu_crs.Common.Split.{contains-append, IsFree, partition_first, split-join}
use mathlib.Core.Option
use nsysu_crs.Write.Canonical.Order.{canonical_ops-ne-nil, canonical_ops-All, canonical_ops_idem}
use nsysu_crs.Write.Canonical.{
  Action, drop, add, rest, action_text, action_of, CanonicalOp, priority_fits, canonical_ops,
  priority_text, segment, canonical_segments, each_parsed, is_empty, parse_priority, parse_fields,
  parse_segment, parse_canonical_segments, canonical_string, payload_hash,
}

-- No negative priority.
abbrev pub is_natural : Option ℤ → Bool
is_natural none = true
is_natural (some (pos n)) = true
is_natural (some (negsuc n)) = false

-- An operation whose constructor does not raise, with a code that holds no separator.
pub record IsWritable (op : CanonicalOp) : Type 0 where
  pub fits : priority_fits op.action op.priority ≡ true
  pub natural : is_natural op.priority ≡ true
  pub named : is_empty op.code ≡ false
  pub no_colon : contains b':' op.code ≡ false
  pub no_bar : contains b'|' op.code ≡ false

abbrev text_of : Action → Option ℤ → Text
text_of a p = priority_text (record { action = a; code = []; priority = p })

priority_back :
    (a : Action) (code : Text) (p : Option ℤ)
    → priority_fits a p ≡ true
    → is_natural p ≡ true
    → parse_priority a code (text_of a p) ≡ some (record { action = a; code = code; priority = p })
unfolding parse_priority
priority_back add code (some (pos p)) h n = rw (is_digits-pad_two p, value-pad_two p)
priority_back add code (some (negsuc p)) h n = cc
priority_back add code none h n = cc
priority_back drop code none h n = refl
priority_back drop code (some p) h n = cc
priority_back rest code none h n = refl
priority_back rest code (some p) h n = cc

fields_back :
    (a : Action) (code : Text) (p : Option ℤ)
    → priority_fits a p ≡ true
    → is_natural p ≡ true
    → is_empty code ≡ false
    → contains b':' code ≡ false
    → parse_fields (some a) (code ++ (b':' ∷ text_of a p))
      ≡ some (record { action = a; code = code; priority = p })
unfolding parse_fields
fields_back a code p fits natural named free =
    rw (partition_first b':' code (text_of a p) free)
      (rw named (priority_back a code p fits natural))

action_free : (a : Action) → contains b':' (action_text a) ≡ false
unfolding contains
action_free drop = refl
action_free add = refl
action_free rest = refl

action_back : (a : Action) → action_of (action_text a) ≡ some a
unfolding action_of text_eq
action_back drop = refl
action_back add = refl
action_back rest = refl

segment_back : (op : CanonicalOp) → IsWritable op → parse_segment (segment op) ≡ some op
unfolding parse_segment
segment_back op w =
    rw
      (partition_first b':' (action_text op.action) (op.code ++ (b':' ∷ priority_text op))
        (action_free op.action))
      (rw (action_back op.action)
        (fields_back op.action op.code op.priority w.fits w.natural w.named w.no_colon))

priority_free :
    (a : Action) (p : Option ℤ) → is_natural p ≡ true → contains b'|' (text_of a p) ≡ false
unfolding contains
priority_free add (some (pos p)) n = digits-free b'|' (pad_two p) refl (is_digits-pad_two p)
priority_free add (some (negsuc p)) n = cc
priority_free add none n = refl
priority_free drop p n = refl
priority_free rest p n = refl

bar_free : (a : Action) → contains b'|' (action_text a) ≡ false
unfolding contains
bar_free drop = refl
bar_free add = refl
bar_free rest = refl

skip_colon : (t : Text) → contains b'|' t ≡ false → contains b'|' (b':' ∷ t) ≡ false
unfolding contains
skip_colon t h = h

segment_free : (op : CanonicalOp) → IsWritable op → contains b'|' (segment op) ≡ false
segment_free op w =
    contains-append b'|' (action_text op.action) (b':' ∷ (op.code ++ (b':' ∷ priority_text op)))
      (bar_free op.action)
      (skip_colon (op.code ++ (b':' ∷ priority_text op)) (
        contains-append b'|' op.code (b':' ∷ priority_text op) w.no_bar
          (skip_colon (priority_text op) (priority_free op.action op.priority w.natural))))

each_back :
    (ops : List CanonicalOp)
    → All IsWritable ops
    → each_parsed parse_segment (map segment ops) ≡ some ops
each_back [] h = refl
each_back (op ∷ ops) h = ground (arith, segment_back op h.0, each_back ops h.1)

segments-IsFree :
    (ops : List CanonicalOp) → All IsWritable ops → All (IsFree b'|') (map segment ops)
segments-IsFree [] h = tt
segments-IsFree (op ∷ ops) h = (segment_free op h.0, segments-IsFree ops h.1)

-- A batch that is not empty, of operations that the constructor accepts, without a negative priority
-- and with codes that are not empty and hold no separator, is parsed back from its segments.
pub parse-canonical_segments :
    (ops : List CanonicalOp)
    → ops ≢ []
    → All IsWritable ops
    → parse_canonical_segments (canonical_segments ops) ≡ some ops
unfolding parse_canonical_segments canonical_segments
parse-canonical_segments [] h w = absurd (h refl)
parse-canonical_segments (op ∷ ops) h w =
    rw
      (split-join b'|' (segment op) (map segment ops) (segment_free op w.0)
        (segments-IsFree ops w.1))
      (each_back (op ∷ ops) w)

-- The batch that the submit side parses out of a previewed batch's canonical segments has the
-- payload hash of the previewed batch, in whatever order that was given. The batch is not empty,
-- the constructor accepts its operations, no priority is negative, and the codes are not empty and
-- hold no separator.
pub payload_hash-parse :
    (sha256_hex : Text → Text) (student_no : Text) (ops : List CanonicalOp)
    → ops ≢ []
    → All IsWritable ops
    → Option.map
        (payload_hash sha256_hex student_no)
        (parse_canonical_segments (canonical_segments (canonical_ops ops)))
      ≡ some (payload_hash sha256_hex student_no ops)
unfolding payload_hash canonical_string
payload_hash-parse sha256_hex student_no ops h w =
    rw
      (parse-canonical_segments (canonical_ops ops) (canonical_ops-ne-nil ops h)
        (canonical_ops-All IsWritable ops w))
      (rw (canonical_ops_idem ops))
