-- ===== src/Write/Request.antt =====
-- The request of a preview: `OpIn` of backend/app/write/schemas.py, and `_validate_ops` of
-- backend/app/api/write.py.
pub mod Bounds
use nsysu_crs.Common.{
  ℕ, zero, suc, Text, codes, Bool, true, false, not, ◌&&◌, Option, none, some, List, [], ◌∷◌, any,
  length, ltb, leb, ◌==◌, if◌then◌else◌, String, ℤ, pos, negsuc,
}
use nsysu_crs.Stage.{Variant, ssform, stage5}
use nsysu_crs.Write.Canonical.{Action, drop, add, rest}

pub record OpIn : Type 0 where
  pub action : Action
  pub course_id : Text
  pub priority : Option ℤ
  pub drop_confirm_text : Option Text

-- MAX_OPS_BY_VARIANT
abbrev pub max_ops : Variant → ℕ
max_ops ssform = 15
max_ops stage5 = 10

-- `1 <= priority <= 20`
abbrev pub in_range : ℤ → Bool
in_range (pos n) = leb 1 n && leb n 20
in_range (negsuc n) = false

abbrev pub same_int : ℤ → ℤ → Bool
same_int (pos m) (pos n) = m == n
same_int (negsuc m) (negsuc n) = m == n
same_int (pos m) (negsuc n) = false
same_int (negsuc m) (pos n) = false

abbrev pub forbidden : List ℤ → Option ℤ → (List ℤ → Option Text) → Option Text
forbidden seen_priorities (some p) later = some (codes "priority_forbidden")
forbidden seen_priorities none later = later seen_priorities

-- The body of the loop: the detail of the 400 that it raises, or what comes `later`.
abbrev pub validate_op : Action → Option ℤ → List ℤ → (List ℤ → Option Text) → Option Text
validate_op add none seen_priorities later = some (codes "priority_required")
validate_op add (some p) seen_priorities later =
    if not (in_range p)
    then some (codes "priority_invalid")
    else if any (same_int p) seen_priorities
    then some (codes "priority_duplicate")
    else later (p ∷ seen_priorities)
validate_op drop priority seen_priorities later = forbidden seen_priorities priority later
validate_op rest priority seen_priorities later = forbidden seen_priorities priority later

unfoldable pub validate_loop : List ℤ → List OpIn → Option Text
validate_loop seen_priorities [] = none
validate_loop seen_priorities (op ∷ ops) =
    validate_op op.action op.priority seen_priorities (λ seen. validate_loop seen ops)

-- `_validate_ops`
unfoldable pub validate_ops : ℕ → List OpIn → Option Text
validate_ops limit ops = elim (validate_loop [] ops) [
  | some detail ↦ some detail
  | none ↦ if ltb limit (length ops) then some (codes "ops_limit_exceeded") else none
]
