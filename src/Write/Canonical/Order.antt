-- ===== src/Write/Canonical/Order.antt =====
-- `canonical_ops` orders and deduplicates, and which batches have one canonical form.
use nsysu_crs.Common.{
  ℤ, Text, text_eq_refl, ◌≡◌, ◌≢◌, ◌↔◌, refl, sym, ◌∙◌, ap, Option, some, List, [], ◌∷◌, arith, All,
}
use nsysu_crs.Common.Sorting.{
  sort_by, find_by, IsIncreasing, IsSorted, sort-IsSorted, find-sort, All-sort, All-collapse,
  collapse-IsIncreasing, find-collapse, increasing_ext,
}
use nsysu_crs.Write.Canonical.{CanonicalOp, add, op_key, canonical_ops, collapse}

-- The first operation of the batch with the given action and code.
abbrev pub first_with : Text → List CanonicalOp → Option CanonicalOp
first_with = find_by op_key

collapse_increases : (l : List CanonicalOp) → IsSorted op_key l → IsIncreasing op_key (collapse l)
unfolding collapse
collapse_increases [] h = tt
collapse_increases (op ∷ ops) h = collapse-IsIncreasing op_key op ops h

collapse_first : (k : Text) (l : List CanonicalOp) → first_with k (collapse l) ≡ first_with k l
unfolding collapse
collapse_first k [] = refl
collapse_first k (op ∷ ops) = find-collapse op_key k op ops

-- The canonical form is ordered by action and then by code, and holds no pair of them twice.
pub canonical_ops-IsIncreasing : (ops : List CanonicalOp) → IsIncreasing op_key (canonical_ops ops)
unfolding canonical_ops
canonical_ops-IsIncreasing ops = collapse_increases (sort_by op_key ops) (sort-IsSorted op_key ops)

-- For each action and code, the canonical form holds the first operation of the batch with them,
-- and none if the batch has none.
pub first-canonical_ops :
    (k : Text) (ops : List CanonicalOp) → first_with k (canonical_ops ops) ≡ first_with k ops
unfolding canonical_ops
first-canonical_ops k ops = collapse_first k (sort_by op_key ops) ∙ find-sort op_key k ops

-- Two batches have one canonical form exactly when, for each action and code, the first operation
-- with them is the same in both (or there is none in either).
pub canonical_ops-eq_iff :
    (a b : List CanonicalOp)
    → (canonical_ops a ≡ canonical_ops b) ↔ ((k : Text) → first_with k a ≡ first_with k b)
canonical_ops-eq_iff a b = (
  λ e k. sym (first-canonical_ops k a) ∙ ap (first_with k) e ∙ first-canonical_ops k b,
  λ h.
      increasing_ext op_key (canonical_ops a) (canonical_ops b) (canonical_ops-IsIncreasing a)
        (canonical_ops-IsIncreasing b)
        (λ k. first-canonical_ops k a ∙ h k ∙ sym (first-canonical_ops k b)),
)

-- The canonical form of a canonical form is itself.
pub canonical_ops_idem :
    (ops : List CanonicalOp) → canonical_ops (canonical_ops ops) ≡ canonical_ops ops
canonical_ops_idem ops =
    (canonical_ops-eq_iff (canonical_ops ops) ops).1 (λ k. first-canonical_ops k ops)

collapse-All {κ} : (P : CanonicalOp → Type κ) (l : List CanonicalOp) → All P l → All P (collapse l)
unfolding collapse
collapse-All P [] h = tt
collapse-All P (op ∷ ops) h = (h.0, All-collapse op_key P op ops h.1)

pub canonical_ops-All {κ} :
    (P : CanonicalOp → Type κ) (ops : List CanonicalOp) → All P ops → All P (canonical_ops ops)
unfolding canonical_ops
canonical_ops-All P ops h = collapse-All P (sort_by op_key ops) (All-sort op_key P ops h)

pub canonical_ops-ne-nil : (ops : List CanonicalOp) → ops ≢ [] → canonical_ops ops ≢ []
canonical_ops-ne-nil [] h e = h refl
canonical_ops-ne-nil (op ∷ ops) h e =
    let found = first-canonical_ops (op_key op) (op ∷ ops) in
    let none_there = ap (first_with (op_key op)) e in
    unfold find_by in ground (arith, found, none_there, text_eq_refl (op_key op))

abbrev pub add_op : Text → ℤ → CanonicalOp
add_op code p = record { action = add; code = code; priority = some p }

-- Two adds of one course with different priorities have another canonical form in the other order.
pub canonical_ops_order_matters :
    (code : Text) (p q : ℤ)
    → p ≢ q
    → canonical_ops (add_op code p ∷ add_op code q ∷ [])
      ≢ canonical_ops (add_op code q ∷ add_op code p ∷ [])
unfolding find_by
canonical_ops_order_matters code p q h e =
    let first =
      (canonical_ops-eq_iff (add_op code p ∷ add_op code q ∷ [])
          (add_op code q ∷ add_op code p ∷ [])).0
        e (op_key (add_op code p)) in
    h (cc (first, text_eq_refl (op_key (add_op code p)), text_eq_refl (op_key (add_op code q))))
