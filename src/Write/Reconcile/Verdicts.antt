-- ===== src/Write/Reconcile/Verdicts.antt =====
-- What a reconciliation changes, and what it leaves.
use nsysu_crs.Common.{
  Text, ◌≡◌, refl, Bool, true, false, none, some, List, [], ◌∷◌, All, length, arith, if◌then◌else◌,
}
use nsysu_crs.Selections.{SelectionItem}
use nsysu_crs.Write.Canonical.{Action, add, drop, rest, CanonicalOp}
use nsysu_crs.Write.Jobs.{Outcome, success, rejected, OutcomeUpdate}
use nsysu_crs.Write.Reconcile.{
  state_of, has_item_code, is_selected, is_unknown, real_outcome, reconcile_one, reconcile_updates,
}

abbrev is_add : Action → Bool
is_add add = true
is_add drop = false
is_add rest = false

abbrev xnor : Bool → Bool → Bool
xnor true b = b
xnor false true = false
xnor false false = true

-- The verdict of the school's list on an operation: an add succeeded if the course is selected, and
-- every other operation if it is not.
abbrev pub IsReal : List SelectionItem → CanonicalOp → Outcome → Type 0
IsReal items op outcome =
    outcome ≡ (if xnor (is_add op.action) (is_selected op.code items) then success else rejected)

-- An update after the reconciliation, against the one before.
pub record IsReconciled (items : List SelectionItem) (op : CanonicalOp) (u v : OutcomeUpdate)
    : Type 0 where
  pub audit : v.audit ≡ u.audit
  pub known : is_unknown u.outcome ≡ false → v ≡ u
  pub settled : is_unknown u.outcome ≡ true → IsReal items op v.outcome

abbrev pub AreReconciled :
    List SelectionItem → List CanonicalOp → List OutcomeUpdate → List OutcomeUpdate → Type 0
AreReconciled items [] [] [] = Unit
AreReconciled items (op ∷ ops) (u ∷ us) (v ∷ vs) =
    IsReconciled items op u v × AreReconciled items ops us vs
AreReconciled items ops us vs = ⊥

one-IsReconciled :
    (items : List SelectionItem) (op : CanonicalOp) (u : OutcomeUpdate)
    → IsReconciled items op u (reconcile_one items u op)
unfolding real_outcome
one-IsReconciled items op u = record {
  audit = ground arith;
  known = λ h. ground arith;
  settled = λ h. ground arith;
}

-- With an update for each operation the reconciliation returns; it keeps the audit identifiers, leaves
-- each known outcome with its message, and replaces each unknown one by the verdict of the school's
-- list.
pub reconcile_updates_lem :
    (updates : List OutcomeUpdate) (ops : List CanonicalOp) (items : List SelectionItem)
    → length updates ≡ length ops
    → (more : List OutcomeUpdate) × (reconcile_updates updates ops items ≡ some more)
      × AreReconciled items ops updates more
unfolding reconcile_updates
reconcile_updates_lem [] [] items h = ([], refl, tt)
reconcile_updates_lem [] (op ∷ ops) items h = absurd (omega arith)
reconcile_updates_lem (u ∷ us) [] items h = absurd (omega arith)
reconcile_updates_lem (u ∷ us) (op ∷ ops) items h =
    let (more, e, r) = reconcile_updates_lem us ops items (omega arith) in
    (reconcile_one items u op ∷ more, rw e refl, (one-IsReconciled items op u, r))

not_listed :
    (code : Text) (items : List SelectionItem)
    → All (λ item. has_item_code code item.code ≡ false) items
    → state_of code items ≡ none
unfolding state_of
not_listed code [] h = refl
not_listed code (item ∷ items) h = rw (not_listed code items h.1) (rw h.0)

-- The reconciliation reads the long code of an item only. An add by another code, such as the short
-- course number of the items, is reported as failed although every item with that course number may
-- be selected, and a drop by it is reported as done.
pub other_code_unseen :
    (items : List SelectionItem) (op : CanonicalOp) (u : OutcomeUpdate)
    → All (λ item. has_item_code op.code item.code ≡ false) items
    → is_unknown u.outcome ≡ true
    → (reconcile_one items u op).outcome ≡ (if is_add op.action then rejected else success)
unfolding real_outcome is_selected
other_code_unseen items op u h k = ground (arith, not_listed op.code items h)
