-- ===== src/Write/Reconcile.antt =====
-- backend/app/write/reconcile.py: the end of a retried batch, against the school's own list.
pub mod Verdicts
use nsysu_crs.Common.{
  ℕ, Text, codes, text_eq, Bool, true, false, ◌||◌, Option, none, some, List, [], ◌∷◌, any,
  if◌then◌else◌, String,
}
use nsysu_crs.Selections.{SelectionItem}
use nsysu_crs.Write.Canonical.{Action, add, drop, rest, CanonicalOp}
use nsysu_crs.Write.Jobs.{Outcome, success, rejected, unknown_reconciled, OutcomeUpdate}

abbrev pub selected_state : Text → Bool
selected_state state = text_eq state (codes "選上") || text_eq state (codes "登記加選")

abbrev pub has_item_code : Text → Option Text → Bool
has_item_code code none = false
has_item_code code (some c) = text_eq c code

-- `states.get(code)` of the dict of the items' states: the last item with the code counts.
unfoldable pub state_of : Text → List SelectionItem → Option Text
state_of code [] = none
state_of code (item ∷ items) = elim (state_of code items) [
  | some state ↦ some state
  | none ↦ if has_item_code code item.code then some item.state else none
]

unfoldable pub is_selected : Text → List SelectionItem → Bool
is_selected code items = elim (state_of code items) [
  | none ↦ false
  | some state ↦ selected_state state
]

abbrev pub is_unknown : Outcome → Bool
is_unknown unknown_reconciled = true
is_unknown _ = false

abbrev add_note : Bool → Text
add_note true = codes "對帳確認:slt_result 載選上/登記加選"
add_note false = codes "對帳確認:slt_result 未選上,加選未成立"

abbrev drop_note : Bool → Text
drop_note true = codes "對帳確認:slt_result 仍載選上,退選未成立"
drop_note false = codes "對帳確認:slt_result 無選上紀錄,退選成立"

-- The real outcome and its note; every action other than `+` is treated as a drop.
unfoldable pub real_outcome : Action → Bool → Outcome × Text
real_outcome add selected = (if selected then success else rejected, add_note selected)
real_outcome drop selected = (if selected then rejected else success, drop_note selected)
real_outcome rest selected = (if selected then rejected else success, drop_note selected)

abbrev pub reconcile_one : List SelectionItem → OutcomeUpdate → CanonicalOp → OutcomeUpdate
reconcile_one items u op =
    let (real, note) = real_outcome op.action (is_selected op.code items) in
    if is_unknown u.outcome then record u { outcome = real; school_msg = some note } else u

-- `zip(..., strict=True)`: `none` is the ValueError of lists of different lengths.
unfoldable pub reconcile_updates :
    List OutcomeUpdate → List CanonicalOp → List SelectionItem → Option (List OutcomeUpdate)
reconcile_updates [] [] items = some []
reconcile_updates [] (op ∷ ops) items = none
reconcile_updates (u ∷ us) [] items = none
reconcile_updates (u ∷ us) (op ∷ ops) items = elim (reconcile_updates us ops items) [
  | none ↦ none
  | some more ↦ some (reconcile_one items u op ∷ more)
]

abbrev pub is_unknown_update : OutcomeUpdate → Bool
is_unknown_update u = is_unknown u.outcome

-- What the one fetch of the list and its parse give: items; SelcrsUnavailable or SelcrsSessionExpired;
-- or another exception.
pub data Fetched : Type 0 where
  items_read : List SelectionItem → Fetched
  items_refused : Fetched
  fetch_broken : Fetched

-- `maybe_reconcile`: `jar` is what `load_selcrs` gives. `none` is an exception. The Boolean says
-- whether the school was contacted.
unfoldable pub maybe_reconcile :
    {Jar : Type 0}
    → Option Jar
    → (Jar → Fetched)
    → List CanonicalOp
    → List OutcomeUpdate
    → Option (List OutcomeUpdate) × Bool
maybe_reconcile jar fetch ops updates =
    if any is_unknown_update updates
    then elim jar [
      | none ↦ (some updates, false)
      | some j ↦ elim (fetch j) [
        | items_refused ↦ (some updates, true)
        | fetch_broken ↦ (none, true)
        | items_read items ↦ (reconcile_updates updates ops items, true)
      ]
    ]
    else (some updates, false)
