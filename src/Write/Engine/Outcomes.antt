-- ===== src/Write/Engine/Outcomes.antt =====
-- What the engine writes to the audit rows of a claimed job, and that it comes to that.
use nsysu_crs.Common.{
  ◌⊎◌, ℕ, Text, text_eq, text_eq_refl, ◌≡◌, refl, ◌∙◌, Bool, true, false, Option, none, some, List,
  [], ◌∷◌, map, any, All, length, arith, inl, inr, Bool-cases,
}
use nsysu_crs.Selections.{SelectionItem}
use nsysu_crs.Write.Canonical.{CanonicalOp}
use nsysu_crs.Write.Jobs.{Outcome, pending, OutcomeUpdate}
use nsysu_crs.Write.Reconcile.{
  Fetched, items_read, items_refused, fetch_broken, is_unknown, is_unknown_update, maybe_reconcile,
}
use nsysu_crs.Write.Reconcile.Verdicts.{IsReconciled, AreReconciled, reconcile_updates_lem}
use nsysu_crs.Write.Response.{ParsedOp, Tables, code_verdict}
use nsysu_crs.Write.Response.Classified.{is_parsed, code_verdict_parsed}
use nsysu_crs.Write.Engine.{terminal_updates, find_verdict, update_of, verdict_updates}

abbrev pub is_pending : Outcome → Bool
is_pending pending = true
is_pending _ = false

abbrev pub IsFinal : OutcomeUpdate → Type 0
IsFinal u = is_pending u.outcome ≡ false

-- One final outcome for each audit row, in order.
abbrev pub AreWritten : List ℕ → List OutcomeUpdate → Type 0
AreWritten [] [] = Unit
AreWritten (id ∷ ids) (u ∷ us) = (u.audit ≡ id) × IsFinal u × AreWritten ids us
AreWritten ids us = ⊥

pub terminal_updates_written :
    (ids : List ℕ) (outcome : Outcome)
    → is_pending outcome ≡ false
    → AreWritten ids (terminal_updates ids outcome)
unfolding terminal_updates
terminal_updates_written [] outcome h = tt
terminal_updates_written (id ∷ ids) outcome h = (refl, h, terminal_updates_written ids outcome h)

-- The parsed reply has a verdict for the operation.
abbrev IsAnswered : List (Text × ParsedOp) → CanonicalOp → Type 0
IsAnswered parsed op =
    (v : ParsedOp) × (find_verdict op.code parsed ≡ some v) × (is_parsed v.outcome ≡ true)

update_of-IsFinal :
    (retried : Bool) (id : ℕ) (v : ParsedOp)
    → is_parsed v.outcome ≡ true
    → IsFinal (update_of retried id v)
update_of-IsFinal retried id v h = ground arith

pub verdict_updates_written :
    (retried : Bool) (ids : List ℕ) (ops : List CanonicalOp) (parsed : List (Text × ParsedOp))
    → length ids ≡ length ops
    → All (IsAnswered parsed) ops
    → (us : List OutcomeUpdate) × (verdict_updates retried ids ops parsed ≡ some us)
      × AreWritten ids us
      × (length us ≡ length ops)
unfolding verdict_updates
verdict_updates_written retried [] [] parsed h a = ([], refl, tt, refl)
verdict_updates_written retried [] (op ∷ ops) parsed h a = absurd (omega arith)
verdict_updates_written retried (id ∷ ids) [] parsed h a = absurd (omega arith)
verdict_updates_written retried (id ∷ ids) (op ∷ ops) parsed h ((v, e, p), a) =
    let (us, f, w, n) = verdict_updates_written retried ids ops parsed (omega arith) a in
    (
      update_of retried id v ∷ us,
      rw (e, f, verdict_updates) refl,
      (refl, update_of-IsFinal retried id v p, w),
      omega arith,
    )

-- The reply of the page that is parsed has a verdict for each code of the batch.
module _ (u : Tables) (html : Text) where
  abbrev verdicts : List Text → List (Text × ParsedOp)
  verdicts batch_codes = map (λ code. (code, code_verdict u html code)) batch_codes

  abbrev IsListed : List Text → CanonicalOp → Type 0
  IsListed batch_codes op = any (λ code. text_eq code op.code) batch_codes ≡ true

  listed-IsAnswered :
      (batch_codes : List Text) (op : CanonicalOp)
      → IsListed batch_codes op
      → IsAnswered (verdicts batch_codes) op
  unfolding find_verdict
  listed-IsAnswered [] op h = cc
  listed-IsAnswered (code ∷ more) op h = elim (Bool-cases (text_eq code op.code)) [
    | inl e ↦ (code_verdict u html code, rw e refl, code_verdict_parsed u html code)
    | inr e ↦ let (v, f, p) = listed-IsAnswered more op (rw e at h) in (v, rw e f, p)
  ]

  All-IsListed_more :
      (code : Text) (batch_codes : List Text) (ops : List CanonicalOp)
      → All (IsListed batch_codes) ops
      → All (IsListed (code ∷ batch_codes)) ops
  All-IsListed_more code batch_codes [] a = tt
  All-IsListed_more code batch_codes (op ∷ ops) (h, a) =
      (ground arith, All-IsListed_more code batch_codes ops a)

  All-IsListed :
      (ops : List CanonicalOp) → All (IsListed (map (λ (op : CanonicalOp). op.code) ops)) ops
  All-IsListed [] = tt
  All-IsListed (op ∷ ops) = (
    rw (text_eq_refl op.code) refl,
    All-IsListed_more op.code (map (λ op. op.code) ops) ops (All-IsListed ops),
  )

  All-IsAnswered :
      (batch_codes : List Text) (ops : List CanonicalOp)
      → All (IsListed batch_codes) ops
      → All (IsAnswered (verdicts batch_codes)) ops
  All-IsAnswered batch_codes [] a = tt
  All-IsAnswered batch_codes (op ∷ ops) (h, a) =
      (listed-IsAnswered batch_codes op h, All-IsAnswered batch_codes ops a)

  pub batch-IsAnswered :
      (ops : List CanonicalOp)
      → All
          (IsAnswered (
            map
              (λ code. (code, code_verdict u html code))
              (map (λ (op : CanonicalOp). op.code) ops)))
          ops
  batch-IsAnswered ops = All-IsAnswered (map (λ op. op.code) ops) ops (All-IsListed ops)

reconciled-IsFinal :
    (items : List SelectionItem) (op : CanonicalOp) (u v : OutcomeUpdate)
    → IsReconciled items op u v
    → IsFinal u
    → IsFinal v
reconciled-IsFinal items op u v r f = elim (Bool-cases (is_unknown u.outcome)) [
  | inr e ↦ rw (r.known e) f
  | inl e ↦ ground (arith, r.settled e)
]

reconciled_written :
    (items : List SelectionItem) (ids : List ℕ) (ops : List CanonicalOp)
    (us vs : List OutcomeUpdate)
    → AreReconciled items ops us vs
    → AreWritten ids us
    → AreWritten ids vs
reconciled_written items [] [] [] [] r w = tt
reconciled_written items [] [] [] (v ∷ vs) r w = absurd r
reconciled_written items [] [] (u ∷ us) vs r w = absurd w
reconciled_written items [] (op ∷ ops) [] vs r w = absurd r
reconciled_written items [] (op ∷ ops) (u ∷ us) vs r w = absurd w
reconciled_written items (id ∷ ids) ops [] vs r w = absurd w
reconciled_written items (id ∷ ids) [] (u ∷ us) vs r w = absurd r
reconciled_written items (id ∷ ids) (op ∷ ops) (u ∷ us) [] r w = absurd r
reconciled_written items (id ∷ ids) (op ∷ ops) (u ∷ us) (v ∷ vs) (r, rs) (a, f, w) =
    (r.audit ∙ a, reconciled-IsFinal items op u v r f, reconciled_written items ids ops us vs rs w)

-- Reconciliation of an update for each operation returns, with one final outcome for each audit row;
-- or the fetch breaks.
pub maybe_reconcile_written :
    {Jar : Type 0} (jar : Option Jar) (fetch : Jar → Fetched) (ids : List ℕ)
    (ops : List CanonicalOp) (us : List OutcomeUpdate)
    → length us ≡ length ops
    → AreWritten ids us
    → ((vs : List OutcomeUpdate) × ((maybe_reconcile jar fetch ops us).0 ≡ some vs)
        × AreWritten ids vs)
      ⊎ ((k : Jar) × (fetch k ≡ fetch_broken) × ((maybe_reconcile jar fetch ops us).0 ≡ none))
unfolding maybe_reconcile
maybe_reconcile_written {Jar = Jar} jar fetch ids ops us n w =
    elim (Bool-cases (any is_unknown_update us)) [
      | inr e ↦ inl (us, rw e refl, w)
      | inl e ↦ with_jar e jar refl
    ]
  where
    with_items :
        (j : Jar)
        → any is_unknown_update us ≡ true
        → (items : Fetched) → fetch j ≡ items
        → ((vs : List OutcomeUpdate) × ((maybe_reconcile (some j) fetch ops us).0 ≡ some vs)
            × AreWritten ids vs)
          ⊎ ((k : Jar) × (fetch k ≡ fetch_broken)
              × ((maybe_reconcile (some j) fetch ops us).0 ≡ none))
    with_items j e items_refused f = inl (us, rw e (rw f refl), w)
    with_items j e fetch_broken f = inr (j, f, rw e (rw f refl))
    with_items j e (items_read items) f =
        let (vs, g, r) = reconcile_updates_lem us ops items n in
        inl (vs, rw e (rw f g), reconciled_written items ids ops us vs r w)

    with_jar :
        any is_unknown_update us ≡ true
        → (jar' : Option Jar) → jar ≡ jar'
        → ((vs : List OutcomeUpdate) × ((maybe_reconcile jar' fetch ops us).0 ≡ some vs)
            × AreWritten ids vs)
          ⊎ ((k : Jar) × (fetch k ≡ fetch_broken) × ((maybe_reconcile jar' fetch ops us).0 ≡ none))
    with_jar e none q = inl (us, rw e refl, w)
    with_jar e (some j) q = with_items j e (fetch j) refl
