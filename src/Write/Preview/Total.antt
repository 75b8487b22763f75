-- ===== src/Write/Preview/Total.antt =====
-- A preview over readable timetables never raises.
use nsysu_crs.Common.{
  Text, text_eq, ◌≡◌, refl, Bool, true, false, not, ◌&&◌, inl, inr, Option, none, some, List, [],
  ◌∷◌, any, All, All-append, Bool-cases, Result, ok, ◌>>=◌, if◌then◌else◌,
}
use nsysu_crs.Write.Timetable.{UnknownPeriodCode, is_conflict_days}
use nsysu_crs.Write.Timetable.Clash.{IsReadableWeek, conflict_iff}
use nsysu_crs.Write.Preview.{
  ResolvedOp, ClashTarget, Verdict, conflict, fine, mixed, not_selected, OpVerdict, Selections,
  is_add, is_drop, is_fine, op_days, first_clash, check_add, with_warnings, is_mixed, check_op,
  code_less, coded, stage_op, judge, evaluate_loop, evaluate_ops,
}

-- The computation returns a value.
abbrev Returns : {A : Type 0} → Result UnknownPeriodCode A → Type 0
Returns {A} m = (a : A) × (m ≡ ok a)

bind-Returns :
    {A B : Type 0} (m : Result UnknownPeriodCode A) (f : A → Result UnknownPeriodCode B)
    → Returns m
    → ((a : A) → Returns (f a))
    → Returns (m >>= f)
bind-Returns m f (a, e) h = let (b, e') = h a in (b, rw e e')

if_Returns :
    {A : Type 0} (b : Bool) (m n : Result UnknownPeriodCode A)
    → Returns m
    → Returns n
    → Returns (if b then m else n)
if_Returns true m n h k = h
if_Returns false m n h k = k

first_clash-Returns :
    {A : Type 0} (days : A → List Text) (ct : List Text) (l : List A)
    → IsReadableWeek ct
    → All (λ x. IsReadableWeek (days x)) l
    → Returns (first_clash days ct l)
unfolding first_clash
first_clash-Returns days ct [] r h = (none, refl)
first_clash-Returns days ct (x ∷ xs) r h =
    let (b, e, _) = conflict_iff ct (days x) r h.0 in
    bind-Returns (is_conflict_days ct (days x)) _ (b, e)
      (λ c.
        if_Returns c (ok (some x)) (first_clash days ct xs) (some x, refl)
          (first_clash-Returns days ct xs r h.1))

abbrev HasReadable : ResolvedOp → Type 0
HasReadable op = IsReadableWeek op.course.class_time

module _ (sel : Selections) (readable : All (λ t. IsReadableWeek t.days) sel.targets) where
  check_add-Returns :
      (staged : List ResolvedOp) (op : ResolvedOp)
      → All HasReadable staged
      → HasReadable op
      → Returns (check_add sel.targets staged op)
  unfolding check_add
  check_add-Returns staged op hs h =
      bind-Returns (first_clash (λ (t : ClashTarget). t.days) op.course.class_time sel.targets) _
        (first_clash-Returns (λ (t : ClashTarget). t.days) op.course.class_time sel.targets h
          readable)
        (elim [
          | some t ↦ ((conflict, some t.label), refl)
          | none ↦
              bind-Returns (first_clash op_days op.course.class_time staged) _
                (first_clash-Returns op_days op.course.class_time staged h hs)
                (elim [ some e ↦ ((conflict, e.course.code), refl) | none ↦ ((fine, none), refl) ])
        ])

  check_op-Returns :
      (ops staged : List ResolvedOp) (op : ResolvedOp) (code : Text)
      → All HasReadable staged
      → HasReadable op
      → Returns (check_op sel ops staged op code)
  unfolding check_op
  check_op-Returns ops staged op code hs h =
      if_Returns (is_mixed ops code) _ _ ((mixed, none, []), refl)
        (if_Returns (is_drop op.action && not (any (λ c. text_eq c code) sel.selected_codes)) _ _
          ((not_selected, none, []), refl)
          (if_Returns (is_add op.action) _ _
            (bind-Returns (check_add sel.targets staged op) (with_warnings op)
              (check_add-Returns staged op hs h) (λ r. (_, refl)))
            ((fine, none, []), refl)))

  stage_readable :
      (staged : List ResolvedOp) (op : ResolvedOp) (v : Verdict)
      → All HasReadable staged
      → HasReadable op
      → All HasReadable (stage_op op v staged)
  stage_readable staged op v hs h = elim (Bool-cases (is_fine v && is_add op.action)) [
    | inl e ↦ rw e (All-append HasReadable staged (op ∷ []) hs (h, tt))
    | inr e ↦ rw e hs
  ]

  judge_returns :
      (ops staged : List ResolvedOp) (op : ResolvedOp) (code : Option Text)
      → All HasReadable staged
      → HasReadable op
      → (r : OpVerdict × List ResolvedOp) × (judge sel ops staged op code ≡ ok r)
        × All HasReadable r.1
  unfolding judge
  judge_returns ops staged op none hs h = ((code_less op, staged), refl, hs)
  judge_returns ops staged op (some code) hs h =
      let (w, e) = check_op-Returns ops staged op code hs h in
      (
        (coded op code w.0 w.1 w.2, stage_op op w.0 staged),
        rw e refl,
        stage_readable staged op w.0 hs h,
      )

  loop-Returns :
      (ops staged later : List ResolvedOp)
      → All HasReadable staged
      → All HasReadable later
      → Returns (evaluate_loop sel ops staged later)
  unfolding evaluate_loop
  loop-Returns ops staged [] hs h = ([], refl)
  loop-Returns ops staged (op ∷ later) hs h =
      let (r, e, hs') = judge_returns ops staged op op.course.code hs h.0 in
      let (more, e') = loop-Returns ops r.1 later hs' h.1 in (r.0 ∷ more, rw e (rw e' refl))

  -- Where the selections' timetables and those of the operations' courses hold only period codes,
  -- the evaluation returns its verdicts.
  pub evaluate_ops_returns :
      (ops : List ResolvedOp)
      → All (λ op. IsReadableWeek op.course.class_time) ops
      → (vs : List OpVerdict) × (evaluate_ops sel ops ≡ ok vs)
  unfolding evaluate_ops
  evaluate_ops_returns ops h = loop-Returns ops [] ops tt h
