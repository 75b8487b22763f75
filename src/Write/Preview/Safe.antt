-- ===== src/Write/Preview/Safe.antt =====
-- What a preview that marks operations as writable promises.
use nsysu_crs.Common.{
  Text, text_eq, ◌≡◌, refl, inl, inr, Bool, true, false, ◌&&◌, Option, none, some, List, [], ◌∷◌,
  ◌++◌, any, All, arith, Bool-cases, Result, ok, ◌>>=◌, >>=-eq-ok, ok_injective, if◌then◌else◌,
}
use nsysu_crs.Write.Timetable.{UnknownPeriodCode, is_conflict_days}
use nsysu_crs.Write.Preview.{
  ResolvedOp, ClashTarget, Verdict, fine, conflict, Warning, OpVerdict, Selections, is_add, is_drop,
  is_mixed, first_clash, op_days, check_add, check_op, with_warnings, is_fine, code_less, coded,
  stage_op, judge, graded, evaluate_loop, evaluate_ops,
}

abbrev NoClash : List Text → List Text → Type 0
NoClash a b = is_conflict_days a b ≡ ok false

no_clash :
    {A : Type 0} (days : A → List Text) (ct : List Text) (l : List A)
    → first_clash days ct l ≡ ok none
    → All (λ x. NoClash ct (days x)) l
unfolding first_clash
no_clash days ct [] h = tt
no_clash {A} days ct (x ∷ xs) h =
    let (b, e, k) = >>=-eq-ok (is_conflict_days ct (days x)) _ h in go b e k (no_clash days ct xs)
  where
    go :
        (b : Bool)
        → is_conflict_days ct (days x) ≡ ok b
        → (if b then ok (some x) else first_clash days ct xs) ≡ ok none
        → (first_clash days ct xs ≡ ok none → All (λ y. NoClash ct (days y)) xs)
        → All (λ y. NoClash ct (days y)) (x ∷ xs)
    go true e k ih = cc
    go false e k ih = (e, ih k)

add_fine :
    (targets : List ClashTarget) (staged : List ResolvedOp) (op : ResolvedOp) (v : Verdict)
    (d : Option Text)
    → check_add targets staged op ≡ ok (v, d)
    → is_fine v ≡ true
    → All (λ t. NoClash op.course.class_time t.days) targets
      × All (λ s. NoClash op.course.class_time s.course.class_time) staged
unfolding check_add
add_fine targets staged op v d h f =
    let (t, e, k) =
      >>=-eq-ok (first_clash (λ (x : ClashTarget). x.days) op.course.class_time targets) _ h in
    on_target t e k
  where
    on_staged :
        (s : Option ResolvedOp)
        → first_clash op_days op.course.class_time staged ≡ ok s
        → (elim s as (λ _. Result UnknownPeriodCode (Verdict × Option Text)) [
          | some x ↦ ok (conflict, x.course.code)
          | none ↦ ok (fine, none)
        ])
          ≡ ok (v, d)
        → All (λ s. NoClash op.course.class_time s.course.class_time) staged
    on_staged none e k = no_clash op_days op.course.class_time staged e
    on_staged (some x) e k = ground arith

    on_target :
        (t : Option ClashTarget)
        → first_clash (λ (x : ClashTarget). x.days) op.course.class_time targets ≡ ok t
        → (elim t as (λ _. Result UnknownPeriodCode (Verdict × Option Text)) [
          | some x ↦ ok (conflict, some x.label)
          | none ↦ first_clash op_days op.course.class_time staged >>= λ s. elim s [
            | some y ↦ ok (conflict, y.course.code)
            | none ↦ ok (fine, none)
          ]
        ])
          ≡ ok (v, d)
        → All (λ t. NoClash op.course.class_time t.days) targets
          × All (λ s. NoClash op.course.class_time s.course.class_time) staged
    on_target none e k =
        let (s, e', k') = >>=-eq-ok (first_clash op_days op.course.class_time staged) _ k in
        (no_clash (λ (x : ClashTarget). x.days) op.course.class_time targets e, on_staged s e' k')
    on_target (some x) e k = ground arith

-- What makes an accepted operation acceptable, whatever the other verdicts are.
pub record IsSound (sel : Selections) (ops : List ResolvedOp) (v : OpVerdict) : Type 0 where
  pub graded : v.writable ≡ is_fine v.verdict
  pub identified :
      v.writable ≡ true → (code : Text) × (v.code ≡ some code) × (is_mixed ops code ≡ false)
  pub drop_selected :
      (code : Text)
      → v.writable ≡ true
      → is_drop v.action ≡ true
      → v.code ≡ some code
      → any (λ c. text_eq c code) sel.selected_codes ≡ true
  pub add_clear :
      v.writable ≡ true
      → is_add v.action ≡ true
      → All (λ t. NoClash v.course.class_time t.days) sel.targets

-- What the `if` ladder of one operation has checked when it accepts.
record IsChecked (sel : Selections) (ops staged : List ResolvedOp) (op : ResolvedOp) (code : Text)
    : Type 0 where
  unmixed : is_mixed ops code ≡ false
  selected : is_drop op.action ≡ true → any (λ c. text_eq c code) sel.selected_codes ≡ true
  clear :
      is_add op.action ≡ true
      → All (λ t. NoClash op.course.class_time t.days) sel.targets
        × All (λ s. NoClash op.course.class_time s.course.class_time) staged

op_fine :
    (sel : Selections) (ops staged : List ResolvedOp) (op : ResolvedOp) (code : Text) (v : Verdict)
    (d : Option Text) (w : List Warning)
    → check_op sel ops staged op code ≡ ok (v, d, w)
    → is_fine v ≡ true
    → IsChecked sel ops staged op code
unfolding check_op
op_fine sel ops staged op code v d w h f = record {
  unmixed = ground arith;
  selected = λ p. ground arith;
  clear = λ p.
      let (r, e, k) = >>=-eq-ok (check_add sel.targets staged op) (with_warnings op) (ladder p) in
      add_fine sel.targets staged op r.0 r.1 e (ground arith);
}
  where
    ladder :
        is_add op.action ≡ true
        → (check_add sel.targets staged op >>= with_warnings op) ≡ ok (v, d, w)
    ladder p = ground arith

-- An accepted add does not clash with the given operations.
abbrev ClearOf : List ResolvedOp → OpVerdict → Type 0
ClearOf staged v =
    v.writable ≡ true
    → is_add v.action ≡ true
    → All (λ s. NoClash v.course.class_time s.course.class_time) staged

-- Of two accepted adds, the later does not clash with the earlier.
abbrev pub LaterClear : OpVerdict → OpVerdict → Type 0
LaterClear v w =
    v.writable ≡ true
    → is_add v.action ≡ true
    → w.writable ≡ true
    → is_add w.action ≡ true
    → NoClash w.course.class_time v.course.class_time

abbrev pub PairsClear : List OpVerdict → Type 0
PairsClear [] = Unit
PairsClear (v ∷ vs) = All (LaterClear v) vs × PairsClear vs

coded-IsSound :
    (sel : Selections) (ops staged : List ResolvedOp) (op : ResolvedOp) (code : Text) (v : Verdict)
    (d : Option Text) (w : List Warning)
    → check_op sel ops staged op code ≡ ok (v, d, w)
    → IsSound sel ops (coded op code v d w) × ClearOf staged (coded op code v d w)
coded-IsSound sel ops staged op code v d w h = (
  record {
    graded = refl;
    identified = λ f. (code, refl, (op_fine sel ops staged op code v d w h f).unmixed);
    drop_selected =
        λ c f p e. rw (← some_inj e) ((op_fine sel ops staged op code v d w h f).selected p);
    add_clear = λ f p. ((op_fine sel ops staged op code v d w h f).clear p).0;
  },
  λ f p. ((op_fine sel ops staged op code v d w h f).clear p).1,
)
  where
    some_inj : {x y : Text} → some x ≡ some y → x ≡ y
    some_inj e = cc

All-front {ℓ κ} :
    {A : Type ℓ} (P : A → Type κ) (xs ys : List A) → All P (xs ++ ys) → All P xs × All P ys
All-front P [] ys h = (tt, h)
All-front P (x ∷ xs) ys h = let (a, b) = All-front P xs ys h.1 in ((h.0, a), b)

All-map {ℓ κ} :
    {A : Type ℓ} (P Q : A → Type κ) → ((a : A) → P a → Q a) → (xs : List A) → All P xs → All Q xs
All-map P Q f [] h = tt
All-map P Q f (x ∷ xs) h = (f x h.0, All-map P Q f xs h.1)

module _ (sel : Selections) (ops : List ResolvedOp) where
  abbrev IsSafe : List ResolvedOp → List OpVerdict → Type 0
  IsSafe staged vs = All (IsSound sel ops) vs × All (ClearOf staged) vs × PairsClear vs

  -- What one operation adds, and what the operations after it see staged.
  record IsStep (staged : List ResolvedOp) (r : OpVerdict × List ResolvedOp) : Type 0 where
    sound : IsSound sel ops r.0
    clear : ClearOf staged r.0
    onward : (u : OpVerdict) → ClearOf r.1 u → ClearOf staged u × LaterClear r.0 u

  stage_onward :
      (staged : List ResolvedOp) (op : ResolvedOp) (code : Text) (v : Verdict) (d : Option Text)
      (w : List Warning) (u : OpVerdict)
      → ClearOf (stage_op op v staged) u
      → ClearOf staged u × LaterClear (coded op code v d w) u
  stage_onward staged op code v d w u h = elim (Bool-cases (is_fine v && is_add op.action)) [
    | inl e ↦
        let wide : ClearOf (staged ++ (op ∷ [])) u = rw e at h in
        (
          λ f p.
              (All-front (λ s. NoClash u.course.class_time s.course.class_time) staged (op ∷ [])
                (wide f p)).0,
          λ g q f p.
              (All-front (λ s. NoClash u.course.class_time s.course.class_time) staged (op ∷ [])
                (wide f p)).1.0,
        )
    | inr e ↦ (rw e at h, λ g q f p. absurd (both_hold g q e))
  ]
    where
      both_hold : {x y : Bool} → x ≡ true → y ≡ true → (x && y) ≡ false → ⊥
      both_hold a b c = ground arith

  code_less-IsStep :
      (staged : List ResolvedOp) (op : ResolvedOp) → IsStep staged (code_less op, staged)
  code_less-IsStep staged op = record {
    sound = record {
      graded = refl;
      identified = λ f. cc;
      drop_selected = λ c f p e. cc;
      add_clear = λ f p. cc;
    };
    clear = λ f p. cc;
    onward = λ u h. (h, λ f. cc);
  }

  judge-IsStep :
      (staged : List ResolvedOp) (op : ResolvedOp) (code : Option Text)
      (r : OpVerdict × List ResolvedOp)
      → judge sel ops staged op code ≡ ok r
      → IsStep staged r
  unfolding judge
  judge-IsStep staged op none r h = rw (← ok_injective h) (code_less-IsStep staged op)
  judge-IsStep staged op (some code) r h =
      let (w, e, k) = >>=-eq-ok (check_op sel ops staged op code) (graded op code staged) h in
      let (sound, clear) = coded-IsSound sel ops staged op code w.0 w.1 w.2 e in
      rw (← ok_injective k) (record {
        sound = sound;
        clear = clear;
        onward = λ u c. stage_onward staged op code w.0 w.1 w.2 u c;
      })

  IsSafe-cons :
      (staged : List ResolvedOp) (r : OpVerdict × List ResolvedOp) (more : List OpVerdict)
      → IsStep staged r
      → IsSafe r.1 more
      → IsSafe staged (r.0 ∷ more)
  IsSafe-cons staged r more s h = (
    (s.sound, h.0),
    (s.clear, All-map (ClearOf r.1) (ClearOf staged) (λ u c. (s.onward u c).0) more h.1),
    (All-map (ClearOf r.1) (LaterClear r.0) (λ u c. (s.onward u c).1) more h.1, h.2),
  )

  loop-IsSafe :
      (staged later : List ResolvedOp) (vs : List OpVerdict)
      → evaluate_loop sel ops staged later ≡ ok vs
      → IsSafe staged vs
  unfolding evaluate_loop
  loop-IsSafe staged [] vs h = rw (← ok_injective h) (tt, tt, tt)
  loop-IsSafe staged (op ∷ later) vs h =
      let (r, e, k) = >>=-eq-ok (judge sel ops staged op op.course.code) _ h in
      let (more, e', k') = >>=-eq-ok (evaluate_loop sel ops r.1 later) _ k in
      rw (← ok_injective k') (
        IsSafe-cons staged r more (judge-IsStep staged op op.course.code r e)
          (loop-IsSafe r.1 later more e'))

  -- When the evaluation returns, an operation is marked writable exactly if its verdict is fine;
  -- each writable one has a code that the batch does not both add and drop, is selected if it is a
  -- drop, and clashes with no selection if it is an add; and no two writable adds clash, the later
  -- tested against the earlier.
  pub evaluate_ops_safe :
      (vs : List OpVerdict)
      → evaluate_ops sel ops ≡ ok vs
      → All (IsSound sel ops) vs × PairsClear vs
  unfolding evaluate_ops
  evaluate_ops_safe vs h = let (a, b, c) = loop-IsSafe [] ops vs h in (a, c)
