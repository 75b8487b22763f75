-- ===== src/Write/Preview/Verdicts.antt =====
-- Each operation of a batch gets its verdict, and the checks are made in their order.
use nsysu_crs.Common.{
  Text, ◌≡◌, refl, Option, none, some, List, [], ◌∷◌, ok, >>=-eq-ok, ok_injective,
}
use nsysu_crs.Write.Preview.{
  ResolvedOp, OpVerdict, Selections, check_op, judge, graded, evaluate_loop, evaluate_ops,
}

-- The verdict is on the operation.
pub record IsAbout (op : ResolvedOp) (v : OpVerdict) : Type 0 where
  pub index : v.index ≡ op.index
  pub action : v.action ≡ op.action
  pub ident : v.ident ≡ op.ident
  pub code : v.code ≡ op.course.code
  pub course : v.course ≡ op.course

abbrev pub AreAbout : List ResolvedOp → List OpVerdict → Type 0
AreAbout [] [] = Unit
AreAbout [] (v ∷ vs) = ⊥
AreAbout (op ∷ ops) [] = ⊥
AreAbout (op ∷ ops) (v ∷ vs) = IsAbout op v × AreAbout ops vs

module _ (sel : Selections) (ops : List ResolvedOp) where
  judge-IsAbout :
      (staged : List ResolvedOp) (op : ResolvedOp) (code : Option Text)
      (r : OpVerdict × List ResolvedOp)
      → op.course.code ≡ code
      → judge sel ops staged op code ≡ ok r
      → IsAbout op r.0
  unfolding judge
  judge-IsAbout staged op none r p h =
      rw (← ok_injective h)
        (record { index = refl; action = refl; ident = refl; code = cc; course = refl })
  judge-IsAbout staged op (some code) r p h =
      let (w, e, k) = >>=-eq-ok (check_op sel ops staged op code) (graded op code staged) h in
      rw (← ok_injective k)
        (record { index = refl; action = refl; ident = refl; code = cc; course = refl })

  loop_about :
      (staged later : List ResolvedOp) (vs : List OpVerdict)
      → evaluate_loop sel ops staged later ≡ ok vs
      → AreAbout later vs
  unfolding evaluate_loop
  loop_about staged [] vs h = rw (← ok_injective h) tt
  loop_about staged (op ∷ later) vs h =
      let (r, e, k) = >>=-eq-ok (judge sel ops staged op op.course.code) _ h in
      let (more, e', k') = >>=-eq-ok (evaluate_loop sel ops r.1 later) _ k in
      rw (← ok_injective k')
        (judge-IsAbout staged op op.course.code r refl e, loop_about r.1 later more e')

  -- When the evaluation returns there is one verdict for each operation, in the order of the batch,
  -- with the operation's index, action, ident, code and course.
  pub evaluate_ops_about : (vs : List OpVerdict) → evaluate_ops sel ops ≡ ok vs → AreAbout ops vs
  unfolding evaluate_ops
  evaluate_ops_about vs h = loop_about [] ops vs h
