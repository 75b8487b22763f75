-- ===== src/Write/Request/Bounds.antt =====
-- What `_validate_ops` of backend/app/api/write.py lets through.
use nsysu_crs.Common.{
  ℕ, Text, ◌≤◌, ◌≡◌, ◌↔◌, refl, true, false, Option, none, some, List, [], ◌∷◌, any, All, length,
  ltb, arith, Bool-cases, Option-cases, inl, inr, ℤ, pos, negsuc,
}
use nsysu_crs.Write.Canonical.{Action, drop, add, rest}
use nsysu_crs.Write.Request.{OpIn, in_range, same_int, validate_op, validate_loop, validate_ops}

-- An add has a priority from 1 to 20, and nothing else has one.
abbrev pub Fits : Action → Option ℤ → Type 0
Fits add (some (pos n)) = (1 ≤ n) × (n ≤ 20)
Fits add (some (negsuc n)) = ⊥
Fits add none = ⊥
Fits drop none = Unit
Fits drop (some p) = ⊥
Fits rest none = Unit
Fits rest (some p) = ⊥

abbrev pub AreFitting : List OpIn → Type 0
AreFitting ops = All (λ (op : OpIn). Fits op.action op.priority) ops

-- The priorities of the adds.
abbrev pub with_priority : Action → Option ℤ → List ℤ → List ℤ
with_priority add (some p) ps = p ∷ ps
with_priority add none ps = ps
with_priority drop p ps = ps
with_priority rest p ps = ps

abbrev pub priorities : List OpIn → List ℤ
priorities [] = []
priorities (op ∷ ops) = with_priority op.action op.priority (priorities ops)

-- No priority twice.
abbrev pub AreDistinct : List ℤ → Type 0
AreDistinct [] = Unit
AreDistinct (p ∷ ps) = (any (same_int p) ps ≡ false) × AreDistinct ps

abbrev AreFresh : List ℤ → List ℤ → Type 0
AreFresh seen ps = All (λ p. any (same_int p) seen ≡ false) ps

same_sym : (p q : ℤ) → same_int p q ≡ false → same_int q p ≡ false
same_sym (pos m) (pos n) h = ground arith
same_sym (negsuc m) (negsuc n) h = ground arith
same_sym (pos m) (negsuc n) h = refl
same_sym (negsuc m) (pos n) h = refl

fresh_apart :
    (p : ℤ) (seen ps : List ℤ)
    → AreFresh (p ∷ seen) ps
    → (any (same_int p) ps ≡ false) × AreFresh seen ps
fresh_apart p seen [] h = (refl, tt)
fresh_apart p seen (q ∷ ps) (e, h) =
    let (f, g) = fresh_apart p seen ps h in (ground (arith, same_sym q p), (ground arith, g))

apart_fresh :
    (p : ℤ) (seen ps : List ℤ)
    → any (same_int p) ps ≡ false
    → AreFresh seen ps
    → AreFresh (p ∷ seen) ps
apart_fresh p seen [] e h = tt
apart_fresh p seen (q ∷ ps) e (f, h) =
    (ground (arith, same_sym p q), apart_fresh p seen ps (ground arith) h)

Valid : List ℤ → List OpIn → Type 0
Valid seen ops = AreFitting ops × AreDistinct (priorities ops) × AreFresh seen (priorities ops)

Fits-range : (p : ℤ) → in_range p ≡ true → Fits add (some p)
Fits-range (pos n) h = (ground arith, ground arith)
Fits-range (negsuc n) h = cc

range-Fits : (p : ℤ) → Fits add (some p) → in_range p ≡ true
range-Fits (pos n) h = ground arith
range-Fits (negsuc n) h = absurd h

abbrev ValidOp : Action → Option ℤ → List ℤ → List OpIn → Type 0
ValidOp a o seen ops =
    Fits a o
    × AreFitting ops
    × AreDistinct (with_priority a o (priorities ops))
    × AreFresh seen (with_priority a o (priorities ops))

abbrev rest_of : List OpIn → List ℤ → Option Text
rest_of ops seen = validate_loop seen ops

-- One operation more.
op_sound :
    (a : Action) (o : Option ℤ) (seen : List ℤ) (ops : List OpIn)
    → ((s : List ℤ) → validate_loop s ops ≡ none → Valid s ops)
    → validate_op a o seen (rest_of ops) ≡ none
    → ValidOp a o seen ops
unfolding Valid
op_sound add none seen ops k h = cc
op_sound add (some p) seen ops k h = elim (Bool-cases (in_range p)) [
  | inr e ↦ cc (rw e at h)
  | inl e ↦ elim (Bool-cases (any (same_int p) seen)) [
    | inl f ↦ cc (rw (e, f) at h)
    | inr f ↦
        let (x, y, z) = k (p ∷ seen) (rw (e, f) at h) in
        let (g, w) = fresh_apart p seen (priorities ops) z in (Fits-range p e, x, (g, y), (f, w))
  ]
]
op_sound drop none seen ops k h = let (x, y, z) = k seen h in (tt, x, y, z)
op_sound drop (some p) seen ops k h = cc
op_sound rest none seen ops k h = let (x, y, z) = k seen h in (tt, x, y, z)
op_sound rest (some p) seen ops k h = cc

op_complete :
    (a : Action) (o : Option ℤ) (seen : List ℤ) (ops : List OpIn)
    → ((s : List ℤ) → Valid s ops → validate_loop s ops ≡ none)
    → ValidOp a o seen ops
    → validate_op a o seen (rest_of ops) ≡ none
unfolding Valid
op_complete add none seen ops k (v, x, y, z) = absurd v
op_complete add (some p) seen ops k (v, x, (g, y), (f, w)) =
    rw (range-Fits p v, f) (k (p ∷ seen) (x, y, apart_fresh p seen (priorities ops) g w))
op_complete drop none seen ops k (v, x, y, z) = k seen (x, y, z)
op_complete drop (some p) seen ops k (v, x, y, z) = absurd v
op_complete rest none seen ops k (v, x, y, z) = k seen (x, y, z)
op_complete rest (some p) seen ops k (v, x, y, z) = absurd v

loop_sound : (ops : List OpIn) (seen : List ℤ) → validate_loop seen ops ≡ none → Valid seen ops
unfolding validate_loop Valid
loop_sound [] seen h = (tt, tt, tt)
loop_sound (op ∷ ops) seen h =
    let (v, x, y, z) = op_sound op.action op.priority seen ops (loop_sound ops) h in ((v, x), y, z)

loop_complete : (ops : List OpIn) (seen : List ℤ) → Valid seen ops → validate_loop seen ops ≡ none
unfolding validate_loop Valid
loop_complete [] seen h = refl
loop_complete (op ∷ ops) seen ((v, x), y, z) =
    op_complete op.action op.priority seen ops (loop_complete ops) (v, x, y, z)

all_fresh : (ps : List ℤ) → AreFresh [] ps
all_fresh [] = tt
all_fresh (p ∷ ps) = (refl, all_fresh ps)

-- The request passes exactly if each add has a priority from 1 to 20, nothing else has one, no two adds
-- have the same, and there are at most as many operations as the limit says.
pub validate_ops-passes_iff :
    (limit : ℕ) (ops : List OpIn)
    → (validate_ops limit ops ≡ none)
      ↔ (AreFitting ops × AreDistinct (priorities ops) × (length ops ≤ limit))
unfolding validate_ops Valid
validate_ops-passes_iff limit ops = (forth, back)
  where
    forth :
        validate_ops limit ops ≡ none
        → AreFitting ops × AreDistinct (priorities ops) × (length ops ≤ limit)
    forth h = elim (Option-cases (validate_loop [] ops)) [
      | inr (detail, e) ↦ cc (rw (e, validate_ops) at h)
      | inl e ↦ let (x, y, z) = loop_sound ops [] e in (x, y, ground arith)
    ]

    back :
        AreFitting ops × AreDistinct (priorities ops) × (length ops ≤ limit)
        → validate_ops limit ops ≡ none
    back (x, y, n) =
        let e = loop_complete ops [] (x, y, all_fresh (priorities ops)) in
        let f : ltb limit (length ops) ≡ false = ground arith in rw (e, validate_ops, f) refl
