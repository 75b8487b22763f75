-- ===== src/Write/Timetable/Clash.antt =====
-- Two timetables clash exactly when some weekday has a period of both.
use nsysu_crs.Common.{
  ℕ, zero, suc, ◌+◌, ◌≤◌, ◌<◌, Text, contains, ◌≡◌, ◌↔◌, ◌⊎◌, inl, inr, refl, ap, ◌∙◌, sym, Bool,
  true, false, ◌||◌, List, [], ◌∷◌, map, all, arith, Bool-cases, if◌then◌else◌, Result, ok, ◌>>=◌,
  >>=-eq-ok, ◌==◌,
}
use nsysu_crs.Write.Timetable.{
  to_upper, is_period, set_add, parse_day_loop, parse_day_string, slot, shares, conflict_day,
  conflict_loop, is_conflict_days, UnknownPeriodCode,
}

-- Every character of the slot is a period code.
abbrev pub IsReadable : Text → Type 0
IsReadable raw = all is_period raw ≡ true

-- The timetable has the period `c` on the given weekday (0 is Monday).
abbrev pub Meets : List Text → ℕ → ℕ → Type 0
Meets class_time day c = contains c (map to_upper (slot class_time day)) ≡ true

abbrev pub IsReadableWeek : List Text → Type 0
IsReadableWeek class_time = (day : ℕ) → day < 7 → IsReadable (slot class_time day)

add_all : Text → Text → Text
add_all acc [] = acc
add_all acc (ch ∷ raw) = add_all (set_add (to_upper ch) acc) raw

or_swap : (x y z : Bool) → ((x || y) || z) ≡ (y || (x || z))
or_swap x y z = ground arith

contains_cons : (c u : ℕ) (s : Text) → contains c (u ∷ s) ≡ (c == u || contains c s)
unfolding contains
contains_cons c u s = refl

contains-set_add : (c u : ℕ) (s : Text) → contains c (set_add u s) ≡ (c == u || contains c s)
contains-set_add c u s = elim (Bool-cases (c == u)) [
  | inl e ↦ same e
  | inr e ↦ ground (arith, contains_cons c u s)
]
  where
    same : (c == u) ≡ true → contains c (set_add u s) ≡ (c == u || contains c s)
    same e = let p : c ≡ u = ground arith in rw p (ground (arith, contains_cons u u s))

contains-add_all :
    (c : ℕ) (acc raw : Text)
    → contains c (add_all acc raw) ≡ (contains c acc || contains c (map to_upper raw))
unfolding add_all
contains-add_all c acc [] = unfold contains in ground arith
contains-add_all c acc (ch ∷ raw) =
    contains-add_all c (set_add (to_upper ch) acc) raw
    ∙ regroup (contains-set_add c (to_upper ch) acc)
        (contains_cons c (to_upper ch) (map to_upper raw))
  where
    regroup :
        contains c (set_add (to_upper ch) acc) ≡ (c == to_upper ch || contains c acc)
        → contains c (to_upper ch ∷ map to_upper raw)
          ≡ (c == to_upper ch || contains c (map to_upper raw))
        → (contains c (set_add (to_upper ch) acc) || contains c (map to_upper raw))
          ≡ (contains c acc || contains c (to_upper ch ∷ map to_upper raw))
    regroup p q =
        rw (p, q) (or_swap (c == to_upper ch) (contains c acc) (contains c (map to_upper raw)))

readable_parse : (acc raw : Text) → IsReadable raw → parse_day_loop acc raw ≡ ok (add_all acc raw)
unfolding parse_day_loop add_all
readable_parse acc [] h = refl
readable_parse acc (ch ∷ raw) h = ground (arith, readable_parse (set_add (to_upper ch) acc) raw)

parse-IsReadable :
    (acc raw : Text) {s : Text}
    → parse_day_loop acc raw ≡ ok s
    → IsReadable raw × (add_all acc raw ≡ s)
unfolding parse_day_loop add_all
parse-IsReadable acc [] h = (refl, ground arith)
parse-IsReadable acc (ch ∷ raw) h = elim (Bool-cases (is_period ch)) [
  | inl e ↦ let (r, p) = parse-IsReadable (set_add (to_upper ch) acc) raw (rw e at h) in (rw e r, p)
  | inr e ↦ cc (rw e at h)
]

contains_self : (c : ℕ) (s : Text) → contains c (c ∷ s) ≡ true
unfolding contains
contains_self c s = ground arith

shares_witness :
    (s t : Text) → shares s t ≡ true → (c : ℕ) × (contains c s ≡ true) × (contains c t ≡ true)
shares_witness [] t h = cc
shares_witness (d ∷ s) t h = elim (Bool-cases (contains d t)) [
  | inl e ↦ (d, contains_self d s, e)
  | inr e ↦
      let (c, p, q) = shares_witness s t (rw e at h) in (c, ground (arith, contains_cons c d s), q)
]

shares_intro : (c : ℕ) (s t : Text) → contains c s ≡ true → contains c t ≡ true → shares s t ≡ true
shares_intro c [] t p q = unfold contains in cc
shares_intro c (d ∷ s) t p q = elim (Bool-cases (c == d)) [
  | inl e ↦ same e
  | inr e ↦ ground (arith, contains_cons c d s, shares_intro c s t)
]
  where
    same : (c == d) ≡ true → shares (d ∷ s) t ≡ true
    same e = let r : c ≡ d = ground arith in rw (← r) (ground arith)

-- The characters of a parsed slot are the upper case ones of the text.
contains-parse :
    (c : ℕ) (raw : Text) {s : Text}
    → parse_day_string raw ≡ ok s
    → contains c s ≡ contains c (map to_upper raw)
unfolding parse_day_string
contains-parse c raw {s} h =
    let (_, e) = parse-IsReadable [] raw h in rw (← e) (contains-add_all c [] raw ∙ none_before)
  where
    none_before : (contains c [] || contains c (map to_upper raw)) ≡ contains c (map to_upper raw)
    none_before = unfold contains in refl

abbrev SharedPeriod : Text → Text → Type 0
SharedPeriod ra rb =
    (c : ℕ) × (contains c (map to_upper ra) ≡ true) × (contains c (map to_upper rb) ≡ true)

shared_of_parse :
    (ra rb : Text) {sa sb : Text}
    → parse_day_string ra ≡ ok sa
    → parse_day_string rb ≡ ok sb
    → shares sa sb ≡ true
    → SharedPeriod ra rb
shared_of_parse ra rb {sa} {sb} pa pb h =
    let (c, x, y) = shares_witness sa sb h in
    (c, sym (contains-parse c ra pa) ∙ x, sym (contains-parse c rb pb) ∙ y)

day_true :
    (ra rb : Text) (later : Result UnknownPeriodCode Bool)
    → conflict_day ra rb later ≡ ok true
    → SharedPeriod ra rb ⊎ (later ≡ ok true)
unfolding conflict_day
day_true ra rb later h = let (sa, pa, k) = >>=-eq-ok (parse_day_string ra) _ h in go sa pa k
  where
    both :
        (sa sb : Text)
        → parse_day_string ra ≡ ok sa
        → parse_day_string rb ≡ ok sb
        → (if shares sa sb then ok true else later) ≡ ok true
        → SharedPeriod ra rb ⊎ (later ≡ ok true)
    both sa sb pa pb k = elim (Bool-cases (shares sa sb)) [
      | inl e ↦ inl (shared_of_parse ra rb pa pb e)
      | inr e ↦ inr (rw e at k)
    ]

    go :
        (sa : Text)
        → parse_day_string ra ≡ ok sa
        → (elim sa [
          | [] ↦ later
          | c ∷ cs ↦ parse_day_string rb >>= λ sb. if shares (c ∷ cs) sb then ok true else later
        ])
          ≡ ok true
        → SharedPeriod ra rb ⊎ (later ≡ ok true)
    go [] pa k = inr k
    go (c ∷ cs) pa k =
        let (sb, pb, k') = >>=-eq-ok (parse_day_string rb) _ k in both (c ∷ cs) sb pa pb k'

day_value :
    (ra rb : Text) (later : Result UnknownPeriodCode Bool) (sa sb : Text)
    → parse_day_string ra ≡ ok sa
    → parse_day_string rb ≡ ok sb
    → conflict_day ra rb later ≡ (if shares sa sb then ok true else later)
unfolding conflict_day
day_value ra rb later [] sb pa pb = rw pa refl
day_value ra rb later (c ∷ cs) sb pa pb = rw pa (rw pb refl)

parse_of_readable : (raw : Text) → IsReadable raw → parse_day_string raw ≡ ok (add_all [] raw)
unfolding parse_day_string
parse_of_readable raw h = readable_parse [] raw h

loop_true :
    (n day : ℕ) (a b : List Text)
    → conflict_loop n day a b ≡ ok true
    → (d : ℕ) × (d < day + n) × SharedPeriod (slot a d) (slot b d)
unfolding conflict_loop
loop_true zero day a b h = cc
loop_true (suc n) day a b h =
    elim (day_true (slot a day) (slot b day) (conflict_loop n (suc day) a b) h) [
      | inl found ↦ (day, omega arith, found)
      | inr later ↦
          let (d, below, found) = loop_true n (suc day) a b later in (d, omega arith, found)
    ]

ok_injective : {r s : Bool} → ◌≡◌ {A = Result UnknownPeriodCode Bool} (ok r) (ok s) → r ≡ s
ok_injective h = cc

module _ (a b : List Text) (ra : IsReadableWeek a) (rb : IsReadableWeek b) where
  day_step :
      (day : ℕ) (later : Result UnknownPeriodCode Bool)
      → day < 7
      → conflict_day (slot a day) (slot b day) later
        ≡ (if shares (add_all [] (slot a day)) (add_all [] (slot b day)) then ok true else later)
  day_step day later h =
      day_value (slot a day) (slot b day) later (add_all [] (slot a day)) (add_all [] (slot b day))
        (parse_of_readable (slot a day) (ra day h)) (parse_of_readable (slot b day) (rb day h))

  loop_total : (n day : ℕ) → day + n ≤ 7 → (r : Bool) × (conflict_loop n day a b ≡ ok r)
  unfolding conflict_loop
  loop_total zero day h = (false, refl)
  loop_total (suc n) day h =
      let (r, e) = loop_total n (suc day) (omega arith) in
      elim (Bool-cases (shares (add_all [] (slot a day)) (add_all [] (slot b day)))) [
        | inl s ↦ (true, day_step day (conflict_loop n (suc day) a b) (omega arith) ∙ rw s)
        | inr s ↦ (r, day_step day (conflict_loop n (suc day) a b) (omega arith) ∙ rw s e)
      ]

  shared_step :
      (d c : ℕ)
      → d < 7
      → Meets a d c
      → Meets b d c
      → shares (add_all [] (slot a d)) (add_all [] (slot b d)) ≡ true
  shared_step d c h ma mb =
      shares_intro c (add_all [] (slot a d)) (add_all [] (slot b d))
        (contains-parse c (slot a d) (parse_of_readable (slot a d) (ra d h)) ∙ ma)
        (contains-parse c (slot b d) (parse_of_readable (slot b d) (rb d h)) ∙ mb)

  loop_finds :
      (n day d c : ℕ)
      → day + n ≤ 7
      → day ≤ d
      → d < day + n
      → Meets a d c
      → Meets b d c
      → conflict_loop n day a b ≡ ok true
  unfolding conflict_loop
  loop_finds zero day d c h lo hi ma mb = absurd (omega arith)
  loop_finds (suc n) day d c h lo hi ma mb = elim (Bool-cases (day == d)) [
    | inl e ↦
        let p : d ≡ day = ground arith in
        day_step day (conflict_loop n (suc day) a b) (omega arith)
        ∙ rw (← p) (rw (shared_step d c (omega arith) ma mb))
    | inr e ↦
        let rest = loop_finds n (suc day) d c (omega arith) (ground arith) (omega arith) ma mb in
        day_step day (conflict_loop n (suc day) a b) (omega arith) ∙ ground (arith, rest)
  ]

-- The test says yes only if some weekday has a period of both timetables, also where a slot of one
-- of them is not readable.
pub conflict_sound :
    (a b : List Text)
    → is_conflict_days a b ≡ ok true
    → (d : ℕ) × (d < 7) × (c : ℕ) × Meets a d c × Meets b d c
unfolding is_conflict_days
conflict_sound a b h =
    let (d, below, found) = loop_true 7 0 a b h in
    let (c, ma, mb) = found in (d, omega arith, c, ma, mb)

-- On timetables of period codes the clash test returns, and says yes exactly when some weekday has
-- a period of both.
pub conflict_iff :
    (a b : List Text)
    → IsReadableWeek a
    → IsReadableWeek b
    → (r : Bool) × (is_conflict_days a b ≡ ok r)
      × ((r ≡ true) ↔ ((d : ℕ) × (d < 7) × (c : ℕ) × Meets a d c × Meets b d c))
unfolding is_conflict_days
conflict_iff a b ra rb =
    let (r, e) = loop_total a b ra rb 7 0 (omega arith) in
    (
      r,
      e,
      (
        λ t. conflict_sound a b (e ∙ ap ok t),
        λ w.
            let (d, h, c, ma, mb) = w in
            ok_injective (
              sym e ∙ loop_finds a b ra rb 7 0 d c (omega arith) (omega arith) (omega arith) ma mb),
      ),
    )

-- On timetables of period codes the clash test does not depend on which of the two is given first.
pub conflict_comm :
    (a b : List Text)
    → IsReadableWeek a
    → IsReadableWeek b
    → is_conflict_days a b ≡ is_conflict_days b a
conflict_comm a b ra rb =
    let (r, e, f) = conflict_iff a b ra rb in
    let (s, e', g) = conflict_iff b a rb ra in
    e ∙ ap ok (Bool_ext r s (λ t. g.1 (turn a b (f.0 t))) (λ t. f.1 (turn b a (g.0 t)))) ∙ sym e'
  where
    turn :
        (x y : List Text)
        → ((d : ℕ) × (d < 7) × (c : ℕ) × Meets x d c × Meets y d c)
        → ((d : ℕ) × (d < 7) × (c : ℕ) × Meets y d c × Meets x d c)
    turn x y (d, h, c, mx, my) = (d, h, c, my, mx)

    Bool_ext : (r s : Bool) → (r ≡ true → s ≡ true) → (s ≡ true → r ≡ true) → r ≡ s
    Bool_ext true s h k = sym (h refl)
    Bool_ext false true h k = k refl
    Bool_ext false false h k = refl
