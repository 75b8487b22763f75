-- ===== src/Write/Timetable/Fused.antt =====
-- What a fused time text of the school is read as.
use nsysu_crs.Common.{
  ℕ, Text, contains, ◌≡◌, refl, ap, ◌⊎◌, inl, inr, ◌&&◌, Bool, true, false, Option, none, some, [],
  ◌∷◌, all, arith, Bool-cases, ok, ◌==◌,
}
use nsysu_crs.Write.Timetable.{
  is_space, strip, strip_end, in_fused_run, day_index, strip_left, strip_right, match_fused,
  match_day, days_from_fused,
}

contains_tail : (c d : ℕ) (t : Text) → contains c (d ∷ t) ≡ true → (c ≡ d) ⊎ (contains c t ≡ true)
unfolding contains
contains_tail c d t h = elim (Bool-cases (c == d)) [
  | inl e ↦ inl (ground arith)
  | inr e ↦ inr (ground arith)
]

contains_head : (c : ℕ) (t : Text) → contains c (c ∷ t) ≡ true
unfolding contains
contains_head c t = ground arith

contains_cons_of : (c d : ℕ) (t : Text) → contains c t ≡ true → contains c (d ∷ t) ≡ true
unfolding contains
contains_cons_of c d t h = ground arith

module _ (c : ℕ) (solid : is_space c ≡ false) where
  contains-strip_left : (t : Text) → contains c t ≡ true → contains c (strip_left t) ≡ true
  unfolding strip_left
  contains-strip_left [] h = h
  contains-strip_left (d ∷ t) h = elim (Bool-cases (is_space d)) [
    | inl e ↦ rw e (elim (contains_tail c d t h) [
      | inl p ↦ cc (e, solid, ap is_space p)
      | inr k ↦ contains-strip_left t k
    ])
    | inr e ↦ rw e h
  ]

  after_tail : (d : ℕ) (r : Text) → contains c r ≡ true → contains c (strip_end d r) ≡ true
  after_tail d [] h = unfold contains in cc
  after_tail d (e ∷ r) h = contains_cons_of c d (e ∷ r) h

  at_head : (d : ℕ) (r : Text) → c ≡ d → contains c (strip_end d r) ≡ true
  at_head d [] p = rw (← p, solid) (contains_head c [])
  at_head d (e ∷ r) p = rw (← p) (contains_head c (e ∷ r))

  contains-strip_right : (t : Text) → contains c t ≡ true → contains c (strip_right t) ≡ true
  unfolding strip_right
  contains-strip_right [] h = h
  contains-strip_right (d ∷ t) h = elim (contains_tail c d t h) [
    | inl p ↦ at_head d (strip_right t) p
    | inr k ↦ after_tail d (strip_right t) (contains-strip_right t k)
  ]

-- A run with a character outside the class does not match.
run_bad :
    (c : ℕ) (run : Text)
    → in_fused_run c ≡ false
    → contains c run ≡ true
    → all in_fused_run run ≡ false
run_bad c [] b h = unfold contains in cc
run_bad c (d ∷ run) b h = elim (contains_tail c d run h) [
  | inl p ↦ rw (← p) (rw b)
  | inr k ↦ and_false (in_fused_run d) (run_bad c run b k)
]
  where
    and_false : (x : Bool) {y : Bool} → y ≡ false → (x && y) ≡ false
    and_false true h = h
    and_false false h = refl

match_bad :
    (c : ℕ) (t : Text)
    → in_fused_run c ≡ false
    → day_index c ≡ none
    → contains c t ≡ true
    → match_fused t ≡ none
unfolding match_fused
match_bad c [] b n h = refl
match_bad c (d ∷ []) b n h = refl
match_bad c (d ∷ e ∷ run) b n h = elim (contains_tail c d (e ∷ run) h) [
  | inl p ↦ rw (← p) (rw n)
  | inr k ↦ no_run (day_index d) (run_bad c (e ∷ run) b k)
]
  where
    no_run : (o : Option ℕ) → all in_fused_run (e ∷ run) ≡ false → match_day o (e ∷ run) ≡ none
    no_run none k = refl
    no_run (some day) k = rw k

-- A time text that holds the period code F has no timetable, although F is a period code: the
-- class of the pattern ends at E.
pub late_period_unread :
    (times : Text) → contains b'F' times ≡ true → days_from_fused (some times) ≡ ok none
unfolding days_from_fused
late_period_unread [] h = refl
late_period_unread (c ∷ times) h = rw (
    match_bad b'F' (strip (c ∷ times)) refl refl (
      contains-strip_right b'F' refl (strip_left (c ∷ times))
        (contains-strip_left b'F' refl (c ∷ times) h)))
