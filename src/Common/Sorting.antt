-- ===== src/Common/Sorting.antt =====
-- Python's `sorted(items, key=...)`, which is stable, and the removal of neighbours with one key.
-- Keys are texts: a key tuple that begins with a number is the text with that number in front.
use mathlib.Core.Path.{◌≡◌, refl, ap, sym, ◌∙◌}
use mathlib.Core.Logic.{inl, inr}
use mathlib.Core.Bool.{true, false}
use mathlib.Core.List.{List, [], ◌∷◌}
use mathlib.Core.Option.{Option, none, some}
use native.Mathlib.Omega.{arith}
use nsysu_crs.Common.Lists.{All}
use nsysu_crs.Common.Tests.{if◌then◌else◌, Bool-cases}
use nsysu_crs.Common.Characters.{
  Text, text_eq, text_lt, text_eq_refl, text_eq_iff, text_lt_irrefl, text_lt_trans, text_lt_total,
}

module _ {ℓ} {A : Type ℓ} (key : A → Text) where
  -- An item goes before the first one whose key is not smaller: equal keys keep their order.
  unfoldable pub insert_by : A → List A → List A
  insert_by x [] = x ∷ []
  insert_by x (y ∷ ys) =
      let later = y ∷ insert_by x ys in if text_lt (key y) (key x) then later else x ∷ y ∷ ys

  unfoldable pub sort_by : List A → List A
  sort_by [] = []
  sort_by (x ∷ xs) = insert_by x (sort_by xs)

  -- The first item with the given key.
  unfoldable pub find_by : Text → List A → Option A
  find_by k [] = none
  find_by k (x ∷ xs) = if text_eq (key x) k then some x else find_by k xs

  -- Drops each item whose key is that of the last one kept.
  unfoldable pub collapse_after : A → List A → List A
  collapse_after last [] = []
  collapse_after last (x ∷ xs) =
      let kept = x ∷ collapse_after x xs in
      if text_eq (key last) (key x) then collapse_after last xs else kept

  abbrev pub HeadFits : A → List A → Type 0
  HeadFits x [] = Unit
  HeadFits x (y ∷ ys) = text_lt (key y) (key x) ≡ false

  abbrev pub IsSorted : List A → Type 0
  IsSorted [] = Unit
  IsSorted (x ∷ xs) = HeadFits x xs × IsSorted xs

  abbrev pub HeadAbove : Text → List A → Type 0
  HeadAbove k [] = Unit
  HeadAbove k (y ∷ ys) = text_lt k (key y) ≡ true

  -- Each key is smaller than the next, so no key stands twice.
  abbrev pub IsIncreasing : List A → Type 0
  IsIncreasing [] = Unit
  IsIncreasing (x ∷ xs) = HeadAbove (key x) xs × IsIncreasing xs

module _ {ℓ} {A : Type ℓ} (key : A → Text) where
  find-insert :
      (k : Text) (x : A) (l : List A)
      → find_by key k (insert_by key x l) ≡ (if text_eq (key x) k then some x else find_by key k l)
  unfolding find_by insert_by
  find-insert k x [] = refl
  find-insert k x (y ∷ ys) =
      ground
        (arith, find-insert k x ys, text_eq_iff (key x) k, text_eq_iff (key y) k, text_lt_irrefl k)

  -- A sort hides no item and shows no other one first.
  pub find-sort : (k : Text) (l : List A) → find_by key k (sort_by key l) ≡ find_by key k l
  unfolding find_by sort_by
  find-sort k [] = refl
  find-sort k (x ∷ xs) = rw find-insert (rw (find-sort k xs))

  HeadFits-insert :
      (y x : A) (l : List A)
      → text_lt (key x) (key y) ≡ false
      → HeadFits key y l
      → HeadFits key y (insert_by key x l)
  unfolding insert_by
  HeadFits-insert y x [] h k = h
  HeadFits-insert y x (z ∷ zs) h k = elim (Bool-cases (text_lt (key z) (key x))) [
    | inl e ↦ rw e k
    | inr e ↦ rw e h
  ]

  not_lt_of_lt : (x y : Text) → text_lt x y ≡ true → text_lt y x ≡ false
  not_lt_of_lt x y h = ground (arith, text_lt_trans x y x, text_lt_irrefl x)

  insert-IsSorted : (x : A) (l : List A) → IsSorted key l → IsSorted key (insert_by key x l)
  unfolding insert_by
  insert-IsSorted x [] h = (tt, tt)
  insert-IsSorted x (y ∷ ys) h = elim (Bool-cases (text_lt (key y) (key x))) [
    | inl e ↦
        rw e (HeadFits-insert y x ys (not_lt_of_lt (key y) (key x) e) h.0, insert-IsSorted x ys h.1)
    | inr e ↦ rw e (e, h)
  ]

  pub sort-IsSorted : (l : List A) → IsSorted key (sort_by key l)
  unfolding sort_by
  sort-IsSorted [] = tt
  sort-IsSorted (x ∷ xs) = insert-IsSorted x (sort_by key xs) (sort-IsSorted xs)

  HeadAbove-collapse :
      (x : A) (l : List A)
      → HeadFits key x l
      → IsSorted key l
      → HeadAbove key (key x) (collapse_after key x l) × IsIncreasing key (collapse_after key x l)
  unfolding collapse_after
  HeadAbove-collapse x [] h s = (tt, tt)
  HeadAbove-collapse x (y ∷ ys) h s = elim (Bool-cases (text_eq (key x) (key y))) [
    | inl e ↦ rw e (
        HeadAbove-collapse x ys (fits_of_eq y (sym ((text_eq_iff (key x) (key y)).0 e)) ys s.0) s.1)
    | inr e ↦
        let above : text_lt (key x) (key y) ≡ true =
          ground (arith, text_lt_total (key x) (key y), text_eq_iff (key x) (key y)) in
        rw e (above, HeadAbove-collapse y ys s.0 s.1)
  ]
    where
      fits_of_eq : (y : A) → key y ≡ key x → (l : List A) → HeadFits key y l → HeadFits key x l
      fits_of_eq y p [] h = tt
      fits_of_eq y p (z ∷ zs) h = rw (← p) h

  pub collapse-IsIncreasing :
      (x : A) (l : List A) → IsSorted key (x ∷ l) → IsIncreasing key (x ∷ collapse_after key x l)
  collapse-IsIncreasing x l h = HeadAbove-collapse x l h.0 h.1

  pub find-collapse :
      (k : Text) (x : A) (l : List A)
      → find_by key k (x ∷ collapse_after key x l) ≡ find_by key k (x ∷ l)
  unfolding find_by collapse_after
  find-collapse k x [] = refl
  find-collapse k x (y ∷ ys) = ground (
    arith,
    find-collapse k x ys,
    find-collapse k y ys,
    text_eq_iff (key x) (key y),
    text_eq_iff (key x) k,
    text_eq_iff (key y) k,
  )

  pub find_below :
      (k : Text) (l : List A) → HeadAbove key k l → IsIncreasing key l → find_by key k l ≡ none
  unfolding find_by
  find_below k [] h s = refl
  find_below k (x ∷ xs) h s =
      ground (arith, find_below k xs (step xs s.0) s.1, text_eq_iff (key x) k, text_lt_irrefl k)
    where
      step : (l : List A) → HeadAbove key (key x) l → HeadAbove key k l
      step [] a = tt
      step (y ∷ ys) a = text_lt_trans k (key x) (key y) h a

  find_self : (x : A) (l : List A) → find_by key (key x) (x ∷ l) ≡ some x
  unfolding find_by
  find_self x l = rw text_eq_refl

  find_skip :
      (k : Text) (x : A) (l : List A)
      → text_eq (key x) k ≡ false
      → find_by key k (x ∷ l) ≡ find_by key k l
  unfolding find_by
  find_skip k x l h = rw h

  above_of_lt :
      (k : Text) (x : A) (l : List A)
      → text_lt k (key x) ≡ true
      → IsIncreasing key (x ∷ l)
      → find_by key k (x ∷ l) ≡ none
  above_of_lt k x l h s = find_below k (x ∷ l) h s

  key_of_find :
      (x y : A) (xs ys : List A)
      → IsIncreasing key (x ∷ xs)
      → IsIncreasing key (y ∷ ys)
      → ((k : Text) → find_by key k (x ∷ xs) ≡ find_by key k (y ∷ ys))
      → x ≡ y
  unfolding find_by
  key_of_find x y xs ys sx sy h = ground (
    arith,
    h (key x),
    h (key y),
    find_self x xs,
    find_self y ys,
    above_of_lt (key x) y ys,
    above_of_lt (key y) x xs,
    text_lt_total (key x) (key y),
    text_eq_iff (key y) (key x),
  )

  find_tail :
      (x : A) (xs ys : List A)
      → IsIncreasing key (x ∷ xs)
      → IsIncreasing key (x ∷ ys)
      → ((k : Text) → find_by key k (x ∷ xs) ≡ find_by key k (x ∷ ys))
      → (k : Text) → find_by key k xs ≡ find_by key k ys
  find_tail x xs ys sx sy h k = elim (Bool-cases (text_eq (key x) k)) [
    | inl e ↦
        let p = (text_eq_iff (key x) k).0 e in
        rw (← p) (find_below (key x) xs sx.0 sx.1 ∙ sym (find_below (key x) ys sy.0 sy.1))
    | inr e ↦ sym (find_skip k x xs e) ∙ h k ∙ find_skip k x ys e
  ]

  -- Lists in which each key is smaller than the next are equal if they hold the same item, or
  -- none, under each key.
  pub increasing_ext :
      (l m : List A)
      → IsIncreasing key l
      → IsIncreasing key m
      → ((k : Text) → find_by key k l ≡ find_by key k m)
      → l ≡ m
  increasing_ext [] [] sl sm h = refl
  increasing_ext [] (y ∷ ys) sl sm h = unfold find_by in cc (h (key y), find_self y ys)
  increasing_ext (x ∷ xs) [] sl sm h = unfold find_by in cc (h (key x), find_self x xs)
  increasing_ext (x ∷ xs) (y ∷ ys) sl sm h =
      let e = key_of_find x y xs ys sl sm h in
      let sm' : IsIncreasing key (x ∷ ys) = rw e sm in
      let h' : (k : Text) → find_by key k (x ∷ xs) ≡ find_by key k (x ∷ ys) =
        λ k. h k ∙ ap (λ (t : A). find_by key k (t ∷ ys)) (sym e) in
      cc (e, increasing_ext xs ys sl.1 sm.1 (find_tail x xs ys sl sm' h'))

module _ {ℓ κ} {A : Type ℓ} (key : A → Text) (P : A → Type κ) where
  All-insert : (x : A) (l : List A) → P x → All P l → All P (insert_by key x l)
  unfolding insert_by
  All-insert x [] p h = (p, tt)
  All-insert x (y ∷ ys) p h = elim (Bool-cases (text_lt (key y) (key x))) [
    | inl e ↦ rw e (h.0, All-insert x ys p h.1)
    | inr e ↦ rw e (p, h)
  ]

  pub All-sort : (l : List A) → All P l → All P (sort_by key l)
  unfolding sort_by
  All-sort [] h = tt
  All-sort (x ∷ xs) h = All-insert x (sort_by key xs) h.0 (All-sort xs h.1)

  pub All-collapse : (x : A) (l : List A) → All P l → All P (collapse_after key x l)
  unfolding collapse_after
  All-collapse x [] h = tt
  All-collapse x (y ∷ ys) h = elim (Bool-cases (text_eq (key x) (key y))) [
    | inl e ↦ rw e (All-collapse x ys h.1)
    | inr e ↦ rw e (h.0, All-collapse y ys h.1)
  ]
