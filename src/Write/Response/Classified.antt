-- ===== src/Write/Response/Classified.antt =====
-- What a verdict of backend/app/write/response.py rests on.
use nsysu_crs.Common.{
  Text, ◌≡◌, refl, Bool, true, false, none, some, arith, inl, inr, Bool-cases, Option-cases,
}
use nsysu_crs.Write.Jobs.{Outcome, success, rejected, parse_failed}
use nsysu_crs.Write.Response.{
  Tables, success_markers, failure_markers, has_marker, clean_cell_text, fold_text, failure_section,
  classify_fragment, fragment_for_code, section_verdict, page_verdict, code_verdict,
}

-- Whether the outcome is one of a parsed reply: success, rejection, or that it cannot be parsed.
abbrev pub is_parsed : Outcome → Bool
is_parsed success = true
is_parsed rejected = true
is_parsed parse_failed = true
is_parsed _ = false

module _ (u : Tables) where
  abbrev folded : Text → Text
  folded html = fold_text u (clean_cell_text html)

  classify-success :
      (html : Text)
      → (classify_fragment u html).outcome ≡ success
      → (has_marker success_markers (folded html) ≡ true)
        × (has_marker failure_markers (folded html) ≡ false)
  unfolding classify_fragment
  classify-success html h = elim (Bool-cases (has_marker failure_markers (folded html))) [
    | inl f ↦ elim (Bool-cases (has_marker success_markers (folded html))) [
      | inl s ↦ absurd (ground arith)
      | inr s ↦ absurd (ground arith)
    ]
    | inr f ↦ elim (Bool-cases (has_marker success_markers (folded html))) [
      | inl s ↦ (s, f)
      | inr s ↦ absurd (ground arith)
    ]
  ]

  classify_parsed : (html : Text) → is_parsed (classify_fragment u html).outcome ≡ true
  unfolding classify_fragment
  classify_parsed html = ground arith

  section_parsed : (html code : Text) → is_parsed (section_verdict u html code).outcome ≡ true
  unfolding section_verdict
  section_parsed html code = ground arith

  page_parsed : (html code : Text) → is_parsed (page_verdict u html code).outcome ≡ true
  unfolding page_verdict
  page_parsed html code = elim (Option-cases (fragment_for_code html code)) [
    | inr (f, k) ↦ rw (k, is_parsed) (classify_parsed f)
    | inl k ↦ rw (k, is_parsed) refl
  ]

  with_section :
      (html code section_html : Text)
      → failure_section u html ≡ some section_html
      → code_verdict u html code ≡ section_verdict u section_html code
  unfolding code_verdict
  with_section html code section_html e = rw (e, code_verdict) refl

  without_section :
      (html code : Text)
      → failure_section u html ≡ none
      → code_verdict u html code ≡ page_verdict u html code
  unfolding code_verdict
  without_section html code e = rw (e, code_verdict) refl

  pub code_verdict_parsed : (html code : Text) → is_parsed (code_verdict u html code).outcome ≡ true
  code_verdict_parsed html code = elim (Option-cases (failure_section u html)) [
    | inr (s, e) ↦ rw (with_section html code s e) (section_parsed s code)
    | inl e ↦ rw (without_section html code e) (page_parsed html code)
  ]

  section-success : (html code : Text) → (section_verdict u html code).outcome ≡ success → ⊥
  unfolding section_verdict
  section-success html code h = elim (Option-cases (fragment_for_code html code)) [
    | inr (f, k) ↦ ground arith
    | inl k ↦ ground arith
  ]

  page-success :
      (html code : Text)
      → (page_verdict u html code).outcome ≡ success
      → (fragment : Text) × (fragment_for_code html code ≡ some fragment)
        × (has_marker success_markers (folded fragment) ≡ true)
        × (has_marker failure_markers (folded fragment) ≡ false)
  unfolding page_verdict
  page-success html code h = elim (Option-cases (fragment_for_code html code)) [
    | inr (f, k) ↦ let (s, n) = classify-success f (rw (k, page_verdict) at h) in (f, k, s, n)
    | inl k ↦ absurd (ground arith)
  ]

  -- An operation is reported as a success only if the page has no failure section, it has a
  -- fragment for the course's code, and that fragment's folded text has a success marker and no
  -- failure marker.
  pub code_verdict-success :
      (html code : Text)
      → (code_verdict u html code).outcome ≡ success
      → (failure_section u html ≡ none)
        × (fragment : Text) × (fragment_for_code html code ≡ some fragment)
        × (has_marker success_markers (fold_text u (clean_cell_text fragment)) ≡ true)
        × (has_marker failure_markers (fold_text u (clean_cell_text fragment)) ≡ false)
  code_verdict-success html code h = elim (Option-cases (failure_section u html)) [
    | inr (s, e) ↦ absurd (section-success s code (rw (with_section html code s e) at h))
    | inl e ↦
        let (f, k, s, n) = page-success html code (rw (without_section html code e) at h) in
        (e, f, k, s, n)
  ]
