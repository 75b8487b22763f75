-- ===== src/Stage.antt =====
-- backend/app/stage/detect.py: the stage of the course selection, from the school's Studfun page. The
-- HTML parser, the URL parser and the query's parameters are parameters.
pub mod Probe
use nsysu_crs.Common.{
  ℕ, zero, suc, get_elem?, Text, codes, text_eq, ◌≡◌, refl, Bool, true, false, not, ◌&&◌, Option,
  none, some, List, [], ◌∷◌, map, any, all, if◌then◌else◌, arith, ◌⊎◌, inl, inr, Bool-cases,
  Option-cases,
}
use nsysu_crs.Common.Search.{occurs, to_lower}

pub data WriteStage : Type 0 where
  add_drop first_round closed unknown withdrawal : WriteStage

pub data Variant : Type 0 where
  ssform stage5 : Variant

pub data Reason : Type 0 where
  ssform_link stage5_link closed_heading closed_readonly_links drift_no_marker withdrawal_link :
      Reason

pub record StudfunDetection (Params : Type 0) : Type 0 where
  pub stage : WriteStage
  pub variant : Option Variant
  pub form_href : Option Text
  pub params : Option Params
  pub reason : Reason

-- The `href` of each `<a>` (empty where it has none), the text of each, and the visible text.
pub record Studfun (Params : Type 0) : Type 0 where
  pub hrefs : Text → List Text
  pub anchor_texts : Text → List Text
  pub visible : Text → Text
  pub url_path : Text → Text
  pub params_from : Text → Params

abbrev pub expired_markers : List Text
expired_markers = codes "請先登錄" ∷ codes "請先登入" ∷ codes "SPassword" ∷ codes "Studcheck_sso2" ∷ []

abbrev pub readonly_link_hints : List Text
readonly_link_hints =
    codes "querys.asp" ∷ codes "query/" ∷ codes "tools/" ∷ codes "sys_prs" ∷ codes "exit_sys" ∷ []

-- `text.endswith(suffix)`
unfoldable pub ends_with : Text → Text → Bool
ends_with suffix [] = text_eq suffix []
ends_with suffix (c ∷ t) = if text_eq suffix (c ∷ t) then true else ends_with suffix t

abbrev pub stage_of : Variant → WriteStage
stage_of ssform = add_drop
stage_of stage5 = first_round

abbrev pub reason_of : Variant → Reason
reason_of ssform = ssform_link
reason_of stage5 = stage5_link

unfoldable pub is_readonly_family : Text → Bool
is_readonly_family href = any (λ hint. occurs hint href) readonly_link_hints

abbrev pub is_empty : Text → Bool
is_empty [] = true
is_empty (c ∷ t) = false

abbrev pub no_links : List Text → Bool
no_links [] = true
no_links (h ∷ hs) = false

abbrev pub keep_filled : List Text → List Text
keep_filled [] = []
keep_filled (h ∷ hs) = let rest = keep_filled hs in if is_empty h then rest else h ∷ rest

module _ {Params : Type 0} (html : Studfun Params) where
  unfoldable pub write_variant : Text → Option Variant
  write_variant href =
      let path = map to_lower (html.url_path href) in
      if ends_with (codes "ssform.asp") path
      then some ssform
      else if ends_with (codes "stage5/saddstage5.asp") path
      then some stage5
      else none

  -- The loop over the links: the first link of a write form.
  unfoldable pub first_form : List Text → Option (Text × Variant)
  first_form [] = none
  first_form (href ∷ hrefs) =
      let later = first_form hrefs in
      elim (write_variant href) [ none ↦ later | some variant ↦ some (href, variant) ]

  abbrev pub open_form : Text × Variant → StudfunDetection Params
  open_form (href, variant) = record {
    stage = stage_of variant;
    variant = some variant;
    form_href = some href;
    params = some (html.params_from href);
    reason = reason_of variant;
  }

  abbrev pub shut : WriteStage → Reason → StudfunDetection Params
  shut stage reason = record {
    stage = stage;
    variant = none;
    form_href = none;
    params = none;
    reason = reason;
  }

  abbrev pub without_form : Text → StudfunDetection Params
  without_form page =
      let hrefs = keep_filled (html.hrefs page) in
      if any (occurs (codes "棄選")) (html.anchor_texts page)
      then shut withdrawal withdrawal_link
      else if occurs (codes "選課關閉") (html.visible page)
      then shut closed closed_heading
      else if not (no_links hrefs) && all is_readonly_family hrefs
      then shut closed closed_readonly_links
      else shut unknown drift_no_marker

  abbrev pub detected : Option (Text × Variant) → Text → StudfunDetection Params
  detected (some found) page = open_form found
  detected none page = without_form page

  -- `none` is SelcrsSessionExpired.
  unfoldable pub parse_studfun : Text → Option (StudfunDetection Params)
  parse_studfun page =
      if any (λ marker. occurs marker page) expired_markers
      then none
      else some (detected (first_form (keep_filled (html.hrefs page))) page)

unfoldable pub is_writable : {Params : Type 0} → StudfunDetection Params → Bool → Bool → Bool
is_writable detection need_confirmation first_round_write =
    if need_confirmation then false else elim detection.stage [
      | add_drop ↦ true
      | first_round ↦ first_round_write
      | closed ↦ false
      | unknown ↦ false
      | withdrawal ↦ false
    ]

unfoldable pub detect_need_confirmation : Text → Bool
detect_need_confirmation form_html =
    occurs (codes "value=\"送出\"") form_html
    && occurs
        (codes
          "onclick=\"document.getElementById('step_id').innerHTML='&lt;input type=hidden name=step value=2 &gt;';document.all['send'].click();\"")
        form_html

-- A link that is not empty is one of the page's.
keep_filled-member :
    (hrefs : List Text) (i : ℕ) (href : Text)
    → get_elem? (keep_filled hrefs) i ≡ some href
    → (j : ℕ) × (get_elem? hrefs j ≡ some href)
keep_filled-member [] i href h = cc
keep_filled-member ([] ∷ hrefs) i href h =
    let (j, m) = keep_filled-member hrefs i href h in (suc j, m)
keep_filled-member ((c ∷ t) ∷ hrefs) zero href h = (0, h)
keep_filled-member ((c ∷ t) ∷ hrefs) (suc i) href h =
    let (j, m) = keep_filled-member hrefs i href h in (suc j, m)

module _ {Params : Type 0} (html : Studfun Params) where
  without_form_shut :
      (page : Text) (first_round_write : Bool)
      → is_writable (without_form html page) false first_round_write ≡ false
  unfolding is_writable
  without_form_shut page first_round_write = ground arith

  first_form-member :
      (hrefs : List Text) (found : Text × Variant)
      → first_form html hrefs ≡ some found
      → (i : ℕ) × (get_elem? hrefs i ≡ some found.0)
  unfolding first_form
  first_form-member [] found h = cc
  first_form-member (href ∷ hrefs) found h = elim (Option-cases (write_variant html href)) [
    | inl e ↦ let (i, m) = first_form-member hrefs found (rw (e, first_form) at h) in (suc i, m)
    | inr (v, e) ↦ (0, ground (arith, e))
  ]

  form_of :
      (hrefs : List Text) (found : Text × Variant)
      → first_form html hrefs ≡ some found
      → write_variant html found.0 ≡ some found.1
  unfolding first_form
  form_of [] found h = cc
  form_of (href ∷ hrefs) found h = elim (Option-cases (write_variant html href)) [
    | inl e ↦ form_of hrefs found (rw (e, first_form) at h)
    | inr (v, e) ↦ ground (arith, e)
  ]

  first_round_on :
      (found : Text × Variant) (first_round_write : Bool)
      → is_writable (open_form html found) false first_round_write ≡ true
      → (found.1 ≡ ssform) ⊎ (first_round_write ≡ true)
  unfolding is_writable
  first_round_on (href, ssform) first_round_write h = inl refl
  first_round_on (href, stage5) first_round_write h = inr h

  detection_of :
      (page : Text) (detection : StudfunDetection Params)
      → parse_studfun html page ≡ some detection
      → detection ≡ detected html (first_form html (keep_filled (html.hrefs page))) page
  unfolding parse_studfun
  detection_of page detection h =
      elim (Bool-cases (any (λ marker. occurs marker page) expired_markers)) [
        | inl g ↦ cc (rw g at h)
        | inr g ↦ cc (rw g at h)
      ]

  with_form :
      (page : Text) (detection : StudfunDetection Params) (first_round_write : Bool)
      (found : Option (Text × Variant))
      → first_form html (keep_filled (html.hrefs page)) ≡ found
      → detection ≡ detected html found page
      → is_writable detection false first_round_write ≡ true
      → (i : ℕ) × (href : Text) × (variant : Variant) × (get_elem? (html.hrefs page) i ≡ some href)
        × (detection.form_href ≡ some href)
        × (write_variant html href ≡ some variant)
        × ((variant ≡ ssform) ⊎ (first_round_write ≡ true))
  with_form page detection first_round_write none e h k =
      cc (without_form_shut page first_round_write, rw h at k)
  with_form page detection first_round_write (some f) e h k =
      let (i, m) = first_form-member (keep_filled (html.hrefs page)) f e in
      let (j, n) = keep_filled-member (html.hrefs page) i f.0 m in
      (
        j,
        f.0,
        f.1,
        n,
        rw h refl,
        form_of (keep_filled (html.hrefs page)) f e,
        first_round_on f first_round_write (rw h at k),
      )

  -- A page is writable only if no confirmation is pending, one of its links, which is the
  -- detected one, is that of a write form, and, for the form of the first round, writing in the first
  -- round is switched on.
  pub writable_form :
      (page : Text) (detection : StudfunDetection Params)
      (need_confirmation first_round_write : Bool)
      → parse_studfun html page ≡ some detection
      → is_writable detection need_confirmation first_round_write ≡ true
      → (need_confirmation ≡ false)
        × (i : ℕ) × (href : Text) × (variant : Variant) × (get_elem? (html.hrefs page) i
            ≡ some href)
        × (detection.form_href ≡ some href)
        × (write_variant html href ≡ some variant)
        × ((variant ≡ ssform) ⊎ (first_round_write ≡ true))
  unfolding parse_studfun is_writable
  writable_form page detection true first_round_write h k = cc
  writable_form page detection false first_round_write h k =
      let (i, href, variant, m, e, f, g) =
        with_form page detection first_round_write (first_form html (keep_filled (html.hrefs page)))
          refl (detection_of page detection h) k in
      (refl, i, href, variant, m, e, f, g)
