-- ===== src/Write/Response.antt =====
-- backend/app/write/response.py: the verdicts in the school's reply to a submission.
mod Fragments
pub mod Classified
unfoldable pub use Fragments.{
  strip_tags, clean_cell_text, row_bodies, block_names, block_lines, fragment_for_code,
}
use nsysu_crs.Common.{
  ℕ, zero, suc, ◌+◌, ◌-◌, Text, codes, Bool, true, false, not, ◌&&◌, ◌||◌, Option, none, some, List,
  [], ◌∷◌, ◌++◌, any, take, first, length, leb, ltb, ◌==◌, if◌then◌else◌, String, keep, map,
}
use nsysu_crs.Common.Search.{
  after_prefix, after_prefix_ci, from_first, occurs, to_bracket, ascii_digit, span,
}
use nsysu_crs.Common.Split.{split_on}
use nsysu_crs.Write.Jobs.{Outcome, success, rejected, parse_failed}
use nsysu_crs.Write.Timetable.{is_space, strip}

abbrev pub excerpt_limit : ℕ
excerpt_limit = 500

abbrev pub session_bounce_markers : List Text
session_bounce_markers =
    codes "請先登錄" ∷ codes "請先登入" ∷ codes "SPassword" ∷ codes "Studcheck_sso2" ∷ []

abbrev pub failure_section_header : Text
failure_section_header = codes "【加退選失敗課程清單】"

abbrev pub success_markers : List Text
success_markers = codes "加選成功" ∷ codes "退選成功" ∷ codes "登記成功" ∷ codes "選課成功" ∷ codes "成功" ∷ []

abbrev pub failure_markers : List Text
failure_markers =
    codes "失敗"
    ∷ codes "不成功"
    ∷ codes "額滿"
    ∷ codes "已額滿"
    ∷ codes "已滿"
    ∷ codes "衝堂"
    ∷ codes "不符"
    ∷ codes "錯誤"
    ∷ codes "超過"
    ∷ codes "未開放"
    ∷ codes "無此課程"
    ∷ codes "查無"
    ∷ codes "不存在"
    ∷ codes "不可"
    ∷ codes "重複"
    ∷ codes "已選"
    ∷ codes "已加選"
    ∷ []

abbrev pub duplicate_like_markers : List Text
duplicate_like_markers =
    codes "重複" ∷ codes "重覆" ∷ codes "已選" ∷ codes "已加選" ∷ codes "已登記" ∷ codes "已退" ∷ []

pub record ParsedOp : Type 0 where
  pub outcome : Outcome
  pub school_msg : Option Text
  pub duplicate_like : Bool

-- `any(marker in text for marker in markers)`
unfoldable pub has_marker : List Text → Text → Bool
has_marker markers text = any (λ marker. occurs marker text) markers

unfoldable pub is_session_bounce : Text → Bool
unfolding has_marker
is_session_bounce text = has_marker session_bounce_markers text

-- The failure section: from its header to the first `<a` that ends a word.
abbrev pub word_ends : (ℕ → Bool) → Text → Bool
word_ends is_word [] = true
word_ends is_word (c ∷ t) = not (is_word c)

before_anchor : (ℕ → Bool) → Text → Text
before_anchor is_word [] = []
before_anchor is_word (c ∷ t) =
    let later = c ∷ before_anchor is_word t in
    elim (after_prefix_ci (codes "<a") (c ∷ t)) [
      | none ↦ later
      | some r ↦ if word_ends is_word r then [] else later
    ]

-- The number and what follows it; the digits are as many as can be, but 10 at most.
unfoldable pub number_at : (ℕ → Bool) → Text → Option (Text × Text)
number_at is_word [] = none
number_at is_word (c ∷ t) =
    let (digits, rest) = span ascii_digit t in
    if leb b'A' c
      && leb c b'Z'
      && leb 8 (length digits)
      && leb (length digits) 10
      && word_ends is_word rest
    then some (c ∷ digits, rest)
    else none

last_two : Text → Text
last_two [] = []
last_two (a ∷ []) = a ∷ []
last_two (a ∷ b ∷ []) = a ∷ b ∷ []
last_two (a ∷ b ∷ c ∷ t) = last_two (b ∷ c ∷ t)

-- `_STUDENT_NO_RE.sub(...)`; `inside` says that the character before is one of a word.
mask_fuel : (ℕ → Bool) → ℕ → Bool → Text → Text
mask_fuel is_word zero inside t = []
mask_fuel is_word (suc f) inside [] = []
mask_fuel is_word (suc f) inside (c ∷ t) =
    let plain = c ∷ mask_fuel is_word f (is_word c) t in
    if inside then plain else elim (number_at is_word (c ∷ t)) [
      | none ↦ plain
      | some (token, rest) ↦
          take 4 token ++ (codes "****" ++ (last_two token ++ mask_fuel is_word f true rest))
    ]

-- What the language's Unicode tables give: `\w`, and the NFKC form of a text.
pub record Tables : Type 0 where
  pub is_word : ℕ → Bool
  pub nfkc : Text → Text

module _ (u : Tables) where
  unfoldable pub mask_student_no : Text → Text
  unfolding mask_fuel last_two
  mask_student_no t = mask_fuel u.is_word (length t) false t

  unfoldable pub excerpt : Text → Text
  excerpt t = mask_student_no (take excerpt_limit t)

  unfoldable pub fold_text : Text → Text
  fold_text t = keep (λ c. not (is_space c)) (u.nfkc t)

  unfoldable pub failure_section : Text → Option Text
  unfolding before_anchor
  failure_section html = elim (from_first failure_section_header html) [
    | none ↦ none
    | some section_html ↦ some (before_anchor u.is_word section_html)
  ]

  unfoldable pub classify_fragment : Text → ParsedOp
  classify_fragment html =
      let plain = clean_cell_text html in
      let folded = fold_text plain in
      let msg = some (excerpt plain) in
      if has_marker failure_markers folded
      then (if has_marker success_markers folded
          then record { outcome = parse_failed; school_msg = msg; duplicate_like = false }
          else record {
            outcome = rejected;
            school_msg = msg;
            duplicate_like = has_marker duplicate_like_markers folded;
          })
      else if has_marker success_markers folded
      then record { outcome = success; school_msg = msg; duplicate_like = false }
      else record { outcome = parse_failed; school_msg = msg; duplicate_like = false }

  -- The verdict on a code where the reply has a failure section.
  unfoldable pub section_verdict : Text → Text → ParsedOp
  section_verdict section_html code = elim (fragment_for_code section_html code) [
    | none ↦ record {
      outcome = rejected;
      school_msg = some failure_section_header;
      duplicate_like = false;
    }
    | some fragment ↦
        let plain = clean_cell_text fragment in
        record {
          outcome = rejected;
          school_msg = some (excerpt plain);
          duplicate_like = has_marker duplicate_like_markers (fold_text plain);
        }
  ]

  -- And where it has none.
  unfoldable pub page_verdict : Text → Text → ParsedOp
  page_verdict html code = elim (fragment_for_code html code) [
    | some fragment ↦ classify_fragment fragment
    | none ↦ record {
      outcome = parse_failed;
      school_msg = some (excerpt (clean_cell_text html));
      duplicate_like = false;
    }
  ]

  unfoldable pub code_verdict : Text → Text → ParsedOp
  code_verdict html code = elim (failure_section html) [
    | some section_html ↦ section_verdict section_html code
    | none ↦ page_verdict html code
  ]

  -- The dict of the batch's codes; `none` is SelcrsSessionExpired.
  unfoldable pub parse_submit_response : Text → List Text → Option (List (Text × ParsedOp))
  parse_submit_response html batch_codes =
      if is_session_bounce html
      then none
      else some (map (λ code. (code, code_verdict html code)) batch_codes)
