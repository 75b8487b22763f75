-- ===== src/Write/Response/Fragments.antt =====
-- backend/app/write/response.py: the pieces of a page, its rows, lines and cleaned texts.
use nsysu_crs.Common.{
  ℕ, zero, suc, Text, codes, Bool, false, Option, none, some, List, [], ◌∷◌, first, length, ◌==◌,
  if◌then◌else◌,
}
use nsysu_crs.Common.Search.{after_prefix_ci, occurs, to_bracket, ascii_digit}
use nsysu_crs.Common.Split.{split_on}
use nsysu_crs.Write.Timetable.{is_space, strip}

-- `_TAG_RE.sub(" ", html)`: a tag is `<`, at least one other character, and `>`. The rounds are the
-- characters of the text.
strip_tags_fuel : ℕ → Text → Text
strip_tags_fuel zero t = []
strip_tags_fuel (suc f) [] = []
strip_tags_fuel (suc f) (c ∷ t) =
    let plain = c ∷ strip_tags_fuel f t in
    if c == b'<'
    then elim (to_bracket t) [
      | none ↦ plain
      | some ([], after) ↦ plain
      | some (d ∷ inside, after) ↦ b' ' ∷ strip_tags_fuel f after
    ]
    else plain

unfoldable pub strip_tags : Text → Text
unfolding strip_tags_fuel
strip_tags t = strip_tags_fuel (length t) t

-- `re.sub(r"\s+", " ", text)`; `spaced` says that the last character kept is such a blank.
collapse_spaces : Bool → Text → Text
collapse_spaces spaced [] = []
collapse_spaces spaced (c ∷ t) =
    let rest = collapse_spaces (is_space c) t in
    if is_space c then (if spaced then rest else b' ' ∷ rest) else c ∷ rest

unfoldable pub clean_cell_text : Text → Text
unfolding collapse_spaces
clean_cell_text html = strip (collapse_spaces false (strip_tags html))

-- The rows `<tr ...>...</tr>` of a page: their bodies, in order. The body ends at the first end tag.
body_end : Text → Option (Text × Text)
body_end [] = none
body_end (c ∷ t) =
    let later = body_end t in
    elim (after_prefix_ci (codes "</tr>") (c ∷ t)) [
      | some after ↦ some ([], after)
      | none ↦ elim later [ none ↦ none | some (body, after) ↦ some (c ∷ body, after) ]
    ]

row_at : Text → Option (Text × Text)
unfolding body_end
row_at t = elim (after_prefix_ci (codes "<tr") t) [
  | none ↦ none
  | some open_tag ↦ elim (to_bracket open_tag) [
    | none ↦ none
    | some (attributes, inside) ↦ body_end inside
  ]
]

rows_fuel : ℕ → Text → List Text
rows_fuel zero t = []
rows_fuel (suc f) [] = []
rows_fuel (suc f) (c ∷ t) = elim (row_at (c ∷ t)) [
  | none ↦ rows_fuel f t
  | some (body, after) ↦ body ∷ rows_fuel f after
]

unfoldable pub row_bodies : Text → List Text
unfolding rows_fuel row_at
row_bodies html = rows_fuel (length html) html

-- The names of `_BLOCK_BOUNDARY_RE`, tried in its order.
abbrev pub block_names : List Text
block_names =
    codes "p" ∷ codes "div" ∷ codes "br" ∷ codes "li" ∷ codes "section" ∷ codes "article" ∷ []

abbrev heading_rest : Text → Option Text
heading_rest [] = none
heading_rest (c ∷ t) = if ascii_digit c then some t else none

name_rest : List Text → Text → Option Text
name_rest [] t = elim (after_prefix_ci (codes "h") t) [ none ↦ none | some r ↦ heading_rest r ]
name_rest (n ∷ ns) t =
    let later = name_rest ns t in elim (after_prefix_ci n t) [ some r ↦ some r | none ↦ later ]

abbrev drop_slash : Text → Text
drop_slash [] = []
drop_slash (c ∷ t) = if c == b'/' then t else c ∷ t

-- What follows a block-level tag at the beginning of the text.
block_tag : Text → Option Text
unfolding name_rest
block_tag [] = none
block_tag (c ∷ t) =
    if c == b'<'
    then elim (name_rest block_names (drop_slash t)) [
      | none ↦ none
      | some r ↦ elim (to_bracket r) [ none ↦ none | some (rest, after) ↦ some after ]
    ]
    else none

lines_fuel : ℕ → Text → Text
lines_fuel zero t = []
lines_fuel (suc f) [] = []
lines_fuel (suc f) (c ∷ t) = elim (block_tag (c ∷ t)) [
  | none ↦ c ∷ lines_fuel f t
  | some after ↦ 10 ∷ lines_fuel f after
]

unfoldable pub block_lines : Text → List Text
unfolding lines_fuel block_tag
block_lines html = split_on 10 (lines_fuel (length html) html)

-- The row with the code, else the line with it.
unfoldable pub fragment_for_code : Text → Text → Option Text
fragment_for_code html code = elim (first (occurs code) (row_bodies html)) [
  | some body ↦ some body
  | none ↦ if occurs code html then first (occurs code) (block_lines html) else none
]
