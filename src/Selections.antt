-- ===== src/Selections.antt =====
-- backend/app/selections: the rows of the school's list of selections.
pub mod Store
use nsysu_crs.Common.{
  ℕ, suc, ◌+◌, Text, codes, contains, text_eq, Bool, true, false, not, ◌&&◌, ◌||◌, Option, none,
  some, List, [], ◌∷◌, ◌++◌, any, all, keep, map, if◌then◌else◌, String, length, get_elem?, ◌==◌,
}
use nsysu_crs.Common.Split.{partition}
use nsysu_crs.Common.Decimal.{is_digits, digits_value}
use nsysu_crs.Write.Timetable.{strip, match_fused}

pub record SelectionItem : Type 0 where
  pub code : Option Text
  pub course_no : Option Text
  pub state : Text
  pub dept : Text
  pub name : Text
  pub credit : Option ℕ
  pub compulsory_elective : Text
  pub teacher : Text
  pub room_text : Text
  pub points_priority : Option ℕ
  pub stage : Text
  pub year_semest_note : Text
  pub times : Option Text
  pub room : Option Text
  pub unknown : Bool
  pub course_id : Option Text
  pub url : Option Text

-- `text or None`
abbrev pub or_none : Text → Option Text
or_none [] = none
or_none (c ∷ t) = some (c ∷ t)

-- `int(text) if text.isdigit() else None`
unfoldable pub to_int : Text → Option ℕ
to_int text = if is_digits text then some (digits_value text) else none

-- _STATE_NORMALIZE.get(text, text)
unfoldable pub normal_state : Text → Text
normal_state text = if text_eq text (codes "加選失敗") then codes "失敗" else text

abbrev pub is_header : Text → Bool
is_header text = text_eq text (codes "選上與否") || text_eq text (codes "狀態")

-- The columns of a row that the three layouts place differently.
pub record Columns : Type 0 where
  pub code : Option Text
  pub course_no : Option Text
  pub dept : Text
  pub name : Text
  pub points : Text
  pub stage : Text
  pub credit : Text
  pub note : Text
  pub comp : Text
  pub teacher : Text
  pub room_text : Text

-- The layouts of 14, 13 and 7 cells, behind the first cell; `none` for every other number.
unfoldable pub columns : List Text → Option Columns
columns (t1 ∷ t2 ∷ t3 ∷ t4 ∷ t5 ∷ t6 ∷ t7 ∷ t8 ∷ t9 ∷ t10 ∷ t11 ∷ t12 ∷ t13 ∷ []) = some (record {
  code = or_none t4;
  course_no = or_none t2;
  dept = t1;
  name = t5;
  points = t6;
  stage = t7;
  credit = t8;
  note = t9;
  comp = t10;
  teacher = t11;
  room_text = t12;
})
columns (t1 ∷ t2 ∷ t3 ∷ t4 ∷ t5 ∷ t6 ∷ t7 ∷ t8 ∷ t9 ∷ t10 ∷ t11 ∷ t12 ∷ []) = some (record {
  code = none;
  course_no = or_none t2;
  dept = t1;
  name = t4;
  points = t5;
  stage = t6;
  credit = t7;
  note = t8;
  comp = t9;
  teacher = t10;
  room_text = t11;
})
columns (t1 ∷ t2 ∷ t3 ∷ t4 ∷ t5 ∷ t6 ∷ []) = some (record {
  code = none;
  course_no = none;
  dept = [];
  name = t1;
  points = [];
  stage = [];
  credit = t2;
  note = [];
  comp = t3;
  teacher = t4;
  room_text = t5;
})
columns _ = none

abbrev is_match : Option (ℕ × Text) → Bool
is_match none = false
is_match (some m) = true

abbrev is_blank : Text → Bool
is_blank [] = true
is_blank (c ∷ t) = false

-- `_split_room`: a fused time, and a room in one pair of parentheses that ends the cell.
unfoldable pub split_room : Text → Option Text × Option Text
split_room fused =
    let (times, opened, tail) = partition b'(' fused in
    let (room, ended, after) = partition b')' tail in
    if opened
      && (ended && (is_blank after && (not (contains b'(' room) && is_match (match_fused times))))
    then (some times, or_none (strip room))
    else (none, none)

abbrev pub item_of : Text → Columns → SelectionItem
item_of state c =
    let (times, room) = split_room c.room_text in
    record {
      code = c.code;
      course_no = c.course_no;
      state = normal_state state;
      dept = c.dept;
      name = c.name;
      credit = to_int c.credit;
      compulsory_elective = c.comp;
      teacher = c.teacher;
      room_text = c.room_text;
      points_priority = to_int c.points;
      stage = c.stage;
      year_semest_note = c.note;
      times = times;
      room = room;
      unknown = true;
      course_id = none;
      url = none;
    }

-- `_base_item`, on the cleaned texts of a row's cells.
unfoldable pub base_item : List Text → Option SelectionItem
base_item [] = none
base_item ([] ∷ cells) = none
base_item ((c ∷ t) ∷ cells) =
    if is_header (c ∷ t)
    then none
    else elim (columns cells) [ none ↦ none | some cs ↦ some (item_of (c ∷ t) cs) ]

-- `item_identity` of store.py.
unfoldable pub item_identity : SelectionItem → Text
item_identity item = elim item.code [
  | some code ↦ code
  | none ↦ (elim item.course_no [ none ↦ [] | some number ↦ number ]) ++ (b'|' ∷ item.name)
]

abbrev pub has_identity : Text → List SelectionItem → Bool
has_identity id items = any (λ item. text_eq (item_identity item) id) items

-- `diff_items`: added, removed and unchanged.
unfoldable pub diff_items :
    List SelectionItem
    → List SelectionItem
    → List SelectionItem × List SelectionItem × List SelectionItem
diff_items previous current = (
  keep (λ item. not (has_identity (item_identity item) previous)) current,
  keep (λ item. not (has_identity (item_identity item) current)) previous,
  keep (λ item. has_identity (item_identity item) previous) current,
)
