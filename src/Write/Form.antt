-- ===== src/Write/Form.antt =====
-- backend/app/write/payload.py: what is read off the page of the write form. The HTML parser is a
-- parameter: the tags that it finds, each with its attributes.
use nsysu_crs.Common.{
  Text, codes, text_eq, Bool, false, not, Option, none, some, List, [], ◌∷◌, ◌++◌, map, take,
  if◌then◌else◌,
}
use nsysu_crs.Common.Search.{after_prefix, from_first, span, ascii_digit, to_lower}
use nsysu_crs.Write.Payload.{Dict, dict_get, dict_set, send_name}
use nsysu_crs.Write.Timetable.{is_space, strip}

-- The value of an attribute: a text, or the list of the texts of an attribute with several values.
pub data Attribute : Type 0 where
  absent : Attribute
  text : Text → Attribute
  texts : List Text → Attribute

pub record InputTag : Type 0 where
  pub kind : Attribute
  pub name : Attribute
  pub value : Attribute

-- `soup.find_all("input")`, and the `action` attributes of `soup.find_all("form")`.
pub record Html : Type 0 where
  pub inputs : Text → List InputTag
  pub form_actions : Text → List Attribute

-- `str(tag.get("type", "")).lower() == kind`
abbrev is_kind : Text → Attribute → Bool
is_kind kind absent = false
is_kind kind (text t) = text_eq (map to_lower t) kind
is_kind kind (texts ts) = false

-- `" ".join(...)`
words : List Text → Text
words [] = []
words (t ∷ []) = t
words (t ∷ u ∷ us) = t ++ (b' ' ∷ words (u ∷ us))

hidden_value : Attribute → Text
unfolding words
hidden_value absent = []
hidden_value (text t) = t
hidden_value (texts ts) = words ts

-- A hidden input with a name that the dict does not have yet.
add_hidden : InputTag → Dict → Dict
unfolding hidden_value
add_hidden tag hidden = elim tag.name [
  | absent ↦ hidden
  | texts ts ↦ hidden
  | text [] ↦ hidden
  | text (c ∷ t) ↦
      if not (is_kind (codes "hidden") tag.kind) then hidden else elim (dict_get (c ∷ t) hidden) [
        | some v ↦ hidden
        | none ↦ dict_set (c ∷ t) (hidden_value tag.value) hidden
      ]
]

hidden_loop : List InputTag → Dict → Dict
hidden_loop [] hidden = hidden
hidden_loop (tag ∷ tags) hidden = hidden_loop tags (add_hidden tag hidden)

abbrev or_nothing : Text → Option Text
or_nothing [] = none
or_nothing (c ∷ t) = some (c ∷ t)

-- The first form with an action; the first of several values ends the search, blank or not.
action_loop : List Attribute → Option Text
action_loop [] = none
action_loop (absent ∷ tags) = action_loop tags
action_loop (text t ∷ tags) =
    let later = action_loop tags in
    elim (or_nothing (strip t)) [ some action ↦ some action | none ↦ later ]
action_loop (texts [] ∷ tags) = action_loop tags
action_loop (texts (t ∷ ts) ∷ tags) = or_nothing (strip t)

abbrev text_of : Attribute → Option Text
text_of (text t) = some t
text_of absent = none
text_of (texts ts) = none

abbrev is_name : Text → Attribute → Bool
is_name name (text t) = text_eq t name
is_name name absent = false
is_name name (texts ts) = false

send_loop : List InputTag → Option Text
send_loop [] = none
send_loop (tag ∷ tags) =
    let later = send_loop tags in
    if not (is_kind (codes "submit") tag.kind)
    then later
    else if not (is_name send_name tag.name)
    then later
    else text_of tag.value

module _ (html : Html) where
  unfoldable pub parse_form_hidden_inputs : Text → Dict
  unfolding hidden_loop add_hidden
  parse_form_hidden_inputs page = hidden_loop (html.inputs page) []

  unfoldable pub parse_form_action : Text → Option Text
  unfolding action_loop
  parse_form_action page = action_loop (html.form_actions page)

  unfoldable pub parse_send_value : Text → Option Text
  unfolding send_loop
  parse_send_value page = send_loop (html.inputs page)

-- The names of `_SUBMIT_ACTION_RE` with the quote that ends them.
abbrev submit_action_at : Text → Option Text
submit_action_at t = elim (after_prefix (codes ".action='ssprs.asp'") t) [
  | some rest ↦ some (codes "ssprs.asp")
  | none ↦ elim (after_prefix (codes ".action='saddstage5prs.asp'") t) [
    | some rest ↦ some (codes "saddstage5prs.asp")
    | none ↦ none
  ]
]

unfoldable pub parse_submit_action : Text → Option Text
parse_submit_action [] = none
parse_submit_action (c ∷ t) =
    let later = parse_submit_action t in
    elim (submit_action_at (c ∷ t)) [ some action ↦ some action | none ↦ later ]

-- `_SEND_STEP_RE` at the beginning of a text.
abbrev some_spaces : Text → Option Text
some_spaces [] = none
some_spaces (c ∷ t) = let (spaces, rest) = span is_space t in if is_space c then some rest else none

abbrev step_at : Text → Option Text
step_at t = elim (after_prefix (codes "name=step") t) [
  | none ↦ none
  | some t1 ↦ elim (some_spaces t1) [
    | none ↦ none
    | some t2 ↦ elim (after_prefix (codes "value=") t2) [
      | none ↦ none
      | some t3 ↦ let (digits, rest) = span ascii_digit t3 in or_nothing digits
    ]
  ]
]

step_search : Text → Option Text
step_search [] = none
step_search (c ∷ t) =
    let later = step_search t in elim (step_at (c ∷ t)) [ some step ↦ some step | none ↦ later ]

unfoldable pub parse_submit_step : Text → Option Text
unfolding step_search
parse_submit_step page = elim (from_first (codes "value=\"送出\"") page) [
  | none ↦ none
  | some anchored ↦ step_search (take 800 anchored)
]
