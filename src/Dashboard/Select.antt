-- ===== src/Dashboard/Select.antt =====
-- The dropdown, useSelect of dashboard/src/components/ui/Select/hooks/useSelect.ts: the keyboard,
-- the pointer and what is chosen. Where the menu is drawn is left out. The hook's caller is taken to
-- hand the value that onChange gave back as the next `value`; the options stay the same.
pub mod Choices
use trace_ux.Base.{
  ℕ, zero, suc, ◌+◌, ◌-◌, Bool, true, false, not, Option, none, some, List, [], ◌∷◌, ◌++◌, Str,
  str_eq, ltb, if◌then◌else◌, get_elem?, length, push,
}

pub record SelectOption : Type 0 where
  pub value : Str
  pub label : Str

pub data SelectValue : Type 0 where
  single : Str → SelectValue
  many : List Str → SelectValue

pub record Props : Type 0 where
  pub options : List SelectOption
  pub multiple : Bool
  pub disabled : Bool

-- `active` is none for -1, which `options.length - 1` is for an empty list.
pub record Select : Type 0 where
  pub value : SelectValue
  pub opened : Bool
  pub active : Option ℕ

unfoldable pub includes : List Str → Str → Bool
includes [] v = false
includes (x ∷ xs) v = if str_eq x v then true else includes xs v

-- `filter((item) => item !== v)`.
unfoldable pub remove : Str → List Str → List Str
remove v [] = []
remove v (x ∷ xs) = let rest = remove v xs in if str_eq x v then rest else x ∷ rest

abbrev pub selected_values : SelectValue → List Str
selected_values (single v) = v ∷ []
selected_values (many vs) = vs

-- The values of an array, for a multiple selection.
abbrev pub array_values : SelectValue → List Str
array_values (single v) = []
array_values (many vs) = vs

-- `findIndex`, with 0 where it finds nothing.
unfoldable pub index_of_selected : List Str → List SelectOption → Option ℕ
unfolding includes
index_of_selected vs [] = none
index_of_selected vs (o ∷ os) =
    let rest = index_of_selected vs os in
    if includes vs o.value then some 0 else elim rest [ none ↦ none | some i ↦ some (suc i) ]

abbrev pub or_first : Option ℕ → Option ℕ
or_first none = some 0
or_first (some i) = some i

unfoldable pub open_menu : Props → Select → Select
unfolding index_of_selected
open_menu p s = record s {
  active = or_first (index_of_selected (selected_values s.value) p.options);
  opened = true;
}

abbrev pub toggled : Str → List Str → List Str
toggled v vs = if includes vs v then remove v vs else push vs v

abbrev pub commit_option : Props → SelectOption → Select → Select
commit_option p o s =
    if p.multiple
    then record s { value = many (toggled o.value (array_values s.value)) }
    else record s { value = single o.value; opened = false }

unfoldable pub commit : Props → Option SelectOption → Select → Select
commit p none s = s
commit p (some o) s = commit_option p o s

-- `options[active]`.
abbrev pub active_option : Props → Option ℕ → Option SelectOption
active_option p none = none
active_option p (some i) = get_elem? p.options i

-- `options.length - 1`.
abbrev pub last_index : List SelectOption → Option ℕ
last_index [] = none
last_index (o ∷ os) = some (length os)

abbrev pub min_index : Option ℕ → Option ℕ → Option ℕ
min_index none j = none
min_index (some i) none = none
min_index (some i) (some j) = if ltb j i then some j else some i

abbrev pub next_index : Option ℕ → Option ℕ
next_index none = some 0
next_index (some i) = some (suc i)

-- `Math.max(a - 1, 0)`.
abbrev pub previous_index : Option ℕ → Option ℕ
previous_index none = some 0
previous_index (some i) = some (i - 1)

pub data Key : Type 0 where
  enter space arrow_down arrow_up home end_key tab escape other : Key

abbrev pub opens_menu : Key → Bool
opens_menu enter = true
opens_menu space = true
opens_menu arrow_down = true
opens_menu arrow_up = true
opens_menu home = false
opens_menu end_key = false
opens_menu tab = false
opens_menu escape = false
opens_menu other = false

abbrev pub on_open_key : Props → Key → Select → Select
on_open_key p arrow_down s = record s {
  active = min_index (next_index s.active) (last_index p.options);
}
on_open_key p arrow_up s = record s { active = previous_index s.active }
on_open_key p home s = record s { active = some 0 }
on_open_key p end_key s = record s { active = last_index p.options }
on_open_key p enter s = commit p (active_option p s.active) s
on_open_key p space s = commit p (active_option p s.active) s
on_open_key p tab s = record s { opened = false }
on_open_key p escape s = s
on_open_key p other s = s

unfoldable pub on_key_down : Props → Key → Select → Select
on_key_down p k s =
    if p.disabled
    then s
    else if not s.opened
    then (if opens_menu k then open_menu p s else s)
    else on_open_key p k s

-- The document's own listeners, which are there while the menu is open.
unfoldable pub on_document_key : Key → Select → Select
on_document_key enter s = s
on_document_key space s = s
on_document_key arrow_down s = s
on_document_key arrow_up s = s
on_document_key home s = s
on_document_key end_key s = s
on_document_key tab s = s
on_document_key escape s = record s { opened = false }
on_document_key other s = s

unfoldable pub on_pointer : Bool → Select → Select
on_pointer inside s = if inside then s else record s { opened = false }

unfoldable pub toggle_open : Props → Select → Select
toggle_open p s = if s.opened then record s { opened = false } else open_menu p s

-- A key goes to the trigger first and then to the document. Options are hovered over and clicked
-- by their place, which is one of the list's.
pub data Gesture : Type 0 where
  key_pressed : Key → Gesture
  pointer_down : Bool → Gesture
  trigger_clicked : Gesture
  hovered clicked : ℕ → Gesture

abbrev pub hover : Props → ℕ → Select → Select
hover p i s = elim (get_elem? p.options i) [ none ↦ s | some o ↦ record s { active = some i } ]

unfoldable pub on_gesture : Props → Gesture → Select → Select
on_gesture p (key_pressed k) s =
    let t = on_key_down p k s in if s.opened then on_document_key k t else t
on_gesture p (pointer_down inside) s = if s.opened then on_pointer inside s else s
on_gesture p trigger_clicked s = toggle_open p s
on_gesture p (hovered i) s = if s.opened then hover p i s else s
on_gesture p (clicked i) s = if s.opened then commit p (get_elem? p.options i) s else s

unfoldable pub gestures : Props → List Gesture → Select → Select
gestures p [] s = s
gestures p (g ∷ gs) s = gestures p gs (on_gesture p g s)
