-- ===== src/Dashboard/Select/Choices.antt =====
-- What can be chosen (dashboard/src/components/ui/Select/hooks/useSelect.ts).
use trace_ux.Base.{
  ℕ, zero, suc, ◌≤◌, ◌<◌, ◌≡◌, refl, Bool, true, false, not, ◌||◌, Option, none, some, List, [],
  ◌∷◌, ◌++◌, Str, str_eq, str_eq_sound, str_eq_refl, ltb, if◌then◌else◌, get_elem?, length, arith,
  Bool-cases, Option-cases, inl, inr, ap,
}
use trace_ux.Dashboard.Select.{
  SelectOption, SelectValue, Props, Select, includes, remove, index_of_selected, open_menu, toggled,
  commit, on_key_down, on_document_key, on_pointer, toggle_open, Gesture, key_pressed, pointer_down,
  trigger_clicked, hovered, clicked, on_gesture, gestures, Key, enter, space, arrow_down, arrow_up,
  home, end_key, tab, escape, other, array_values, on_open_key, selected_values, active_option,
}

includes-push :
    (xs ys : List Str) (v : Str) → includes (xs ++ ys) v ≡ (includes xs v || includes ys v)
unfolding includes
includes-push [] ys v = refl
includes-push (x ∷ xs) ys v = ground (arith, includes-push xs ys v)

remove-same : (v : Str) (xs : List Str) → includes (remove v xs) v ≡ false
unfolding includes remove
remove-same v [] = refl
remove-same v (x ∷ xs) = ground (arith, remove-same v xs)

remove-other :
    (v w : Str) (xs : List Str) → str_eq v w ≡ false → includes (remove v xs) w ≡ includes xs w
unfolding includes remove
remove-other v w [] e = refl
remove-other v w (x ∷ xs) e = elim (Bool-cases (str_eq x v)) [
  | inl q ↦ ground (arith, remove-other v w xs e, q, ap (λ s. str_eq s w) (str_eq_sound x v q), e)
  | inr q ↦ ground (arith, remove-other v w xs e, q)
]

includes-one : (v w : Str) → includes (v ∷ []) w ≡ str_eq v w
unfolding includes
includes-one v w = ground arith

toggled-same : (v : Str) (vs : List Str) → includes (toggled v vs) v ≡ not (includes vs v)
toggled-same v vs = elim (Bool-cases (includes vs v)) [
  | inl e ↦ ground (arith, e, remove-same v vs)
  | inr e ↦ ground (arith, e, includes-push vs (v ∷ []) v, includes-one v v, str_eq_refl v)
]

toggled-other :
    (v w : Str) (vs : List Str) → str_eq v w ≡ false → includes (toggled v vs) w ≡ includes vs w
toggled-other v w vs q = elim (Bool-cases (includes vs v)) [
  | inl e ↦ ground (arith, e, remove-other v w vs q)
  | inr e ↦ ground (arith, e, includes-push vs (v ∷ []) w, includes-one v w, q)
]

-- Choosing an option of a multiple selection turns that value on or off and leaves every other one,
-- however often a value stands in the selection; the menu stays as it is.
pub commit_toggles :
    (p : Props) (o : SelectOption) (s : Select) (w : Str)
    → p.multiple ≡ true
    → let t = commit p (some o) s in
      (includes (array_values t.value) w ≡ (
        if str_eq o.value w
        then not (includes (array_values s.value) w)
        else includes (array_values s.value) w))
      × (t.opened ≡ s.opened)
      × (t.active ≡ s.active)
unfolding commit
commit_toggles p o s w m = elim (Bool-cases (str_eq o.value w)) [
  | inl e ↦ (
    ground (
      arith,
      m,
      e,
      ap (λ v. includes (array_values s.value) v) (str_eq_sound o.value w e),
      ap (λ v. includes (toggled o.value (array_values s.value)) v) (str_eq_sound o.value w e),
      toggled-same o.value (array_values s.value),
    ),
    ground (arith, m),
    ground (arith, m),
  )
  | inr e ↦ (
    ground (arith, m, e, toggled-other o.value w (array_values s.value) e),
    ground (arith, m),
    ground (arith, m),
  )
]

-- The highlighted place is one of the list's.
abbrev pub in_range : Option ℕ → ℕ → Bool
in_range none n = false
in_range (some i) n = ltb i n

abbrev pub Highlights : Props → Select → Type 0
Highlights p s = in_range s.active (length p.options) ≡ true

index_of_selected-lt :
    (vs : List Str) (os : List SelectOption) {i : ℕ}
    → index_of_selected vs os ≡ some i
    → i < length os
unfolding index_of_selected
index_of_selected-lt vs [] h = absurd cc
index_of_selected-lt vs (o ∷ os) {i} h = elim (Bool-cases (includes vs o.value)) [
  | inl e ↦ ground (arith, e, h)
  | inr e ↦ elim (Option-cases (index_of_selected vs os)) [
    | inl n ↦ absurd (ground (arith, e, n, h))
    | inr (j, n) ↦ ground (arith, e, n, h, index_of_selected-lt vs os n)
  ]
]

open_menu-Highlights :
    (p : Props) (s : Select) → 1 ≤ length p.options → Highlights p (open_menu p s)
unfolding open_menu
open_menu-Highlights p s h =
    elim (Option-cases (index_of_selected (selected_values s.value) p.options)) [
      | inl e ↦ ground (arith, e, h)
      | inr (i, e) ↦ ground (arith, e, index_of_selected-lt (selected_values s.value) p.options e)
    ]

get_elem?-lt {ℓ} :
    {A : Type ℓ} (xs : List A) (i : ℕ) {x : A} → get_elem? xs i ≡ some x → i < length xs
get_elem?-lt [] i h = absurd cc
get_elem?-lt (y ∷ ys) zero h = omega arith
get_elem?-lt (y ∷ ys) (suc i) h = omega (arith, get_elem?-lt ys i h)

commit-active :
    (p : Props) (o : Option SelectOption) (s : Select) → (commit p o s).active ≡ s.active
unfolding commit
commit-active p o s = ground arith

open_key-Highlights :
    (p : Props) (k : Key) (s : Select)
    → 1 ≤ length p.options
    → Highlights p s
    → Highlights p (on_open_key p k s)
open_key-Highlights p arrow_down s n h = ground arith
open_key-Highlights p arrow_up s n h = ground arith
open_key-Highlights p home s n h = ground arith
open_key-Highlights p end_key s n h = ground arith
open_key-Highlights p enter s n h = ground (arith, h, commit-active p (active_option p s.active) s)
open_key-Highlights p space s n h = ground (arith, h, commit-active p (active_option p s.active) s)
open_key-Highlights p tab s n h = h
open_key-Highlights p escape s n h = h
open_key-Highlights p other s n h = h

on_key_down-Highlights :
    (p : Props) (k : Key) (s : Select)
    → 1 ≤ length p.options
    → Highlights p s
    → Highlights p (on_key_down p k s)
unfolding on_key_down
on_key_down-Highlights p k s n h =
    ground (arith, h, open_menu-Highlights p s n, open_key-Highlights p k s n h)

document_key-active : (k : Key) (s : Select) → (on_document_key k s).active ≡ s.active
unfolding on_document_key
document_key-active k s = ground arith

gesture-Highlights :
    (p : Props) (g : Gesture) (s : Select)
    → 1 ≤ length p.options
    → Highlights p s
    → Highlights p (on_gesture p g s)
unfolding on_gesture
gesture-Highlights p (key_pressed k) s n h =
    ground (arith, on_key_down-Highlights p k s n h, document_key-active k (on_key_down p k s))
gesture-Highlights p (pointer_down inside) s n h = unfold on_pointer in ground arith
gesture-Highlights p trigger_clicked s n h =
    unfold toggle_open in ground (arith, h, open_menu-Highlights p s n)
gesture-Highlights p (hovered i) s n h = elim (Option-cases (get_elem? p.options i)) [
  | inl e ↦ ground (arith, h, e)
  | inr (o, e) ↦ ground (arith, h, e, get_elem?-lt p.options i e)
]
gesture-Highlights p (clicked i) s n h =
    ground (arith, h, commit-active p (get_elem? p.options i) s)

gestures-Highlights :
    (p : Props) (gs : List Gesture) (s : Select)
    → 1 ≤ length p.options
    → Highlights p s
    → Highlights p (gestures p gs s)
unfolding gestures
gestures-Highlights p [] s n h = h
gestures-Highlights p (g ∷ gs) s n h =
    gestures-Highlights p gs (on_gesture p g s) n (gesture-Highlights p g s n h)

-- A dropdown that has just been mounted.
abbrev pub closed : SelectValue → Select
closed v = record { value = v; opened = false; active = some 0 }

-- While a dropdown has options, the highlighted place is one of theirs, whatever the visitor does.
pub active_in_range :
    (p : Props) (gs : List Gesture) (v : SelectValue)
    → 1 ≤ length p.options
    → Highlights p (gestures p gs (closed v))
active_in_range p gs v n = gestures-Highlights p gs (closed v) n (ground (arith, n))
