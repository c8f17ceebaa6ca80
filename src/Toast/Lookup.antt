-- ===== src/Toast/Lookup.antt =====
-- The store as a map from ids to toasts: what each operation does to every id.
use package.text.Mathlib.TextEquality.{eq_iff}
use subdux.Base.{
  Bool, Bool-cases, List, Option, [], any, arith, false, if◌then◌else◌, inl, inr, none, refl, some,
  true, ◌↔◌, ◌∷◌, ◌≡◌, ◌⊎◌,
}
use subdux.Toast.{
  ToastId, ToastRecord, ToastState, dismiss_targets, dismiss_toast, hide_all, hides, id_eq, number,
  put_toast, replace, show_toast, text, without,
}

-- `===` on ids is equality.
pub id_eq_iff : (a b : ToastId) → (id_eq a b ≡ true) ↔ (a ≡ b)
unfolding id_eq
id_eq_iff (text s) (text t) = ground (arith, eq_iff s t)
id_eq_iff (number m) (number n) = ground arith
id_eq_iff (text s) (number n) = ground arith
id_eq_iff (number n) (text s) = ground arith

-- The first toast with the id.
unfoldable pub find_toast : ToastId → List ToastRecord → Option ToastRecord
find_toast id [] = none
find_toast id (t ∷ ts) = if id_eq t.id id then some t else find_toast id ts

find-without :
    (j id : ToastId) (ts : List ToastRecord)
    → find_toast j (without id ts) ≡ (if id_eq j id then none else find_toast j ts)
unfolding find_toast without
find-without j id [] = ground arith
find-without j id (t ∷ ts) =
    ground (arith, find-without j id ts, id_eq_iff t.id id, id_eq_iff t.id j, id_eq_iff j id)

find-replace :
    (j id : ToastId) (next : ToastRecord) (ts : List ToastRecord)
    → next.id ≡ id
    → find_toast j (replace id next ts) ≡ (
        if id_eq j id
        then (if any (λ t. id_eq t.id id) ts then some next else none)
        else find_toast j ts)
unfolding find_toast replace
find-replace j id next [] own = ground arith
find-replace j id next (t ∷ ts) own = ground (
  arith,
  find-replace j id next ts own,
  id_eq_iff t.id id,
  id_eq_iff t.id j,
  id_eq_iff j id,
  id_eq_iff id j,
  id_eq_iff next.id j,
)

id_eq_comm : (a b : ToastId) → id_eq a b ≡ id_eq b a
id_eq_comm a b = ground (arith, id_eq_iff a b, id_eq_iff b a)

-- A new or renewed toast is found under its id, and no other id is touched.
pub find-put_toast :
    (j id : ToastId) (next : ToastRecord) (ts : List ToastRecord)
    → next.id ≡ id
    → find_toast j (put_toast id next ts) ≡ (if id_eq j id then some next else find_toast j ts)
unfolding put_toast find_toast
find-put_toast j id next ts own =
    ground (arith, find-replace j id next ts own, id_eq_iff next.id j, id_eq_iff j id)

-- The fate of a toast under `hide_all`.
abbrev pub hidden : List ToastId → ToastRecord → ToastRecord
hidden targets t = if hides targets t then (record t { visible = false }) else t

abbrev pub map_some : (ToastRecord → ToastRecord) → Option ToastRecord → Option ToastRecord
map_some f none = none
map_some f (some t) = some (f t)

find-hide_all :
    (j : ToastId) (targets : List ToastId) (ts : List ToastRecord)
    → find_toast j (hide_all targets ts) ≡ map_some (hidden targets) (find_toast j ts)
unfolding find_toast hide_all
find-hide_all j targets [] = refl
find-hide_all j targets (t ∷ ts) = ground (arith, find-hide_all j targets ts)

-- An id is in view if its toast is there and visible.
abbrev pub is_shown : Option ToastRecord → Bool
is_shown none = false
is_shown (some t) = t.visible

abbrev pub shown : ToastId → ToastState → Bool
shown id s = is_shown (find_toast id s.toasts)

abbrev pub present : ToastId → ToastState → Bool
present id s = any (λ t. id_eq t.id id) s.toasts

toasts-dismiss_targets :
    (targets : List ToastId) (s : ToastState)
    → (dismiss_targets targets s).toasts ≡ hide_all targets s.toasts
unfolding dismiss_targets
toasts-dismiss_targets targets s = ground arith

pub find-id :
    (id : ToastId) (ts : List ToastRecord) (t : ToastRecord) → find_toast id ts ≡ some t → t.id ≡ id
unfolding find_toast
find-id id [] t e = cc
find-id id (u ∷ ts) t e = ground (arith, find-id id ts t, id_eq_iff u.id id)

not-shown_hidden :
    (id : ToastId) (o : Option ToastRecord)
    → ((t : ToastRecord) → o ≡ some t → t.id ≡ id)
    → is_shown (map_some (hidden (id ∷ [])) o) ≡ false
unfolding hides
not-shown_hidden id none h = refl
not-shown_hidden id (some t) h = let own = h t refl in ground (arith, id_eq_iff t.id id)

unchanged_hidden :
    (id j : ToastId) (o : Option ToastRecord)
    → ((t : ToastRecord) → o ≡ some t → t.id ≡ j)
    → id_eq j id ≡ false
    → map_some (hidden (id ∷ [])) o ≡ o
unfolding hides
unchanged_hidden id j none h ne = refl
unchanged_hidden id j (some t) h ne = let own = h t refl in ground arith

-- Dismissing an id takes its toast out of view, and changes nothing about any other id.
pub find-dismiss_toast :
    (id j : ToastId) (s : ToastState)
    → (shown id (dismiss_toast (some id) s) ≡ false)
      × ((id_eq j id ≡ true)
          ⊎ (find_toast j (dismiss_toast (some id) s).toasts ≡ find_toast j s.toasts))
unfolding dismiss_toast
find-dismiss_toast id j s = (
  rw toasts-dismiss_targets
      (rw find-hide_all (not-shown_hidden id (find_toast id s.toasts) (find-id id s.toasts))),
  elim (Bool-cases (id_eq j id)) [
    | inl e ↦ inl e
    | inr ne ↦ inr (
        rw toasts-dismiss_targets (
          rw find-hide_all (unchanged_hidden id j (find_toast j s.toasts) (find-id j s.toasts) ne)))
  ],
)

pub find-show_toast :
    (j id : ToastId) (next : ToastRecord) (s : ToastState)
    → next.id ≡ id
    → find_toast j (show_toast id next s).toasts
      ≡ (if id_eq j id then some next else find_toast j s.toasts)
unfolding show_toast
find-show_toast j id next s own = ground (arith, find-put_toast j id next s.toasts own)
