-- ===== src/Toast/Distinct.antt =====
-- The ids of the toasts on the list of web/src/lib/toast-store.ts.
use subdux.Base.{Bool, Bool-cases, List, [], any, arith, false, inl, inr, refl, ◌∷◌, ◌≡◌}
use subdux.Toast.{
  Timer, ToastId, ToastRecord, dismiss_later, hide_all, id_eq, includes, remove_later, replace,
  without,
}
use subdux.Toast.Lookup.{id_eq_iff}

-- No two toasts have one id.
abbrev pub IsDistinct : List ToastRecord → Type 0
IsDistinct [] = Unit
IsDistinct (t ∷ ts) = (any (λ u. id_eq u.id t.id) ts ≡ false) × IsDistinct ts

-- The timer takes the toast with this id out of view, or off the list.
abbrev pub dismisses : ToastId → Timer → Bool
dismisses id (dismiss_later delay other) = id_eq id other
dismisses id (remove_later delay ids) = false

abbrev pub removes : ToastId → Timer → Bool
removes id (dismiss_later delay other) = false
removes id (remove_later delay ids) = includes ids id

any-without :
    (id j : ToastId) (ts : List ToastRecord)
    → any (λ u. id_eq u.id j) ts ≡ false
    → any (λ u. id_eq u.id j) (without id ts) ≡ false
unfolding without
any-without id j [] h = refl
any-without id j (t ∷ ts) h = ground (arith, any-without id j ts)

pub without-IsDistinct :
    (id : ToastId) (ts : List ToastRecord) → IsDistinct ts → IsDistinct (without id ts)
unfolding without
without-IsDistinct id [] h = tt
without-IsDistinct id (t ∷ ts) (new, h) = elim (Bool-cases (id_eq t.id id)) [
  | inl same ↦ rw same (without-IsDistinct id ts h)
  | inr other ↦ rw other (any-without id t.id ts new, without-IsDistinct id ts h)
]

-- The ids of the list stand where they stood after `hide_all` and `replace`.
any-hide_all :
    (targets : List ToastId) (j : ToastId) (ts : List ToastRecord)
    → any (λ u. id_eq u.id j) (hide_all targets ts) ≡ any (λ u. id_eq u.id j) ts
unfolding hide_all
any-hide_all targets j [] = refl
any-hide_all targets j (t ∷ ts) = ground (arith, any-hide_all targets j ts)

any-replace :
    (id : ToastId) (next : ToastRecord) (j : ToastId) (ts : List ToastRecord)
    → next.id ≡ id
    → any (λ u. id_eq u.id j) (replace id next ts) ≡ any (λ u. id_eq u.id j) ts
unfolding replace
any-replace id next j [] own = refl
any-replace id next j (t ∷ ts) own = ground (arith, any-replace id next j ts own, id_eq_iff t.id id)

pub hide_all-IsDistinct :
    (targets : List ToastId) (ts : List ToastRecord)
    → IsDistinct ts
    → IsDistinct (hide_all targets ts)
unfolding hide_all
hide_all-IsDistinct targets [] h = tt
hide_all-IsDistinct targets (t ∷ ts) (new, h) =
    (ground (arith, any-hide_all targets t.id ts), hide_all-IsDistinct targets ts h)

pub replace-IsDistinct :
    (id : ToastId) (next : ToastRecord) (ts : List ToastRecord)
    → next.id ≡ id
    → IsDistinct ts
    → IsDistinct (replace id next ts)
unfolding replace
replace-IsDistinct id next [] own h = tt
replace-IsDistinct id next (t ∷ ts) own (new, h) = (
  ground (arith, any-replace id next t.id ts own, id_eq_iff t.id id),
  replace-IsDistinct id next ts own h,
)
