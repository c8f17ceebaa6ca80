-- ===== src/Toast/Created.antt =====
-- What `createToast` of web/src/lib/toast-store.ts makes of the store.
use mathlib.Core.Option.{some-injective}
use subdux.Base.{
  Bool, Option, String, ap, arith, false, none, refl, some, suc, sym, true, ◌+◌, ◌↔◌, ◌∙◌, ◌≡◌,
}
use subdux.Toast.{
  ToastId, ToastOptions, ToastRecord, ToastState, ToastType, create_toast, id_eq, make_toast,
  next_id, number, or_else, show_toast,
}
use subdux.Toast.Lookup.{find-show_toast, find_toast, id_eq_iff}

-- Where an id comes from: the caller, or the counter, which moves on by one.
abbrev pub IdFrom : Option ToastId → ToastState → ToastState → ToastId → Type 0
IdFrom (some given) before after id = (id ≡ given) × (after.toast_counter ≡ before.toast_counter)
IdFrom none before after id =
    (id ≡ number (suc before.toast_counter)) × (after.toast_counter ≡ suc before.toast_counter)

-- The toast that was asked for, in view. It can be dismissed unless the caller says otherwise.
pub record Shows (id : ToastId) (type : ToastType) (title : String) (options : ToastOptions)
    (t : ToastRecord) : Type 0 where
  pub shows_id : t.id ≡ id
  pub shows_type : t.type ≡ type
  pub shows_title : t.title ≡ title
  pub shows_description : t.description ≡ options.description
  pub shows_duration : t.duration ≡ options.duration
  pub shows_class : (t.class_name ≡ options.class_name) × (t.class_names ≡ options.class_names)
  pub kept_open : (t.dismissible ≡ false) ↔ (options.dismissible ≡ some false)
  pub in_view : t.visible ≡ true

-- What `createToast` makes of the store.
pub record Creates (type : ToastType) (title : String) (options : ToastOptions)
    (before : ToastState) (r : ToastState × ToastId) : Type 0 where
  pub id_from : IdFrom options.id before r.0 r.1
  pub new_toast :
      (t : ToastRecord) × (find_toast r.1 r.0.toasts ≡ some t) × Shows r.1 type title options t
  pub others :
      (j : ToastId) → id_eq j r.1 ≡ false → find_toast j r.0.toasts ≡ find_toast j before.toasts

or_else_iff : (o : Option Bool) → (or_else o true ≡ false) ↔ (o ≡ some false)
or_else_iff none = ((λ e. cc), (λ e. cc))
or_else_iff (some b) = ((λ e. ap some e), (λ e. some-injective _ _ e))

make_toast-Shows :
    (id : ToastId) (type : ToastType) (title : String) (options : ToastOptions)
    → Shows id type title options (make_toast id type title options)
unfolding make_toast
make_toast-Shows id type title options = record {
  shows_id = refl;
  shows_type = refl;
  shows_title = refl;
  shows_description = refl;
  shows_duration = refl;
  shows_class = (refl, refl);
  kept_open = or_else_iff options.dismissible;
  in_view = refl;
}

new_number : (s : ToastState) → s.toast_counter + 1 ≡ suc s.toast_counter
new_number s = omega arith

counter-show_toast :
    (id : ToastId) (next : ToastRecord) (s : ToastState)
    → (show_toast id next s).toast_counter ≡ s.toast_counter
unfolding show_toast
counter-show_toast id next s = ground arith

show_toast-Creates :
    (id : ToastId) (type : ToastType) (title : String) (options : ToastOptions)
    (before s : ToastState)
    → before.toasts ≡ s.toasts
    → IdFrom options.id before (show_toast id (make_toast id type title options) s) id
    → Creates type title options before (show_toast id (make_toast id type title options) s, id)
show_toast-Creates id type title options before s same from =
    let own : (make_toast id type title options).id ≡ id = unfold make_toast in refl in
    record {
      id_from = from;
      new_toast = (
        make_toast id type title options,
        find-show_toast id id (make_toast id type title options) s own
            ∙ rw ((id_eq_iff id id).1 refl) refl,
        make_toast-Shows id type title options,
      );
      others = λ j other.
          find-show_toast j id (make_toast id type title options) s own
          ∙ rw other (ap (find_toast j) (sym same));
    }

-- Creating a toast returns the id that the caller gives, or else the number after the counter's,
-- which the counter then moves to. Under that id there is then a visible toast with the type, title
-- and options asked for, which can be dismissed unless the caller says no; every other id finds
-- what it found.
pub find-create_toast :
    (type : ToastType) (title : String) (options : ToastOptions) (s : ToastState)
    → Creates type title options s (create_toast type title options s)
unfolding create_toast next_id
find-create_toast type title options s = by_id options.id refl
  where
    by_id :
        (o : Option ToastId)
        → options.id ≡ o
        → let (id, s') = next_id o s in
          Creates type title options s (show_toast id (make_toast id type title options) s', id)
    by_id none e =
        show_toast-Creates _ type title options s _ refl
          (rw e (ap number (new_number s), counter-show_toast _ _ _ ∙ new_number s))
    by_id (some id) e =
        show_toast-Creates id type title options s s refl (rw e (refl, counter-show_toast _ _ _))
