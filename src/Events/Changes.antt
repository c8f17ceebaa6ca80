-- ===== src/Events/Changes.antt =====
-- The rows of `subscriptionDetailEventChangeRows`.
use subdux.Base.{
  All, Bool, List, Option, String, [], false, if◌then◌else◌, none, refl, some, str_eq, subst, true,
  ◌&&◌, ◌∷◌, ◌≡◌,
}
use subdux.Events.{
  ChangeMode, Formats, SubscriptionDetailEvent, SubscriptionEventChangeRow, SubscriptionEventType,
  amount_text, as_created, as_deleted, as_updated, created, deleted, is_null, manual_renewed,
  or_text, row_of, rows_by_type, rows_of, shown_values, subscription_detail_event_change_row,
  subscription_detail_event_change_rows, subscription_event_field_label, system_change, updated,
  value_for_amount, value_for_text, values_of_field,
}

-- No side of the row is blank; a created event has nothing before and a deleted one nothing after.
abbrev pub Fits : SubscriptionEventType → String → SubscriptionEventChangeRow → Type 0
Fits created empty r = (r.previous ≡ empty) × (str_eq r.next "" ≡ false)
Fits deleted empty r = (r.next ≡ empty) × (str_eq r.previous "" ≡ false)
Fits _ empty r = (str_eq r.previous "" ≡ false) × (str_eq r.next "" ≡ false)

abbrev FitsMode : ChangeMode → String → String × String → Type 0
FitsMode as_created empty (previous, next) = (previous ≡ empty) × (str_eq next "" ≡ false)
FitsMode as_deleted empty (previous, next) = (next ≡ empty) × (str_eq previous "" ≡ false)
FitsMode as_updated empty (previous, next) = (str_eq previous "" ≡ false) × (str_eq next "" ≡ false)

abbrev FitsOption : ChangeMode → String → Option (String × String) → Type 0
FitsOption mode empty none = Unit
FitsOption mode empty (some x) = FitsMode mode empty x

abbrev FitsRow : ChangeMode → String → Option SubscriptionEventChangeRow → Type 0
FitsRow mode empty none = Unit
FitsRow mode empty (some r) = FitsMode mode empty (r.previous, r.next)

module _ (empty : String) (visible : str_eq empty "" ≡ false) where
  or_text_visible : (text : String) → str_eq (or_text text empty) "" ≡ false
  or_text_visible text = by_test (str_eq text "") refl
    where
      by_test : (b : Bool) → str_eq text "" ≡ b → str_eq (if b then empty else text) "" ≡ false
      by_test true e = visible
      by_test false e = e

  shown_values-FitsMode :
      (mode : ChangeMode) (previous next : String)
      → FitsMode mode empty (shown_values mode empty previous next)
  unfolding shown_values
  shown_values-FitsMode as_created previous next = (refl, or_text_visible next)
  shown_values-FitsMode as_deleted previous next = (refl, or_text_visible previous)
  shown_values-FitsMode as_updated previous next = (or_text_visible previous, or_text_visible next)

  if-FitsOption :
      (mode : ChangeMode) (b : Bool) (x y : Option (String × String))
      → FitsOption mode empty x
      → FitsOption mode empty y
      → FitsOption mode empty (if b then x else y)
  if-FitsOption mode true x y h k = h
  if-FitsOption mode false x y h k = k

  text-FitsOption :
      (mode : ChangeMode) (previous next : String)
      → FitsOption mode empty (value_for_text mode empty previous next)
  unfolding value_for_text
  text-FitsOption mode previous next =
      if-FitsOption mode (str_eq previous "" && str_eq next "") none _ tt
        (shown_values-FitsMode mode previous next)

  module _ {R : Type 0} (formats : Formats R) where
    amount-FitsOption :
        (mode : ChangeMode) (previous : Option R) (a : String) (next : Option R) (b : String)
        → FitsOption mode empty (value_for_amount formats mode empty previous a next b)
    unfolding value_for_amount
    amount-FitsOption mode previous a next b =
        if-FitsOption mode (is_null formats previous && is_null formats next) none _ tt
          (shown_values-FitsMode mode (amount_text formats previous a) (amount_text formats next b))

    field-FitsOption :
        (mode : ChangeMode) (item : SubscriptionDetailEvent R) (field : String)
        → FitsOption mode empty (values_of_field formats mode empty item field)
    unfolding values_of_field
    field-FitsOption mode item field =
        if-FitsOption mode (str_eq field "amount") _ _ (amount-FitsOption mode _ _ _ _) (
          if-FitsOption mode (str_eq field "monthly_amount") _ _ (amount-FitsOption mode _ _ _ _) (
            if-FitsOption mode (str_eq field "currency") _ _ (text-FitsOption mode _ _) (
              if-FitsOption mode (str_eq field "next_billing_date") _ _ (text-FitsOption mode _ _) (
                if-FitsOption mode (str_eq field "status") _ _ (text-FitsOption mode _ _) (
                  if-FitsOption mode (str_eq field "renewal_mode") _ _ (text-FitsOption mode _ _) (
                    if-FitsOption mode (str_eq field "category") _ _ (text-FitsOption mode _ _) (
                      if-FitsOption mode (str_eq field "payment_method") _ none
                        (text-FitsOption mode _ _) tt)))))))

  row_of-FitsRow :
      (mode : ChangeMode) (label : String) (o : Option (String × String))
      → FitsOption mode empty o
      → FitsRow mode empty (row_of label o)
  unfolding row_of
  row_of-FitsRow mode label none h = tt
  row_of-FitsRow mode label (some (previous, next)) h = h

rows_of-All :
    (P : SubscriptionEventChangeRow → Type 0) (row : String → Option SubscriptionEventChangeRow)
    (fields : List String)
    → ((field : String) (r : SubscriptionEventChangeRow) → row field ≡ some r → P r)
    → All P (rows_of row fields)
unfolding rows_of
rows_of-All P row [] h = tt
rows_of-All P row (f ∷ fs) h = by_row (row f) refl (rows_of-All P row fs h)
  where
    by_row :
        (o : Option SubscriptionEventChangeRow)
        → row f ≡ o
        → All P (rows_of row fs)
        → All P (elim o [ none ↦ rows_of row fs | some r ↦ r ∷ rows_of row fs ])
    by_row none e rest = rest
    by_row (some r) e rest = (h f r e, rest)

change_row-FitsMode :
    {R : Type 0} (formats : Formats R) (mode : ChangeMode) (item : SubscriptionDetailEvent R)
    (field : String) (r : SubscriptionEventChangeRow)
    → str_eq (formats.t "subscription.detail.empty.none") "" ≡ false
    → subscription_detail_event_change_row formats mode item field ≡ some r
    → FitsMode mode (formats.t "subscription.detail.empty.none") (r.previous, r.next)
unfolding subscription_detail_event_change_row
change_row-FitsMode formats mode item field r visible e =
    let empty = formats.t "subscription.detail.empty.none" in
    subst (FitsRow mode empty) e (
      row_of-FitsRow empty visible mode (subscription_event_field_label formats field)
        (values_of_field formats mode empty item field)
        (field-FitsOption empty visible formats mode item field))

-- The rows of an event never have a blank side, provided that the text for "none" is not empty;
-- those of a created event have that text before the change, those of a deleted one after it.
pub change_rows-Fits :
    {R : Type 0} (formats : Formats R) (item : SubscriptionDetailEvent R)
    → str_eq (formats.t "subscription.detail.empty.none") "" ≡ false
    → All
        (Fits item.type (formats.t "subscription.detail.empty.none"))
        (subscription_detail_event_change_rows formats item)
unfolding subscription_detail_event_change_rows
change_rows-Fits {R} formats item visible = by_type item.type
  where
    empty : String
    empty = formats.t "subscription.detail.empty.none"

    by_type :
        (type : SubscriptionEventType) → All (Fits type empty) (rows_by_type formats type item)
    by_type created =
        rows_of-All (Fits created empty) _ _
          (λ field r. change_row-FitsMode formats as_created item field r visible)
    by_type deleted =
        rows_of-All (Fits deleted empty) _ _
          (λ field r. change_row-FitsMode formats as_deleted item field r visible)
    by_type updated =
        rows_of-All (Fits updated empty) _ _
          (λ field r. change_row-FitsMode formats as_updated item field r visible)
    by_type manual_renewed =
        rows_of-All (Fits manual_renewed empty) _ _
          (λ field r. change_row-FitsMode formats as_updated item field r visible)
    by_type system_change =
        rows_of-All (Fits system_change empty) _ _
          (λ field r. change_row-FitsMode formats as_updated item field r visible)
