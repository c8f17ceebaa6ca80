-- ===== src/Dashboard/Wanted.antt =====
-- `filteredSubscriptions` of hooks/use-dashboard-filters.ts: which subscriptions the filters let
-- through, said without Boolean tests.
use package.text.Mathlib.TextEquality.{eq_iff}
use text.Mathlib.Text.{find?}
use subdux.Base.{
  Bool, List, Option, String, [], arith, concat, false, if◌then◌else◌, inl, inr, none, not, refl,
  some, str_eq, true, ℕ, ◌&&◌, ◌==◌, ◌||◌, ◌↔◌, ◌∷◌, ◌≡◌, ◌≢◌, ◌⊎◌,
}
use subdux.Dashboard.Members.{IsIn, id_eq_iff, member_iff, mode_eq_iff, status_eq_iff}
use subdux.Dashboard.Rows.{
  DashboardOptions, get_subscription_category_name, matches, matches_category,
  matches_payment_method, matches_renewal_mode, matches_search, matches_status, paid_by,
}
use subdux.Dashboard.Selection.{Filters, is_empty, member}
use subdux.Subscription.{
  Subscription, SubscriptionRenewalMode, get_subscription_renewal_mode, get_subscription_status,
  is_recurring, mode_eq, status_eq,
}

module _ {R : Type 0} (o : DashboardOptions R) (f : Filters) (s : Subscription R) where
  abbrev category_name : String
  category_name = get_subscription_category_name o s

  abbrev term : String
  term = o.to_lower_case (o.trim f.search_term)

  -- The name, the category's name and the notes, in lower case.
  abbrev searched : String
  searched =
      o.to_lower_case (concat s.name (concat " " (concat category_name (concat " " s.notes))))

  abbrev PaidBy : Option ℕ → Type 0
  PaidBy none = f.include_no_payment_method ≡ true
  PaidBy (some id) = IsIn id f.selected_payment_method_ids

  -- What the filters want of a subscription.
  pub record IsWanted : Type 0 where
    pub found : (term ≡ "") ⊎ ((i : ℕ) × (find? searched term ≡ some i))
    pub status_chosen : IsIn (get_subscription_status s) f.selected_statuses
    pub mode_chosen :
        (f.selected_renewal_modes ≡ [])
        ⊎ ((is_recurring s.billing_type ≡ false)
            ⊎ IsIn (get_subscription_renewal_mode s) f.selected_renewal_modes)
    pub category_chosen :
        ((f.selected_categories ≡ []) × (f.include_no_category ≡ false))
        ⊎ (((o.trim category_name ≢ "") × IsIn category_name f.selected_categories)
            ⊎ ((o.trim category_name ≡ "") × (f.include_no_category ≡ true)))
    pub method_chosen :
        ((f.selected_payment_method_ids ≡ []) × (f.include_no_payment_method ≡ false))
        ⊎ PaidBy s.payment_method_id

  search_iff :
      (matches_search o f s ≡ true) ↔ ((term ≡ "") ⊎ ((i : ℕ) × (find? searched term ≡ some i)))
  unfolding matches_search
  search_iff = by_test (str_eq term "") (eq_iff term "") (find? searched term) refl
    where
      by_test :
          (c : Bool)
          → (c ≡ true) ↔ (term ≡ "")
          → (r : Option ℕ) → find? searched term ≡ r
          → ((c || (elim r as (λ q. Bool) [ none ↦ false | some i ↦ true ])) ≡ true)
            ↔ ((term ≡ "") ⊎ ((i : ℕ) × (find? searched term ≡ some i)))
      by_test true k r e = ((λ q. inl (k.0 refl)), (λ q. refl))
      by_test false k (some i) e = ((λ q. inr (i, e)), (λ q. refl))
      by_test false k none e = (
        (λ q. absurd cc),
        (λ q. elim q [
          | inl t ↦ absurd (ground (arith, k.1 t))
          | inr (i, t) ↦ absurd (ground (arith, e, t))
        ]),
      )

  mode_iff : (matches_renewal_mode o f s ≡ true) ↔ (
      (f.selected_renewal_modes ≡ [])
      ⊎ ((is_recurring s.billing_type ≡ false)
          ⊎ IsIn (get_subscription_renewal_mode s) f.selected_renewal_modes))
  unfolding matches_renewal_mode is_empty
  mode_iff = by_modes f.selected_renewal_modes (is_recurring s.billing_type)
    where
      by_modes :
          (modes : List SubscriptionRenewalMode) (c : Bool)
          → ((if not (is_empty modes) && c
                then member mode_eq (get_subscription_renewal_mode s) modes
                else true)
              ≡ true)
            ↔ ((modes ≡ []) ⊎ ((c ≡ false) ⊎ IsIn (get_subscription_renewal_mode s) modes))
      by_modes [] c = ((λ e. inl refl), (λ e. refl))
      by_modes (m ∷ ms) false = ((λ e. inr (inl refl)), (λ e. refl))
      by_modes (m ∷ ms) true =
          let has =
            member_iff mode_eq (get_subscription_renewal_mode s) (m ∷ ms)
              (mode_eq_iff (get_subscription_renewal_mode s)) in
          (
            (λ e. inr (inr (has.0 e))),
            (λ e. elim e [ inl q ↦ absurd cc | inr (inl q) ↦ absurd cc | inr (inr q) ↦ has.1 q ]),
          )

  method_iff : (matches_payment_method o f s ≡ true) ↔ (
      ((f.selected_payment_method_ids ≡ []) × (f.include_no_payment_method ≡ false))
      ⊎ PaidBy s.payment_method_id)
  unfolding matches_payment_method is_empty
  method_iff =
      by_ids f.selected_payment_method_ids refl f.include_no_payment_method refl s.payment_method_id
    where
      in_ids :
          (id : ℕ)
          → (member (λ m n. m == n) id f.selected_payment_method_ids ≡ true)
            ↔ IsIn id f.selected_payment_method_ids
      in_ids id = member_iff (λ m n. m == n) id f.selected_payment_method_ids (id_eq_iff id)

      paid_iff : (p : Option ℕ) → (paid_by f p ≡ true) ↔ PaidBy p
      paid_iff none = ((λ e. e), (λ e. e))
      paid_iff (some id) = in_ids id

      by_ids :
          (ids : List ℕ)
          → f.selected_payment_method_ids ≡ ids
          → (c : Bool) → f.include_no_payment_method ≡ c
          → (p : Option ℕ)
          → ((if not (is_empty ids) || c then paid_by f p else true) ≡ true)
            ↔ (((ids ≡ []) × (c ≡ false)) ⊎ PaidBy p)
      by_ids [] e false q p = ((λ t. inl (refl, refl)), (λ t. refl))
      by_ids [] e true q p = (
        (λ t. inr ((paid_iff p).0 t)),
        (λ t. elim t [ inl (a, b) ↦ absurd cc | inr b ↦ (paid_iff p).1 b ]),
      )
      by_ids (i ∷ is) e c q p = (
        (λ t. inr ((paid_iff p).0 t)),
        (λ t. elim t [ inl (a, b) ↦ absurd cc | inr b ↦ (paid_iff p).1 b ]),
      )

  category_iff : (matches_category o f s ≡ true) ↔ (
      ((f.selected_categories ≡ []) × (f.include_no_category ≡ false))
      ⊎ (((o.trim category_name ≢ "") × IsIn category_name f.selected_categories)
          ⊎ ((o.trim category_name ≡ "") × (f.include_no_category ≡ true))))
  unfolding matches_category is_empty
  category_iff =
      by_names f.selected_categories f.include_no_category (str_eq (o.trim category_name) "")
        (eq_iff (o.trim category_name) "")
    where
      -- With some category chosen.
      chosen :
          (names : List String) (c blank : Bool)
          → (blank ≡ true) ↔ (o.trim category_name ≡ "")
          → ((if not blank then member str_eq category_name names else c) ≡ true) ↔ (
              ((o.trim category_name ≢ "") × IsIn category_name names)
              ⊎ ((o.trim category_name ≡ "") × (c ≡ true)))
      chosen names c true k = (
        (λ t. inr (k.0 refl, t)),
        (λ t. elim t [ inl (a, b) ↦ absurd (a (k.0 refl)) | inr (a, b) ↦ b ]),
      )
      chosen names c false k =
          let has = member_iff str_eq category_name names (eq_iff category_name) in
          (
            (λ t. inl ((λ q. absurd (ground (arith, k.1 q))), has.0 t)),
            (λ t. elim t [ inl (a, b) ↦ has.1 b | inr (a, b) ↦ absurd (ground (arith, k.1 a)) ]),
          )

      by_names :
          (names : List String) (c blank : Bool)
          → (blank ≡ true) ↔ (o.trim category_name ≡ "")
          → ((if not (is_empty names) || c
                then (if not blank then member str_eq category_name names else c)
                else true)
              ≡ true)
            ↔ (((names ≡ []) × (c ≡ false))
                ⊎ (((o.trim category_name ≢ "") × IsIn category_name names)
                    ⊎ ((o.trim category_name ≡ "") × (c ≡ true))))
      by_names [] false blank k = ((λ t. inl (refl, refl)), (λ t. refl))
      by_names [] true blank k = (
        (λ t. inr ((chosen [] true blank k).0 t)),
        (λ t. elim t [ inl (a, b) ↦ absurd cc | inr b ↦ (chosen [] true blank k).1 b ]),
      )
      by_names (n ∷ ns) c blank k = (
        (λ t. inr ((chosen (n ∷ ns) c blank k).0 t)),
        (λ t. elim t [ inl (a, b) ↦ absurd cc | inr b ↦ (chosen (n ∷ ns) c blank k).1 b ]),
      )

  -- The filters let through what they want.
  pub matches_iff : (matches o f s ≡ true) ↔ IsWanted
  unfolding matches matches_status
  matches_iff = (
    (λ e. record {
      found = search_iff.0 (ground (arith, e));
      status_chosen = in_statuses.0 (ground (arith, e));
      mode_chosen = mode_iff.0 (ground (arith, e));
      category_chosen = category_iff.0 (ground (arith, e));
      method_chosen = method_iff.0 (ground (arith, e));
    }),
    (λ w. ground (
      arith,
      search_iff.1 w.found,
      in_statuses.1 w.status_chosen,
      mode_iff.1 w.mode_chosen,
      category_iff.1 w.category_chosen,
      method_iff.1 w.method_chosen,
    )),
  )
    where
      in_statuses :
          (member status_eq (get_subscription_status s) f.selected_statuses ≡ true)
          ↔ IsIn (get_subscription_status s) f.selected_statuses
      in_statuses =
          member_iff status_eq (get_subscription_status s) f.selected_statuses
            (status_eq_iff (get_subscription_status s))
