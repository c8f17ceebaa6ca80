-- ===== src/Notify/Lookup.antt =====
-- What the form reads of a stored configuration: the member under a key, optional ones too.
use package.text.Mathlib.TextEquality.{eq_iff}
use subdux.Base.{
  Bool, String, TextMap, [], arith, false, if◌then◌else◌, none, refl, some, str_eq, true, ◌∙◌, ◌∷◌,
  ◌≡◌, ◌≢◌,
}
use subdux.Notify.Build.{present}
use subdux.Notify.Fields.{Config, Runtime, headers, normalize_ntfy_priority, number, text}
use subdux.Notify.Initial.{member}

-- What `JSON.parse` and `String` give for the member of a stored configuration.
abbrev pub lookup : Config → TextMap String
lookup [] key = none
lookup ((k, text value) ∷ rest) key = if str_eq k key then some value else lookup rest key
lookup ((k, number value) ∷ rest) key = if str_eq k key then some value else lookup rest key
lookup ((k, headers kept) ∷ rest) key = lookup rest key

pub here :
    (key value : String) (rest : Config)
    → lookup rest key ≡ none
    → member (lookup (present key value rest)) key "" ≡ value
unfolding present
here key value rest h = by_test (str_eq value "") refl
  where
    by_test :
        (b : Bool)
        → str_eq value "" ≡ b
        → member (lookup (if b then rest else (key, text value) ∷ rest)) key "" ≡ value
    by_test true e = rw (member, h) (ground (arith, eq_iff value ""))
    by_test false e = ground (arith, eq_iff key key)

pub there :
    (k value key : String) (rest : Config)
    → str_eq k key ≡ false
    → lookup (present k value rest) key ≡ lookup rest key
unfolding present
there k value key rest h = by_test (str_eq value "")
  where
    by_test : (b : Bool) → lookup (if b then rest else (k, text value) ∷ rest) key ≡ lookup rest key
    by_test true = refl
    by_test false = rw h refl

-- A key that is in no member before the rest nor in the rest.
pub skip :
    (k value key : String) (rest : Config)
    → str_eq k key ≡ false
    → lookup rest key ≡ none
    → lookup (present k value rest) key ≡ none
skip k value key rest h e = there k value key rest h ∙ e

pub past :
    (k value key : String) (rest : Config) (otherwise : String)
    → str_eq k key ≡ false
    → member (lookup (present k value rest)) key otherwise ≡ member (lookup rest) key otherwise
past k value key rest otherwise h = rw (member, there k value key rest h) refl

pub filled :
    (key value : String) (rest : Config) (otherwise : String)
    → value ≢ ""
    → member (lookup (present key value rest)) key otherwise ≡ value
unfolding present
filled key value rest otherwise h = ground (arith, eq_iff value "", eq_iff key key)

pub normal :
    (runtime : Runtime) (key value : String) (rest : Config)
    → lookup rest key ≡ none
    → normalize_ntfy_priority runtime (some value) ≡ value
    → normalize_ntfy_priority runtime (lookup (present key value rest) key) ≡ value
unfolding present
normal runtime key value rest e h = by_test (str_eq value "") refl
  where
    by_test :
        (b : Bool)
        → str_eq value "" ≡ b
        → normalize_ntfy_priority runtime
            (lookup (if b then rest else (key, text value) ∷ rest) key)
          ≡ value
    by_test true q = rw e (unfold normalize_ntfy_priority in ground (arith, eq_iff value ""))
    by_test false q = ground (arith, h, eq_iff key key)
