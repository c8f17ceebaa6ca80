-- ===== src/Base/Maps.antt =====
-- `Map<number, V>` and `Record<string, V>` as functions into options.
use Prim.Native.Nat.{ℕ}
use Prim.Native.String.{String}
use mathlib.Core.Option.{Option}
use subdux.Base.Tests.{◌==◌, str_eq, if◌then◌else◌}

abbrev pub NumMap {ℓ} : Type ℓ → Type ℓ
NumMap V = ℕ → Option V

abbrev pub TextMap {ℓ} : Type ℓ → Type ℓ
TextMap V = String → Option V

module _ {ℓ} {V : Type ℓ} where
  -- `map.set(k, v)` with `some v`, `map.delete(k)` with `none`.
  abbrev pub set_num : ℕ → Option V → NumMap V → NumMap V
  set_num k v m j = if j == k then v else m j

  abbrev pub set_text : String → Option V → TextMap V → TextMap V
  set_text k v m j = if str_eq j k then v else m j
