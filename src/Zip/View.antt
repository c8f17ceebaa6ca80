-- ===== src/Zip/View.antt =====
-- The browser's `File` and `DataView` as zip-encryption.ts uses them, and its `readSlice`.
use subdux.Base.{
  Bool, List, Option, Result, drop, get_elem?, if◌then◌else◌, length, none, ok, some, take, throw,
  ℕ, ◌*◌, ◌+◌, ◌-◌, ◌>>=◌,
}

-- What the code of zip-encryption.ts can throw. `out_of_fuel` is no exception of the source: a
-- loop of the model raises it when its fuel is used up, and no handler catches it.
pub data ZipError : Type 0 where
  range_error not_readable unsupported_strength web_crypto_unavailable : ZipError
  operation_error out_of_fuel : ZipError

abbrev pub Zip : Type 0 → Type 0
Zip A = Result ZipError A

-- A file is its bytes; the browser may refuse to read a range of it, and says which by `refuses`.
pub record ZipFile : Type 0 where
  pub bytes : List ℕ
  pub refuses : ℕ → ℕ → Bool

abbrev pub size : ZipFile → ℕ
size file = length file.bytes

-- `file.slice(start, end)`, clamped to the file, as a view of its bytes.
abbrev pub slice : List ℕ → ℕ → ℕ → List ℕ
slice bytes start end' = take (end' - start) (drop start bytes)

unfoldable pub read_slice : ZipFile → ℕ → ℕ → Zip (List ℕ)
read_slice file start end' =
    if file.refuses start end' then throw not_readable else ok (slice file.bytes start end')

abbrev in_range : Option ℕ → Zip ℕ
in_range none = throw range_error
in_range (some b) = ok b

-- The reads of a `DataView`, which throw a RangeError past its end. All are little-endian.
unfoldable pub get_uint8 : List ℕ → ℕ → Zip ℕ
get_uint8 view offset = in_range (get_elem? view offset)

unfoldable pub get_uint16 : List ℕ → ℕ → Zip ℕ
get_uint16 view offset = do
  low ← get_uint8 view offset
  high ← get_uint8 view (offset + 1)
  ok (low + 256 * high)

unfoldable pub get_uint32 : List ℕ → ℕ → Zip ℕ
get_uint32 view offset = do
  low ← get_uint16 view offset
  high ← get_uint16 view (offset + 2)
  ok (low + 65536 * high)
