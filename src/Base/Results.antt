-- ===== src/Base/Results.antt =====
-- Code that may throw: a value or an exception.
use mathlib.Core.Path.{◌≡◌, refl, subst}
use mathlib.Core.Bool.{Bool, true, false}
use subdux.Base.Tests.{if◌then◌else◌}

pub data Result {ℓ} (E A : Type ℓ) : Type ℓ where
  ok : A → Result E A
  throw : E → Result E A

infixl 5 ◌>>=◌
abbrev pub ◌>>=◌ {ℓ} : {E A B : Type ℓ} → Result E A → (A → Result E B) → Result E B
throw e >>= k = throw e
ok a >>= k = k a

-- The code returns.
abbrev pub IsOk {ℓ} : {E A : Type ℓ} → Result E A → Type ℓ
IsOk {A} m = (a : A) × (m ≡ ok a)

pub bind-IsOk {ℓ} :
    {E A B : Type ℓ} {m : Result E A} (f : A → Result E B)
    → IsOk m
    → ((a : A) → IsOk (f a))
    → IsOk (m >>= f)
bind-IsOk f (a, e) h = let (b, q) = h a in (b, rw e q)

pub if-IsOk {ℓ} :
    {E A : Type ℓ} (c : Bool) {x y : Result E A} → IsOk x → IsOk y → IsOk (if c then x else y)
if-IsOk true hx hy = hx
if-IsOk false hx hy = hy

pub ok_injective {ℓ} : {E A : Type ℓ} {a b : A} → ◌≡◌ {A = Result E A} (ok a) (ok b) → a ≡ b
ok_injective h = cc

-- Whatever the code returns satisfies `P`.
abbrev pub Gives {ℓ} : {E A : Type ℓ} → (A → Type ℓ) → Result E A → Type ℓ
Gives {A} P m = (a : A) → m ≡ ok a → P a

pub bind-Gives {ℓ} :
    {E A B : Type ℓ} (P : B → Type ℓ) (m : Result E A) {f : A → Result E B}
    → ((a : A) → m ≡ ok a → Gives P (f a))
    → Gives P (m >>= f)
bind-Gives P (ok a) h = h a refl
bind-Gives P (throw e) h = λ b q. cc

pub ok-Gives {ℓ} : {E A : Type ℓ} (P : A → Type ℓ) (a : A) → P a → Gives {E = E} P (ok a)
ok-Gives P a p = λ b q. subst P (ok_injective q) p

pub if-Gives {ℓ} :
    {E A : Type ℓ} (P : A → Type ℓ) (c : Bool) {x y : Result E A}
    → (c ≡ true → Gives P x)
    → (c ≡ false → Gives P y)
    → Gives P (if c then x else y)
if-Gives P true hx hy = hx refl
if-Gives P false hx hy = hy refl
