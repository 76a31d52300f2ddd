-- ===== src/Driver/Outcome.antt =====
-- What holds of the outcome of a run (the type `Run` of the model).
use vscpl1drv_can4vscp.Prelude.{◌≡◌, ◌≢◌, refl, ap, arith, Bool, true, false, if◌then◌else◌}
use vscpl1drv_can4vscp.Driver.{Run, ok, fault, starved, ◌>>=◌}

-- Of what a run returns.
abbrev pub OnOk {ℓ} : {A : Type ℓ} → (A → Type 0) → Run A → Type 0
OnOk P (ok a) = P a
OnOk P fault = Unit {0}
OnOk P starved = Unit {0}

pub bind-OnOk {ℓ κ} :
    {A : Type ℓ} {B : Type κ} (P : A → Type 0) (Q : B → Type 0) (r : Run A) (f : A → Run B)
    → OnOk P r
    → ((a : A) → P a → OnOk Q (f a))
    → OnOk Q (r >>= f)
bind-OnOk P Q (ok a) f h k = k a h
bind-OnOk P Q fault f h k = tt
bind-OnOk P Q starved f h k = tt

pub if-OnOk {ℓ} :
    {A : Type ℓ} (Q : A → Type 0) (b : Bool) (x y : Run A)
    → (b ≡ true → OnOk Q x)
    → (b ≡ false → OnOk Q y)
    → OnOk Q (if b then x else y)
if-OnOk Q true x y h k = h refl
if-OnOk Q false x y h k = k refl

pub test-OnOk {ℓ} :
    {A : Type ℓ} (Q : A → Type 0) (b : Bool) (x y : Run A)
    → OnOk Q x
    → OnOk Q y
    → OnOk Q (elim b [ false ↦ x | true ↦ y ])
test-OnOk Q false x y h k = h
test-OnOk Q true x y h k = k

pub OnOk-ok {ℓ} : {A : Type ℓ} (P : A → Type 0) (r : Run A) (a : A) → OnOk P r → r ≡ ok a → P a
OnOk-ok P (ok b) a h e = grind arith
OnOk-ok P fault a h e = cc
OnOk-ok P starved a h e = cc

pub bind-ne-starved {ℓ κ} :
    {A : Type ℓ} {B : Type κ} (r : Run A) (f : A → Run B)
    → r ≢ starved
    → ((a : A) → f a ≢ starved)
    → (r >>= f) ≢ starved
bind-ne-starved (ok a) f h k = k a
bind-ne-starved fault f h k = λ e. cc
bind-ne-starved starved f h k = λ e. absurd (h refl)

pub if-ne-starved {ℓ} :
    {A : Type ℓ} (b : Bool) (x y : Run A)
    → x ≢ starved
    → y ≢ starved
    → (if b then x else y) ≢ starved
if-ne-starved true x y h k = h
if-ne-starved false x y h k = k

pub test-ne-starved {ℓ} :
    {A : Type ℓ} (b : Bool) (x y : Run A)
    → x ≢ starved
    → y ≢ starved
    → elim b [ false ↦ x | true ↦ y ] ≢ starved
test-ne-starved false x y h k = h
test-ne-starved true x y h k = k

pub map-OnOk {ℓ} :
    {A : Type ℓ} (P Q : A → Type 0) (r : Run A) → OnOk P r → ((a : A) → P a → Q a) → OnOk Q r
map-OnOk P Q (ok a) h k = k a h
map-OnOk P Q fault h k = tt
map-OnOk P Q starved h k = tt

pub bind-ne-fault {ℓ κ} :
    {A : Type ℓ} {B : Type κ} (r : Run A) (f : A → Run B)
    → r ≢ fault
    → ((a : A) → f a ≢ fault)
    → (r >>= f) ≢ fault
bind-ne-fault (ok a) f h k = k a
bind-ne-fault fault f h k = λ e. absurd (h refl)
bind-ne-fault starved f h k = λ e. cc

pub if-ne-fault {ℓ} :
    {A : Type ℓ} (b : Bool) (x y : Run A) → x ≢ fault → y ≢ fault → (if b then x else y) ≢ fault
if-ne-fault true x y h k = h
if-ne-fault false x y h k = k

-- A run without a fault that does not starve returns.
pub total {ℓ} : {A : Type ℓ} (r : Run A) → r ≢ fault → r ≢ starved → (a : A) × (r ≡ ok a)
total (ok a) f s = (a, refl)
total fault f s = absurd (f refl)
total starved f s = absurd (s refl)

pub ok-ne-fault {ℓ} : {A : Type ℓ} (a : A) → ok a ≢ fault
ok-ne-fault a = λ e. cc

pub test-ne-fault {ℓ} :
    {A : Type ℓ} (b : Bool) (x y : Run A)
    → x ≢ fault
    → y ≢ fault
    → elim b [ false ↦ x | true ↦ y ] ≢ fault
test-ne-fault false x y h k = h
test-ne-fault true x y h k = k

-- What a chain that returns has returned on the way.
pub bind-ok {ℓ κ} :
    {A : Type ℓ} {B : Type κ} (r : Run A) (f : A → Run B) (b : B)
    → (r >>= f) ≡ ok b
    → (a : A) × (r ≡ ok a) × (f a ≡ ok b)
bind-ok (ok a) f b e = (a, refl, e)
bind-ok fault f b e = cc
bind-ok starved f b e = cc

-- What is returned, or the other value.
abbrev returned_or {ℓ} : {A : Type ℓ} → A → Run A → A
returned_or a (ok b) = b
returned_or a fault = a
returned_or a starved = a

pub ok-injective {ℓ} : {A : Type ℓ} (a b : A) → ok a ≡ ok b → a ≡ b
ok-injective a b e = ap (returned_or a) e

pub OnOk-unit {ℓ} : {A : Type ℓ} (r : Run A) → OnOk (λ x. Unit {0}) r
OnOk-unit (ok a) = tt
OnOk-unit fault = tt
OnOk-unit starved = tt

-- A run whose result is left out.
pub run-OnOk : {A B : Type 0} (Q : B → Type 0) (r : Run A) (b : B) → Q b → OnOk Q (r >>= λ a. ok b)
run-OnOk Q (ok a) b h = h
run-OnOk Q fault b h = tt
run-OnOk Q starved b h = tt
