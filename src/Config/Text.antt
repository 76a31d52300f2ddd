-- ===== src/Config/Text.antt =====
-- The C string functions that src/common/can4vscpobj.cpp calls on the configuration string.
use Prim.Native.Char.{code}
use Prim.Native.String.{String}
use vscpl1drv_can4vscp.Prelude.{
  ℕ, zero, suc, ◌+◌, ◌-◌, ◌*◌, ◌%◌, ◌==◌, ◌&&◌, ◌||◌, Bool, true, false, Option, none, some, List,
  [], ◌∷◌, leb, if◌then◌else◌,
}

abbrev pub Bytes : Type 0
Bytes = List ℕ

-- A string literal.
abbrev pub codes : String → Bytes
codes String.[] = []
codes (String.◌∷◌ c s) = code c ∷ codes s

-- The string before the first `c`, and behind it, where there is one.
unfoldable pub strchr : ℕ → Bytes → Bytes × Option Bytes
strchr c [] = ([], none)
strchr c (x ∷ s) =
    let (before, behind) = strchr c s in if x == c then ([], some s) else (x ∷ before, behind)

-- The string before the last `c` and behind it.
unfoldable pub strrchr : ℕ → Bytes → Option (Bytes × Bytes)
strrchr c [] = none
strrchr c (x ∷ s) = elim (strrchr c s) [
  | some parts ↦ some (x ∷ parts.0, parts.1)
  | none ↦ if x == c then some ([], s) else none
]

abbrev pub take : ℕ → Bytes → Bytes
take zero s = []
take (suc n) [] = []
take (suc n) (x ∷ s) = x ∷ take n s

abbrev pub to_lower : ℕ → ℕ
to_lower c = if leb b'A' c && leb c b'Z' then c + 32 else c

-- 0 == strcasecmp(a, b)
unfoldable pub strcasecmp : Bytes → Bytes → Bool
strcasecmp [] [] = true
strcasecmp [] (y ∷ t) = false
strcasecmp (x ∷ s) [] = false
strcasecmp (x ∷ s) (y ∷ t) = (to_lower x == to_lower y) && strcasecmp s t

abbrev pub is_digit : ℕ → Bool
is_digit c = leb b'0' c && leb c b'9'

-- The digits from the start on, behind a number.
unfoldable pub digits_from : ℕ → Bytes → ℕ
digits_from n [] = n
digits_from n (c ∷ s) =
    let rest = digits_from (n * 10 + (c - b'0')) s in if is_digit c then rest else n

abbrev pub is_space : ℕ → Bool
is_space c = (c == 32) || (leb 9 c && leb c 13)

-- The sign and the magnitude of `atoi`, without the overflow of an `int`.
unfoldable pub atoi : Bytes → Bool × ℕ
atoi [] = (false, 0)
atoi (c ∷ s) =
    let rest = atoi s in
    if is_space c
    then rest
    else if c == b'-'
    then (true, digits_from 0 s)
    else if c == b'+'
    then (false, digits_from 0 s)
    else (false, digits_from 0 (c ∷ s))

-- An `int` stored in a `uint8_t`.
abbrev pub low_byte : Bool × ℕ → ℕ
low_byte (negative, n) = if negative then (256 - n % 256) % 256 else n % 256
