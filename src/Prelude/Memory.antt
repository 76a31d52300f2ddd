-- ===== src/Prelude/Memory.antt =====
-- Byte memory: a function from addresses, written by `update`, and read back as a list.
use Prim.Native.Nat.{ℕ, zero, suc, ◌≤◌, ◌<◌}
use mathlib.Core.Path.{◌≡◌, refl, sym, ap, ◌∙◌}
use mathlib.Core.Logic.{inl, inr}
use mathlib.Core.Option.{some}
use mathlib.Core.List.{List, [], ◌∷◌, ◌++◌}
use native.Mathlib.Omega.{arith}
use vscpl1drv_can4vscp.Prelude.Tests.{◌==◌, if◌then◌else◌, ltb, ltb→lt, Bool-cases}
use vscpl1drv_can4vscp.Prelude.Lists.{length, length-append, get_elem?}

abbrev pub Memory : Type 0
Memory = ℕ → ℕ

abbrev pub update : Memory → ℕ → ℕ → Memory
update m i v j = if i == j then v else m j

-- The first `n` bytes.
abbrev pub prefix : Memory → ℕ → List ℕ
prefix m zero = []
prefix m (suc n) = prefix m n ++ (m n ∷ [])

pub length-prefix : (m : Memory) (n : ℕ) → length (prefix m n) ≡ n
length-prefix m zero = refl
length-prefix m (suc n) = omega (arith, length-append (prefix m n) (m n ∷ []), length-prefix m n)

pub prefix-update_above : (m : Memory) (i v n : ℕ) → n ≤ i → prefix (update m i v) n ≡ prefix m n
prefix-update_above m i v zero h = refl
prefix-update_above m i v (suc n) h = ground (arith, prefix-update_above m i v n (omega arith))

-- A byte written just above the first `n` bytes extends them.
pub prefix-update_end :
    (m : Memory) (n v : ℕ) → prefix (update m n v) (suc n) ≡ prefix m n ++ (v ∷ [])
prefix-update_end m n v = ground (arith, prefix-update_above m n v n (omega arith))

pub get_elem?-append_left :
    (xs ys : List ℕ) (i : ℕ) → i < length xs → get_elem? (xs ++ ys) i ≡ get_elem? xs i
get_elem?-append_left [] ys i h = elim h [ ]
get_elem?-append_left (x ∷ xs) ys zero h = refl
get_elem?-append_left (x ∷ xs) ys (suc i) h = get_elem?-append_left xs ys i (omega arith)

pub get_elem?-append_end : (xs : List ℕ) (y : ℕ) → get_elem? (xs ++ (y ∷ [])) (length xs) ≡ some y
get_elem?-append_end [] y = refl
get_elem?-append_end (x ∷ xs) y = get_elem?-append_end xs y

pub get_elem?-prefix : (m : Memory) (n i : ℕ) → i < n → get_elem? (prefix m n) i ≡ some (m i)
get_elem?-prefix m zero i h = elim h [ ]
get_elem?-prefix m (suc n) i h = elim (Bool-cases (ltb i n)) [
  | inl below ↦
      get_elem?-append_left (prefix m n) (m n ∷ []) i (ground (arith, length-prefix m n))
      ∙ get_elem?-prefix m n i (ltb→lt i n below)
  | inr top ↦
      let e : i ≡ n = ground arith in
      rw e (
        ap (get_elem? (prefix m n ++ (m n ∷ []))) (sym (length-prefix m n))
        ∙ get_elem?-append_end (prefix m n) (m n))
]
