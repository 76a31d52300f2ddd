-- ===== src/Prelude/Bits.antt =====
-- `|` of bit fields that do not overlap, as a sum; and checks of a byte by its 256 values.
use Prim.Native.Nat.{
  ℕ, zero, suc, ◌+◌, ◌*◌, ◌/◌, ◌%◌, ◌^◌, ◌≤◌, ◌<◌, max, digits, bit_or, bit_or-bitwise,
}
use mathlib.Core.Bool.{Bool, true, ◌&&◌}
use mathlib.Core.Path.{◌≡◌, refl, sym, ap, ◌∙◌}
use mathlib.Core.Logic.{◌≢◌}
use native.Mathlib.Nat.{pow-suc}
use native.Mathlib.Omega.{arith}
use vscpl1drv_can4vscp.Prelude.Tests.{◌==◌, ==_iff}

-- The digits that `bit_or` stands for, with `fuel` rounds.
abbrev or_digits : ℕ → ℕ → ℕ → ℕ
or_digits fuel a b = digits (λ d. d) max fuel a b

or_digits-zero : (fuel b : ℕ) → or_digits fuel 0 b ≡ b
or_digits-zero zero b = refl
or_digits-zero (suc fuel) b = refl

-- Any two amounts of fuel that suffice give the same digits.
or_digits_enough :
    (fuel spare a b : ℕ) → a ≤ fuel → a ≤ spare → or_digits fuel a b ≡ or_digits spare a b
or_digits_enough fuel spare zero b p q = or_digits-zero fuel b ∙ sym (or_digits-zero spare b)
or_digits_enough zero spare (suc a) b p q = absurd (omega arith)
or_digits_enough (suc fuel) zero (suc a) b p q = absurd (omega arith)
or_digits_enough (suc fuel) (suc spare) (suc a) b p q =
    let half = suc a / 2 in
    ap (λ (t : ℕ). t * 2 + max (suc a % 2) (b % 2))
      (or_digits_enough fuel spare half (b / 2) (omega arith) (omega arith))

-- The lowest digit.
or_low : (a b : ℕ) → bit_or a b ≡ bit_or (a / 2) (b / 2) * 2 + max (a % 2) (b % 2)
or_low zero b = rw (bit_or-bitwise 0 b, bit_or-bitwise 0 (b / 2)) (omega arith)
or_low (suc a) b =
    rw (bit_or-bitwise (suc a) b, bit_or-bitwise (suc a / 2) (b / 2))
      (ap (λ (t : ℕ). t * 2 + max (suc a % 2) (b % 2))
        (or_digits_enough a (suc a / 2) (suc a / 2) (b / 2) (omega arith) (omega arith)))

or_zero : (bound a : ℕ) → a ≤ bound → bit_or a 0 ≡ a
or_zero bound zero h = refl
or_zero zero (suc a) h = absurd (omega arith)
or_zero (suc bound) (suc a) h =
    omega (arith, or_low (suc a) 0, or_zero bound (suc a / 2) (omega arith))

-- `(high << k) | low`, where `low` has `k` bits.
pub bit_or-shifted : (k high low : ℕ) → low < 2 ^ k → bit_or (high * 2 ^ k) low ≡ high * 2 ^ k + low
bit_or-shifted zero high low h =
    let none_low : low ≡ 0 = omega arith in
    rw none_low (or_zero (high * 2 ^ 0) (high * 2 ^ 0) (omega arith) ∙ omega arith)
bit_or-shifted (suc k) high low h =
    let double : high * 2 ^ suc k ≡ high * 2 ^ k * 2 =
      omega (arith, ap (λ (t : ℕ). high * t) (pow-suc 2 k)) in
    omega (
      arith,
      double,
      or_low (high * 2 ^ suc k) low,
      ap (λ (t : ℕ). bit_or (t / 2) (low / 2)) double,
      ap (λ (t : ℕ). bit_or t (low / 2)) (halved (high * 2 ^ k)),
      bit_or-shifted k high (low / 2) (omega (arith, pow-suc 2 k)),
    )
  where
    halved : (t : ℕ) → t * 2 / 2 ≡ t
    halved t = omega arith

le-or : (bound a b : ℕ) → b ≤ bound → b ≤ bit_or a b
le-or bound a zero h = omega arith
le-or zero a (suc b) h = absurd (omega arith)
le-or (suc bound) a (suc b) h =
    omega (arith, or_low a (suc b), le-or bound (a / 2) (suc b / 2) (omega arith))

-- A bit of the right operand stays set.
pub bit_or-ne_zero : (a b : ℕ) → b ≢ 0 → bit_or a b ≢ 0
bit_or-ne_zero a b h e = h (omega (arith, le-or b a b (omega arith)))

abbrev pub all_below : ℕ → (ℕ → Bool) → Bool
all_below zero test = true
all_below (suc n) test = test n && all_below n test

all_below_lem : (n : ℕ) (test : ℕ → Bool) (x : ℕ) → all_below n test ≡ true → x < n → test x ≡ true
all_below_lem zero test x h lt = absurd (omega arith)
all_below_lem (suc n) test x h lt = ground (arith, all_below_lem n test x)

-- Two functions that agree on the 256 values of a byte.
pub eq_on_bytes :
    (f g : ℕ → ℕ) → all_below 256 (λ b. f b == g b) ≡ true → (b : ℕ) → b < 256 → f b ≡ g b
eq_on_bytes f g h b lt = (==_iff (f b) (g b)).0 (all_below_lem 256 (λ b. f b == g b) b h lt)
