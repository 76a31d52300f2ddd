-- ===== src/Config/Numbers.antt =====
-- Decimal numbers as `atoi` of the C library reads them.
use vscpl1drv_can4vscp.Prelude.{
  ℕ, zero, suc, ◌+◌, ◌-◌, ◌*◌, ◌/◌, ◌%◌, ◌<◌, ◌≡◌, refl, ap, ◌∙◌, arith, true, false, Bool-cases,
  inl, inr, [], ◌∷◌, ◌++◌, ltb, if◌then◌else◌,
}
use vscpl1drv_can4vscp.Config.Text.{Bytes, is_digit, digits_from, atoi}

-- The decimal digits of a number, without more of them than the fuel.
unfoldable pub decimal_upto : ℕ → ℕ → Bytes
decimal_upto zero n = []
decimal_upto (suc fuel) n =
    let front = decimal_upto fuel (n / 10) in
    if ltb n 10 then (b'0' + n) ∷ [] else front ++ ((b'0' + n % 10) ∷ [])

abbrev pub decimal : ℕ → Bytes
decimal n = decimal_upto (suc n) n

abbrev pub AllDigits : Bytes → Type 0
AllDigits [] = Unit {0}
AllDigits (c ∷ s) = (is_digit c ≡ true) × AllDigits s

AllDigits-append : (s t : Bytes) → AllDigits s → AllDigits t → AllDigits (s ++ t)
AllDigits-append [] t hs ht = ht
AllDigits-append (c ∷ s) t hs ht = (hs.0, AllDigits-append s t hs.1 ht)

digits_from-append :
    (m : ℕ) (s : Bytes) (d : ℕ)
    → AllDigits s
    → d < 10
    → digits_from m (s ++ ((b'0' + d) ∷ [])) ≡ digits_from m s * 10 + d
unfolding digits_from
digits_from-append m [] d h k = ground arith
digits_from-append m (c ∷ s) d h k = rw h.0 (digits_from-append (m * 10 + (c - b'0')) s d h.1 k)

pub decimal_upto-AllDigits : (fuel n : ℕ) → AllDigits (decimal_upto fuel n)
unfolding decimal_upto
decimal_upto-AllDigits zero n = tt
decimal_upto-AllDigits (suc fuel) n = elim (Bool-cases (ltb n 10)) [
  | inl small ↦ rw small (ground arith, tt)
  | inr large ↦ rw large (
      AllDigits-append (decimal_upto fuel (n / 10)) ((b'0' + n % 10) ∷ [])
        (decimal_upto-AllDigits fuel (n / 10)) (ground arith, tt))
]

none_yet : (m : ℕ) → digits_from m [] ≡ m
unfolding digits_from
none_yet m = refl

digits_from-decimal_upto : (fuel n : ℕ) → n < fuel → digits_from 0 (decimal_upto fuel n) ≡ n
unfolding decimal_upto
digits_from-decimal_upto zero n h = absurd (omega arith)
digits_from-decimal_upto (suc fuel) n h = elim (Bool-cases (ltb n 10)) [
  | inl small ↦ rw small (digits_from-append 0 [] n tt (ground arith) ∙ omega (arith, none_yet 0))
  | inr large ↦ rw large (
      digits_from-append 0 (decimal_upto fuel (n / 10)) (n % 10)
        (decimal_upto-AllDigits fuel (n / 10)) (omega arith)
      ∙ omega (arith, digits_from-decimal_upto fuel (n / 10) (ground arith)))
]

atoi-AllDigits : (s : Bytes) → AllDigits s → atoi s ≡ (false, digits_from 0 s)
unfolding atoi digits_from
atoi-AllDigits [] h = refl
atoi-AllDigits (c ∷ s) h = ground arith

-- `atoi` reads a number back from its decimal digits.
pub atoi-decimal : (n : ℕ) → atoi (decimal n) ≡ (false, n)
atoi-decimal n =
    atoi-AllDigits (decimal n) (decimal_upto-AllDigits (suc n) n)
    ∙ ap (λ m. (false, m)) (digits_from-decimal_upto (suc n) n (omega arith))
