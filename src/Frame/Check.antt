-- ===== src/Frame/Check.antt =====
-- The CRC check `can4vscp_checkCRC` of src/common/can4vscp-protocol.cpp.
use vscpl1drv_can4vscp.Prelude.{
  ℕ, zero, suc, ◌-◌, ◌%◌, ◌<◌, ◌^◌, true, List, [], ◌∷◌, ◌++◌, ◌==◌, ==_iff, ==-ne, ◌≡◌, ◌↔◌, refl,
  sym, ap, ◌∙◌, arith, length, length-append,
}
use vscpl1drv_can4vscp.Prelude.Memory.{Memory, prefix}
use vscpl1drv_can4vscp.Frame.Encode.{crc_from, sealed}
use vscpl1drv_can4vscp.Frame.{crc_loop, check_crc}

-- Two lists with the same length and one byte each behind them.
last_byte : (xs ys : List ℕ) (x y : ℕ) → xs ++ (x ∷ []) ≡ ys ++ (y ∷ []) → (xs ≡ ys) × (x ≡ y)
last_byte [] [] x y e = (refl, ground arith)
last_byte [] (b ∷ ys) x y e = absurd (omega (arith, ap length e, length-append {0} ys (y ∷ [])))
last_byte (a ∷ xs) [] x y e = absurd (omega (arith, ap length e, length-append {0} xs (x ∷ [])))
last_byte (a ∷ xs) (b ∷ ys) x y e =
    let t : xs ++ (x ∷ []) ≡ ys ++ (y ∷ []) = ground arith in
    let r = last_byte xs ys x y t in ground arith

module _ (crc8 : ℕ → ℕ → ℕ) where
  crc_from-append :
      (k : ℕ) (xs ys : List ℕ) → crc_from crc8 k (xs ++ ys) ≡ crc_from crc8 (crc_from crc8 k xs) ys
  crc_from-append k [] ys = refl
  crc_from-append k (x ∷ xs) ys = crc_from-append (crc8 k x) xs ys

  crc_loop_lem : (buf : Memory) (n : ℕ) → crc_loop crc8 buf n ≡ crc_from crc8 0 (prefix buf n)
  unfolding crc_loop
  crc_loop_lem buf zero = refl
  crc_loop_lem buf (suc n) =
      ap (λ k. crc8 k (buf n)) (crc_loop_lem buf n)
      ∙ sym (crc_from-append 0 (prefix buf n) (buf n ∷ []))

  check_crc-suc :
      (buf : Memory) (n : ℕ)
      → suc n < 2 ^ 16
      → check_crc crc8 buf (suc n) ≡ (crc_from crc8 0 (prefix buf n) == buf n)
  unfolding check_crc
  check_crc-suc buf n h =
      let e : (suc n - 1) % 2 ^ 16 ≡ n = omega arith in
      let e' : suc n - 1 ≡ n = omega arith in
      rw (e, e', crc_loop_lem, ==-ne (suc n) 0 (omega arith))

  -- can4vscp_checkCRC passes exactly when the bytes received are some bytes followed by their CRC;
  -- no bytes at all do not pass. The length is below 2^16.
  pub check_crc_iff :
      (buf : Memory) (len : ℕ)
      → len < 2 ^ 16
      → (check_crc crc8 buf len ≡ true) ↔ ((xs : List ℕ) × (prefix buf len ≡ sealed crc8 xs))
  unfolding check_crc
  check_crc_iff buf zero h = (
    λ e. cc,
    λ (xs, e). absurd (omega (arith, ap length e, length-append {0} xs (crc_from crc8 0 xs ∷ []))),
  )
  check_crc_iff buf (suc n) h = rw (check_crc-suc buf n h) (
    λ e. (prefix buf n, ap (λ c. prefix buf n ++ (c ∷ [])) (sym ((==_iff _ _).0 e))),
    λ (xs, e).
        let r = last_byte (prefix buf n) xs (buf n) (crc_from crc8 0 xs) e in
        (==_iff _ _).1 (ap (crc_from crc8 0) r.0 ∙ sym r.1),
  )
