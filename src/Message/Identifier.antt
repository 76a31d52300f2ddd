-- ===== src/Message/Identifier.antt =====
-- The identifier and the time stamp as sums of their bytes (`readSerialData` and `transmitMessage`
-- of src/common/can4vscpobj.cpp).
use vscpl1drv_can4vscp.Prelude.{
  ℕ, ◌+◌, ◌*◌, ◌/◌, ◌%◌, ◌^◌, ◌<◌, ◌≡◌, refl, ◌∙◌, arith, [], ◌∷◌, bit_and, bit_or,
}
use vscpl1drv_can4vscp.Prelude.Bits.{bit_or-shifted, eq_on_bytes}
use vscpl1drv_can4vscp.Message.{masked_word, id_bytes}

top_field : (b : ℕ) → b < 256 → bit_and (b * 2 ^ 24 % 2 ^ 32) 0x1f000000 ≡ b % 32 * 2 ^ 24
top_field = eq_on_bytes (λ b. bit_and (b * 2 ^ 24 % 2 ^ 32) 0x1f000000) (λ b. b % 32 * 2 ^ 24) refl

second_field : (b : ℕ) → b < 256 → bit_and (b * 2 ^ 16 % 2 ^ 32) 0x00ff0000 ≡ b * 2 ^ 16
second_field = eq_on_bytes (λ b. bit_and (b * 2 ^ 16 % 2 ^ 32) 0x00ff0000) (λ b. b * 2 ^ 16) refl

third_field : (b : ℕ) → b < 256 → bit_and (b * 2 ^ 8 % 2 ^ 32) 0x0000ff00 ≡ b * 2 ^ 8
third_field = eq_on_bytes (λ b. bit_and (b * 2 ^ 8 % 2 ^ 32) 0x0000ff00) (λ b. b * 2 ^ 8) refl

low_field : (b : ℕ) → b < 256 → bit_and b 0xff ≡ b
low_field = eq_on_bytes (λ b. bit_and b 0xff) (λ b. b) refl

or_bytes :
    (a b c d : ℕ)
    → b < 256
    → c < 256
    → d < 256
    → bit_or (bit_or (bit_or (a * 2 ^ 24) (b * 2 ^ 16)) (c * 2 ^ 8)) d
      ≡ a * 2 ^ 24 + b * 2 ^ 16 + c * 2 ^ 8 + d
or_bytes a b c d hb hc hd =
    let e1 : bit_or (a * 2 ^ 24) (b * 2 ^ 16) ≡ (a * 2 ^ 8 + b) * 2 ^ 16 =
      bit_or-shifted 24 a (b * 2 ^ 16) (omega arith) ∙ omega arith in
    let e2 : bit_or ((a * 2 ^ 8 + b) * 2 ^ 16) (c * 2 ^ 8) ≡ ((a * 2 ^ 8 + b) * 2 ^ 8 + c) * 2 ^ 8 =
      bit_or-shifted 16 (a * 2 ^ 8 + b) (c * 2 ^ 8) (omega arith) ∙ omega arith in
    rw (e1, e2) (bit_or-shifted 8 ((a * 2 ^ 8 + b) * 2 ^ 8 + c) d (omega arith) ∙ omega arith)

-- The code's expression is the number with these bytes, less the top three bits.
pub masked_word-sum :
    (b0 b1 b2 b3 : ℕ)
    → b0 < 256
    → b1 < 256
    → b2 < 256
    → b3 < 256
    → masked_word b0 b1 b2 b3 ≡ b0 % 32 * 2 ^ 24 + b1 * 2 ^ 16 + b2 * 2 ^ 8 + b3
unfolding masked_word
masked_word-sum b0 b1 b2 b3 h0 h1 h2 h3 =
    rw (top_field b0 h0, second_field b1 h1, third_field b2 h2, low_field b3 h3)
      (or_bytes (b0 % 32) b1 b2 b3 h1 h2 h3)

-- An identifier of 29 bits is read back from the four bytes that are sent for it.
pub masked_word-id_bytes :
    (id b0 b1 b2 b3 : ℕ)
    → id < 2 ^ 29
    → id_bytes id ≡ b0 ∷ b1 ∷ b2 ∷ b3 ∷ []
    → masked_word b0 b1 b2 b3 ≡ id
unfolding id_bytes
masked_word-id_bytes id b0 b1 b2 b3 h e =
    let e0 : b0 ≡ id / 2 ^ 24 % 256 = ground arith in
    let e1 : b1 ≡ id / 2 ^ 16 % 256 = ground arith in
    let e2 : b2 ≡ id / 2 ^ 8 % 256 = ground arith in
    let e3 : b3 ≡ id % 256 = ground arith in
    masked_word-sum b0 b1 b2 b3 (omega arith) (omega arith) (omega arith) (omega arith)
    ∙ omega arith

-- A time stamp of 32 bits is read back from its four bytes without its top three bits.
pub masked_word-timestamp :
    (t b0 b1 b2 b3 : ℕ)
    → t < 2 ^ 32
    → id_bytes t ≡ b0 ∷ b1 ∷ b2 ∷ b3 ∷ []
    → masked_word b0 b1 b2 b3 ≡ t % 2 ^ 29
unfolding id_bytes
masked_word-timestamp t b0 b1 b2 b3 h e =
    let e0 : b0 ≡ t / 2 ^ 24 % 256 = ground arith in
    let e1 : b1 ≡ t / 2 ^ 16 % 256 = ground arith in
    let e2 : b2 ≡ t / 2 ^ 8 % 256 = ground arith in
    let e3 : b3 ≡ t % 256 = ground arith in
    masked_word-sum b0 b1 b2 b3 (omega arith) (omega arith) (omega arith) (omega arith)
    ∙ omega arith
