-- ===== src/Frame/Encode.antt =====
-- The wire format as a list of bytes, for `can4vscp_buildFrame` of src/common/can4vscp-protocol.cpp.
use mathlib.Core.Option.{Option, none, some, get_or}
use mathlib.Core.Path.{subst}
use vscpl1drv_can4vscp.Prelude.{
  ℕ, suc, ◌+◌, ◌*◌, ◌/◌, ◌%◌, ◌^◌, ◌<◌, ◌≤◌, List, [], ◌∷◌, ◌++◌, ◌==◌, if◌then◌else◌, ◌≡◌, refl,
  sym, ap, ◌∙◌, arith, length, length-append, append_assoc, append-nil, Bool-cases, inl, inr,
}
use vscpl1drv_can4vscp.Prelude.Memory.{Memory, update, prefix, prefix-update_end}
use vscpl1drv_can4vscp.Frame.{
  Writer, dle, stx, etx, add_with_escape, put, put_crc, put_escaped, put_payload, put_checksum,
  build_frame,
}

-- Byte stuffing: every DLE is doubled.
abbrev pub stuff : List ℕ → List ℕ
stuff [] = []
stuff (c ∷ cs) = if c == dle then dle ∷ dle ∷ stuff cs else c ∷ stuff cs

pub stuff-append : (xs ys : List ℕ) → stuff (xs ++ ys) ≡ stuff xs ++ stuff ys
stuff-append [] ys = refl
stuff-append (x ∷ xs) ys = ground (arith, stuff-append xs ys)

pub length-stuff-le : (xs : List ℕ) → length (stuff xs) ≤ 2 * length xs
length-stuff-le [] = omega arith
length-stuff-le (x ∷ xs) = ground (arith, length-stuff-le xs)

-- The CRC of a list of bytes, from a running value.
abbrev pub crc_from : (ℕ → ℕ → ℕ) → ℕ → List ℕ → ℕ
crc_from crc8 k [] = k
crc_from crc8 k (c ∷ cs) = crc_from crc8 (crc8 k c) cs

-- What the CRC covers.
abbrev pub content : ℕ → ℕ → ℕ → ℕ → List ℕ → List ℕ
content frame_type channel seq declared payload =
    frame_type ∷ channel ∷ seq ∷ (declared / 2 ^ 8 % 256) ∷ (declared % 256) ∷ payload

-- The frame as a receiver stores it: the content and the CRC byte.
abbrev pub sealed : (ℕ → ℕ → ℕ) → List ℕ → List ℕ
sealed crc8 xs = xs ++ (crc_from crc8 0 xs ∷ [])

-- The bytes on the wire. Frame type and channel are not stuffed.
abbrev pub encode : (ℕ → ℕ → ℕ) → ℕ → ℕ → ℕ → ℕ → List ℕ → List ℕ
encode crc8 frame_type channel seq declared payload =
    let crc = crc_from crc8 0 (content frame_type channel seq declared payload) in
    let sized = (declared / 2 ^ 8 % 256) ∷ (declared % 256) ∷ payload in
    (dle ∷ stx ∷ frame_type ∷ channel ∷ stuff ((seq ∷ sized) ++ (crc ∷ []))) ++ (dle ∷ etx ∷ [])

-- The writer has written `out`, without a wrap of `pos`, and its CRC is `k`.
record Holds (w : Writer) (out : List ℕ) (k : ℕ) : Type 0 where
  written : prefix w.buf w.pos ≡ out
  at : w.pos ≡ length out
  crc : w.crc ≡ k

-- One byte written at the end, and `pos` moved past it.
extend :
    (buf : Memory) (p p' c : ℕ) (out : List ℕ)
    → prefix buf p ≡ out
    → p' ≡ suc p
    → prefix (update buf p c) p' ≡ out ++ (c ∷ [])
extend buf p p' c out h e = rw e (prefix-update_end buf p c ∙ ap (λ o. o ++ (c ∷ [])) h)

-- The write of one byte with stuffing, for the payload's bytes and for the checksum.
escape-extend :
    (crc8 : ℕ → ℕ → ℕ) (w : Writer) (c : ℕ) (crc : Option ℕ) (out : List ℕ)
    → length out + 2 < 2 ^ 16
    → prefix w.buf w.pos ≡ out
    → w.pos ≡ length out
    → let e = add_with_escape crc8 w.buf w.pos c crc in
      (prefix e.buf ((w.pos + e.written) % 2 ^ 16) ≡ out ++ stuff (c ∷ []))
      × ((w.pos + e.written) % 2 ^ 16 ≡ length (out ++ stuff (c ∷ [])))
unfolding add_with_escape
escape-extend crc8 w c crc out room h at = elim (Bool-cases (c == dle)) [
  | inl hit ↦ rw hit (
    extend (update w.buf w.pos dle) (w.pos + 1) ((w.pos + 2) % 2 ^ 16) dle (out ++ (dle ∷ []))
          (extend w.buf w.pos (w.pos + 1) dle out h (omega arith)) (omega arith)
        ∙ append_assoc out (dle ∷ []) (dle ∷ []),
    omega (arith, length-append {0} out (dle ∷ dle ∷ [])),
  )
  | inr miss ↦ rw miss (
    extend w.buf w.pos ((w.pos + 1) % 2 ^ 16) c out h (omega arith),
    omega (arith, length-append {0} out (c ∷ [])),
  )
]

module _ (crc8 : ℕ → ℕ → ℕ) where
  escape-crc :
      (buf : Memory) (p c k k' : ℕ)
      → k ≡ k'
      → get_or (add_with_escape crc8 buf p c (some k)).crc k ≡ crc8 k' c
  unfolding add_with_escape
  escape-crc buf p c k k' e = ground arith

  put-Holds :
      (c : ℕ) (w : Writer) (out : List ℕ) (k : ℕ)
      → length out + 1 < 2 ^ 16
      → Holds w out k
      → Holds (put crc8 c w) (out ++ (c ∷ [])) k
  unfolding put
  put-Holds c w out k room h = record {
    written = extend w.buf w.pos ((w.pos + 1) % 2 ^ 16) c out h.written (omega (arith, h.at));
    at = omega (arith, h.at, length-append {0} out (c ∷ []));
    crc = h.crc;
  }

  put_crc-Holds :
      (c : ℕ) (w : Writer) (out : List ℕ) (k : ℕ)
      → length out + 1 < 2 ^ 16
      → Holds w out k
      → Holds (put_crc crc8 c w) (out ++ (c ∷ [])) (crc8 k c)
  unfolding put_crc
  put_crc-Holds c w out k room h = record {
    written = extend w.buf w.pos ((w.pos + 1) % 2 ^ 16) c out h.written (omega (arith, h.at));
    at = omega (arith, h.at, length-append {0} out (c ∷ []));
    crc = ap (λ r. crc8 r c) h.crc;
  }

  put_escaped-Holds :
      (c : ℕ) (w : Writer) (out : List ℕ) (k : ℕ)
      → length out + 2 < 2 ^ 16
      → Holds w out k
      → Holds (put_escaped crc8 c w) (out ++ stuff (c ∷ [])) (crc8 k c)
  unfolding put_escaped add_with_escape
  put_escaped-Holds c w out k room h =
      let moved = escape-extend crc8 w c (some w.crc) out room h.written h.at in
      record { written = moved.0; at = moved.1; crc = escape-crc w.buf w.pos c w.crc k h.crc }

  put_payload-Holds :
      (cs : List ℕ) (w : Writer) (out : List ℕ) (k : ℕ)
      → length out + 2 * length cs < 2 ^ 16
      → Holds w out k
      → Holds (put_payload crc8 cs w) (out ++ stuff cs) (crc_from crc8 k cs)
  unfolding put_payload
  put_payload-Holds [] w out k room h = rw append-nil h
  put_payload-Holds (c ∷ cs) w out k room h =
      let one = put_escaped-Holds c w out k (omega arith) h in
      let rest =
        put_payload-Holds cs (put_escaped crc8 c w) (out ++ stuff (c ∷ [])) (crc8 k c)
          (omega (arith, length-append {0} out (stuff (c ∷ [])), length-stuff-le (c ∷ []))) one in
      subst
        (λ o. Holds (put_payload crc8 cs (put_escaped crc8 c w)) o (crc_from crc8 (crc8 k c) cs))
        (append_assoc out (stuff (c ∷ [])) (stuff cs)
          ∙ ap (λ o. out ++ o) (sym (stuff-append (c ∷ []) cs)))
        rest

  put_checksum-Holds :
      (w : Writer) (out : List ℕ) (k : ℕ)
      → length out + 2 < 2 ^ 16
      → Holds w out k
      → Holds (put_checksum crc8 w) (out ++ stuff (k ∷ [])) k
  unfolding put_checksum
  put_checksum-Holds w out k room h =
      let moved = escape-extend crc8 w w.crc none out room h.written h.at in
      rw (← h.crc) (record { written = moved.0; at = moved.1; crc = refl })

  -- Everything behind the four bytes that are not stuffed.
  rest-Holds :
      (cs : List ℕ) (w : Writer) (out : List ℕ) (k : ℕ)
      → length out + 2 * length cs + 4 < 2 ^ 16
      → Holds w out k
      → let k' = crc_from crc8 k cs in
        Holds
          (put crc8 etx (put crc8 dle (put_checksum crc8 (put_payload crc8 cs w))))
          (out ++ (stuff (cs ++ (k' ∷ [])) ++ (dle ∷ etx ∷ [])))
          k'
  rest-Holds cs w out k room h =
      let k' = crc_from crc8 k cs in
      let body = put_payload-Holds cs w out k (omega arith) h in
      let l1 = length-append {0} out (stuff cs) in
      let l2 = length-stuff-le cs in
      let summed = put_checksum-Holds _ (out ++ stuff cs) k' (omega (arith, l1, l2)) body in
      let l3 = length-append {0} (out ++ stuff cs) (stuff (k' ∷ [])) in
      let l4 = length-stuff-le (k' ∷ []) in
      let out2 = (out ++ stuff cs) ++ stuff (k' ∷ []) in
      let closed = put-Holds dle _ out2 k' (omega (arith, l1, l2, l3, l4)) summed in
      let l5 = length-append {0} out2 (dle ∷ []) in
      let done =
        put-Holds etx _ (out2 ++ (dle ∷ [])) k' (omega (arith, l1, l2, l3, l4, l5)) closed in
      subst
        (λ o. Holds (put crc8 etx (put crc8 dle (put_checksum crc8 (put_payload crc8 cs w)))) o k')
        (regroup out cs k') done
    where
      regroup :
          (out cs : List ℕ) (k' : ℕ)
          → (((out ++ stuff cs) ++ stuff (k' ∷ [])) ++ (dle ∷ [])) ++ (etx ∷ [])
            ≡ out ++ (stuff (cs ++ (k' ∷ [])) ++ (dle ∷ etx ∷ []))
      regroup out cs k' = rw stuff-append (simp append_assoc)

  -- can4vscp_buildFrame writes exactly the encoding of its arguments (start, type and channel, the
  -- stuffed rest with the CRC, end) and returns its length, for every payload short enough that the
  -- 16-bit position does not wrap.
  pub build_frame-encode :
      (buf : Memory) (frame_type channel seq declared : ℕ) (payload : List ℕ)
      → 2 * length payload + 14 < 2 ^ 16
      → let w = build_frame crc8 buf frame_type channel seq declared payload in
        (prefix w.buf w.pos ≡ encode crc8 frame_type channel seq declared payload)
        × (w.pos ≡ length (encode crc8 frame_type channel seq declared payload))
  unfolding build_frame put_payload
  build_frame-encode buf frame_type channel seq declared payload room =
      let w0 : Writer = record { buf = buf; crc = 0; pos = 0 } in
      let h0 : Holds w0 [] 0 = record { written = refl; at = refl; crc = refl } in
      let h1 = put-Holds dle _ _ _ (omega arith) h0 in
      let h2 = put-Holds stx _ _ _ (omega arith) h1 in
      let h3 = put_crc-Holds frame_type _ _ _ (omega arith) h2 in
      let h4 = put_crc-Holds channel _ _ _ (omega arith) h3 in
      let sized = seq ∷ (declared / 2 ^ 8 % 256) ∷ (declared % 256) ∷ payload in
      let w4 = put_crc crc8 channel (put_crc crc8 frame_type (put crc8 stx (put crc8 dle w0))) in
      let done = rest-Holds sized w4 _ _ (omega arith) h4 in (done.written, done.at)
