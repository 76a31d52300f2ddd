-- ===== src/Rx/EndToEnd.antt =====
-- The sender's `can4vscp_buildFrame`, the receiver's state machine and its CRC check together; and
-- what surrounds a frame on the line.
use mathlib.Core.Path.{subst}
use vscpl1drv_can4vscp.Prelude.{
  ℕ, ◌+◌, ◌/◌, ◌%◌, ◌^◌, ◌≤◌, ◌≡◌, ◌≢◌, true, false, List, [], ◌∷◌, ◌++◌, refl, sym, ap, ◌∙◌, arith,
  length, length-append,
}
use vscpl1drv_can4vscp.Prelude.Memory.{Memory, prefix}
use vscpl1drv_can4vscp.Frame.{dle, stx, etx, build_frame, check_crc}
use vscpl1drv_can4vscp.Frame.Check.{check_crc_iff}
use vscpl1drv_can4vscp.Frame.Encode.{stuff, content, sealed, encode, build_frame-encode, crc_from}
use vscpl1drv_can4vscp.Rx.{Rx, Read, State, ended, idle, char, restart, serial_data, buffer_size}
use vscpl1drv_can4vscp.Rx.RoundTrip.{chars, chars-append, Received, serial_data-encode}

module _ (crc8 : ℕ → ℕ → ℕ) where
  -- A frame that can4vscp_buildFrame builds (type and channel not DLE, content and CRC within the
  -- receive buffer) is received by the state machine with its content unchanged and passes the CRC
  -- check. The machine is not behind a lone DLE.
  pub serial_data-build_frame :
      (r : Rx) (mem : Memory) (frame_type channel seq declared : ℕ) (payload : List ℕ)
      (rest : List Read)
      → r.substate ≡ idle
      → r.state ≢ ended
      → frame_type ≢ dle
      → channel ≢ dle
      → length payload + 6 ≤ buffer_size
      → let w = build_frame crc8 mem frame_type channel seq declared payload in
        let q = serial_data r (chars (prefix w.buf w.pos) rest) in
        Received q (sealed crc8 (content frame_type channel seq declared payload)) rest
        × (check_crc crc8 q.0.buf q.0.len ≡ true)
  serial_data-build_frame r mem frame_type channel seq declared payload rest s t nt nc room =
      let body = content frame_type channel seq declared payload in
      let built =
        build_frame-encode crc8 mem frame_type channel seq declared payload (omega arith) in
      let got =
        serial_data-encode crc8 r frame_type channel seq declared payload rest s t nt nc room in
      rw built.0 (
        got,
        (check_crc_iff crc8 _ _
              (omega (arith, got.len, length-append {0} payload (crc_from crc8 0 body ∷ [])))).1
            (body, got.body_stored),
      )

-- No byte is a DLE.
abbrev pub NoDle : List ℕ → Type 0
NoDle [] = Unit {0}
NoDle (c ∷ cs) = (c ≢ dle) × NoDle cs

step_quiet :
    (r : Rx) (c : ℕ) (rest : List Read)
    → r.state ≡ State.none
    → r.substate ≡ idle
    → c ≢ dle
    → serial_data r (char c ∷ rest) ≡ serial_data (restart r) rest
unfolding serial_data restart
step_quiet r c rest s t n = ground arith

-- Between frames, bytes without a DLE leave the machine between frames.
serial_data_quiet :
    (xs : List ℕ) (r : Rx) (rest : List Read)
    → r.state ≡ State.none
    → r.substate ≡ idle
    → NoDle xs
    → (r' : Rx) × (r'.state ≡ State.none)
      × (r'.substate ≡ idle)
      × (serial_data r (chars xs rest) ≡ serial_data r' rest)
unfolding restart
serial_data_quiet [] r rest s t n = (r, s, t, refl)
serial_data_quiet (c ∷ cs) r rest s t n =
    let (r', s', t', e) = serial_data_quiet cs (restart r) rest refl refl n.1 in
    (r', s', t', step_quiet r c (chars cs rest) s t n.0 ∙ e)

restart-none : (r : Rx) → (restart r).state ≡ State.none
unfolding restart
restart-none r = refl

restart-idle : (r : Rx) → (restart r).substate ≡ idle
unfolding restart
restart-idle r = refl

stx-ne-dle : stx ≢ dle
stx-ne-dle e = omega arith

lone_dle :
    (r : Rx) (rest : List Read)
    → r.state ≡ State.none
    → r.substate ≡ idle
    → serial_data r (char dle ∷ char dle ∷ rest) ≡ serial_data (restart r) rest
unfolding serial_data restart
lone_dle r rest s t = ground arith

stray_end :
    (r : Rx)
    → r.state ≡ State.none
    → r.substate ≡ idle
    → (serial_data r (char dle ∷ char etx ∷ [])).1 ≡ false
unfolding serial_data
stray_end r s t = ground arith

stuff-NoDle : (xs : List ℕ) → NoDle xs → stuff xs ≡ xs
stuff-NoDle [] n = refl
stuff-NoDle (c ∷ cs) n = ground (arith, stuff-NoDle cs n.1)

module _ (crc8 : ℕ → ℕ → ℕ) where
  -- Between frames, bytes without a DLE do not disturb the frame that follows: it is received
  -- whole. Its type and channel are not DLE, and content and CRC fit the receive buffer.
  pub serial_data_noise :
      (r : Rx) (noise : List ℕ) (frame_type channel seq declared : ℕ) (payload : List ℕ)
      (rest : List Read)
      → r.state ≡ State.none
      → r.substate ≡ idle
      → NoDle noise
      → frame_type ≢ dle
      → channel ≢ dle
      → length payload + 6 ≤ buffer_size
      → Received
          (serial_data r
            (chars (noise ++ encode crc8 frame_type channel seq declared payload) rest))
          (sealed crc8 (content frame_type channel seq declared payload))
          rest
  serial_data_noise r noise frame_type channel seq declared payload rest s t n nt nc room =
      let wire = encode crc8 frame_type channel seq declared payload in
      let body = sealed crc8 (content frame_type channel seq declared payload) in
      let (r', s', t', e) = serial_data_quiet noise r (chars wire rest) s t n in
      subst (λ q. Received q body rest)
        (sym (ap (serial_data r) (chars-append noise wire rest) ∙ e))
        (serial_data-encode crc8 r' frame_type channel seq declared payload rest t' (λ x. cc) nt nc
          room)

  -- Between frames, a lone DLE ahead of a frame whose content and CRC are free of DLE loses the
  -- whole frame.
  pub serial_data_lone_dle :
      (r : Rx) (frame_type channel seq declared : ℕ) (payload : List ℕ)
      → r.state ≡ State.none
      → r.substate ≡ idle
      → NoDle (sealed crc8 (content frame_type channel seq declared payload))
      → (serial_data r
          (char dle ∷ chars (encode crc8 frame_type channel seq declared payload) [])).1
        ≡ false
  serial_data_lone_dle r frame_type channel seq declared payload s t n =
      let body = sealed crc8 (content frame_type channel seq declared payload) in
      let tail = dle ∷ etx ∷ [] in
      let (r', s', t', e) =
        serial_data_quiet (stx ∷ body) (restart r) (chars tail []) (restart-none r) (restart-idle r)
          (stx-ne-dle, n) in
      let bytes : List ℕ = seq ∷ (declared / 2 ^ 8 % 256) ∷ (declared % 256) ∷ payload in
      let crc = crc_from crc8 0 (content frame_type channel seq declared payload) in
      ap (λ q. q.1)
        (lone_dle r _ s t
          ∙ ap
              (λ (xs : List ℕ).
                serial_data (restart r) (chars (stx ∷ frame_type ∷ channel ∷ (xs ++ tail)) []))
              (stuff-NoDle (bytes ++ (crc ∷ [])) n.1.1)
          ∙ ap (serial_data (restart r)) (chars-append (stx ∷ body) tail [])
          ∙ e)
      ∙ stray_end r' s' t'
