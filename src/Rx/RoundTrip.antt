-- ===== src/Rx/RoundTrip.antt =====
-- A frame on the wire through `serialData2StateMachine` (src/common/can4vscpobj.cpp).
use mathlib.Core.Path.{subst}
use native.Mathlib.Numerals.{add-one}
use vscpl1drv_can4vscp.Prelude.{
  ℕ, ◌+◌, ◌/◌, ◌%◌, ◌^◌, ◌≤◌, ◌<◌, ◌≡◌, ◌≢◌, Bool, true, List, [], ◌∷◌, ◌++◌, refl, sym, ap, ◌∙◌,
  arith, ltb, length, length-append, append_assoc, append-nil,
}
use vscpl1drv_can4vscp.Prelude.Memory.{prefix, prefix-update_end}
use vscpl1drv_can4vscp.Frame.{dle, stx, etx}
use vscpl1drv_can4vscp.Frame.Encode.{stuff, stuff-append, crc_from, content, sealed, encode}
use vscpl1drv_can4vscp.Rx.{
  Rx, Read, State, in_frame, ended, idle, char, begin_frame, store, serial_data, buffer_size,
}

-- The characters of a list of bytes, followed by `rest`.
abbrev pub chars : List ℕ → List Read → List Read
chars [] rest = rest
chars (c ∷ cs) rest = char c ∷ chars cs rest

pub chars-append :
    (xs ys : List ℕ) (rest : List Read) → chars (xs ++ ys) rest ≡ chars xs (chars ys rest)
chars-append [] ys rest = refl
chars-append (x ∷ xs) ys rest = ap (λ t. char x ∷ t) (chars-append xs ys rest)

-- Inside a frame, with `out` received so far.
record Inside (r : Rx) (out : List ℕ) : Type 0 where
  in_state : r.state ≡ in_frame
  in_substate : r.substate ≡ idle
  received : prefix r.buf r.len ≡ out
  at : r.len ≡ length out

store-Inside :
    (c : ℕ) (r : Rx) (out : List ℕ)
    → Inside r out
    → length out < buffer_size
    → Inside (store c r) (out ++ (c ∷ []))
unfolding store
store-Inside c r out h room =
    let fits : ltb r.len buffer_size ≡ true = ground (arith, h.at) in
    record {
      in_state = ground (arith, h.in_state);
      in_substate = ground arith;
      received =
          rw fits
            (rw add-one (prefix-update_end r.buf r.len c ∙ ap (λ o. o ++ (c ∷ [])) h.received));
      at = rw fits (omega (arith, h.at, length-append {0} out (c ∷ [])));
    }

-- One stuffed byte is stored as one byte.
serial_data-stuffed :
    (c : ℕ) (r : Rx) (rest : List Read)
    → r.state ≡ in_frame
    → r.substate ≡ idle
    → serial_data r (chars (stuff (c ∷ [])) rest) ≡ serial_data (store c r) rest
unfolding serial_data
serial_data-stuffed c r rest s t = ground arith

serial_data-stuff :
    (xs : List ℕ) (r : Rx) (out : List ℕ) (rest : List Read)
    → Inside r out
    → length out + length xs ≤ buffer_size
    → (r' : Rx) × Inside r' (out ++ xs)
      × (serial_data r (chars (stuff xs) rest) ≡ serial_data r' rest)
serial_data-stuff [] r out rest h room = (r, rw append-nil h, refl)
serial_data-stuff (c ∷ cs) r out rest h room =
    let stored = store-Inside c r out h (omega arith) in
    let (r', inside, e) =
      serial_data-stuff cs (store c r) (out ++ (c ∷ [])) rest stored
        (omega (arith, length-append {0} out (c ∷ []))) in
    (
      r',
      rw append_assoc at inside,
      ap (λ t. serial_data r (chars t rest)) (stuff-append (c ∷ []) cs)
          ∙ ap (serial_data r) (chars-append (stuff (c ∷ [])) (stuff cs) rest)
          ∙ serial_data-stuffed c r (chars (stuff cs) rest) h.in_state h.in_substate
          ∙ e,
    )

serial_data_end :
    (r : Rx) (out : List ℕ) (rest : List Read)
    → Inside r out
    → serial_data r (char dle ∷ char etx ∷ rest)
      ≡ (record r { state = State.none; substate = idle }, true, rest)
unfolding serial_data
serial_data_end r out rest h = ground (arith, h.in_state, h.in_substate)

-- From every state but that after a DLE, also in the middle of a frame, DLE STX begins a frame.
serial_data_begin :
    (r : Rx) (rest : List Read)
    → r.substate ≡ idle
    → r.state ≢ ended
    → serial_data r (char dle ∷ char stx ∷ rest) ≡ serial_data (begin_frame r) rest
unfolding serial_data
serial_data_begin r rest s t = ground arith

-- A byte that is not a DLE is stored without stuffing.
serial_data_plain :
    (r : Rx) (c : ℕ) (rest : List Read)
    → r.state ≡ in_frame
    → r.substate ≡ idle
    → c ≢ dle
    → serial_data r (char c ∷ rest) ≡ serial_data (store c r) rest
unfolding serial_data
serial_data_plain r c rest s t n = ground arith

begin_frame-Inside : (r : Rx) → Inside (begin_frame r) []
unfolding begin_frame
begin_frame-Inside r = record { in_state = refl; in_substate = refl; received = refl; at = refl }

-- A frame received: the reads up to its end are consumed, the machine waits for the next frame,
-- and the buffer holds `body`.
pub record Received (q : Rx × Bool × List Read) (body : List ℕ) (rest : List Read) : Type 0 where
  pub complete : q.1 ≡ true
  pub remaining : q.2 ≡ rest
  pub state : q.0.state ≡ State.none
  pub substate : q.0.substate ≡ idle
  pub body_stored : prefix q.0.buf q.0.len ≡ body
  pub len : q.0.len ≡ length body

module _ (crc8 : ℕ → ℕ → ℕ) where
  -- The encoding of a frame, whose type and channel are not DLE and whose content and CRC fit
  -- the receive buffer, is received as that content and CRC. The machine may be between frames
  -- or in the middle of one that was broken off, but not behind a lone DLE.
  pub serial_data-encode :
      (r : Rx) (frame_type channel seq declared : ℕ) (payload : List ℕ) (rest : List Read)
      → r.substate ≡ idle
      → r.state ≢ ended
      → frame_type ≢ dle
      → channel ≢ dle
      → length payload + 6 ≤ buffer_size
      → Received
          (serial_data r (chars (encode crc8 frame_type channel seq declared payload) rest))
          (sealed crc8 (content frame_type channel seq declared payload))
          rest
  serial_data-encode r frame_type channel seq declared payload rest s t nt nc room =
      let crc = crc_from crc8 0 (content frame_type channel seq declared payload) in
      let sized = seq ∷ (declared / 2 ^ 8 % 256) ∷ (declared % 256) ∷ (payload ++ (crc ∷ [])) in
      let ending = char dle ∷ char etx ∷ rest in
      let h0 = begin_frame-Inside r in
      let r1 = store frame_type (begin_frame r) in
      let h1 = store-Inside frame_type (begin_frame r) [] h0 (omega arith) in
      let h2 = store-Inside channel r1 (frame_type ∷ []) h1 (omega arith) in
      let r2 = store channel r1 in
      let (r3, h3, e3) =
        serial_data-stuff sized r2 (frame_type ∷ channel ∷ []) ending h2
          (omega (arith, length-append {0} payload (crc ∷ []))) in
      let path =
        serial_data_begin r _ s t
        ∙ serial_data_plain (begin_frame r) frame_type _ h0.in_state h0.in_substate nt
        ∙ serial_data_plain r1 channel _ h1.in_state h1.in_substate nc
        ∙ ap (serial_data r2) (chars-append (stuff sized) (dle ∷ etx ∷ []) rest)
        ∙ e3
        ∙ serial_data_end r3 _ rest h3 in
      subst (λ q. Received q (sealed crc8 (content frame_type channel seq declared payload)) rest)
        (sym path)
        (record {
          complete = refl;
          remaining = refl;
          state = refl;
          substate = refl;
          body_stored = h3.received;
          len = h3.at;
        })
