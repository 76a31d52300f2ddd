-- ===== src/Commands/Sent.antt =====
-- The frames of `sendCommand` (src/common/can4vscpobj.cpp).
use vscpl1drv_can4vscp.Prelude.{
  ℕ, zero, suc, ap, ◌+◌, ◌*◌, ◌/◌, ◌%◌, ◌^◌, ◌<◌, ◌≤◌, ◌≡◌, ◌⊎◌, inl, inr, refl, arith, Bool, true,
  List, [], ◌∷◌, ◌++◌, length, length-append,
}
use vscpl1drv_can4vscp.Frame.{dle, etx}
use vscpl1drv_can4vscp.Frame.Encode.{
  encode, build_frame-encode, stuff, length-stuff-le, crc_from, content, stuff-append,
}
use vscpl1drv_can4vscp.Platform.{Platform, IsFifo}
use vscpl1drv_can4vscp.Driver.{Driver, ok, fault}
use vscpl1drv_can4vscp.Serial.{send_msg, frame_bytes}
use vscpl1drv_can4vscp.Commands.{send_data_size, post_frame, send_frame, send_command}

pub frame_bytes-encode :
    (p : Platform) (frame_type seq declared : ℕ) (payload : List ℕ)
    → 2 * length payload + 14 < 2 ^ 16
    → frame_bytes p frame_type seq declared payload
      ≡ encode p.crc8 frame_type 0 seq declared payload
unfolding frame_bytes
frame_bytes-encode p frame_type seq declared payload h =
    (build_frame-encode p.crc8 (λ i. 0) frame_type 0 seq declared payload h).0

pub length-encode :
    (crc8 : ℕ → ℕ → ℕ) (frame_type channel seq declared : ℕ) (payload : List ℕ)
    → length (encode crc8 frame_type channel seq declared payload) ≤ 2 * length payload + 14
length-encode crc8 frame_type channel seq declared payload =
    let crc = crc_from crc8 0 (content frame_type channel seq declared payload) in
    let sized = (declared / 2 ^ 8 % 256) ∷ (declared % 256) ∷ payload in
    omega (
      arith,
      length-append {0} (stuff ((seq ∷ sized) ++ (crc ∷ []))) (dle ∷ etx ∷ []),
      length-stuff-le ((seq ∷ sized) ++ (crc ∷ [])),
      length-append {0} (seq ∷ sized) (crc ∷ []),
    )

-- The frame fits in the array and is sent, or it does not.
send_frame_lem :
    (p : Platform) (frame_type declared : ℕ) (payload : List ℕ) (d : Driver)
    → 2 * length payload + 14 < 2 ^ 16
    → let wire = encode p.crc8 frame_type 0 d.sequencyno declared payload in
      let sent = send_frame p frame_type declared payload d in
      ((length wire ≤ send_data_size) × (sent ≡ ok (post_frame p wire d)))
      ⊎ ((send_data_size < length wire) × (sent ≡ fault))
unfolding send_frame
send_frame_lem p frame_type declared payload d h =
    rw (frame_bytes-encode p frame_type d.sequencyno declared payload h) (ground arith)

-- A frame with a short payload fits.
pub send_frame-fits :
    (p : Platform) (frame_type declared : ℕ) (payload : List ℕ) (d : Driver)
    → 2 * length payload + 14 ≤ send_data_size
    → send_frame p frame_type declared payload d
      ≡ ok (post_frame p (encode p.crc8 frame_type 0 d.sequencyno declared payload) d)
send_frame-fits p frame_type declared payload d h =
    elim (send_frame_lem p frame_type declared payload d (omega arith)) [
      | inl (fits, e) ↦ e
      | inr (long, e) ↦
          absurd
            (omega (arith, length-encode p.crc8 frame_type 0 d.sequencyno declared payload, long))
    ]

post_frame_lem :
    (p : Platform) (responses : IsFifo p.responses) (wire : List ℕ) (d : Driver)
    → d.port.is_open ≡ true
    → let r = post_frame p wire d in
      (r.0.port.writes ≡ d.port.writes ++ (wire ∷ []))
      × (r.0.sequencyno ≡ (d.sequencyno + 1) % 256)
      × (r.0.response_list ≡ [])
      × (r.1 ≡ p.comm_puts d.port.writes wire)
unfolding post_frame send_msg
post_frame_lem p responses wire d o =
    rw o (refl, refl, responses.remove_all_nodes_lem d.response_list, refl)

-- On an open port sendCommand builds one COMMAND frame, with the code and the parameters as its
-- payload and the current sequence number. If its encoding has at most 512 bytes, it is written to
-- the port, the sequence number moves on and the old responses are gone; if it has more, it is
-- built past the end of its array. There are at most 255 parameters.
pub send_command_lem :
    (p : Platform) (responses : IsFifo p.responses) (code : ℕ) (param : List ℕ) (d : Driver)
    → d.port.is_open ≡ true
    → length param < 256
    → let declared = (length param + 1) % 256 in
      let wire = encode p.crc8 p.frame_types.command 0 d.sequencyno declared (code ∷ param) in
      ((length wire ≤ send_data_size)
        × ((r : Driver × Bool) × (send_command p code param d ≡ ok r)
            × (r.0.port.writes ≡ d.port.writes ++ (wire ∷ []))
            × (r.0.sequencyno ≡ (d.sequencyno + 1) % 256)
            × (r.0.response_list ≡ [])
            × (r.1 ≡ p.comm_puts d.port.writes wire)))
      ⊎ ((send_data_size < length wire) × (send_command p code param d ≡ fault))
unfolding send_command
send_command_lem p responses code param d o small =
    let declared = (length param + 1) % 256 in
    let wire = encode p.crc8 p.frame_types.command 0 d.sequencyno declared (code ∷ param) in
    elim (send_frame_lem p p.frame_types.command declared (code ∷ param) d (omega arith)) [
      | inl (fits, e) ↦
          let (w, s, r, v) = post_frame_lem p responses wire d o in
          inl (fits, (post_frame p wire d, e, w, s, r, v))
      | inr (long, e) ↦ inr (long, e)
    ]

-- Parameters that are all DLE.
abbrev pub dles : ℕ → List ℕ
dles zero = []
dles (suc n) = dle ∷ dles n

length-dles : (n : ℕ) → length (dles n) ≡ n
length-dles zero = refl
length-dles (suc n) = omega (arith, length-dles n)

length-stuff-dles : (n : ℕ) → length (stuff (dles n)) ≡ 2 * n
length-stuff-dles zero = refl
length-stuff-dles (suc n) = omega (arith, length-stuff-dles n)

le-length-stuff : (xs : List ℕ) → length xs ≤ length (stuff xs)
le-length-stuff [] = omega arith
le-length-stuff (x ∷ xs) = ground (arith, le-length-stuff xs)

-- The frame of a command with DLE as its parameters.
length-encode-dles :
    (crc8 : ℕ → ℕ → ℕ) (frame_type seq declared code n : ℕ)
    → 2 * n + 11 ≤ length (encode crc8 frame_type 0 seq declared (code ∷ dles n))
length-encode-dles crc8 frame_type seq declared code n =
    let crc = crc_from crc8 0 (content frame_type 0 seq declared (code ∷ dles n)) in
    let front = seq ∷ (declared / 2 ^ 8 % 256) ∷ (declared % 256) ∷ code ∷ [] in
    let body = front ++ (dles n ++ (crc ∷ [])) in
    omega (
      arith,
      length-append {0} (stuff body) (dle ∷ etx ∷ []),
      ap length (stuff-append front (dles n ++ (crc ∷ []))),
      length-append {0} (stuff front) (stuff (dles n ++ (crc ∷ []))),
      ap length (stuff-append (dles n) (crc ∷ [])),
      length-append {0} (stuff (dles n)) (stuff (crc ∷ [])),
      length-stuff-dles n,
      le-length-stuff front,
      le-length-stuff (crc ∷ []),
    )

-- With 251 to 255 parameters that are all DLE, sendCommand on an open port builds its frame past
-- the end of its array of 512 bytes.
pub send_command_overruns :
    (p : Platform) (responses : IsFifo p.responses) (code n : ℕ) (d : Driver)
    → d.port.is_open ≡ true
    → 251 ≤ n
    → n < 256
    → send_command p code (dles n) d ≡ fault
send_command_overruns p responses code n d o many small =
    let declared = (length (dles n) + 1) % 256 in
    elim (send_command_lem p responses code (dles n) d o (omega (arith, length-dles n))) [
      | inl sent ↦ absurd (
          omega (
            arith,
            length-encode-dles p.crc8 p.frame_types.command d.sequencyno declared code n,
            sent.0,
          ))
      | inr (long, e) ↦ e
    ]
