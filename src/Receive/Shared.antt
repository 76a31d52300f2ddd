-- ===== src/Receive/Shared.antt =====
-- Several messages in a CANAL frame, as `readSerialData` (src/common/can4vscpobj.cpp) decodes them.
use native.Mathlib.Nat.{le_refl}
use vscpl1drv_can4vscp.Prelude.{
  ℕ, suc, ◌+◌, ◌^◌, ◌≤◌, ◌<◌, ◌≡◌, arith, List, ◌∷◌, ltb, lt→ltb, Bool-cases, inl, inr, true, false,
  length,
}
use vscpl1drv_can4vscp.Prelude.Memory.{Memory}
use vscpl1drv_can4vscp.Message.{CanalMsg, id_bytes}
use vscpl1drv_can4vscp.Platform.{Platform}
use vscpl1drv_can4vscp.Rx.{buffer_size}
use vscpl1drv_can4vscp.Driver.{Driver, ok}
use vscpl1drv_can4vscp.Receive.Reader.{received, has_room, advance}
use vscpl1drv_can4vscp.Receive.Packing.{
  At-append, At, SubFrame, IsSubFrame, All, pack, pack_all, accept, accept_all, messages,
  length-pack,
}
use vscpl1drv_can4vscp.Receive.Canal.{canal_round, canal_frame}
use vscpl1drv_can4vscp.Receive.Decode.{read_bytes-At, read_word-At, payload_loop-pack_all}

-- A message with an identifier of another sub-frame.
abbrev pub with_id : Platform → (ℕ → ℕ) → ℕ → ℕ → SubFrame → CanalMsg
with_id p clock id pos s = received p id (length s.bytes) s.bytes (clock pos)

module _ (p : Platform) (clock : ℕ → ℕ) (buf : Memory) (id : ℕ) (small : id < 2 ^ 29)
    (first : At buf 5 (id_bytes id)) where
  canal_round-pack :
      (s : SubFrame) (pos : ℕ) (d : Driver)
      → IsSubFrame s
      → At buf pos (pack s)
      → pos + length (pack s) ≤ buffer_size
      → (canal_round p clock buf pos d
          ≡ ok (advance (length (pack s)) (accept p (with_id p clock id pos s) d)))
        × (0 < length (pack s))
  unfolding canal_round accept id_bytes
  canal_round-pack s pos d v h fits =
      let size = length-pack s in
      let parts = At-append buf pos (id_bytes s.id) (length s.bytes ∷ s.bytes) h in
      let dlc_at : buf (pos + 4) ≡ length s.bytes = parts.1.0 in
      let bytes_at : At buf (pos + 5) s.bytes = rw (← five pos) parts.1.1 in
      let id_read = read_word-At buf 5 id first (omega arith) small in
      let inside : ltb (pos + 4) buffer_size ≡ true = lt→ltb (pos + 4) buffer_size (omega arith) in
      let short : ltb 8 (length s.bytes) ≡ false = ground (arith, v.dlc) in
      let bytes_read = read_bytes-At buf (pos + 5) s.bytes bytes_at (omega arith) in
      elim (Bool-cases (has_room d)) [
        | inl room ↦
            rw (inside, dlc_at, short, room, id_read, bytes_read) (ground arith, omega arith)
        | inr full ↦ rw (inside, dlc_at, short, full) (ground arith, omega arith)
      ]
    where
      five : (at : ℕ) → suc (at + 4) ≡ at + 5
      five at = omega arith

-- A CANAL frame with several packed messages is decoded without a fault, but every message gets the
-- identifier of the first one. The identifiers have 29 bits, the data at most 8 bytes, and the
-- payload fits the buffer.
pub canal_frame-pack_all :
    (p : Platform) (clock : ℕ → ℕ) (buf : Memory) (s : SubFrame) (ss : List SubFrame) (d : Driver)
    → All IsSubFrame (s ∷ ss)
    → At buf 5 (pack_all pack (s ∷ ss))
    → 5 + length (pack_all pack (s ∷ ss)) ≤ buffer_size
    → canal_frame p clock buf (length (pack_all pack (s ∷ ss))) d
      ≡ ok (accept_all p (messages pack (with_id p clock s.id) 5 (s ∷ ss)) d)
unfolding canal_frame
canal_frame-pack_all p clock buf s ss d v h fits =
    let packed = (At-append buf 5 (pack s) (pack_all pack ss) h).0 in
    let first = (At-append buf 5 (id_bytes s.id) (length s.bytes ∷ s.bytes) packed).0 in
    payload_loop-pack_all p buf (canal_round p clock buf) pack (with_id p clock s.id)
      (canal_round-pack p clock buf s.id v.0.id_bits first) (s ∷ ss)
      (length (pack_all pack (s ∷ ss))) 5 d v h fits (le_refl _)
