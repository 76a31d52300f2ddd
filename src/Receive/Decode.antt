-- ===== src/Receive/Decode.antt =====
-- Sub-frames of a payload as `readSerialData` (src/common/can4vscpobj.cpp) decodes them.
use native.Mathlib.Nat.{le_refl}
use native.Mathlib.Numerals.{add-one, towards_suc}
use vscpl1drv_can4vscp.Prelude.{
  ℕ, zero, suc, ◌+◌, ◌-◌, ◌^◌, ◌≤◌, ◌<◌, ◌≡◌, refl, ap, arith, List, [], ◌∷◌, ◌++◌, ◌==◌, ==-ne,
  ltb, lt→ltb, Bool-cases, inl, inr, true, false, length, length-append,
}
use vscpl1drv_can4vscp.Prelude.Memory.{Memory}
use vscpl1drv_can4vscp.Message.{CanalMsg, id_bytes}
use vscpl1drv_can4vscp.Message.Identifier.{masked_word-id_bytes}
use vscpl1drv_can4vscp.Platform.{Platform}
use vscpl1drv_can4vscp.Rx.{buffer_size}
use vscpl1drv_can4vscp.Driver.{Driver, Run, ok}
use vscpl1drv_can4vscp.Receive.Reader.{read_bytes, read_word, has_room, Next, advance, payload_loop}
use vscpl1drv_can4vscp.Receive.Multi.{
  multi_canal_round, multi_canal_frame, multi_canal_timestamp_round, multi_canal_timestamp_frame,
}
use vscpl1drv_can4vscp.Receive.Packing.{
  At-append, At, SubFrame, IsSubFrame, All, pack, pack_timestamp, pack_all, accept, accept_all,
  messages, clocked, stamped, length-pack, length-pack_timestamp,
}

pub read_bytes-At :
    (buf : Memory) (at : ℕ) (xs : List ℕ)
    → At buf at xs
    → at + length xs ≤ buffer_size
    → read_bytes buf at (length xs) ≡ ok xs
unfolding read_bytes
read_bytes-At buf at [] h fits = refl
read_bytes-At buf at (x ∷ xs) h fits = rw (
  lt→ltb at buffer_size (omega arith),
  add-one,
  read_bytes-At buf (suc at) xs h.1 (omega arith),
  h.0,
)

pub read_word-At :
    (buf : Memory) (at id : ℕ)
    → At buf at (id_bytes id)
    → at + 4 ≤ buffer_size
    → id < 2 ^ 29
    → read_word buf at ≡ ok id
unfolding read_word id_bytes
read_word-At buf at id h fits small =
    rw
      (
        lt→ltb at buffer_size (omega arith),
        lt→ltb (at + 1) buffer_size (omega arith),
        lt→ltb (at + 2) buffer_size (omega arith),
        lt→ltb (at + 3) buffer_size (omega arith),
      )
      (simp towards_suc
        (rw (h.0, h.1.0, h.1.1.0, h.1.1.1.0) (ap ok (masked_word-id_bytes id _ _ _ _ small refl))))

-- A loop each of whose rounds decodes one sub-frame decodes all of them.
module _ (p : Platform) (buf : Memory) (body : ℕ → Driver → Run Next) (f : SubFrame → List ℕ)
    (make : ℕ → SubFrame → CanalMsg)
    (round : (s : SubFrame) (pos : ℕ) (d : Driver)
      → IsSubFrame s
      → At buf pos (f s)
      → pos + length (f s) ≤ buffer_size
      → (body pos d ≡ ok (advance (length (f s)) (accept p (make pos s) d)))
        × (0 < length (f s))) where
  pub payload_loop-pack_all :
      (ss : List SubFrame) (fuel pos : ℕ) (d : Driver)
      → All IsSubFrame ss
      → At buf pos (pack_all f ss)
      → pos + length (pack_all f ss) ≤ buffer_size
      → length (pack_all f ss) ≤ fuel
      → payload_loop body fuel (length (pack_all f ss)) pos d
        ≡ ok (accept_all p (messages f make pos ss) d)
  unfolding payload_loop accept_all
  payload_loop-pack_all [] zero pos d v h fits enough = refl
  payload_loop-pack_all [] (suc fuel) pos d v h fits enough = refl
  payload_loop-pack_all (s ∷ ss) zero pos d v h fits enough =
      let parts = At-append buf pos (f s) (pack_all f ss) h in
      let sum = length-append {0} (f s) (pack_all f ss) in
      absurd (omega (arith, sum, (round s pos d v.0 parts.0 (omega (arith, sum))).1))
  payload_loop-pack_all (s ∷ ss) (suc fuel) pos d v h fits enough =
      let parts = At-append buf pos (f s) (pack_all f ss) h in
      let sum = length-append {0} (f s) (pack_all f ss) in
      let one = round s pos d v.0 parts.0 (omega (arith, sum)) in
      let rest =
        payload_loop-pack_all ss fuel (pos + length (f s)) (accept p (make pos s) d) v.1 parts.1
          (omega (arith, sum)) (omega (arith, sum)) in
      let more : (length (f s ++ pack_all f ss) == 0) ≡ false = ==-ne _ 0 (omega (arith, sum)) in
      let left : length (f s ++ pack_all f ss) - length (f s) ≡ length (pack_all f ss) =
        omega (arith, sum) in
      rw (more, one.0, left) rest

module _ (p : Platform) (clock : ℕ → ℕ) (buf : Memory) where
  multi_canal_round-pack :
      (s : SubFrame) (pos : ℕ) (d : Driver)
      → IsSubFrame s
      → At buf pos (pack s)
      → pos + length (pack s) ≤ buffer_size
      → (multi_canal_round p clock buf pos d
          ≡ ok (advance (length (pack s)) (accept p (clocked p clock pos s) d)))
        × (0 < length (pack s))
  unfolding multi_canal_round accept id_bytes
  multi_canal_round-pack s pos d v h fits =
      let size = length-pack s in
      let parts = At-append buf pos (id_bytes s.id) (length s.bytes ∷ s.bytes) h in
      let dlc_at : buf (pos + 4) ≡ length s.bytes = parts.1.0 in
      let bytes_at : At buf (pos + 5) s.bytes = rw (← five pos) parts.1.1 in
      let id_read = read_word-At buf pos s.id parts.0 (omega arith) v.id_bits in
      let inside : ltb (pos + 4) buffer_size ≡ true = lt→ltb (pos + 4) buffer_size (omega arith) in
      let short : ltb 8 (length s.bytes) ≡ false = ground (arith, v.dlc) in
      let bytes_read = read_bytes-At buf (pos + 5) s.bytes bytes_at (omega arith) in
      elim (Bool-cases (has_room d)) [
        | inl room ↦
            rw (room, id_read, inside, dlc_at, short, bytes_read) (ground arith, omega arith)
        | inr full ↦ rw (full, inside, dlc_at) (ground arith, omega arith)
      ]
    where
      five : (at : ℕ) → suc (at + 4) ≡ at + 5
      five at = omega arith

  -- A MULTI_FRAME_CANAL payload of packed sub-frames is decoded without a fault: each sub-frame is
  -- accepted in turn, with its identifier, length and data, and the clock's time stamp. The
  -- identifiers have 29 bits, the data at most 8 bytes, and the payload fits the buffer.
  pub multi_canal_frame-pack_all :
      (ss : List SubFrame) (d : Driver)
      → All IsSubFrame ss
      → At buf 5 (pack_all pack ss)
      → 5 + length (pack_all pack ss) ≤ buffer_size
      → multi_canal_frame p clock buf (length (pack_all pack ss)) d
        ≡ ok (accept_all p (messages pack (clocked p clock) 5 ss) d)
  unfolding multi_canal_frame
  multi_canal_frame-pack_all ss d v h fits =
      payload_loop-pack_all p buf (multi_canal_round p clock buf) pack (clocked p clock)
        multi_canal_round-pack ss (length (pack_all pack ss)) 5 d v h fits (le_refl _)

  multi_canal_timestamp_round-pack :
      (s : SubFrame) (pos : ℕ) (d : Driver)
      → IsSubFrame s
      → At buf pos (pack_timestamp s)
      → pos + length (pack_timestamp s) ≤ buffer_size
      → (multi_canal_timestamp_round p buf pos d
          ≡ ok (advance (length (pack_timestamp s)) (accept p (stamped p pos s) d)))
        × (0 < length (pack_timestamp s))
  unfolding multi_canal_timestamp_round accept id_bytes
  multi_canal_timestamp_round-pack s pos d v h fits =
      let size = length-pack_timestamp s in
      let tail = length s.bytes ∷ s.bytes in
      let parts = At-append buf pos (id_bytes s.id) (id_bytes s.timestamp ++ tail) h in
      let stamp = At-append buf (pos + 4) (id_bytes s.timestamp) tail parts.1 in
      let dlc_at : buf (pos + 8) ≡ length s.bytes = rw (← eight pos) stamp.1.0 in
      let bytes_at : At buf (pos + 9) s.bytes = rw (← nine pos) stamp.1.1 in
      let id_read = read_word-At buf pos s.id parts.0 (omega arith) v.id_bits in
      let stamp_read =
        read_word-At buf (pos + 4) s.timestamp stamp.0 (omega arith) v.timestamp_bits in
      let bytes_read = read_bytes-At buf (pos + 9) s.bytes bytes_at (omega arith) in
      let inside : ltb (pos + 8) buffer_size ≡ true = lt→ltb (pos + 8) buffer_size (omega arith) in
      let short : ltb 8 (length s.bytes) ≡ false = ground (arith, v.dlc) in
      elim (Bool-cases (has_room d)) [
        | inl room ↦
            rw (inside, dlc_at, short, room, id_read, stamp_read, bytes_read)
              (ground arith, omega arith)
        | inr full ↦ rw (inside, dlc_at, short, full) (ground arith, omega arith)
      ]
    where
      eight : (at : ℕ) → at + 4 + 4 ≡ at + 8
      eight at = omega arith

      nine : (at : ℕ) → suc (at + 4 + 4) ≡ at + 9
      nine at = omega arith

  -- A MULTI_FRAME_CANAL_TIMESTAMP payload of packed sub-frames is decoded without a fault: each is
  -- accepted in turn with its identifier, time stamp (29 bits each), length and data (at most 8
  -- bytes). The payload fits the buffer.
  pub multi_canal_timestamp_frame-pack_all :
      (ss : List SubFrame) (d : Driver)
      → All IsSubFrame ss
      → At buf 5 (pack_all pack_timestamp ss)
      → 5 + length (pack_all pack_timestamp ss) ≤ buffer_size
      → multi_canal_timestamp_frame p buf (length (pack_all pack_timestamp ss)) d
        ≡ ok (accept_all p (messages pack_timestamp (stamped p) 5 ss) d)
  unfolding multi_canal_timestamp_frame
  multi_canal_timestamp_frame-pack_all ss d v h fits =
      payload_loop-pack_all p buf (multi_canal_timestamp_round p buf) pack_timestamp (stamped p)
        multi_canal_timestamp_round-pack ss (length (pack_all pack_timestamp ss)) 5 d v h fits
        (le_refl _)
