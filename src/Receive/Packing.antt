-- ===== src/Receive/Packing.antt =====
-- Sub-frames of CAN messages: how they are packed into a payload, and what `readSerialData` of
-- src/common/can4vscpobj.cpp makes of them.
use native.Mathlib.Nat.{add-zero}
use vscpl1drv_can4vscp.Prelude.{
  ℕ, suc, ◌+◌, ◌^◌, ◌≤◌, ◌<◌, ◌≡◌, arith, List, [], ◌∷◌, ◌++◌, if◌then◌else◌, length,
}
use vscpl1drv_can4vscp.Prelude.Memory.{Memory}
use vscpl1drv_can4vscp.Message.{CanalMsg, id_bytes}
use vscpl1drv_can4vscp.Platform.{Platform}
use vscpl1drv_can4vscp.Driver.{Driver}
use vscpl1drv_can4vscp.Receive.Reader.{has_room, received, deliver, overrun}

-- The bytes `xs` stand in the buffer from `at` on.
abbrev pub At : Memory → ℕ → List ℕ → Type 0
At buf at [] = Unit {0}
At buf at (x ∷ xs) = (buf at ≡ x) × At buf (suc at) xs

pub At-append :
    (buf : Memory) (at : ℕ) (xs ys : List ℕ)
    → At buf at (xs ++ ys)
    → At buf at xs × At buf (at + length xs) ys
At-append buf at [] ys h = (tt, rw add-zero h)
At-append buf at (x ∷ xs) ys h =
    let r = At-append buf (suc at) xs ys h.1 in
    let e : at + suc (length xs) ≡ suc at + length xs = omega arith in ((h.0, r.0), rw e r.1)

-- A CAN frame as a device packs it into a multi-frame payload, with a time stamp or without.
pub record SubFrame : Type 0 where
  pub id : ℕ
  pub timestamp : ℕ
  pub bytes : List ℕ

pub record IsSubFrame (s : SubFrame) : Type 0 where
  pub id_bits : s.id < 2 ^ 29
  pub timestamp_bits : s.timestamp < 2 ^ 29
  pub dlc : length s.bytes ≤ 8

abbrev pub All {ℓ} : {A : Type ℓ} → (A → Type 0) → List A → Type 0
All P [] = Unit {0}
All P (x ∷ xs) = P x × All P xs

abbrev pub pack : SubFrame → List ℕ
pack s = id_bytes s.id ++ (length s.bytes ∷ s.bytes)

abbrev pub pack_timestamp : SubFrame → List ℕ
pack_timestamp s = id_bytes s.id ++ (id_bytes s.timestamp ++ (length s.bytes ∷ s.bytes))

abbrev pub pack_all : (SubFrame → List ℕ) → List SubFrame → List ℕ
pack_all f [] = []
pack_all f (s ∷ ss) = f s ++ pack_all f ss

-- What the driver does with a message: deliver it, or count an overrun where the queue is full.
unfoldable pub accept : Platform → CanalMsg → Driver → Driver
accept p m d = if has_room d then deliver p m d else overrun d

unfoldable pub accept_all : Platform → List CanalMsg → Driver → Driver
unfolding accept
accept_all p [] d = d
accept_all p (m ∷ ms) d = accept_all p ms (accept p m d)

-- The messages of the sub-frames, the first of which stands at an offset.
abbrev pub messages :
    (SubFrame → List ℕ) → (ℕ → SubFrame → CanalMsg) → ℕ → List SubFrame → List CanalMsg
messages f make pos [] = []
messages f make pos (s ∷ ss) = make pos s ∷ messages f make (pos + length (f s)) ss

-- Without a time stamp in the frame the driver's clock gives it.
abbrev pub clocked : Platform → (ℕ → ℕ) → ℕ → SubFrame → CanalMsg
clocked p clock pos s = received p s.id (length s.bytes) s.bytes (clock pos)

abbrev pub stamped : Platform → ℕ → SubFrame → CanalMsg
stamped p pos s = received p s.id (length s.bytes) s.bytes s.timestamp

pub length-pack : (s : SubFrame) → length (pack s) ≡ 5 + length s.bytes
unfolding id_bytes
length-pack s = omega arith

pub length-pack_timestamp : (s : SubFrame) → length (pack_timestamp s) ≡ 9 + length s.bytes
unfolding id_bytes
length-pack_timestamp s = omega arith
