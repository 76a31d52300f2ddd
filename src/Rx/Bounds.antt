-- ===== src/Rx/Bounds.antt =====
-- The receive buffer of `serialData2StateMachine` (src/common/can4vscpobj.cpp).
use vscpl1drv_can4vscp.Prelude.{ℕ, ◌≤◌, ◌≡◌, List, [], ◌∷◌, arith, refl, ◌∙◌, Bool-cases, inl, inr}
use vscpl1drv_can4vscp.Rx.{
  Rx, Read, State, Substate, none, in_frame, ended, idle, escape, char, nothing, failed,
  buffer_size, step, serial_data,
}

step-len-le :
    (st : State) (s : Substate) (c : ℕ) (r : Rx)
    → r.len ≤ buffer_size
    → (step st s c r).0.len ≤ buffer_size
unfolding step
step-len-le none idle c r h = ground arith
step-len-le none escape c r h = ground arith
step-len-le in_frame idle c r h = ground arith
step-len-le in_frame escape c r h = ground arith
step-len-le ended s c r h = h

-- A byte outside the buffer is never changed.
step-buf-above :
    (st : State) (s : Substate) (c : ℕ) (r : Rx) (i : ℕ)
    → r.len ≤ buffer_size
    → buffer_size ≤ i
    → (step st s c r).0.buf i ≡ r.buf i
unfolding step
step-buf-above none idle c r i h k = ground arith
step-buf-above none escape c r i h k = ground arith
step-buf-above in_frame idle c r i h k = ground arith
step-buf-above in_frame escape c r i h k = ground arith
step-buf-above ended s c r i h k = refl

-- Whatever the line delivers, the receive length stays within the buffer and no byte behind the
-- buffer is written, if the length was within it before.
pub serial_data_bounds :
    (r : Rx) (rs : List Read)
    → r.len ≤ buffer_size
    → ((serial_data r rs).0.len ≤ buffer_size)
      × ((i : ℕ) → buffer_size ≤ i → (serial_data r rs).0.buf i ≡ r.buf i)
unfolding serial_data
serial_data_bounds r [] h = (h, λ i k. refl)
serial_data_bounds r (nothing ∷ rs) h = (h, λ i k. refl)
serial_data_bounds r (failed ∷ rs) h = (h, λ i k. refl)
serial_data_bounds r (char c ∷ rs) h =
    let len = step-len-le r.state r.substate c r h in
    let kept = λ (i : ℕ) (k : buffer_size ≤ i). step-buf-above r.state r.substate c r i h k in
    let rest = serial_data_bounds (step r.state r.substate c r).0 rs len in
    elim (Bool-cases (step r.state r.substate c r).1) [
      | inl complete ↦ rw complete (len, kept)
      | inr more ↦ rw more (rest.0, λ i k. rest.1 i k ∙ kept i k)
    ]
