-- ===== src/Receive/Unchanged.antt =====
-- What the frames with CAN messages leave as it is in `readSerialData` of
-- src/common/can4vscpobj.cpp: the transmit queue with its counters, the flags of the session, the filter
-- and the mask, and whole responses.
use vscpl1drv_can4vscp.Prelude.{
  ℕ, zero, suc, ◌+◌, ◌-◌, ◌≡◌, ◌∙◌, refl, arith, ◌==◌, Bool-cases, inl, inr,
}
use vscpl1drv_can4vscp.Prelude.Memory.{Memory}
use vscpl1drv_can4vscp.Message.{CanalMsg}
use vscpl1drv_can4vscp.Platform.{Platform}
use vscpl1drv_can4vscp.Driver.{Driver, Run, ok, fault, starved, ◌>>=◌}
use vscpl1drv_can4vscp.Driver.Outcome.{OnOk}
use vscpl1drv_can4vscp.Receive.Reader.{deliver, overrun, Next, stop, advance, payload_loop}
use vscpl1drv_can4vscp.Receive.Canal.{canal_round, canal_timestamp_frame}
use vscpl1drv_can4vscp.Receive.Multi.{multi_canal_round, multi_canal_timestamp_round}
use vscpl1drv_can4vscp.Receive.Stored.{Whole}

pub record IsUntouched (d e : Driver) : Type 0 where
  pub transmit_list : e.transmit_list ≡ d.transmit_list
  pub running : e.running ≡ d.running
  pub opened : e.opened ≡ d.opened
  pub strict : e.strict ≡ d.strict
  pub init_flag : e.init_flag ≡ d.init_flag
  pub filter : e.filter ≡ d.filter
  pub mask : e.mask ≡ d.mask
  pub transmit_data : e.stat.transmit_data ≡ d.stat.transmit_data
  pub transmit_frames : e.stat.transmit_frames ≡ d.stat.transmit_frames
  pub transmit_data_put_sem : e.transmit_data_put_sem ≡ d.transmit_data_put_sem
  pub whole : Whole d.response_list → Whole e.response_list

pub untouched : (d : Driver) → IsUntouched d d
untouched d = record {
  transmit_list = refl;
  running = refl;
  opened = refl;
  strict = refl;
  init_flag = refl;
  filter = refl;
  mask = refl;
  transmit_data = refl;
  transmit_frames = refl;
  transmit_data_put_sem = refl;
  whole = λ w. w;
}

pub IsUntouched-trans : (a b c : Driver) → IsUntouched a b → IsUntouched b c → IsUntouched a c
IsUntouched-trans a b c h k = record {
  transmit_list = k.transmit_list ∙ h.transmit_list;
  running = k.running ∙ h.running;
  opened = k.opened ∙ h.opened;
  strict = k.strict ∙ h.strict;
  init_flag = k.init_flag ∙ h.init_flag;
  filter = k.filter ∙ h.filter;
  mask = k.mask ∙ h.mask;
  transmit_data = k.transmit_data ∙ h.transmit_data;
  transmit_frames = k.transmit_frames ∙ h.transmit_frames;
  transmit_data_put_sem = k.transmit_data_put_sem ∙ h.transmit_data_put_sem;
  whole = λ w. k.whole (h.whole w);
}

abbrev pub NextUntouched : Driver → Next → Type 0
NextUntouched d (stop e) = IsUntouched d e
NextUntouched d (advance size e) = IsUntouched d e

module _ (p : Platform) where
  pub deliver-IsUntouched : (m : CanalMsg) (d : Driver) → IsUntouched d (deliver p m d)
  unfolding deliver
  deliver-IsUntouched m d = ground arith

  pub overrun-IsUntouched : (d : Driver) → IsUntouched d (overrun d)
  unfolding overrun
  overrun-IsUntouched d = ground arith

  pub canal_round-IsUntouched :
      (clock : ℕ → ℕ) (buf : Memory) (pos : ℕ) (d : Driver)
      → OnOk (NextUntouched d) (canal_round p clock buf pos d)
  unfolding canal_round
  canal_round-IsUntouched clock buf pos d =
      grind (arith, deliver-IsUntouched, overrun-IsUntouched, untouched)

  pub multi_canal_round-IsUntouched :
      (clock : ℕ → ℕ) (buf : Memory) (pos : ℕ) (d : Driver)
      → OnOk (NextUntouched d) (multi_canal_round p clock buf pos d)
  unfolding multi_canal_round
  multi_canal_round-IsUntouched clock buf pos d =
      grind (arith, deliver-IsUntouched, overrun-IsUntouched, untouched)

  pub multi_canal_timestamp_round-IsUntouched :
      (buf : Memory) (pos : ℕ) (d : Driver)
      → OnOk (NextUntouched d) (multi_canal_timestamp_round p buf pos d)
  unfolding multi_canal_timestamp_round
  multi_canal_timestamp_round-IsUntouched buf pos d =
      grind (arith, deliver-IsUntouched, overrun-IsUntouched, untouched)

  pub canal_timestamp_frame-IsUntouched :
      (buf : Memory) (d : Driver) → OnOk (IsUntouched d) (canal_timestamp_frame p buf d)
  unfolding canal_timestamp_frame
  canal_timestamp_frame-IsUntouched buf d =
      grind (arith, deliver-IsUntouched, overrun-IsUntouched, untouched)

pub next-IsUntouched :
    (a : Driver) (r : Run Next) (next : ℕ → Driver → Run Driver)
    → OnOk (NextUntouched a) r
    → ((size : ℕ) (d : Driver) → IsUntouched a d → OnOk (IsUntouched a) (next size d))
    → OnOk (IsUntouched a) (r >>= λ n. elim n [ stop d ↦ ok d | advance size d ↦ next size d ])
next-IsUntouched a (ok (stop d)) next v h = v
next-IsUntouched a (ok (advance size d)) next v h = h size d v
next-IsUntouched a fault next v h = tt
next-IsUntouched a starved next v h = tt

pub further :
    (a d : Driver) (r : Run Next)
    → IsUntouched a d
    → OnOk (NextUntouched d) r
    → OnOk (NextUntouched a) r
further a d (ok (stop e)) v h = IsUntouched-trans a d e v h
further a d (ok (advance size e)) v h = IsUntouched-trans a d e v h
further a d fault v h = tt
further a d starved v h = tt

pub payload_loop-IsUntouched :
    (body : ℕ → Driver → Run Next) (fuel remaining pos : ℕ) (a d : Driver)
    → ((at : ℕ) (e : Driver) → OnOk (NextUntouched e) (body at e))
    → IsUntouched a d
    → OnOk (IsUntouched a) (payload_loop body fuel remaining pos d)
unfolding payload_loop
payload_loop-IsUntouched body zero remaining pos a d keep v = ground arith
payload_loop-IsUntouched body (suc fuel) remaining pos a d keep v =
    let next =
      λ (size : ℕ) (d' : Driver). payload_loop body fuel (remaining - size) (pos + size) d' in
    let later : (size : ℕ) (d' : Driver) → IsUntouched a d' → OnOk (IsUntouched a) (next size d') =
      λ size d' w. payload_loop-IsUntouched body fuel (remaining - size) (pos + size) a d' keep w in
    elim (Bool-cases (remaining == 0)) [
      | inl done ↦ rw done v
      | inr more ↦
          rw more
            (next-IsUntouched a (body pos d) next (further a d (body pos d) v (keep pos d)) later)
    ]
