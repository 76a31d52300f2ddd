-- ===== src/Tests/Line.antt =====
-- Frames on the line: building, receiving and checking them.
use vscpl1drv_can4vscp.Prelude.{ℕ, ◌≤◌, ◌↔◌, ◌≡◌, refl, List, [], ◌∷◌, true, false, length, arith}
use vscpl1drv_can4vscp.Prelude.Memory.{prefix}
use vscpl1drv_can4vscp.Frame.{dle, build_frame, check_crc}
use vscpl1drv_can4vscp.Frame.Encode.{content, sealed, encode, build_frame-encode}
use vscpl1drv_can4vscp.Frame.Check.{check_crc_iff}
use vscpl1drv_can4vscp.Rx.{Rx, State, in_frame, idle, char, nothing, serial_data, buffer_size}
use vscpl1drv_can4vscp.Rx.Bounds.{serial_data_bounds}
use vscpl1drv_can4vscp.Rx.RoundTrip.{chars, Received}
use vscpl1drv_can4vscp.Rx.EndToEnd.{serial_data-build_frame, serial_data_lone_dle}
use vscpl1drv_can4vscp.Tests.Example.{sum8}

abbrev broken_off : Rx
broken_off = record { state = in_frame; substate = idle; buf = λ i. i; len = 7 }

abbrev at_rest : Rx
at_rest = record { state = State.none; substate = idle; buf = λ i. 0; len = 0 }

built :
    prefix (build_frame sum8 (λ i. 0) 2 0 16 1 (16 ∷ [])).buf 13
    ≡ 16 ∷ 2 ∷ 2 ∷ 0 ∷ 16 ∷ 16 ∷ 0 ∷ 1 ∷ 16 ∷ 16 ∷ 35 ∷ 16 ∷ 3 ∷ []
unfolding build_frame
built = refl

serial_data-build_frame_example :
    let w = build_frame sum8 (λ i. 0) 2 0 16 1 (16 ∷ []) in
    let q = serial_data broken_off (chars (prefix w.buf w.pos) (nothing ∷ [])) in
    Received q (sealed sum8 (content 2 0 16 1 (16 ∷ []))) (nothing ∷ [])
    × (check_crc sum8 q.0.buf q.0.len ≡ true)
serial_data-build_frame_example =
    serial_data-build_frame sum8 broken_off (λ i. 0) 2 0 16 1 (16 ∷ []) (nothing ∷ []) refl
      (λ e. cc) (λ e. omega arith) (λ e. omega arith) (omega arith)

build_frame-encode_example :
    let w = build_frame sum8 (λ i. 0) 2 0 16 1 (16 ∷ []) in
    (prefix w.buf w.pos ≡ encode sum8 2 0 16 1 (16 ∷ []))
    × (w.pos ≡ length (encode sum8 2 0 16 1 (16 ∷ [])))
build_frame-encode_example = build_frame-encode sum8 (λ i. 0) 2 0 16 1 (16 ∷ []) (omega arith)

check_crc_iff_example :
    (check_crc sum8 (λ i. i) 3 ≡ true) ↔ ((xs : List ℕ) × (prefix (λ i. i) 3 ≡ sealed sum8 xs))
check_crc_iff_example = check_crc_iff sum8 (λ i. i) 3 (omega arith)

serial_data_bounds_example :
    ((serial_data broken_off (char 1 ∷ [])).0.len ≤ buffer_size)
    × ((i : ℕ)
        → buffer_size ≤ i
        → (serial_data broken_off (char 1 ∷ [])).0.buf i ≡ broken_off.buf i)
serial_data_bounds_example = serial_data_bounds broken_off (char 1 ∷ []) (omega arith)

serial_data_lone_dle_example :
    (serial_data at_rest (char dle ∷ chars (encode sum8 2 0 1 1 (5 ∷ [])) [])).1 ≡ false
serial_data_lone_dle_example = serial_data_lone_dle sum8 at_rest 2 0 1 1 (5 ∷ []) refl refl (
  (λ e. omega arith),
  (
    (λ e. omega arith),
    (
      (λ e. omega arith),
      ((λ e. omega arith), ((λ e. omega arith), ((λ e. omega arith), ((λ e. omega arith), tt)))),
    ),
  ),
)
