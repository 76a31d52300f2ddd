-- ===== src/Commands.antt =====
-- src/common/can4vscpobj.cpp: `sendCommand`, `sendConfig`, the loops that wait for a response, and
-- `getDeviceCapabilities`. A wait is a list of polls: the reading of `getClockMilliSeconds` at the loop
-- test, and what the other threads do to the object before the queue is looked at. The list that
-- ends before the loop does is `starved`.
pub mod Sent
pub mod Waiting
use vscpl1drv_can4vscp.Prelude.{
  ℕ, ◌+◌, ◌*◌, ◌%◌, ◌^◌, ◌==◌, ◌&&◌, Bool, true, false, Option, none, some, List, [], ◌∷◌, ltb,
  length, get_elem?, if◌then◌else◌,
}
use vscpl1drv_can4vscp.Platform.{Platform, Response}
use vscpl1drv_can4vscp.Driver.{Driver, Run, ok, fault, starved, ◌>>=◌}
use vscpl1drv_can4vscp.Serial.{send_msg, frame_bytes}

-- The queue of responses is emptied before the frame is sent, and the sequence number has moved on.
unfoldable pub post_frame : Platform → List ℕ → Driver → Driver × Bool
post_frame p wire d = send_msg p wire (record d {
  sequencyno = (d.sequencyno + 1) % 2 ^ 8;
  response_list = p.responses.remove_all_nodes d.response_list;
})

-- uint8_t sendData[512], in which a frame is built
abbrev pub send_data_size : ℕ
send_data_size = 512

-- A frame with the next sequence number. One that does not fit in the array is written past its end.
unfoldable pub send_frame : Platform → ℕ → ℕ → List ℕ → Driver → Run (Driver × Bool)
send_frame p frame_type declared payload d =
    let wire = frame_bytes p frame_type d.sequencyno declared payload in
    if ltb send_data_size (length wire) then fault else ok (post_frame p wire d)

-- `size` is the length of the parameters.
unfoldable pub send_command : Platform → ℕ → List ℕ → Driver → Run (Driver × Bool)
send_command p cmdcode param d =
    send_frame p p.frame_types.command ((length param + 1) % 2 ^ 8) (cmdcode ∷ param) d

unfoldable pub send_config : Platform → ℕ → List ℕ → Driver → Run (Driver × Bool)
send_config p code_config param d =
    send_frame p p.frame_types.configure (length param % 2 ^ 8) (code_config ∷ param) d

pub record Poll : Type 0 where
  pub now : ℕ
  pub others : Driver → Driver

-- payload[i] == v, of a payload that has been written that far
abbrev pub payload_is : Response → ℕ → ℕ → Bool
payload_is r i v = elim (get_elem? r.payload i) [ some b ↦ b == v | none ↦ false ]

-- Two bytes of payload, 0 and the code, in a frame of a type that carries the sequence number.
abbrev pub is_answer : ℕ → ℕ → ℕ → Response → Bool
is_answer frame_type code saveseq r =
    (r.size_payload == 2)
    && ((saveseq == r.seq) && ((r.op == frame_type) && (payload_is r 0 0 && payload_is r 1 code)))

-- What ends the loop of `wait4CommandResponse`, and with which result.
unfoldable pub command_verdict : Platform → ℕ → ℕ → Response → Option Bool
command_verdict p cmdcode saveseq r =
    if is_answer p.frame_types.command_reply cmdcode saveseq r then some true else none

-- The same of `wait4ConfigResponse`.
unfoldable pub config_verdict : Platform → ℕ → ℕ → Response → Option Bool
config_verdict p code_config saveseq r =
    if is_answer p.frame_types.ack code_config saveseq r
    then some true
    else if is_answer p.frame_types.nack code_config saveseq r
    then some false
    else none

-- After a round of a wait: the result, or on with the last response that was copied to the caller's
-- message.
pub data Polled : Type 0 where
  finish : Driver → Bool → Option Response → Polled
  go_on : Option Response → Driver → Polled

abbrev pub judge : Driver → Response → Option Bool → Polled
judge d r (some result) = finish d result (some r)
judge d r none = go_on (some r) d

-- The first response of the queue is taken, and looked at.
abbrev pub take_response :
    Platform → (Response → Option Bool) → Option Response → Driver → List Response → Polled
take_response p verdict got d [] = go_on got d
take_response p verdict got d (r ∷ rs) =
    judge (record d { response_list = p.responses.remove_head d.response_list }) r (verdict r)

unfoldable pub wait_round :
    Platform → (Response → Option Bool) → ℕ → Poll → Option Response → Driver → Polled
wait_round p verdict deadline q got d =
    let d' = q.others d in
    if ltb q.now deadline
    then take_response p verdict got d' d'.response_list
    else finish d false got

abbrev pub then_on :
    (Option Response → Driver → Run (Driver × Bool × Option Response))
    → Polled
    → Run (Driver × Bool × Option Response)
then_on next (finish d result got) = ok (d, result, got)
then_on next (go_on got d) = next got d

-- The loop of the two waits.
unfoldable pub wait_loop :
    Platform
    → (Response → Option Bool)
    → ℕ
    → List Poll
    → Option Response
    → Driver
    → Run (Driver × Bool × Option Response)
wait_loop p verdict deadline [] got d = starved
wait_loop p verdict deadline (q ∷ qs) got d =
    then_on (wait_loop p verdict deadline qs) (wait_round p verdict deadline q got d)

-- `start + timeout` is a `uint32_t`.
abbrev pub deadline_of : ℕ → ℕ → ℕ
deadline_of start timeout = (start + timeout) % 2 ^ 32

unfoldable pub wait4_command_response :
    Platform
    → ℕ
    → ℕ
    → ℕ
    → ℕ
    → List Poll
    → Option Response
    → Driver
    → Run (Driver × Bool × Option Response)
wait4_command_response p cmdcode saveseq start timeout polls msg d =
    wait_loop p (command_verdict p cmdcode saveseq) (deadline_of start timeout) polls msg d

unfoldable pub wait4_config_response :
    Platform
    → ℕ
    → ℕ
    → ℕ
    → ℕ
    → List Poll
    → Option Response
    → Driver
    → Run (Driver × Bool × Option Response)
wait4_config_response p code_config saveseq start timeout polls msg d =
    wait_loop p (config_verdict p code_config saveseq) (deadline_of start timeout) polls msg d

unfoldable pub send_command_wait :
    Platform
    → ℕ
    → List ℕ
    → ℕ
    → ℕ
    → List Poll
    → Option Response
    → Driver
    → Run (Driver × Bool × Option Response)
send_command_wait p cmdcode param start timeout polls msg d = do
  (sent, success) ← send_command p cmdcode param d
  if success
      then wait4_command_response p cmdcode d.sequencyno start timeout polls msg sent
      else ok (sent, false, msg)

-- Like the code, it sends a command and waits for the response to a command.
unfoldable pub send_config_wait :
    Platform
    → ℕ
    → List ℕ
    → ℕ
    → ℕ
    → List Poll
    → Option Response
    → Driver
    → Run (Driver × Bool × Option Response)
send_config_wait p code_config param start timeout polls msg d = do
  (sent, success) ← send_command p code_config param d
  if success
      then wait4_command_response p code_config d.sequencyno start timeout polls msg sent
      else ok (sent, false, msg)

-- msgResponse.payload[i], where it has been written
abbrev pub payload_at : Response → ℕ → Run ℕ
payload_at r i = elim (get_elem? r.payload i) [ some b ↦ ok b | none ↦ fault ]

abbrev pub at_least_one : ℕ → ℕ
at_least_one n = if n == 0 then 1 else n

unfoldable pub take_caps : Platform → ℕ → Response → Driver → Run Driver
take_caps p saveseq r d =
    if (p.caps_size == r.size_payload)
      && ((saveseq == r.seq) && (r.op == p.frame_types.caps_response))
    then (do
      b0 ← payload_at r 0
      b1 ← payload_at r 1
      b2 ← payload_at r 2
      b3 ← payload_at r 3
      ok (record d {
        max_vscp_frames = at_least_one ((b0 * 2 ^ 8 + b1) % 2 ^ 16);
        max_canal_frames = at_least_one ((b2 * 2 ^ 8 + b3) % 2 ^ 16);
      }))
    else ok d

-- The loop goes on to its deadline, also behind a response that fits.
unfoldable pub caps_loop : Platform → ℕ → ℕ → List Poll → Driver → Run Driver
caps_loop p saveseq deadline [] d = starved
caps_loop p saveseq deadline (q ∷ qs) d = elim (ltb q.now deadline) [
  | false ↦ ok d
  | true ↦
      let d' = q.others d in
      elim d'.response_list [
        | [] ↦ caps_loop p saveseq deadline qs d'
        | r ∷ rs ↦
            take_caps p saveseq r
              (record d' { response_list = p.responses.remove_head d'.response_list })
            >>= caps_loop p saveseq deadline qs
      ]
]

unfoldable pub get_device_capabilities : Platform → ℕ → List Poll → Driver → Run (Driver × Bool)
get_device_capabilities p start polls d = do
  (sent, success) ← send_frame p p.frame_types.caps_request 2 (1 ∷ 10 ∷ []) d
  if success
      then (do d' ← caps_loop p d.sequencyno (deadline_of start 500) polls sent; ok (d', true))
      else ok (sent, false)
