-- ===== src/Tests/Commands.antt =====
-- Commands and the waits for their responses.
use vscpl1drv_can4vscp.Prelude.{
  ℕ, ◌≡◌, refl, none, some, false, true, [], ◌∷◌, arith, length, ◌≤◌, Bool, ◌⊎◌, ◌<◌,
}
use vscpl1drv_can4vscp.Frame.Encode.{encode}
use vscpl1drv_can4vscp.Platform.{Response}
use vscpl1drv_can4vscp.Driver.{Driver, construct, ok, fault}
use vscpl1drv_can4vscp.Commands.{
  Poll, send_command, wait_loop, wait4_command_response, command_verdict,
}
use vscpl1drv_can4vscp.Commands.Sent.{send_command_lem, dles, send_command_overruns}
use vscpl1drv_can4vscp.Commands.Waiting.{wait_loop-answer, wait4_command_response_wraps}
use vscpl1drv_can4vscp.Tests.Example.{example_platform, list_dllist-IsFifo, open_driver}

abbrev pub quiet_at : ℕ → Poll
quiet_at now = record { now = now; others = λ d. d }

-- A reply of an older command, and the reply to command 1 with the sequence number 7.
abbrev old_reply : Response
old_reply = record { op = 18; seq = 6; channel = 0; size_payload = 2; payload = 0 ∷ 1 ∷ [] }

abbrev reply : Response
reply = record old_reply { seq = 7 }

abbrev answered : Driver
answered = record open_driver { response_list = old_reply ∷ reply ∷ [] }

send_command_example :
    let wire = encode example_platform.crc8 21 0 0 2 (1 ∷ 5 ∷ []) in
    let run = send_command example_platform 1 (5 ∷ []) open_driver in
    ((length wire ≤ 512)
      × ((r : Driver × Bool) × (run ≡ ok r)
          × (r.0.port.writes ≡ wire ∷ [])
          × (r.0.sequencyno ≡ 1)
          × (r.0.response_list ≡ [])
          × (r.1 ≡ true)))
    ⊎ ((512 < length wire) × (run ≡ fault))
unfolding construct
send_command_example =
    send_command_lem example_platform list_dllist-IsFifo 1 (5 ∷ []) open_driver refl (omega arith)

wait_loop-answer_example :
    wait_loop example_platform
      (command_verdict example_platform 1 7)
      100
      (quiet_at 80 ∷ quiet_at 90 ∷ [])
      none
      answered
    ≡ ok (record answered { response_list = [] }, true, some reply)
unfolding construct command_verdict
wait_loop-answer_example =
    wait_loop-answer example_platform list_dllist-IsFifo (command_verdict example_platform 1 7) 100
      (old_reply ∷ []) [] reply true (quiet_at 80 ∷ quiet_at 90 ∷ []) none answered
      (omega arith, λ d. refl, (omega arith, λ d. refl, tt)) (omega arith) refl (refl, tt) refl

wait4_command_response_wraps_example :
    wait4_command_response example_platform 1 7 0xffffff00 1000
      (quiet_at 0xffffff00 ∷ [])
      none
      answered
    ≡ ok (answered, false, none)
wait4_command_response_wraps_example =
    wait4_command_response_wraps example_platform 1 7 0xffffff00 1000 (quiet_at 0xffffff00) [] none
      answered (omega arith) (omega arith) (omega arith) (omega arith)

send_command_overruns_example : send_command example_platform 1 (dles 255) open_driver ≡ fault
unfolding construct
send_command_overruns_example =
    send_command_overruns example_platform list_dllist-IsFifo 1 255 open_driver refl (omega arith)
      (omega arith)
