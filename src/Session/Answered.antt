-- ===== src/Session/Answered.antt =====
-- What an answer to a command is, and that the handshake of `open` of src/common/can4vscpobj.cpp
-- ends with one where it reports that the device was found.
use vscpl1drv_can4vscp.Prelude.{
  ℕ, ◌<◌, ◌≡◌, ◌∙◌, sym, ap, refl, arith, Bool, Bool-cases, true, false, Option, Option-cases, none,
  some, List, [], ◌∷◌, ◌⊎◌, inl, inr, ltb, ltb→lt, get_elem?, if◌then◌else◌,
}
use vscpl1drv_can4vscp.Platform.{Platform, Response}
use vscpl1drv_can4vscp.Driver.{Driver, Run, ok}
use vscpl1drv_can4vscp.Driver.Outcome.{bind-ok, ok-injective}
use vscpl1drv_can4vscp.Commands.{
  Poll, finish, payload_is, command_verdict, judge, take_response, then_on, wait_round, wait_loop,
  deadline_of, send_command, wait4_command_response, send_command_wait,
}
use vscpl1drv_can4vscp.Session.{command_noop}
use vscpl1drv_can4vscp.Session.Open.{Attempt, handshake}

-- The answer to a command: a reply with its sequence number, and 0 and its code as the payload.
abbrev pub IsAnswer : Platform → ℕ → ℕ → Response → Type 0
IsAnswer p command seq r =
    (r.op ≡ p.frame_types.command_reply)
    × (r.seq ≡ seq)
    × (r.size_payload ≡ 2)
    × (get_elem? r.payload 0 ≡ some 0)
    × (get_elem? r.payload 1 ≡ some command)

-- The object behind a poll that has taken the first response of the queue.
abbrev pub looked : Platform → List Response → Driver → Driver
looked p [] d = d
looked p (r ∷ rs) d = record d { response_list = p.responses.remove_head d.response_list }

-- At one of the polls, all of them up to it before the deadline, the first response of the queue is
-- the answer.
abbrev pub Answered : Platform → ℕ → ℕ → ℕ → Driver → List Poll → Type 0
Answered p command seq deadline d [] = ⊥
Answered p command seq deadline d (q ∷ qs) =
    let e = q.others d in
    (q.now < deadline)
    × (((r : Response) × (rs : List Response) × (e.response_list ≡ r ∷ rs)
          × IsAnswer p command seq r)
        ⊎ Answered p command seq deadline (looked p e.response_list e) qs)

-- One of the tries of the NOOP command has been written to the port and answered, or has not been
-- answered and one of the later tries has.
abbrev pub NoopAnswered : Platform → Driver → List Attempt → Type 0
NoopAnswered p d [] = ⊥
NoopAnswered p d (a ∷ rest) =
    ((sent : Driver) × (send_command p command_noop [] d ≡ ok (sent, true))
      × Answered p command_noop d.sequencyno (deadline_of a.wait.start 500) sent a.wait.polls)
    ⊎ ((d' : Driver) × (got : Option Response) × (send_command_wait p command_noop [] a.wait.start
            500 a.wait.polls none d
          ≡ ok (d', false, got))
        × NoopAnswered p (a.sleep d') rest)

payload_is_lem : (r : Response) (i v : ℕ) → payload_is r i v ≡ true → get_elem? r.payload i ≡ some v
payload_is_lem r i v h = elim (Option-cases (get_elem? r.payload i)) [
  | inl missing ↦ ground (arith, missing, h)
  | inr (b, found) ↦ ground (arith, found, h)
]

command_verdict-IsAnswer :
    (p : Platform) (command seq : ℕ) (r : Response) (result : Bool)
    → command_verdict p command seq r ≡ some result
    → IsAnswer p command seq r
unfolding command_verdict
command_verdict-IsAnswer p command seq r result h =
    ground (arith, payload_is_lem r 0 0, payload_is_lem r 1 command)

-- A poll that takes a response, the rest of the wait given.
module _ (p : Platform) (command seq deadline : ℕ) (qs : List Poll) (msg : Option Response)
    (end : Driver)
    (later : (g : Option Response) (a : Driver)
      → wait_loop p (command_verdict p command seq) deadline qs g a ≡ ok (end, true, msg)
      → Answered p command seq deadline a qs) where
  taken-Answered :
      (got : Option Response) (e : Driver) (rs : List Response)
      → then_on
          (wait_loop p (command_verdict p command seq) deadline qs)
          (take_response p (command_verdict p command seq) got e rs)
        ≡ ok (end, true, msg)
      → ((r : Response) × (rest : List Response) × (rs ≡ r ∷ rest) × IsAnswer p command seq r)
        ⊎ Answered p command seq deadline (looked p rs e) qs
  taken-Answered got e [] h = inr (later got e h)
  taken-Answered got e (r ∷ rs) h =
      let next = wait_loop p (command_verdict p command seq) deadline qs in
      let e' = looked p (r ∷ rs) e in
      elim (Option-cases (command_verdict p command seq r)) [
        | inl missing ↦
            inr (later (some r) e' (sym (ap (λ o. then_on next (judge e' r o)) missing) ∙ h))
        | inr (result, found) ↦
            inl (r, rs, refl, command_verdict-IsAnswer p command seq r result found)
      ]

not_found :
    {A : Type 0} (d e : Driver) (a b : A)
    → ◌≡◌ {A = Run (Driver × Bool × A)} (ok (d, false, a)) (ok (e, true, b))
    → ⊥
not_found d e a b h =
    let same = ok-injective (d, false, a) (e, true, b) h in
    let bits : false ≡ true = ap (λ r. r.1) same in cc

wait_loop-Answered :
    (p : Platform) (command seq deadline : ℕ) (qs : List Poll) (got msg : Option Response)
    (d e : Driver)
    → wait_loop p (command_verdict p command seq) deadline qs got d ≡ ok (e, true, msg)
    → Answered p command seq deadline d qs
unfolding wait_loop wait_round
wait_loop-Answered p command seq deadline [] got msg d e h = cc
wait_loop-Answered p command seq deadline (q ∷ qs) got msg d e h =
    let verdict = command_verdict p command seq in
    let d' = q.others d in
    let split = λ (b : Bool).
      then_on (wait_loop p verdict deadline qs)
        (if b then take_response p verdict got d' d'.response_list else finish d false got) in
    elim (Bool-cases (ltb q.now deadline)) [
      | inl early ↦ (
        ltb→lt q.now deadline early,
        taken-Answered p command seq deadline qs msg e
            (λ g a k. wait_loop-Answered p command seq deadline qs g msg a e k) got d'
            d'.response_list (sym (ap split early) ∙ h),
      )
      | inr late ↦ absurd (not_found d e got msg (sym (ap split late) ∙ h))
    ]

send_command_wait-Answered :
    (p : Platform) (command start timeout : ℕ) (polls : List Poll) (d e : Driver)
    (msg : Option Response)
    → send_command_wait p command [] start timeout polls none d ≡ ok (e, true, msg)
    → (sent : Driver) × (send_command p command [] d ≡ ok (sent, true))
      × Answered p command d.sequencyno (deadline_of start timeout) sent polls
unfolding send_command_wait wait4_command_response
send_command_wait-Answered p command start timeout polls d e msg h =
    let (sent, went, waited) = bind-ok (send_command p command [] d) _ (e, true, msg) h in
    let split = λ (b : Bool).
      if b
      then wait_loop p (command_verdict p command d.sequencyno) (deadline_of start timeout) polls
          none sent.0
      else ok (sent.0, false, none) in
    elim (Bool-cases sent.1) [
      | inl success ↦ (
        sent.0,
        went ∙ ap (λ b. ok (sent.0, b)) success,
        wait_loop-Answered p command d.sequencyno (deadline_of start timeout) polls none msg sent.0
            e (sym (ap split success) ∙ waited),
      )
      | inr failure ↦ absurd (not_found sent.0 e none msg (sym (ap split failure) ∙ waited))
    ]

pub handshake-NoopAnswered :
    (p : Platform) (tries : List Attempt) (d e : Driver)
    → handshake p tries d ≡ ok (e, true)
    → NoopAnswered p d tries
unfolding handshake
handshake-NoopAnswered p [] d e h =
    let bits : false ≡ true = ap (λ r. r.1) (ok-injective (d, false) (e, true) h) in cc
handshake-NoopAnswered p (a ∷ rest) d e h =
    let (r, sent, after) =
      bind-ok (send_command_wait p command_noop [] a.wait.start 500 a.wait.polls none d) _ (e, true)
        h in
    let split = λ (b : Bool). if b then ok (r.0, true) else handshake p rest (a.sleep r.0) in
    elim (Bool-cases r.1) [
      | inl found ↦ inl (
          send_command_wait-Answered p command_noop a.wait.start 500 a.wait.polls d r.0 r.2
            (sent ∙ ap (λ b. ok (r.0, b, r.2)) found))
      | inr missing ↦ inr (
        r.0,
        r.2,
        sent ∙ ap (λ b. ok (r.0, b, r.2)) missing,
        handshake-NoopAnswered p rest (a.sleep r.0) e (sym (ap split missing) ∙ after),
      )
    ]
