-- ===== src/Commands/Waiting.antt =====
-- The loops of src/common/can4vscpobj.cpp that wait for a response.
use vscpl1drv_can4vscp.Prelude.{
  ℕ, ◌+◌, ◌%◌, ◌^◌, ◌<◌, ◌≤◌, ◌≡◌, ◌≢◌, ◌⊎◌, arith, refl, Bool, false, Option, none, some, List, [],
  ◌∷◌, ◌++◌, ltb, lt→ltb, length, inl, inr, ap, ◌∙◌, if◌then◌else◌,
}
use vscpl1drv_can4vscp.Platform.{Platform, IsFifo, Response}
use vscpl1drv_can4vscp.Driver.{Driver, Run, ok, starved}
use vscpl1drv_can4vscp.Commands.{
  Poll, Polled, finish, go_on, then_on, judge, take_response, wait_round, wait_loop,
  wait4_command_response,
}

-- A reading at which the loop ends is among the polls.
abbrev pub Expires : ℕ → List Poll → Type 0
Expires deadline [] = ⊥
Expires deadline (q ∷ qs) = (deadline ≤ q.now) ⊎ Expires deadline qs

then_on-ne-starved :
    (next : Option Response → Driver → Run (Driver × Bool × Option Response))
    → ((got : Option Response) (d : Driver) → next got d ≢ starved)
    → (r : Polled) → then_on next r ≢ starved
then_on-ne-starved next h (finish d result got) = λ e. cc
then_on-ne-starved next h (go_on got d) = h got d

-- A wait for a response ends, if the clock reaches the deadline at one of the polls, whatever the
-- other threads do and whatever responses come in.
pub wait_loop-ne-starved :
    (p : Platform) (verdict : Response → Option Bool) (deadline : ℕ) (qs : List Poll)
    (got : Option Response) (d : Driver)
    → Expires deadline qs
    → wait_loop p verdict deadline qs got d ≢ starved
unfolding wait_loop wait_round
wait_loop-ne-starved p verdict deadline [] got d e = absurd e
wait_loop-ne-starved p verdict deadline (q ∷ qs) got d (inl late) =
    let expired : ltb q.now deadline ≡ false = ground arith in rw expired (λ e. cc)
wait_loop-ne-starved p verdict deadline (q ∷ qs) got d (inr later) =
    then_on-ne-starved (wait_loop p verdict deadline qs)
      (λ g d'. wait_loop-ne-starved p verdict deadline qs g d' later)
      (wait_round p verdict deadline q got d)

-- The clock is before the deadline, and the other threads leave the object alone.
abbrev pub Quiet : ℕ → List Poll → Type 0
Quiet deadline [] = Unit {0}
Quiet deadline (q ∷ qs) = (q.now < deadline) × ((d : Driver) → q.others d ≡ d) × Quiet deadline qs

-- None of the responses is an answer.
abbrev pub Stale : (Response → Option Bool) → List Response → Type 0
Stale verdict [] = Unit {0}
Stale verdict (r ∷ rs) = (verdict r ≡ none) × Stale verdict rs

-- A round before the deadline takes the first response.
round-take :
    (p : Platform) (verdict : Response → Option Bool) (deadline : ℕ) (q : Poll)
    (got : Option Response) (d : Driver) (rs : List Response)
    → q.now < deadline
    → q.others d ≡ d
    → d.response_list ≡ rs
    → wait_round p verdict deadline q got d ≡ take_response p verdict got d rs
unfolding wait_round
round-take p verdict deadline q got d rs early quiet queue =
    ap
      (λ b.
        if b
        then take_response p verdict got (q.others d) (q.others d).response_list
        else finish d false got)
      (lt→ltb q.now deadline early)
    ∙ ap (λ (e : Driver). take_response p verdict got e e.response_list) quiet
    ∙ ap (take_response p verdict got d) queue

-- Responses that are no answer, ahead of the answer in the queue, are skipped: the wait returns
-- with the result of the answer and leaves what is behind it. The polls before the deadline are
-- enough to get to the answer, and the other threads leave the object alone; the lists keep the
-- order of their nodes.
pub wait_loop-answer :
    (p : Platform) (responses : IsFifo p.responses) (verdict : Response → Option Bool)
    (deadline : ℕ) (stale rest : List Response) (r : Response) (result : Bool) (qs : List Poll)
    (got : Option Response) (d : Driver)
    → Quiet deadline qs
    → length stale < length qs
    → d.response_list ≡ stale ++ (r ∷ rest)
    → Stale verdict stale
    → verdict r ≡ some result
    → wait_loop p verdict deadline qs got d ≡ ok (record d { response_list = rest }, result, some r)
unfolding wait_loop
wait_loop-answer p responses verdict deadline stale rest r result [] got d quiet enough queue
      none_yet answer =
    absurd (omega arith)
wait_loop-answer p responses verdict deadline [] rest r result (q ∷ qs) got d quiet enough queue
      none_yet answer =
    let round = round-take p verdict deadline q got d (r ∷ rest) quiet.0 (quiet.1 d) queue in
    let taken = record d { response_list = p.responses.remove_head d.response_list } in
    let head = ap p.responses.remove_head queue ∙ responses.remove_head_lem r rest in
    ap (then_on (wait_loop p verdict deadline qs)) round
    ∙ ap (λ v. then_on (wait_loop p verdict deadline qs) (judge taken r v)) answer
    ∙ ap (λ xs. ok (record d { response_list = xs }, result, some r)) head
wait_loop-answer p responses verdict deadline (x ∷ xs) rest r result (q ∷ qs) got d quiet enough
      queue none_yet answer =
    let tail = xs ++ (r ∷ rest) in
    let round = round-take p verdict deadline q got d (x ∷ tail) quiet.0 (quiet.1 d) queue in
    let taken = record d { response_list = p.responses.remove_head d.response_list } in
    let left : taken.response_list ≡ tail =
      ap p.responses.remove_head queue ∙ responses.remove_head_lem x tail in
    let later =
      wait_loop-answer p responses verdict deadline xs rest r result qs (some x) taken quiet.2
        (omega arith) left none_yet.1 answer in
    ap (then_on (wait_loop p verdict deadline qs)) round
    ∙ ap (λ v. then_on (wait_loop p verdict deadline qs) (judge taken x v)) none_yet.0
    ∙ later

-- Where the start and the timeout together pass 2 ^ 32, the deadline wraps around: the wait for a
-- response to a command ends at its first test, without a look at the queue. The clock has not
-- wrapped itself.
pub wait4_command_response_wraps :
    (p : Platform) (cmdcode saveseq start timeout : ℕ) (q : Poll) (qs : List Poll)
    (msg : Option Response) (d : Driver)
    → start < 2 ^ 32
    → timeout < 2 ^ 32
    → 2 ^ 32 ≤ start + timeout
    → start ≤ q.now
    → wait4_command_response p cmdcode saveseq start timeout (q ∷ qs) msg d ≡ ok (d, false, msg)
unfolding wait4_command_response wait_loop wait_round
wait4_command_response_wraps p cmdcode saveseq start timeout q qs msg d hs ht wraps after =
    let expired : ltb q.now ((start + timeout) % 2 ^ 32) ≡ false = ground arith in rw expired refl
