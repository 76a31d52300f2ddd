-- ===== src/Queues/Fifo.antt =====
-- The order of the receive queue: `readSerialData` at one end, `readMsg` at the other
-- (src/common/can4vscpobj.cpp).
use vscpl1drv_can4vscp.Prelude.{
  ℕ, zero, suc, ◌-◌, ◌≡◌, refl, arith, Bool, true, false, not, Option, none, some, List, [], ◌∷◌,
  ◌++◌, append-nil, append_assoc, length, length-append, if◌then◌else◌, ltb, ltb→lt, ◌&&◌, sym, ap,
  ◌∙◌, Bool-cases, inl, inr,
}
use vscpl1drv_can4vscp.Message.{CanalMsg}
use vscpl1drv_can4vscp.Platform.{Platform, IsFifo}
use vscpl1drv_can4vscp.Driver.{Driver, Code, success, not_open, fifo_empty, max_receive}
use vscpl1drv_can4vscp.Filter.{do_filter}
use vscpl1drv_can4vscp.Receive.Reader.{deliver, overrun, has_room}
use vscpl1drv_can4vscp.Receive.Packing.{accept, accept_all}
use vscpl1drv_can4vscp.Queues.{read_msg, take_head, drop_head}

-- The messages that the filter lets through.
abbrev pub passing : Platform → Driver → List CanalMsg → List CanalMsg
passing p d [] = []
passing p d (m ∷ ms) = if do_filter p d m then m ∷ passing p d ms else passing p d ms

abbrev pub take {ℓ} : {A : Type ℓ} → ℕ → List A → List A
take zero xs = []
take (suc n) [] = []
take (suc n) (x ∷ xs) = x ∷ take n xs

take-nil {ℓ} : {A : Type ℓ} (n : ℕ) → take {A = A} n [] ≡ []
take-nil zero = refl
take-nil (suc n) = refl

-- One message and then the others, against all of them.
enter :
    (q : List CanalMsg) (pass : Bool) (m : CanalMsg) (ms : List CanalMsg)
    → let q' = if ltb (length q) max_receive && pass then q ++ (m ∷ []) else q in
      q' ++ take (max_receive - length q') ms
      ≡ q ++ take (max_receive - length q) (if pass then m ∷ ms else ms)
enter q pass m ms = elim (Bool-cases (ltb (length q) max_receive)) [
  | inl room ↦
      let e : max_receive - length q ≡ suc (max_receive - length (q ++ (m ∷ []))) =
        omega (arith, ltb→lt (length q) max_receive room, length-append {0} q (m ∷ [])) in
      enter_room pass room e
  | inr full ↦ let e : max_receive - length q ≡ 0 = ground arith in rw (full, e) (ground arith)
]
  where
    enter_room :
        (b : Bool)
        → ltb (length q) max_receive ≡ true
        → max_receive - length q ≡ suc (max_receive - length (q ++ (m ∷ [])))
        → let q' = if ltb (length q) max_receive && b then q ++ (m ∷ []) else q in
          q' ++ take (max_receive - length q') ms
          ≡ q ++ take (max_receive - length q) (if b then m ∷ ms else ms)
    enter_room true room e = rw (room, e) (append_assoc q _ _)
    enter_room false room e = rw room refl

-- A message in front of the later ones, or the code of the call that gave none.
abbrev collect : Code → Option CanalMsg → List CanalMsg × Code → List CanalMsg × Code
collect code none rest = ([], code)
collect code (some m) rest = (m ∷ rest.0, rest.1)

-- `readMsg` until a call does not succeed, at most `fuel` times: the messages, and the last code.
unfoldable pub read_all : Platform → ℕ → Driver → List CanalMsg × Code
read_all p zero d = ([], success)
read_all p (suc fuel) d = let r = read_msg p false d in collect r.1 r.2 (read_all p fuel r.0)

module _ (p : Platform) (messages : IsFifo p.messages) where
  drop_head-opened : (d : Driver) → d.opened ≡ true → (drop_head p d).opened ≡ true
  unfolding drop_head
  drop_head-opened d o = o

  drop_head_lem :
      (d : Driver) (x : CanalMsg) (xs : List CanalMsg)
      → d.receive_list ≡ x ∷ xs
      → (drop_head p d).receive_list ≡ xs
  unfolding drop_head
  drop_head_lem d x xs h = ap p.messages.remove_head h ∙ messages.remove_head_lem x xs

  read_msg-head :
      (d : Driver) (x : CanalMsg) (xs : List CanalMsg)
      → d.opened ≡ true
      → d.receive_list ≡ x ∷ xs
      → read_msg p false d ≡ (drop_head p d, success, some x)
  unfolding read_msg take_head
  read_msg-head d x xs o h =
      ap (λ q. if not q then (d, not_open, none) else take_head p d d.receive_list) o
      ∙ ap (take_head p d) h

  read_msg-empty :
      (d : Driver)
      → d.opened ≡ true
      → d.receive_list ≡ []
      → read_msg p false d ≡ (d, fifo_empty, none)
  unfolding read_msg take_head
  read_msg-empty d o h =
      ap (λ q. if not q then (d, not_open, none) else take_head p d d.receive_list) o
      ∙ ap (take_head p d) h

  pub read_all_queue :
      (xs : List CanalMsg) (d : Driver)
      → d.opened ≡ true
      → d.receive_list ≡ xs
      → read_all p (suc (length xs)) d ≡ (xs, fifo_empty)
  unfolding read_all
  read_all_queue [] d o h = ap (λ r. collect r.1 r.2 (read_all p 0 r.0)) (read_msg-empty d o h)
  read_all_queue (x ∷ xs) d o h =
      let rest =
        read_all_queue xs (drop_head p d) (drop_head-opened d o) (drop_head_lem d x xs h) in
      ap (λ r. collect r.1 r.2 (read_all p (suc (length xs)) r.0)) (read_msg-head d x xs o h)
      ∙ ap (λ (r : List CanalMsg × Code). (x ∷ r.0, r.1)) rest

  -- What a message does to the queue: it goes in where there is room and the filter lets it through.
  accept_lem :
      (m : CanalMsg) (d : Driver)
      → (accept p m d).receive_list
        ≡ (if has_room d && do_filter p d m then d.receive_list ++ (m ∷ []) else d.receive_list)
  unfolding accept deliver overrun
  accept_lem m d = ground (arith, messages.add_node_lem d.receive_list m)

  do_filter-accept : (m x : CanalMsg) (d : Driver) → do_filter p (accept p m d) x ≡ do_filter p d x
  unfolding accept deliver overrun do_filter
  do_filter-accept m x d = ground arith

  accept-opened : (m : CanalMsg) (d : Driver) → (accept p m d).opened ≡ d.opened
  unfolding accept deliver overrun
  accept-opened m d = ground arith

  pub accept_all-opened : (ms : List CanalMsg) (d : Driver) → (accept_all p ms d).opened ≡ d.opened
  unfolding accept_all
  accept_all-opened [] d = refl
  accept_all-opened (m ∷ ms) d = accept_all-opened ms (accept p m d) ∙ accept-opened m d

  passing-accept :
      (m : CanalMsg) (ms : List CanalMsg) (d : Driver)
      → passing p (accept p m d) ms ≡ passing p d ms
  passing-accept m [] d = refl
  passing-accept m (x ∷ ms) d = rw (do_filter-accept m x d, passing-accept m ms d) refl

  -- The receive queue behind a run of messages: those that the filter lets through follow in their
  -- order, as many as there is room for.
  pub accept_all_lem :
      (ms : List CanalMsg) (d : Driver)
      → (accept_all p ms d).receive_list
        ≡ d.receive_list ++ take (max_receive - length d.receive_list) (passing p d ms)
  unfolding accept_all
  accept_all_lem [] d = rw (take-nil (max_receive - length d.receive_list)) (sym (append-nil _))
  accept_all_lem (m ∷ ms) d =
      accept_all_lem ms (accept p m d)
      ∙ rw (passing-accept m ms d, accept_lem m d)
          (enter d.receive_list (do_filter p d m) m (passing p d ms))

  -- The messages of a run come out of readMsg in their order, behind those that were waiting: those
  -- that the filter lets through, as many as there is room for. Then the queue is empty. The driver
  -- is open. The list keeps the order of its nodes.
  pub read_all-accept_all :
      (ms : List CanalMsg) (d : Driver)
      → d.opened ≡ true
      → let queue = d.receive_list ++ take (max_receive - length d.receive_list) (passing p d ms) in
        read_all p (suc (length queue)) (accept_all p ms d) ≡ (queue, fifo_empty)
  read_all-accept_all ms d o =
      read_all_queue _ (accept_all p ms d) (accept_all-opened ms d ∙ o) (accept_all_lem ms d)
