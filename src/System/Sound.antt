-- ===== src/System/Sound.antt =====
-- The bounds of the queues of src/common/can4vscpobj.cpp, over the steps of the threads.
use vscpl1drv_can4vscp.Prelude.{
  ℕ, suc, ◌+◌, ◌<◌, ◌≤◌, ◌≡◌, ap, ◌∙◌, arith, false, List, [], ◌∷◌, ltb, length, length-append, ◌+◌,
}
use vscpl1drv_can4vscp.Message.{CanalMsg}
use vscpl1drv_can4vscp.Platform.{Platform, Response, IsFifo}
use vscpl1drv_can4vscp.Rx.{Read, buffer_size}
use vscpl1drv_can4vscp.Driver.{Driver, ok, max_receive, max_response, max_send}
use vscpl1drv_can4vscp.Receive.{read_serial_data}
use vscpl1drv_can4vscp.Receive.Invariant.{IsBounded, read_serial_data-IsBounded}
use vscpl1drv_can4vscp.Receive.Untouched.{read_serial_data_lem}
use vscpl1drv_can4vscp.Queues.{append_transmit, drop_head, write_granted}
use vscpl1drv_can4vscp.Session.Keeping.{Quiet}
use vscpl1drv_can4vscp.Transmit.Worker.{Worker, complete}
use vscpl1drv_can4vscp.System.{Reach}
use vscpl1drv_can4vscp.System.Keeping.{QueueKeeping}
use vscpl1drv_can4vscp.System.Steps.{Reach-Rel}

-- The bounds of the queues of what is received, and of the receive buffer. The transmit queue has
-- room for 4097 messages, and more come in by the tokens for blocked writers only, of which one comes
-- with every message that is counted as sent: `tokens` is how many there were more.
pub record IsSound (tokens : ℕ) (d : Driver) : Type 0 where
  pub receive : length d.receive_list ≤ max_receive
  pub response : length d.response_list ≤ max_response
  pub rx_len : d.rx.len ≤ buffer_size
  pub writers : d.transmit_data_put_sem ≤ tokens + d.stat.transmit_frames
  pub transmit :
      length d.transmit_list + d.transmit_data_put_sem
      ≤ suc max_send + tokens + d.stat.transmit_frames

abbrev pub KeepsSound : ℕ → Driver → Driver → Type 0
KeepsSound k d e = IsSound k d → IsSound k e

quiet-IsSound : (k : ℕ) (d e : Driver) → Quiet d e → KeepsSound k d e
quiet-IsSound k d e q v = record {
  receive = omega (arith, v.receive, ap length q.receive_list);
  response = omega (arith, v.response, ap length q.response_list);
  rx_len = omega (arith, v.rx_len, ap (λ r. r.len) q.rx);
  writers = omega (arith, v.writers, q.transmit_data_put_sem, q.transmit_frames);
  transmit =
      omega
        (arith, v.transmit, ap length q.transmit_list, q.transmit_data_put_sem, q.transmit_frames);
}

module _ (p : Platform) (messages : IsFifo p.messages) (responses : IsFifo p.responses)
    (tokens : ℕ) where
  take_response-IsSound :
      (d : Driver) (r : Response) (rs : List Response)
      → d.response_list ≡ r ∷ rs
      → KeepsSound tokens d (record d { response_list = p.responses.remove_head d.response_list })
  take_response-IsSound d r rs e v =
      let left = ap p.responses.remove_head e ∙ responses.remove_head_lem r rs in
      record {
        receive = v.receive;
        response = omega (arith, v.response, ap length e, ap length left);
        rx_len = v.rx_len;
        writers = v.writers;
        transmit = v.transmit;
      }

  empty_responses-IsSound :
      (d : Driver)
      → KeepsSound tokens d
          (record d { response_list = p.responses.remove_all_nodes d.response_list })
  empty_responses-IsSound d v =
      let gone = responses.remove_all_nodes_lem d.response_list in
      record {
        receive = v.receive;
        response = omega (arith, ap length gone);
        rx_len = v.rx_len;
        writers = v.writers;
        transmit = v.transmit;
      }

  append_transmit-IsSound :
      (m : CanalMsg) (d : Driver)
      → ltb max_send (length d.transmit_list) ≡ false
      → KeepsSound tokens d (append_transmit p m d)
  append_transmit-IsSound m d room v = record {
    receive = v.receive;
    response = v.response;
    rx_len = v.rx_len;
    writers = v.writers;
    transmit = ground (
      arith,
      v.writers,
      ap length (messages.add_node_lem d.transmit_list m),
      length-append {0} d.transmit_list (m ∷ []),
    );
  }

  write_granted-IsSound :
      (m : CanalMsg) (d : Driver)
      → 0 < d.transmit_data_put_sem
      → KeepsSound tokens d (write_granted p m d)
  write_granted-IsSound m d token v = record {
    receive = v.receive;
    response = v.response;
    rx_len = v.rx_len;
    writers = omega (arith, v.writers);
    transmit = omega (
      arith,
      v.transmit,
      ap length (messages.add_node_lem d.transmit_list m),
      length-append {0} d.transmit_list (m ∷ []),
    );
  }

  complete-IsSound :
      (m : CanalMsg) (ms : List CanalMsg) (d : Driver)
      → d.transmit_list ≡ m ∷ ms
      → KeepsSound tokens d (complete p m d)
  unfolding complete
  complete-IsSound m ms d e v =
      let left = ap p.messages.remove_head e ∙ messages.remove_head_lem m ms in
      record {
        receive = v.receive;
        response = v.response;
        rx_len = v.rx_len;
        writers = omega (arith, v.writers);
        transmit = omega (arith, v.transmit, ap length e, ap length left);
      }

  drop_head-IsSound :
      (m : CanalMsg) (ms : List CanalMsg) (d : Driver)
      → d.receive_list ≡ m ∷ ms
      → KeepsSound tokens d (drop_head p d)
  unfolding drop_head
  drop_head-IsSound m ms d e v =
      let left = ap p.messages.remove_head e ∙ messages.remove_head_lem m ms in
      record {
        receive = omega (arith, v.receive, ap length e, ap length left);
        response = v.response;
        rx_len = v.rx_len;
        writers = v.writers;
        transmit = v.transmit;
      }

  read_serial_data-IsSound :
      (now : ℕ) (clock : ℕ → ℕ) (reads left : List Read) (d e : Driver)
      → read_serial_data p now clock reads d ≡ ok (e, left)
      → KeepsSound tokens d e
  read_serial_data-IsSound now clock reads left d e run v =
      let before : IsBounded d = record {
        receive = v.receive;
        response = v.response;
        rx_len = v.rx_len;
      } in
      let after =
        read_serial_data-IsBounded p messages responses now clock reads left d e before run in
      let kept = read_serial_data_lem p responses now clock reads left d e run in
      record {
        receive = after.receive;
        response = after.response;
        rx_len = after.rx_len;
        writers = omega (arith, v.writers, kept.transmit_data_put_sem, kept.transmit_frames);
        transmit = omega (
          arith,
          v.transmit,
          ap length kept.transmit_list,
          kept.transmit_data_put_sem,
          kept.transmit_frames,
        );
      }

  sound_keeping : QueueKeeping p
  sound_keeping = record {
    base = record {
      Rel = KeepsSound tokens;
      quiet = quiet-IsSound tokens;
      trans = λ a b c h k v. k (h v);
      take_response = take_response-IsSound;
      empty_responses = empty_responses-IsSound;
    };
    append = append_transmit-IsSound;
    granted = write_granted-IsSound;
    done = complete-IsSound;
    drop = drop_head-IsSound;
    received = read_serial_data-IsSound;
  }

  -- The bounds hold in every state that is reached.
  pub Reach-IsSound :
      (w w' : Worker) → Reach p w w' → IsSound tokens w.driver → IsSound tokens w'.driver
  unfolding sound_keeping
  Reach-IsSound w w' steps v = Reach-Rel p sound_keeping w w' steps v
