-- ===== src/System/Ledger.antt =====
-- The transmit queue of src/common/can4vscpobj.cpp over the steps of the threads: what leaves it is
-- counted, in the order of the queue.
use vscpl1drv_can4vscp.Prelude.{
  ℕ, ◌+◌, ◌-◌, ◌≡◌, refl, sym, ap, ◌∙◌, arith, List, [], ◌∷◌, ◌++◌, length, length-append,
  append-nil, append_assoc, ◌-◌,
}
use vscpl1drv_can4vscp.Message.{CanalMsg}
use vscpl1drv_can4vscp.Platform.{Platform, IsFifo}
use vscpl1drv_can4vscp.Driver.{Driver}
use vscpl1drv_can4vscp.Receive.Untouched.{read_serial_data_lem}
use vscpl1drv_can4vscp.Queues.{append_transmit, drop_head}
use vscpl1drv_can4vscp.Transmit.Worker.{Worker, complete}
use vscpl1drv_can4vscp.System.{Reach}
use vscpl1drv_can4vscp.System.Keeping.{QueueKeeping}
use vscpl1drv_can4vscp.System.Steps.{Reach-Rel}

-- The data bytes of messages.
unfoldable pub total_size : List CanalMsg → ℕ
total_size [] = 0
total_size (m ∷ ms) = m.size_data + total_size ms

total_size-append : (xs ys : List CanalMsg) → total_size (xs ++ ys) ≡ total_size xs + total_size ys
unfolding total_size
total_size-append [] ys = omega arith
total_size-append (x ∷ xs) ys = omega (arith, total_size-append xs ys)

-- Behind the queue of `d` came the messages `added`, and from the head went the messages `sent`,
-- which are counted.
pub record IsLedger (d e : Driver) (added sent : List CanalMsg) : Type 0 where
  pub queue : d.transmit_list ++ added ≡ sent ++ e.transmit_list
  pub frames : e.stat.transmit_frames ≡ d.stat.transmit_frames + length sent
  pub data_bytes : e.stat.transmit_data ≡ d.stat.transmit_data + total_size sent

abbrev Ledger : Driver → Driver → Type 0
Ledger d e = (added sent : List CanalMsg) × IsLedger d e added sent

-- Where the transmit queue and its counters are the same.
same-Ledger :
    (d e : Driver)
    → e.transmit_list ≡ d.transmit_list
    → e.stat.transmit_frames ≡ d.stat.transmit_frames
    → e.stat.transmit_data ≡ d.stat.transmit_data
    → Ledger d e
unfolding total_size
same-Ledger d e queue frames bytes = (
  [],
  [],
  record {
    queue = append-nil d.transmit_list ∙ sym queue;
    frames = omega (arith, frames);
    data_bytes = omega (arith, bytes);
  },
)

IsLedger-trans :
    (a b c : Driver) (a₁ a₂ s₁ s₂ : List CanalMsg)
    → IsLedger a b a₁ s₁
    → IsLedger b c a₂ s₂
    → IsLedger a c (a₁ ++ a₂) (s₁ ++ s₂)
IsLedger-trans a b c a₁ a₂ s₁ s₂ h k = record {
  queue =
      sym (append_assoc a.transmit_list a₁ a₂)
      ∙ ap (λ q. q ++ a₂) h.queue
      ∙ append_assoc s₁ b.transmit_list a₂
      ∙ ap (λ q. s₁ ++ q) k.queue
      ∙ sym (append_assoc s₁ s₂ c.transmit_list);
  frames = omega (arith, h.frames, k.frames, length-append {0} s₁ s₂);
  data_bytes = omega (arith, h.data_bytes, k.data_bytes, total_size-append s₁ s₂);
}

module _ (p : Platform) (messages : IsFifo p.messages) (responses : IsFifo p.responses) where
  append-Ledger :
      (m : CanalMsg) (d : Driver) (tokens : ℕ)
      → Ledger d (append_transmit p m (record d { transmit_data_put_sem = tokens }))
  unfolding total_size
  append-Ledger m d tokens = (
    m ∷ [],
    [],
    record {
      queue = sym (messages.add_node_lem d.transmit_list m);
      frames = omega arith;
      data_bytes = omega arith;
    },
  )

  done-Ledger :
      (m : CanalMsg) (ms : List CanalMsg) (d : Driver)
      → d.transmit_list ≡ m ∷ ms
      → Ledger d (complete p m d)
  unfolding complete total_size
  done-Ledger m ms d e = (
    [],
    m ∷ [],
    record {
      queue =
          append-nil d.transmit_list
          ∙ e
          ∙ ap (λ q. m ∷ q) (sym (ap p.messages.remove_head e ∙ messages.remove_head_lem m ms));
      frames = omega arith;
      data_bytes = omega arith;
    },
  )

  ledger_keeping : QueueKeeping p
  unfolding drop_head
  ledger_keeping = record {
    base = record {
      Rel = Ledger;
      quiet = λ d e q. same-Ledger d e q.transmit_list q.transmit_frames q.transmit_data;
      trans = λ a b c h k. (h.0 ++ k.0, h.1 ++ k.1, IsLedger-trans a b c h.0 k.0 h.1 k.1 h.2 k.2);
      take_response = λ d r rs e.
          same-Ledger d (record d { response_list = p.responses.remove_head d.response_list }) refl
            refl refl;
      empty_responses = λ d.
          same-Ledger d (record d { response_list = p.responses.remove_all_nodes d.response_list })
            refl refl refl;
    };
    append = λ m d room. append-Ledger m d d.transmit_data_put_sem;
    granted = λ m d token. append-Ledger m d (d.transmit_data_put_sem - 1);
    done = done-Ledger;
    drop = λ m ms d e. same-Ledger d (drop_head p d) refl refl refl;
    received = λ now clock reads left d e run.
        let kept = read_serial_data_lem p responses now clock reads left d e run in
        same-Ledger d e kept.transmit_list kept.transmit_frames kept.transmit_data;
  }

-- Over every sequence of steps of the threads, the transmit queue is first in, first out: what was in
-- it at first and some messages behind are what went from its head and what is in it at the end, and
-- what went was counted. That the messages behind are those of the calls that report success, and
-- that those counted were written to the port, is not stated here.
pub Reach-Ledger :
    (p : Platform) (messages : IsFifo p.messages) (responses : IsFifo p.responses) (w w' : Worker)
    → Reach p w w'
    → (added sent : List CanalMsg) × IsLedger w.driver w'.driver added sent
unfolding ledger_keeping
Reach-Ledger p messages responses w w' steps =
    Reach-Rel p (ledger_keeping p messages responses) w w' steps
