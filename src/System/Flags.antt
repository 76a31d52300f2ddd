-- ===== src/System/Flags.antt =====
-- No thread of src/common/can4vscpobj.cpp changes `m_bRun`, `m_bOpen` or `m_bStrict`.
use vscpl1drv_can4vscp.Prelude.{refl}
use vscpl1drv_can4vscp.Platform.{Platform, IsFifo}
use vscpl1drv_can4vscp.Session.Flags.{Same, flags_keeping}
use vscpl1drv_can4vscp.Receive.Untouched.{read_serial_data_lem}
use vscpl1drv_can4vscp.Queues.{drop_head}
use vscpl1drv_can4vscp.Transmit.Worker.{Worker, complete}
use vscpl1drv_can4vscp.System.{Reach}
use vscpl1drv_can4vscp.System.Keeping.{QueueKeeping}
use vscpl1drv_can4vscp.System.Steps.{Reach-Rel}

abbrev queue_flags : (p : Platform) → IsFifo p.responses → QueueKeeping p
unfolding complete drop_head
queue_flags p responses = record {
  base = flags_keeping p;
  append = λ m d room. (refl, refl, refl);
  granted = λ m d token. (refl, refl, refl);
  done = λ m ms d e. (refl, refl, refl);
  drop = λ m ms d e. (refl, refl, refl);
  received = λ now clock reads left d e run.
      let kept = read_serial_data_lem p responses now clock reads left d e run in
      (kept.running, kept.opened, kept.strict);
}

-- No step of the threads changes the three flags of the session.
pub Reach-Same :
    (p : Platform) → IsFifo p.responses → (w w' : Worker) → Reach p w w' → Same w.driver w'.driver
unfolding queue_flags
Reach-Same p responses w w' steps = Reach-Rel p (queue_flags p responses) w w' steps
