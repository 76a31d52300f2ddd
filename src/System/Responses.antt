-- ===== src/System/Responses.antt =====
-- The response queue of src/common/can4vscpobj.cpp over the steps of the threads: no response says
-- that it has the bytes of the capabilities and has not.
use vscpl1drv_can4vscp.Prelude.{◌≡◌, ap, sym, subst, ◌∙◌, List, ◌∷◌}
use vscpl1drv_can4vscp.Platform.{Platform, Response, IsFifo}
use vscpl1drv_can4vscp.Driver.{Driver}
use vscpl1drv_can4vscp.Receive.Stored.{Whole}
use vscpl1drv_can4vscp.Receive.Untouched.{read_serial_data_lem}
use vscpl1drv_can4vscp.Queues.{drop_head}
use vscpl1drv_can4vscp.Transmit.Worker.{Worker, complete}
use vscpl1drv_can4vscp.System.{Reach}
use vscpl1drv_can4vscp.System.Keeping.{QueueKeeping}
use vscpl1drv_can4vscp.System.Steps.{Reach-Rel}

abbrev KeepsWhole : Driver → Driver → Type 0
KeepsWhole d e = Whole d.response_list → Whole e.response_list

module _ (p : Platform) (responses : IsFifo p.responses) where
  take_response-Whole :
      (d : Driver) (r : Response) (rs : List Response)
      → d.response_list ≡ r ∷ rs
      → KeepsWhole d (record d { response_list = p.responses.remove_head d.response_list })
  take_response-Whole d r rs e w =
      let left = ap p.responses.remove_head e ∙ responses.remove_head_lem r rs in
      subst Whole (sym left) (subst Whole e w).1

  whole_keeping : QueueKeeping p
  unfolding complete drop_head
  whole_keeping = record {
    base = record {
      Rel = KeepsWhole;
      quiet = λ d e q w. subst Whole (sym q.response_list) w;
      trans = λ a b c h k w. k (h w);
      take_response = take_response-Whole;
      empty_responses =
          λ d w. subst Whole (sym (responses.remove_all_nodes_lem d.response_list)) tt;
    };
    append = λ m d room w. w;
    granted = λ m d token w. w;
    done = λ m ms d e w. w;
    drop = λ m ms d e w. w;
    received = λ now clock reads left d e run.
        (read_serial_data_lem p responses now clock reads left d e run).whole;
  }

  -- The steps of the threads keep the responses whole.
  pub Reach-Whole :
      (w w' : Worker) → Reach p w w' → Whole w.driver.response_list → Whole w'.driver.response_list
  unfolding whole_keeping
  Reach-Whole w w' steps v = Reach-Rel p whole_keeping w w' steps v
