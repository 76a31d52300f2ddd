-- ===== src/System/Busy.antt =====
-- The steps of the threads of src/common/can4vscpobj.cpp as what happens in the waits of `open` and
-- `close`.
use vscpl1drv_can4vscp.Prelude.{◌≡◌, ◌∙◌, sym, ap, subst, List, [], ◌∷◌}
use vscpl1drv_can4vscp.Platform.{Platform, IsFifo}
use vscpl1drv_can4vscp.Driver.{Driver}
use vscpl1drv_can4vscp.Receive.Stored.{Whole}
use vscpl1drv_can4vscp.Commands.{Poll}
use vscpl1drv_can4vscp.Session.Close.{Closing}
use vscpl1drv_can4vscp.Session.Open.{Opening, Attempt}
use vscpl1drv_can4vscp.Session.Flags.{Keeps, AllKeep, AllTriesKeep}
use vscpl1drv_can4vscp.Session.Outcome.{OpeningKeeps}
use vscpl1drv_can4vscp.Session.Whole.{KeepWhole}
use vscpl1drv_can4vscp.Transmit.Worker.{Worker}
use vscpl1drv_can4vscp.System.{Reach}
use vscpl1drv_can4vscp.System.Flags.{Reach-Same}
use vscpl1drv_can4vscp.System.Responses.{Reach-Whole}

-- What happens to the object during a wait is a sequence of steps of the threads.
abbrev pub Busy : Platform → (Driver → Driver) → Type 0
Busy p f = (d : Driver) → (w w' : Worker) × Reach p w w' × (w.driver ≡ d) × (w'.driver ≡ f d)

abbrev pub AllBusy : Platform → List Poll → Type 0
AllBusy p [] = Unit {0}
AllBusy p (q ∷ qs) = Busy p q.others × AllBusy p qs

abbrev pub AllTriesBusy : Platform → List Attempt → Type 0
AllTriesBusy p [] = Unit {0}
AllTriesBusy p (a ∷ rest) = AllBusy p a.wait.polls × Busy p a.sleep × AllTriesBusy p rest

abbrev pub ClosingBusy : Platform → Closing → Type 0
ClosingBusy p c = AllBusy p c.wait.polls × Busy p c.joined

abbrev pub OpeningBusy : Platform → Opening → Type 0
OpeningBusy p o =
    AllTriesBusy p (o.first ∷ o.second ∷ o.third ∷ [])
    × AllBusy p o.caps_wait.polls
    × AllBusy p o.timestamp_wait.polls
    × AllBusy p o.baudrate_wait.polls
    × AllBusy p o.mode_wait.polls
    × ClosingBusy p o.closing

module _ (p : Platform) (responses : IsFifo p.responses) where
  pub Busy-Keeps : (f : Driver → Driver) → Busy p f → Keeps f
  Busy-Keeps f busy d =
      let (w, w', steps, from, to) = busy d in
      let (runs, opens, strict) = Reach-Same p responses w w' steps in
      (
        sym (ap (λ e. e.running) to) ∙ runs ∙ ap (λ e. e.running) from,
        sym (ap (λ e. e.opened) to) ∙ opens ∙ ap (λ e. e.opened) from,
        sym (ap (λ e. e.strict) to) ∙ strict ∙ ap (λ e. e.strict) from,
      )

  AllBusy-AllKeep : (qs : List Poll) → AllBusy p qs → AllKeep qs
  AllBusy-AllKeep [] k = tt
  AllBusy-AllKeep (q ∷ qs) k = (Busy-Keeps q.others k.0, AllBusy-AllKeep qs k.1)

  pub AllBusy-KeepWhole : (qs : List Poll) → AllBusy p qs → KeepWhole qs
  AllBusy-KeepWhole [] k = tt
  AllBusy-KeepWhole (q ∷ qs) k = (
    λ d w.
        let (a, b, steps, from, to) = k.0 d in
        subst (λ e. Whole e.response_list) to
          (Reach-Whole p responses a b steps (subst (λ e. Whole e.response_list) (sym from) w)),
    AllBusy-KeepWhole qs k.1,
  )

  AllTriesBusy-AllTriesKeep : (tries : List Attempt) → AllTriesBusy p tries → AllTriesKeep tries
  AllTriesBusy-AllTriesKeep [] k = tt
  AllTriesBusy-AllTriesKeep (a ∷ rest) k =
      (AllBusy-AllKeep a.wait.polls k.0, Busy-Keeps a.sleep k.1, AllTriesBusy-AllTriesKeep rest k.2)

  -- The steps of the threads are what the theorems on `open` ask of the waits.
  pub OpeningBusy-OpeningKeeps : (o : Opening) → OpeningBusy p o → OpeningKeeps o
  OpeningBusy-OpeningKeeps o k = (
    AllTriesBusy-AllTriesKeep (o.first ∷ o.second ∷ o.third ∷ []) k.0,
    AllBusy-AllKeep o.caps_wait.polls k.1,
    AllBusy-AllKeep o.timestamp_wait.polls k.2,
    AllBusy-AllKeep o.baudrate_wait.polls k.3,
    AllBusy-AllKeep o.mode_wait.polls k.4,
    (AllBusy-AllKeep o.closing.wait.polls k.5.0, Busy-Keeps o.closing.joined k.5.1),
  )
