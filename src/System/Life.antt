-- ===== src/System/Life.antt =====
-- The life of a driver object of src/common/can4vscpobj.cpp behind the CANAL functions of
-- src/linux/vscpl1drv-can4vscp.cpp: it is opened, the threads work on it, and it is closed.
use vscpl1drv_can4vscp.Prelude.{
  ℕ, ◌<◌, ◌≤◌, ◌≡◌, ◌≢◌, ◌==◌, ◌∙◌, inl, inr, refl, sym, ap, true, false, Option, Option-cases,
  Bool-cases, none, some, length,
}
use vscpl1drv_can4vscp.Platform.{Platform, IsFifo}
use vscpl1drv_can4vscp.Driver.{
  Driver, ok, ◌>>=◌, Code, success, parameter, not_open, fifo_full, fifo_empty, timeout, generic,
  init_fail,
}
use vscpl1drv_can4vscp.Driver.Outcome.{
  total, if-ne-starved, if-ne-fault, bind-ne-starved, bind-ne-fault, ok-ne-fault,
}
use vscpl1drv_can4vscp.Commands.{deadline_of}
use vscpl1drv_can4vscp.Commands.Waiting.{Expires}
use vscpl1drv_can4vscp.Config.{Level}
use vscpl1drv_can4vscp.Config.Text.{Bytes}
use vscpl1drv_can4vscp.Session.Close.{Closing, close, destruct}
use vscpl1drv_can4vscp.Session.Open.{Opening, Session, config_text, path_max}
use vscpl1drv_can4vscp.Session.Returns.{OpeningExpires, close-ne-starved}
use vscpl1drv_can4vscp.Session.Total.{can4vscp_open-returns, close-ne-fault}
use vscpl1drv_can4vscp.Handles.{
  ℤ, pos, Table, index, object_at, put_at, get_driver_object, add_driver_object,
}
use vscpl1drv_can4vscp.Handles.Laws.{object_at-put_at, object_at-put_at_other}
use vscpl1drv_can4vscp.Canal.{new_session, enter, enter_opened, canal_open, canal_close}
use vscpl1drv_can4vscp.Canal.Laws.{canal_open_lem, canal_close_lem}
use vscpl1drv_can4vscp.Transmit.Worker.{Worker}
use vscpl1drv_can4vscp.System.{Reach}
use vscpl1drv_can4vscp.System.Flags.{Reach-Same}
use vscpl1drv_can4vscp.System.Busy.{
  OpeningBusy, ClosingBusy, Busy-Keeps, AllBusy-KeepWhole, OpeningBusy-OpeningKeeps,
}

destruct-returns :
    (p : Platform) (c : Closing) (d : Driver)
    → Expires (deadline_of c.wait.start 1000) c.wait.polls
    → (e : Driver) × (destruct p c d ≡ ok e)
unfolding destruct
destruct-returns p c d expires =
    total (destruct p c d)
      (if-ne-fault d.running _ _
        (bind-ne-fault (close p c d) _ (close-ne-fault p c d) (λ r. ok-ne-fault _)) (ok-ne-fault _))
      (if-ne-starved d.running _ _
        (bind-ne-starved (close p c d) _ (close-ne-starved p c d expires) (λ r e. cc)) (λ e. cc))

-- A run of a destructor and the result behind it.
deleted :
    {A : Type 0} (p : Platform) (c : Closing) (d : Driver) (a : A)
    → Expires (deadline_of c.wait.start 1000) c.wait.polls
    → (destruct p c d >>= λ gone. ok a) ≡ ok a
deleted p c d a expires =
    let (e, run) = destruct-returns p c d expires in ap (λ r. r >>= λ gone. ok a) run

module _ (p : Platform) (deleting : Closing) (t : Table)
    (expires : Expires (deadline_of deleting.wait.start 1000) deleting.wait.polls) where
  enter-returns : (d : Driver) → (r : Table × ℕ) × (enter p deleting t d ≡ ok r)
  unfolding enter
  enter-returns d =
      let added = add_driver_object d t in
      elim (Bool-cases (added.1 == 0)) [
        | inl full ↦ ((added.0, 0), rw full (deleted p deleting d (added.0, 0) expires))
        | inr room ↦ (added, rw room refl)
      ]

  enter_opened-returns :
      (s : Session) (c : Code) → (r : Table × ℕ) × (enter_opened p deleting t (s, c) ≡ ok r)
  enter_opened-returns s success = enter-returns s.driver
  enter_opened-returns s parameter = ((t, 0), deleted p deleting s.driver (t, 0) expires)
  enter_opened-returns s not_open = ((t, 0), deleted p deleting s.driver (t, 0) expires)
  enter_opened-returns s fifo_full = ((t, 0), deleted p deleting s.driver (t, 0) expires)
  enter_opened-returns s fifo_empty = ((t, 0), deleted p deleting s.driver (t, 0) expires)
  enter_opened-returns s timeout = ((t, 0), deleted p deleting s.driver (t, 0) expires)
  enter_opened-returns s generic = ((t, 0), deleted p deleting s.driver (t, 0) expires)
  enter_opened-returns s init_fail = ((t, 0), deleted p deleting s.driver (t, 0) expires)

-- CanalOpen returns, with or without strict mode and whatever the device answers, and reads nothing
-- outside an array: what happens in the waits of open is a sequence of steps of the threads, the
-- configuration string is shorter than PATH_MAX, a response with capabilities has at least four
-- bytes by its code, the clock reaches the deadline of each wait at one of the polls, and the list
-- keeps the order of its nodes.
pub canal_open-returns :
    (p : Platform) (o : Opening) (deleting : Closing) (level : Level) (d : Driver)
    (device : Option Bytes) (flags : ℕ) (t : Table)
    → 4 ≤ p.caps_size
    → IsFifo p.responses
    → OpeningBusy p o
    → OpeningExpires o
    → Expires (deadline_of deleting.wait.start 1000) deleting.wait.polls
    → length (config_text device) < path_max
    → (r : Table × ℕ) × (canal_open p o deleting level d device flags t ≡ ok r)
unfolding canal_open
canal_open-returns p o deleting level d device flags t four fifo busy expires expires' short =
    let (r, run) =
      can4vscp_open-returns p four fifo o (AllBusy-KeepWhole p fifo o.caps_wait.polls busy.1) device
        flags (new_session d level) short expires in
    let (out, entered) = enter_opened-returns p deleting t expires' r.0 r.1 in
    (out, ap (λ x. x >>= enter_opened p deleting t) run ∙ entered)

-- The table in which the object of a handle has come to `d`.
abbrev pub object_now : ℤ → Driver → Table → Table
object_now h d t = put_at t (index h) (some d)

object_now-own :
    (t : Table) (h : ℤ) (e d : Driver)
    → get_driver_object t h ≡ some e
    → get_driver_object (object_now h d t) h ≡ some d
unfolding get_driver_object
object_now-own t h e d found = elim (Option-cases (index h)) [
  | inl out ↦ let bad : none ≡ some e = sym (ap (object_at t) out) ∙ found in cc
  | inr (i, at) ↦ object_at-put_at t h i (some d) at
]

object_now-other :
    (t : Table) (h k : ℤ) (d : Driver)
    → k ≢ h
    → get_driver_object (object_now h d t) k ≡ get_driver_object t k
unfolding get_driver_object
object_now-other t h k d away = object_at-put_at_other t h k (some d) away

-- A handle that CanalOpen has returned for a new object is closed by CanalClose with success
-- whatever the threads do to its object between (any sequence of their steps): then the handle
-- gives no object, and every other handle gives what it gave before CanalOpen. What happens in the
-- waits of open and close is itself a sequence of steps of the threads, the clock reaches the
-- deadline of the wait for the answer to CLOSE at one of the polls, the new object is neither
-- running nor open, and the list keeps the order of its nodes.
pub life_lem :
    (p : Platform) (o : Opening) (deleting c deleting' : Closing) (level : Level) (d : Driver)
    (device : Option Bytes) (flags h : ℕ) (t t' : Table)
    → IsFifo p.responses
    → OpeningBusy p o
    → d.running ≡ false
    → d.opened ≡ false
    → canal_open p o deleting level d device flags t ≡ ok (t', h)
    → h ≢ 0
    → ClosingBusy p c
    → Expires (deadline_of c.wait.start 1000) c.wait.polls
    → (w w' : Worker) → get_driver_object t' (pos h) ≡ some w.driver
    → Reach p w w'
    → (left : Table) × (canal_close p c deleting' (pos h) (object_now (pos h) w'.driver t')
        ≡ ok (left, success))
      × (get_driver_object left (pos h) ≡ none)
      × ((k : ℤ) → k ≢ pos h → get_driver_object left k ≡ get_driver_object t k)
life_lem p o deleting c deleting' level d device flags h t t' fifo busy stopped closed_yet opened
      some_handle closing expires w w' has steps =
    elim (canal_open_lem p o deleting level d device flags h t t'
      (OpeningBusy-OpeningKeeps p fifo o busy) stopped closed_yet opened) [
        | inl (zero, same) ↦ absurd (some_handle zero)
        | inr (d', before, after, runs, opens, others) ↦
            let same : d' ≡ w.driver =
              ap (λ x. elim x [ none ↦ d' | some e ↦ e ]) (sym after ∙ has) in
            let runs' : w'.driver.running ≡ true =
              (Reach-Same p fifo w w' steps).0 ∙ sym (ap (λ e. e.running) same) ∙ runs in
            let keeps = Busy-Keeps p fifo c.joined closing.1 in
            let (left, closed, gone, rest) =
              canal_close_lem p c deleting' (pos h) (object_now (pos h) w'.driver t') w'.driver
                (object_now-own t' (pos h) w.driver w'.driver has) runs' (λ e. (keeps e).0)
                (λ e. (keeps e).1) expires in
            (
              left,
              closed,
              gone,
              λ k away. rest k away ∙ object_now-other t' (pos h) k w'.driver away ∙ others k away,
            )
      ]
