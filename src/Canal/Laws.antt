-- ===== src/Canal/Laws.antt =====
-- `CanalOpen` and `CanalClose` of src/linux/vscpl1drv-can4vscp.cpp, with the handle table.
use vscpl1drv_can4vscp.Prelude.{
  ℕ, ◌<◌, ◌≡◌, ◌≢◌, ◌==◌, ◌∙◌, ◌⊎◌, ==_iff, refl, sym, ap, subst, inl, inr, true, false, Option,
  none, some, if◌then◌else◌,
}
use vscpl1drv_can4vscp.Platform.{Platform}
use vscpl1drv_can4vscp.Driver.{Driver, ok, ◌>>=◌, Code, success}
use vscpl1drv_can4vscp.Driver.Outcome.{OnOk, OnOk-ok, bind-OnOk, if-OnOk, run-OnOk}
use vscpl1drv_can4vscp.Config.{Level}
use vscpl1drv_can4vscp.Config.Text.{Bytes}
use vscpl1drv_can4vscp.Commands.{deadline_of}
use vscpl1drv_can4vscp.Commands.Waiting.{Expires}
use vscpl1drv_can4vscp.Session.Close.{Closing, close, cleanup, destruct}
use vscpl1drv_can4vscp.Session.Open.{Opening, Session, can4vscp_open}
use vscpl1drv_can4vscp.Session.Outcome.{Result, OpeningKeeps, can4vscp_open-Result}
use vscpl1drv_can4vscp.Session.Closed.{close_lem}
use vscpl1drv_can4vscp.Handles.{
  ℤ, pos, Table, add_driver_object, get_driver_object, remove_driver_object, index,
}
use vscpl1drv_can4vscp.Handles.Laws.{add_driver_object_lem, remove_driver_object_lem}
use vscpl1drv_can4vscp.Canal.{
  new_session, enter, enter_opened, canal_open, close_found, canal_close,
}

-- No handle, and the table as it was, or a handle that had no object and gives one that is
-- running and open, with the other handles as they were.
abbrev pub Handed : Table → Table × ℕ → Type 0
Handed t r =
    ((r.1 ≡ 0) × (r.0 ≡ t))
    ⊎ ((d : Driver) × (get_driver_object t (pos r.1) ≡ none)
        × (get_driver_object r.0 (pos r.1) ≡ some d)
        × (d.running ≡ true)
        × (d.opened ≡ true)
        × ((k : ℤ) → k ≢ pos r.1 → get_driver_object r.0 k ≡ get_driver_object t k))

no_object_at_zero : (t : Table) → get_driver_object t (pos 0) ≡ none
unfolding get_driver_object index
no_object_at_zero t = refl

enter-Handed :
    (p : Platform) (deleting : Closing) (t : Table) (d : Driver)
    → d.running ≡ true
    → d.opened ≡ true
    → OnOk (Handed t) (enter p deleting t d)
unfolding enter
enter-Handed p deleting t d runs opens = on (add_driver_object d t) (add_driver_object_lem d t)
  where
    on :
        (r : Table × ℕ)
        → ((r.1 ≡ 0) × (r.0 ≡ t) × ((i : ℕ) → i < 256 → t i ≢ none))
          ⊎ ((get_driver_object t (pos r.1) ≡ none)
              × (get_driver_object r.0 (pos r.1) ≡ some d)
              × ((k : ℤ) → k ≢ pos r.1 → get_driver_object r.0 k ≡ get_driver_object t k))
        → OnOk
            (Handed t)
            (if r.1 == 0 then destruct p deleting d >>= (λ gone. ok (r.0, 0)) else ok r)
    on r (inl (zero, same, full)) =
        if-OnOk (Handed t) (r.1 == 0) _ _
          (λ e. run-OnOk (Handed t) (destruct p deleting d) (r.0, 0) (inl (refl, same)))
          (λ e. inl (zero, same))
    on r (inr (before, after, others)) =
        if-OnOk (Handed t) (r.1 == 0) _ _
          (λ e.
            let at_zero : get_driver_object r.0 (pos 0) ≡ some d =
              subst (λ n. get_driver_object r.0 (pos n) ≡ some d) ((==_iff r.1 0).0 e) after in
            let bad : none ≡ some d = sym (no_object_at_zero r.0) ∙ at_zero in absurd (cc))
          (λ e. inr (d, before, after, runs, opens, others))

enter_opened-Handed :
    (p : Platform) (o : Opening) (deleting : Closing) (t : Table) (r : Session × Code)
    → Result o r
    → OnOk (Handed t) (enter_opened p deleting t r)
enter_opened-Handed p o deleting t r (inl (e, runs, opens)) =
    subst (λ c. OnOk (Handed t) (enter_opened p deleting t (r.0, c))) (sym e)
      (enter-Handed p deleting t r.0.driver runs opens)
enter_opened-Handed p o deleting t r (inr (e, stopped, not_open, why)) =
    subst (λ c. OnOk (Handed t) (enter_opened p deleting t (r.0, c))) (sym e)
      (run-OnOk (Handed t) (destruct p deleting r.0.driver) (t, 0) (inl (refl, refl)))

-- Where CanalOpen of a new object returns, it either returns 0 and leaves the table as it was, or
-- returns a handle that had no object and now gives one that is running and open; every other
-- handle gives what it gave. The new object is neither running nor open, and the other threads
-- leave the three flags alone while open waits.
pub canal_open_lem :
    (p : Platform) (o : Opening) (deleting : Closing) (level : Level) (d : Driver)
    (device : Option Bytes) (flags h : ℕ) (t t' : Table)
    → OpeningKeeps o
    → d.running ≡ false
    → d.opened ≡ false
    → canal_open p o deleting level d device flags t ≡ ok (t', h)
    → ((h ≡ 0) × (t' ≡ t))
      ⊎ ((d' : Driver) × (get_driver_object t (pos h) ≡ none)
          × (get_driver_object t' (pos h) ≡ some d')
          × (d'.running ≡ true)
          × (d'.opened ≡ true)
          × ((k : ℤ) → k ≢ pos h → get_driver_object t' k ≡ get_driver_object t k))
unfolding canal_open
canal_open_lem p o deleting level d device flags h t t' k stopped not_open e =
    OnOk-ok (Handed t) (canal_open p o deleting level d device flags t) (t', h)
      (bind-OnOk (Result o) (Handed t) (can4vscp_open p o device flags (new_session d level))
        (enter_opened p deleting t)
        (can4vscp_open-Result p o device flags (new_session d level) k stopped not_open)
        (λ r result. enter_opened-Handed p o deleting t r result))
      e

destruct-stopped :
    (p : Platform) (c : Closing) (d : Driver)
    → d.running ≡ false
    → destruct p c d ≡ ok (cleanup p d)
unfolding destruct
destruct-stopped p c d stopped =
    ap (λ b. if b then close p c d >>= (λ r. ok (cleanup p r.0)) else ok (cleanup p d)) stopped

-- CanalClose of a handle with a running object returns success, after which the handle gives no
-- object and every other handle gives what it gave. The clock reaches the deadline of the wait for
-- the answer at one of the polls, and the threads leave the flags of the object alone until they
-- end.
pub canal_close_lem :
    (p : Platform) (c deleting : Closing) (h : ℤ) (t : Table) (d : Driver)
    → get_driver_object t h ≡ some d
    → d.running ≡ true
    → ((e : Driver) → (c.joined e).running ≡ e.running)
    → ((e : Driver) → (c.joined e).opened ≡ e.opened)
    → Expires (deadline_of c.wait.start 1000) c.wait.polls
    → (t' : Table) × (canal_close p c deleting h t ≡ ok (t', success))
      × (get_driver_object t' h ≡ none)
      × ((k : ℤ) → k ≢ h → get_driver_object t' k ≡ get_driver_object t k)
unfolding canal_close
canal_close_lem p c deleting h t d found runs keeps_running keeps_opened expires =
    let (r, closed, stopped, not_open, port, again) =
      close_lem p c d runs keeps_running keeps_opened expires in
    let (gone, others) = remove_driver_object_lem h t in
    (
      remove_driver_object h t,
      ap (close_found p c deleting h t) found
          ∙ ap
              (λ x.
                x >>= λ y. destruct p deleting y.0 >>= λ z. ok (remove_driver_object h t, success))
              closed
          ∙ ap (λ x. x >>= λ z. ok (remove_driver_object h t, success))
              (destruct-stopped p deleting r stopped),
      gone,
      others,
    )
