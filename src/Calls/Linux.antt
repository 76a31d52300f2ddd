-- ===== src/Calls/Linux.antt =====
-- The handles of src/linux/vscpl1drv-can4vscp.cpp as a table of objects.
use vscpl1drv_can4vscp.Prelude.{◌≡◌, ◌≢◌, sym, ap, ◌∙◌, Option, none, Option-cases, inl, inr, List}
use vscpl1drv_can4vscp.Platform.{Platform}
use vscpl1drv_can4vscp.Driver.{Driver, ok}
use vscpl1drv_can4vscp.Driver.Outcome.{bind-ok, ok-injective}
use vscpl1drv_can4vscp.Handles.{ℤ, Table, index, object_at, put_at, get_driver_object}
use vscpl1drv_can4vscp.Handles.Laws.{object_at-put_at, object_at-put_at_other}
use vscpl1drv_can4vscp.Calls.{
  Op, send, blocking_send, receive, blocking_receive, count_waiting, status, statistics, filter,
  mask, close_handle, Reply, linux_op, Call, linux_call, linux_run, run_calls,
}
use vscpl1drv_can4vscp.Calls.Objects.{object_op, put_back}
use vscpl1drv_can4vscp.Calls.Refines.{linux_op-object_op}
use vscpl1drv_can4vscp.Calls.Isolation.{ObjectTable, ops_of, replies_of, own_calls}

-- Without an object, every operation leaves none.
no_object :
    (p : Platform) (op : Op) (r : Option Driver × Reply) → object_op p op none ≡ ok r → r.0 ≡ none
unfolding object_op
no_object p (send m) r e = ap (λ x. x.0) (sym (ok-injective _ r e))
no_object p (blocking_send wait meanwhile m) r e = ap (λ x. x.0) (sym (ok-injective _ r e))
no_object p (receive null) r e = ap (λ x. x.0) (sym (ok-injective _ r e))
no_object p (blocking_receive wait meanwhile null) r e = ap (λ x. x.0) (sym (ok-injective _ r e))
no_object p count_waiting r e = ap (λ x. x.0) (sym (ok-injective _ r e))
no_object p (status null) r e = ap (λ x. x.0) (sym (ok-injective _ r e))
no_object p (statistics null) r e = ap (λ x. x.0) (sym (ok-injective _ r e))
no_object p (filter n) r e = ap (λ x. x.0) (sym (ok-injective _ r e))
no_object p (mask n) r e = ap (λ x. x.0) (sym (ok-injective _ r e))
no_object p (close_handle c deleting) r e = ap (λ x. x.0) (sym (ok-injective _ r e))

put_back-own :
    (p : Platform) (op : Op) (h : ℤ) (t : Table) (r : Option Driver × Reply)
    → object_op p op (get_driver_object t h) ≡ ok r
    → get_driver_object (put_at t (index h) r.0) h ≡ r.0
unfolding get_driver_object
put_back-own p op h t r e = elim (Option-cases (index h)) [
  | inl out ↦
      let absent : object_at t (index h) ≡ none = ap (object_at t) out in
      let gone = no_object p op r (sym (ap (object_op p op) absent) ∙ e) in
      ap (λ x. object_at (put_at t x r.0) x) out ∙ sym gone
  | inr (i, at) ↦ object_at-put_at t h i r.0 at
]

linux_op-own :
    (p : Platform) (op : Op) (h : ℤ) (t t' : Table) (r : Reply)
    → linux_op p op h t ≡ ok (t', r)
    → object_op p op (get_driver_object t h) ≡ ok (get_driver_object t' h, r)
linux_op-own p op h t t' r e =
    let (o, ran, put) =
      bind-ok (object_op p op (get_driver_object t h)) _ (t', r)
        (sym (linux_op-object_op p op h t) ∙ e) in
    let same = ok-injective (put_back h t o) (t', r) put in
    let own = put_back-own p op h t o ran in
    ran ∙ ap (λ x. ok (x, o.1)) (sym own) ∙ ap (λ x. ok (get_driver_object x.0 h, x.1)) same

linux_op-other :
    (p : Platform) (op : Op) (h : ℤ) (t t' : Table) (r : Reply) (k : ℤ)
    → linux_op p op h t ≡ ok (t', r)
    → k ≢ h
    → get_driver_object t' k ≡ get_driver_object t k
unfolding get_driver_object
linux_op-other p op h t t' r k e away =
    let (o, ran, put) =
      bind-ok (object_op p op (get_driver_object t h)) _ (t', r)
        (sym (linux_op-object_op p op h t) ∙ e) in
    let same = ok-injective (put_back h t o) (t', r) put in
    sym (ap (λ x. object_at x.0 (index k)) same) ∙ object_at-put_at_other t h k o.0 away

abbrev linux_objects : (p : Platform) → ObjectTable p
linux_objects p = record {
  State = Table;
  find = get_driver_object;
  call = linux_call p;
  call_own = λ c t t' r e. linux_op-own p c.op c.handle t t' r e;
  call_other = λ c t t' r k e away. linux_op-other p c.op c.handle t t' r k e away;
}

-- Where calls of the CANAL functions through any handles, in any order, return, what is replied to
-- the calls through one handle, and the object that the handle has at the end, are those of these
-- calls alone on the object that it had at first, or on none.
pub linux_run-own :
    (p : Platform) (h : ℤ) (cs : List Call) (t t' : Table) (rs : List Reply)
    → linux_run p cs t ≡ ok (t', rs)
    → run_calls (object_op p) (ops_of h cs) (get_driver_object t h)
      ≡ ok (get_driver_object t' h, replies_of h cs rs)
linux_run-own p h cs t t' rs e = own_calls p (linux_objects p) h cs t t' rs e
