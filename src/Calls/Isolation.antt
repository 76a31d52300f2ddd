-- ===== src/Calls/Isolation.antt =====
-- The calls through a handle, among the calls through every handle, for a table of objects of which
-- an interface says what one call does.
use vscpl1drv_can4vscp.Prelude.{
  ◌≡◌, ◌≢◌, refl, sym, ap, ◌∙◌, subst, true, false, Option, inl, inr, ==_iff, Bool-cases, ◌⊎◌, ◌==◌,
  List, [], ◌∷◌, if◌then◌else◌, arith,
}
use vscpl1drv_can4vscp.Platform.{Platform}
use vscpl1drv_can4vscp.Driver.{Driver, Run, ok, ◌>>=◌}
use vscpl1drv_can4vscp.Driver.Outcome.{bind-ok, ok-injective}
use vscpl1drv_can4vscp.Handles.{ℤ, pos, negsuc}
use vscpl1drv_can4vscp.Calls.{Op, Call, Reply, run_calls, same_handle}
use vscpl1drv_can4vscp.Calls.Objects.{object_op}

-- A table of objects: what it has under a handle, a call, and what the call does to the object of
-- its handle and to the others.
pub record ObjectTable (p : Platform) : Type 1 where
  pub State : Type 0
  pub find : State → ℤ → Option Driver
  pub call : Call → State → Run (State × Reply)
  pub call_own :
      (c : Call) (s s' : State) (r : Reply)
      → call c s ≡ ok (s', r)
      → object_op p c.op (find s c.handle) ≡ ok (find s' c.handle, r)
  pub call_other :
      (c : Call) (s s' : State) (r : Reply) (k : ℤ)
      → call c s ≡ ok (s', r)
      → k ≢ c.handle
      → find s' k ≡ find s k

-- What is called through a handle, and what is replied to it.
abbrev pub ops_of : ℤ → List Call → List Op
ops_of h [] = []
ops_of h (c ∷ cs) = let rest = ops_of h cs in if same_handle h c.handle then c.op ∷ rest else rest

abbrev pub replies_of : ℤ → List Call → List Reply → List Reply
replies_of h [] rs = []
replies_of h (c ∷ cs) [] = []
replies_of h (c ∷ cs) (r ∷ rs) =
    let rest = replies_of h cs rs in if same_handle h c.handle then r ∷ rest else rest

same_handle-cases :
    (h k : ℤ) → ((same_handle h k ≡ true) × (h ≡ k)) ⊎ ((same_handle h k ≡ false) × (h ≢ k))
same_handle-cases (pos m) (pos n) = elim (Bool-cases (m == n)) [
  | inl e ↦ inl (e, ap pos ((==_iff m n).0 e))
  | inr e ↦ inr (e, λ q. grind arith)
]
same_handle-cases (negsuc m) (negsuc n) = elim (Bool-cases (m == n)) [
  | inl e ↦ inl (e, ap negsuc ((==_iff m n).0 e))
  | inr e ↦ inr (e, λ q. grind arith)
]
same_handle-cases (pos m) (negsuc n) = inr (refl, λ e. cc)
same_handle-cases (negsuc m) (pos n) = inr (refl, λ e. cc)

-- A run of a call and the calls behind it, put together and taken apart.
run_calls-cons {ℓ κ} :
    {C : Type κ} {T : Type ℓ} (step : C → T → Run (T × Reply)) (c : C) (cs : List C) (t t₁ t' : T)
    (r : Reply) (rs : List Reply)
    → step c t ≡ ok (t₁, r)
    → run_calls step cs t₁ ≡ ok (t', rs)
    → run_calls step (c ∷ cs) t ≡ ok (t', r ∷ rs)
unfolding run_calls
run_calls-cons step c cs t t₁ t' r rs e rest =
    ap (λ x. x >>= λ y. run_calls step cs y.0 >>= λ z. ok (z.0, y.1 ∷ z.1)) e
    ∙ ap (λ x. x >>= λ z. ok (z.0, r ∷ z.1)) rest

run_calls-parts {ℓ κ} :
    {C : Type κ} {T : Type ℓ} (step : C → T → Run (T × Reply)) (c : C) (cs : List C) (t : T)
    (out : T × List Reply)
    → run_calls step (c ∷ cs) t ≡ ok out
    → (y : T × Reply) × (z : T × List Reply) × (step c t ≡ ok y)
      × (run_calls step cs y.0 ≡ ok z)
      × ((z.0, y.1 ∷ z.1) ≡ out)
unfolding run_calls
run_calls-parts step c cs t out e =
    let (y, first, behind) = bind-ok (step c t) _ out e in
    let (z, rest, made) = bind-ok (run_calls step cs y.0) _ out behind in
    (y, z, first, rest, ok-injective (z.0, y.1 ∷ z.1) out made)

module _ (p : Platform) (T : ObjectTable p) where
  step_own :
      (h : ℤ) (c : Call) (cs : List Call) (s s₁ s' : T.State) (r : Reply) (rs : List Reply)
      → T.call c s ≡ ok (s₁, r)
      → run_calls (object_op p) (ops_of h cs) (T.find s₁ h) ≡ ok (T.find s' h, replies_of h cs rs)
      → run_calls (object_op p) (ops_of h (c ∷ cs)) (T.find s h)
        ≡ ok (T.find s' h, replies_of h (c ∷ cs) (r ∷ rs))
  step_own h c cs s s₁ s' r rs e rest = elim (same_handle-cases h c.handle) [
    | inl (same, here) ↦
        let own : object_op p c.op (T.find s h) ≡ ok (T.find s₁ h, r) =
          subst (λ k. object_op p c.op (T.find s k) ≡ ok (T.find s₁ k, r)) (sym here)
            (T.call_own c s s₁ r e) in
        rw same (
          run_calls-cons (object_op p) c.op (ops_of h cs) (T.find s h) (T.find s₁ h) (T.find s' h) r
            (replies_of h cs rs) own rest)
    | inr (same, away) ↦
        let kept = T.call_other c s s₁ r h e away in
        rw same (ap (run_calls (object_op p) (ops_of h cs)) (sym kept) ∙ rest)
  ]

  -- Where calls through any handles return, the replies to those through one handle, and the object
  -- that it has at the end, are those of these calls alone on the object that it had.
  pub own_calls :
      (h : ℤ) (cs : List Call) (s s' : T.State) (rs : List Reply)
      → run_calls T.call cs s ≡ ok (s', rs)
      → run_calls (object_op p) (ops_of h cs) (T.find s h) ≡ ok (T.find s' h, replies_of h cs rs)
  unfolding run_calls
  own_calls h [] s s' rs e =
      let same = ok-injective (s, []) (s', rs) e in ap (λ x. ok (T.find x.0 h, [])) same
  own_calls h (c ∷ cs) s s' rs e =
      let (y, z, first, rest, made) = run_calls-parts T.call c cs s (s', rs) e in
      subst
        (λ o.
          run_calls (object_op p) (ops_of h (c ∷ cs)) (T.find s h)
          ≡ ok (T.find o.0 h, replies_of h (c ∷ cs) o.1))
        made (step_own h c cs s y.0 z.0 y.1 z.1 first (own_calls h cs y.0 z.0 z.1 rest))
