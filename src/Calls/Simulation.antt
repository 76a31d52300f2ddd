-- ===== src/Calls/Simulation.antt =====
-- Sequences of calls on two states, of which one shows the other.
use vscpl1drv_can4vscp.Prelude.{◌≡◌, refl, ap, ◌∙◌, List, [], ◌∷◌}
use vscpl1drv_can4vscp.Driver.{Run, ok, fault, starved, ◌>>=◌}
use vscpl1drv_can4vscp.Driver.Outcome.{OnOk}
use vscpl1drv_can4vscp.Calls.{Reply, run_calls}

-- A run, with what the other state shows of its state.
abbrev pub seen {ℓ κ μ} :
    {S : Type ℓ} {T : Type κ} {A : Type μ} → (S → T) → Run (S × A) → Run (T × A)
seen view r = r >>= λ x. ok (view x.0, x.1)

seen-replied {ℓ κ} :
    {S : Type ℓ} {T : Type κ} (view : S → T) (reply : Reply) (r : Run (S × List Reply))
    → seen view (r >>= λ z. ok (z.0, reply ∷ z.1)) ≡ (seen view r >>= λ z. ok (z.0, reply ∷ z.1))
seen-replied view reply (ok z) = refl
seen-replied view reply fault = refl
seen-replied view reply starved = refl

module _ {ℓ κ μ} {C : Type μ} {S : Type ℓ} {T : Type κ} (step : C → S → Run (S × Reply))
    (shown : C → T → Run (T × Reply)) (view : S → T) (P : S → Type 0)
    (step_shown : (c : C) (s : S) → P s → seen view (step c s) ≡ shown c (view s))
    (step_kept : (c : C) (s : S) → P s → OnOk (λ r. P r.0) (step c s)) where
  behind :
      (cs : List C)
      → ((s : S) → P s → seen view (run_calls step cs s) ≡ run_calls shown cs (view s))
      → (r : Run (S × Reply)) → OnOk (λ y. P y.0) r
      → seen view (r >>= λ y. run_calls step cs y.0 >>= λ z. ok (z.0, y.1 ∷ z.1))
        ≡ (seen view r >>= λ y. run_calls shown cs y.0 >>= λ z. ok (z.0, y.1 ∷ z.1))
  behind cs rest (ok y) kept =
      seen-replied view y.1 (run_calls step cs y.0)
      ∙ ap (λ r. r >>= λ z. ok (z.0, y.1 ∷ z.1)) (rest y.0 kept)
  behind cs rest fault kept = refl
  behind cs rest starved kept = refl

  -- Where one step is shown as the other and keeps what this needs, so are sequences of them.
  pub run_calls_lem :
      (cs : List C) (s : S) → P s → seen view (run_calls step cs s) ≡ run_calls shown cs (view s)
  unfolding run_calls
  run_calls_lem [] s h = refl
  run_calls_lem (c ∷ cs) s h =
      behind cs (run_calls_lem cs) (step c s) (step_kept c s h)
      ∙ ap (λ r. r >>= λ y. run_calls shown cs y.0 >>= λ z. ok (z.0, y.1 ∷ z.1)) (step_shown c s h)
