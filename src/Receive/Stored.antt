-- ===== src/Receive/Stored.antt =====
-- The responses that `addToResponseQueue` of src/common/can4vscpobj.cpp stores have the bytes that
-- they say they have, as far as the capabilities ask for them.
use vscpl1drv_can4vscp.Prelude.{
  ℕ, zero, suc, ◌+◌, ◌≤◌, ◌≡◌, refl, sym, subst, arith, List, [], ◌∷◌, ◌++◌, length,
}
use vscpl1drv_can4vscp.Prelude.Memory.{Memory}
use vscpl1drv_can4vscp.Platform.{Platform, Response, IsFifo}
use vscpl1drv_can4vscp.Driver.{read_byte}
use vscpl1drv_can4vscp.Driver.Outcome.{OnOk, OnOk-unit, bind-OnOk}
use vscpl1drv_can4vscp.Receive.Reader.{read_bytes}

-- A response that says that it has four bytes has four bytes.
abbrev pub FourBytes : Response → Type 0
FourBytes r = 4 ≤ r.size_payload → 4 ≤ length r.payload

abbrev pub Whole : List Response → Type 0
Whole [] = Unit {0}
Whole (r ∷ rs) = FourBytes r × Whole rs

pub append-Whole :
    (xs : List Response) (r : Response) → Whole xs → FourBytes r → Whole (xs ++ (r ∷ []))
append-Whole [] r h k = (k, tt)
append-Whole (x ∷ xs) r h k = (h.0, append-Whole xs r h.1 k)

pub remove_head-Whole :
    (p : Platform)
    → IsFifo p.responses
    → (r : Response) (rs : List Response) → Whole (r ∷ rs)
    → Whole (p.responses.remove_head (r ∷ rs))
remove_head-Whole p fifo r rs h = subst Whole (sym (fifo.remove_head_lem r rs)) h.1

abbrev pub HasLength : ℕ → List ℕ → Type 0
HasLength n bs = length bs ≡ n

pub read_bytes-HasLength :
    (buf : Memory) (start n : ℕ) → OnOk (HasLength n) (read_bytes buf start n)
unfolding read_bytes
read_bytes-HasLength buf start zero = refl
read_bytes-HasLength buf start (suc n) =
    bind-OnOk (λ b. Unit {0}) (HasLength (suc n)) (read_byte buf start) _
      (OnOk-unit (read_byte buf start))
      (λ b u.
        bind-OnOk (HasLength n) (HasLength (suc n)) (read_bytes buf (start + 1) n) _
          (read_bytes-HasLength buf (start + 1) n) (λ bs h. omega (arith, h)))
