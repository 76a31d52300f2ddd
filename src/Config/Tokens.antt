-- ===== src/Config/Tokens.antt =====
-- `nextConfigToken` of src/common/can4vscpobj.cpp, called until it returns NULL.
use vscpl1drv_can4vscp.Prelude.{
  ℕ, zero, suc, ◌<◌, ◌≡◌, ◌≢◌, ◌==◌, ==_iff, ==-ne, refl, sym, ap, ◌∙◌, arith, Bool-cases, inl, inr,
  Option, none, some, List, [], ◌∷◌, ◌++◌, length, length-append,
}
use vscpl1drv_can4vscp.Config.{next_config_token}
use vscpl1drv_can4vscp.Config.Text.{Bytes, strchr}

-- The fields that the calls return, at most as many as the fuel.
abbrev pub collect : (Option Bytes → List Bytes) → Option Bytes → Option Bytes → List Bytes
collect rest none at = []
collect rest (some field) at = field ∷ rest at

unfoldable pub tokens : ℕ → Option Bytes → List Bytes
tokens zero at = []
tokens (suc n) at = let r = next_config_token at in collect (tokens n) r.0 r.1

-- The fields with a `;` between them.
abbrev pub join : List Bytes → Bytes
join [] = []
join (f ∷ []) = f
join (f ∷ g ∷ fs) = f ++ (b';' ∷ join (g ∷ fs))

abbrev pub Lacks : ℕ → Bytes → Type 0
Lacks c [] = Unit {0}
Lacks c (x ∷ s) = (x ≢ c) × Lacks c s

-- What `strchr` splits, put together.
abbrev rejoin : ℕ → Bytes × Option Bytes → Bytes
rejoin c (before, none) = before
rejoin c (before, some behind) = before ++ (c ∷ behind)

rejoin-cons : (c x : ℕ) (r : Bytes × Option Bytes) → rejoin c (x ∷ r.0, r.1) ≡ x ∷ rejoin c r
rejoin-cons c x (before, none) = refl
rejoin-cons c x (before, some behind) = refl

rejoin-strchr : (c : ℕ) (s : Bytes) → rejoin c (strchr c s) ≡ s
unfolding strchr
rejoin-strchr c [] = refl
rejoin-strchr c (x ∷ s) = elim (Bool-cases (x == c)) [
  | inl here ↦ rw here (ap (λ y. y ∷ s) (sym ((==_iff x c).0 here)))
  | inr later ↦ rw later (rejoin-cons c x (strchr c s) ∙ ap (λ t. x ∷ t) (rejoin-strchr c s))
]

strchr-Lacks : (c : ℕ) (f rest : Bytes) → Lacks c f → strchr c (f ++ (c ∷ rest)) ≡ (f, some rest)
unfolding strchr
strchr-Lacks c [] rest h = ground arith
strchr-Lacks c (x ∷ f) rest h =
    rw (==-ne x c h.0) (ap (λ r. (x ∷ r.0, r.1)) (strchr-Lacks c f rest h.1))

strchr-Lacks_end : (c : ℕ) (f : Bytes) → Lacks c f → strchr c f ≡ (f, none)
unfolding strchr
strchr-Lacks_end c [] h = refl
strchr-Lacks_end c (x ∷ f) h =
    rw (==-ne x c h.0) (ap (λ r. (x ∷ r.0, r.1)) (strchr-Lacks_end c f h.1))

tokens_at_end : (n : ℕ) → tokens n none ≡ []
unfolding tokens next_config_token
tokens_at_end zero = refl
tokens_at_end (suc n) = refl

join-cons : (f : Bytes) (fs : List Bytes) → fs ≢ [] → join (f ∷ fs) ≡ f ++ (b';' ∷ join fs)
join-cons f [] h = absurd (h refl)
join-cons f (g ∷ fs) h = refl

tokens-ne-nil : (n : ℕ) (s : Bytes) → 0 < n → tokens n (some s) ≢ []
unfolding tokens next_config_token
tokens-ne-nil zero s h = absurd (omega arith)
tokens-ne-nil (suc n) s h = λ e. cc

-- nextConfigToken called until it returns NULL gives the fields of the string: with a semicolon
-- between them they are the string again. More calls than the string has bytes are enough.
pub join-tokens : (n : ℕ) (s : Bytes) → length s < n → join (tokens n (some s)) ≡ s
unfolding tokens next_config_token
join-tokens zero s h = absurd (omega arith)
join-tokens (suc n) s h = joined (strchr b';' s) (rejoin-strchr b';' s) (join-tokens n)
  where
    joined :
        (r : Bytes × Option Bytes)
        → rejoin b';' r ≡ s
        → ((t : Bytes) → length t < n → join (tokens n (some t)) ≡ t)
        → join (r.0 ∷ tokens n r.1) ≡ s
    joined (before, none) e later = rw (tokens_at_end n) e
    joined (before, some behind) e later =
        let small : length behind < n =
          omega (arith, h, ap length e, length-append {0} before (b';' ∷ behind)) in
        join-cons before (tokens n (some behind)) (tokens-ne-nil n behind (omega arith))
        ∙ ap (λ t. before ++ (b';' ∷ t)) (later behind small)
        ∙ e

abbrev pub AllLack : ℕ → List Bytes → Type 0
AllLack c [] = Unit {0}
AllLack c (f ∷ fs) = Lacks c f × AllLack c fs

pub next_config_token-field :
    (f rest : Bytes)
    → Lacks b';' f
    → next_config_token (some (f ++ (b';' ∷ rest))) ≡ (some f, some rest)
unfolding next_config_token
next_config_token-field f rest h =
    ap (λ (r : Bytes × Option Bytes). (some r.0, r.1)) (strchr-Lacks b';' f rest h)

pub next_config_token-last :
    (f : Bytes) → Lacks b';' f → next_config_token (some f) ≡ (some f, none)
unfolding next_config_token
next_config_token-last f h =
    ap (λ (r : Bytes × Option Bytes). (some r.0, r.1)) (strchr-Lacks_end b';' f h)

-- Fields without a `;` are the fields of the string that joins them.
pub tokens-join :
    (f : Bytes) (fs : List Bytes) (n : ℕ)
    → length fs < n
    → AllLack b';' (f ∷ fs)
    → tokens n (some (join (f ∷ fs))) ≡ f ∷ fs
unfolding tokens
tokens-join f fs zero enough h = absurd (omega arith)
tokens-join f [] (suc n) enough h =
    ap (λ r. collect (tokens n) r.0 r.1) (next_config_token-last f h.0)
    ∙ ap (λ fs. f ∷ fs) (tokens_at_end n)
tokens-join f (g ∷ fs) (suc n) enough h =
    ap (λ r. collect (tokens n) r.0 r.1) (next_config_token-field f (join (g ∷ fs)) h.0)
    ∙ ap (λ fs. f ∷ fs) (tokens-join g fs n (omega arith) h.1)
