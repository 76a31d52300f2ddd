-- ===== src/Handles/Laws.antt =====
-- Laws of the handle table of src/linux/vscpl1drv-can4vscp.cpp.
use vscpl1drv_can4vscp.Prelude.{
  ℕ, zero, suc, ◌+◌, ◌<◌, ◌≤◌, ==-ne, ◌≡◌, ◌≢◌, ◌⊎◌, inl, inr, refl, sym, ap, ◌∙◌, Option, none,
  some, Option-cases, [], arith,
}
use vscpl1drv_can4vscp.Driver.{Driver}
use vscpl1drv_can4vscp.Handles.{
  ℤ, pos, negsuc, max_open, Table, set_object, free_slot, add_driver_object, index,
  get_driver_object, object_at, put_at, on_found, remove_driver_object, destroy_from, destroy,
  on_object,
}

-- Different handles have different slots.
index-injective : (h k : ℤ) (i : ℕ) → index h ≡ some i → index k ≡ some i → h ≡ k
unfolding index
index-injective (pos h) (pos k) i e f = let s : h ≡ k = grind arith in ap pos s
index-injective (pos h) (negsuc k) i e f = grind arith
index-injective (negsuc h) k i e f = grind arith

index-handle : (i : ℕ) → i < max_open → index (pos (i + 1681)) ≡ some i
unfolding index
index-handle i h = grind arith

-- The slot that `addDriverObject` finds is empty, and within the table.
pub free_slot-some : (t : Table) (n i k : ℕ) → free_slot t n i ≡ some k → (k < i + n) × (t k ≡ none)
unfolding free_slot
free_slot-some t zero i k h = grind arith
free_slot-some t (suc n) i k h = grind (arith, free_slot-some t n (suc i) k)

free_slot-none : (t : Table) (n i k : ℕ) → free_slot t n i ≡ none → i ≤ k → k < i + n → t k ≢ none
unfolding free_slot
free_slot-none t zero i k h le lt = absurd (omega arith)
free_slot-none t (suc n) i k h le lt = grind (arith, free_slot-none t n (suc i) k)

set_object-same : (t : Table) (i : ℕ) (o : Option Driver) → set_object t i o i ≡ o
set_object-same t i o = ground arith

set_object-other : (t : Table) (i j : ℕ) (o : Option Driver) → i ≢ j → set_object t i o j ≡ t j
set_object-other t i j o n = rw (==-ne i j n) refl

pub object_at-put_at :
    (t : Table) (h : ℤ) (i : ℕ) (o : Option Driver)
    → index h ≡ some i
    → object_at (put_at t (index h) o) (index h) ≡ o
object_at-put_at t h i o e = ap (λ x. object_at (put_at t x o) x) e ∙ set_object-same t i o

pub object_at-put_at_other :
    (t : Table) (h k : ℤ) (o : Option Driver)
    → k ≢ h
    → object_at (put_at t (index h) o) (index k) ≡ object_at t (index k)
object_at-put_at_other t h k o n = elim (Option-cases (index h)) [
  | inl out ↦ ap (λ x. object_at (put_at t x o) (index k)) out
  | inr (i, e) ↦ elim (Option-cases (index k)) [
    | inl none_k ↦ ap (object_at (put_at t (index h) o)) none_k ∙ sym (ap (object_at t) none_k)
    | inr (j, f) ↦
        let distinct : i ≢ j = λ q. n (index-injective k h i (f ∙ ap some (sym q)) e) in
        ap (λ x. object_at (put_at t x o) (index k)) e
        ∙ ap (object_at (set_object t i o)) f
        ∙ set_object-other t i j o distinct
        ∙ sym (ap (object_at t) f)
  ]
]

-- addDriverObject either finds the table full, returns 0 and changes nothing, or returns a handle
-- that had no object, gives the object under it from then on, and leaves what every other handle
-- gives.
pub add_driver_object_lem :
    (d : Driver) (t : Table)
    → let r = add_driver_object d t in
      ((r.1 ≡ 0) × (r.0 ≡ t) × ((i : ℕ) → i < max_open → t i ≢ none))
      ⊎ ((get_driver_object t (pos r.1) ≡ none)
          × (get_driver_object r.0 (pos r.1) ≡ some d)
          × ((k : ℤ) → k ≢ pos r.1 → get_driver_object r.0 k ≡ get_driver_object t k))
unfolding add_driver_object get_driver_object
add_driver_object_lem d t = elim (Option-cases (free_slot t max_open 0)) [
  | inl full ↦
      rw full
        (inl (refl, refl, λ i h. free_slot-none t max_open 0 i full (omega arith) (omega arith)))
  | inr (i, found) ↦
      let (small, empty) = free_slot-some t max_open 0 i found in
      let at = index-handle i (omega arith) in
      let put : put_at t (index (pos (i + 1681))) (some d) ≡ set_object t i (some d) =
        ap (λ x. put_at t x (some d)) at in
      rw found (
        inr (
          ap (object_at t) at ∙ empty,
          ap (object_at (set_object t i (some d))) at ∙ set_object-same t i (some d),
          λ k n.
              ap (λ s. object_at s (index k)) (sym put)
              ∙ object_at-put_at_other t (pos (i + 1681)) k (some d) n,
        ))
]

-- A handle that is removed gives no object, and every other handle gives what it gave.
pub remove_driver_object_lem :
    (h : ℤ) (t : Table)
    → (get_driver_object (remove_driver_object h t) h ≡ none)
      × ((k : ℤ) → k ≢ h → get_driver_object (remove_driver_object h t) k ≡ get_driver_object t k)
unfolding remove_driver_object get_driver_object
remove_driver_object_lem h t = (
  elim (Option-cases (index h)) [
    | inl out ↦ ap (object_at (put_at t (index h) none)) out
    | inr (i, at) ↦ object_at-put_at t h i none at
  ],
  λ k n. object_at-put_at_other t h k none n,
)

-- An operation through a handle works on its object, returns its result, and is not seen through
-- any other handle. Without an object it returns the default, which the CANAL functions set to
-- success, and changes nothing.
pub on_object_lem :
    {A : Type 0} (h : ℤ) (default : A) (op : Driver → Driver × A) (t : Table)
    → ((get_driver_object t h ≡ none) × (on_object h default op t ≡ (t, default)))
      ⊎ ((d : Driver) × (get_driver_object t h ≡ some d)
          × (get_driver_object (on_object h default op t).0 h ≡ some (op d).0)
          × ((on_object h default op t).1 ≡ (op d).1)
          × ((k : ℤ)
              → k ≢ h
              → get_driver_object (on_object h default op t).0 k ≡ get_driver_object t k))
unfolding on_object get_driver_object
on_object_lem h default op t = elim (Option-cases (object_at t (index h))) [
  | inl absent ↦ inl (absent, ap (on_found h default op t) absent)
  | inr (d, found) ↦
      let run = ap (on_found h default op t) found in
      inr (
        d,
        found,
        ap (λ r. object_at r.0 (index h)) run ∙ here d found,
        ap (λ r. r.1) run,
        λ k n.
            ap (λ r. object_at r.0 (index k)) run ∙ object_at-put_at_other t h k (some (op d).0) n,
      )
]
  where
    here :
        (d : Driver)
        → object_at t (index h) ≡ some d
        → object_at (put_at t (index h) (some (op d).0)) (index h) ≡ some (op d).0
    here d found = elim (Option-cases (index h)) [
      | inl out ↦ let bad : none ≡ some d = sym (ap (object_at t) out) ∙ found in cc
      | inr (i, at) ↦ object_at-put_at t h i (some (op d).0) at
    ]

destroy_from_lem : (n i : ℕ) (t : Table) → n + i ≤ max_open → destroy_from n i t ≡ (t, [])
unfolding destroy_from get_driver_object index
destroy_from_lem zero i t h = refl
destroy_from_lem (suc n) i t h = grind (arith, destroy_from_lem n (suc i) t)

-- The destructor of the table closes nothing and leaves every object in the table: it takes the
-- index of a slot for its handle.
pub destroy_lem : (t : Table) → destroy t ≡ (t, [])
unfolding destroy
destroy_lem t = destroy_from_lem max_open 0 t (omega arith)
