-- ===== src/Dll/Laws.antt =====
-- Laws of the array of driver objects of src/common/dlldrvobj.cpp: it is the table of
-- src/linux/vscpl1drv-can4vscp.cpp.
use vscpl1drv_can4vscp.Prelude.{
  ℕ, zero, suc, ◌+◌, ◌<◌, ◌≤◌, ◌≡◌, refl, sym, ap, ◌∙◌, Option, none, some, List, [], ◌∷◌, length,
  arith,
}
use mathlib.Core.Path.{fun_ext}
use vscpl1drv_can4vscp.Driver.{Driver}
use vscpl1drv_can4vscp.Handles.{
  ℤ, pos, negsuc, max_open, Table, no_objects, set_object, free_slot, index, object_at, put_at,
  get_driver_object, add_driver_object, fill_slot,
}
use vscpl1drv_can4vscp.Handles.Laws.{free_slot-some}
use vscpl1drv_can4vscp.Dll.{
  DllDrvObj, null_array, new_dll_drv_obj, init_instance, slot, set_slot, null_slot, use_slot,
  dll_add_driver_object, array_index, slot_at, set_slot_at, dll_get_driver_object,
  set_driver_object, dll_destroy_from, dll_destroy,
}

-- The table that an array is, and an array with all its elements.
abbrev pub objects_of : DllDrvObj → Table
objects_of a = slot a.drv_obj_array

abbrev pub IsWhole : DllDrvObj → Type 0
IsWhole a = length a.drv_obj_array ≡ max_open

length-set_slot :
    (os : List (Option Driver)) (i : ℕ) (x : Option Driver) → length (set_slot os i x) ≡ length os
unfolding set_slot
length-set_slot [] i x = refl
length-set_slot (o ∷ os) zero x = refl
length-set_slot (o ∷ os) (suc i) x = ap suc (length-set_slot os i x)

slot-set_slot :
    (os : List (Option Driver)) (i j : ℕ) (x : Option Driver)
    → i < length os
    → slot (set_slot os i x) j ≡ set_object (slot os) i x j
unfolding slot set_slot
slot-set_slot [] i j x h = absurd (omega arith)
slot-set_slot (o ∷ os) zero zero x h = refl
slot-set_slot (o ∷ os) zero (suc j) x h = ground arith
slot-set_slot (o ∷ os) (suc i) zero x h = ground arith
slot-set_slot (o ∷ os) (suc i) (suc j) x h = ground (arith, slot-set_slot os i j x)

array_index-index : (h : ℤ) → array_index h ≡ index h
unfolding array_index index
array_index-index (pos h) = refl
array_index-index (negsuc h) = refl

index-small : (h : ℤ) (i : ℕ) → index h ≡ some i → i < max_open
unfolding index
index-small (pos h) i e = grind arith
index-small (negsuc h) i e = grind arith

slot_at-object_at :
    (os : List (Option Driver)) (x : Option ℕ) → slot_at os x ≡ object_at (slot os) x
slot_at-object_at os none = refl
slot_at-object_at os (some i) = refl

-- `getDriverObject` is that of the table.
pub dll_get_driver_object_lem :
    (a : DllDrvObj) (h : ℤ) → dll_get_driver_object a h ≡ get_driver_object (objects_of a) h
unfolding dll_get_driver_object get_driver_object
dll_get_driver_object_lem a h =
    ap (slot_at a.drv_obj_array) (array_index-index h) ∙ slot_at-object_at a.drv_obj_array (index h)

-- The object of a handle is replaced as in the table.
pub set_driver_object_lem :
    (h : ℤ) (a : DllDrvObj) (x : Option Driver)
    → IsWhole a
    → objects_of (set_driver_object h a x) ≡ put_at (objects_of a) (index h) x
set_driver_object_lem h a x whole =
    ap (λ i. slot (set_slot_at a.drv_obj_array i x)) (array_index-index h) ∙ on (index h) refl
  where
    on :
        (i : Option ℕ)
        → index h ≡ i
        → slot (set_slot_at a.drv_obj_array i x) ≡ put_at (slot a.drv_obj_array) i x
    on none e = refl
    on (some i) e =
        let small = index-small h i e in
        fun_ext λ j. slot-set_slot a.drv_obj_array i j x (omega (arith, whole, small))

pub set_driver_object-IsWhole :
    (h : ℤ) (a : DllDrvObj) (x : Option Driver) → IsWhole a → IsWhole (set_driver_object h a x)
set_driver_object-IsWhole h a x whole = on (array_index h)
  where
    on : (i : Option ℕ) → length (set_slot_at a.drv_obj_array i x) ≡ max_open
    on none = whole
    on (some i) = length-set_slot a.drv_obj_array i x ∙ whole

-- The first slot that is NULL is that of the table, where the array is the table from `i` on.
null_slot-free_slot :
    (os : List (Option Driver)) (t : Table) (i : ℕ)
    → ((j k : ℕ) → j < length os → k ≡ i + j → slot os j ≡ t k)
    → null_slot os i ≡ free_slot t (length os) i
unfolding null_slot free_slot slot
null_slot-free_slot [] t i same = refl
null_slot-free_slot (o ∷ os) t i same =
    let head : o ≡ t i = same 0 i (omega arith) (omega arith) in
    let rest =
      null_slot-free_slot os t (suc i) (λ j k h e. same (suc j) k (omega arith) (omega arith)) in
    ap (λ x. elim x [ none ↦ some i | some d ↦ null_slot os (suc i) ]) head
    ∙ ap (λ r. elim (t i) [ none ↦ some i | some d ↦ r ]) rest

pub null_slot_lem :
    (a : DllDrvObj) → IsWhole a → null_slot a.drv_obj_array 0 ≡ free_slot (objects_of a) max_open 0
null_slot_lem a whole =
    null_slot-free_slot a.drv_obj_array (objects_of a) 0
      (λ j k h e. ap (slot a.drv_obj_array) (omega arith))
    ∙ ap (λ n. free_slot (objects_of a) n 0) whole

-- The array of the constructor is whole, and the empty table.
length-null_array : (n : ℕ) → length (null_array n) ≡ n
unfolding null_array
length-null_array zero = refl
length-null_array (suc n) = ap suc (length-null_array n)

slot-null_array : (n i : ℕ) → slot (null_array n) i ≡ none
unfolding null_array slot
slot-null_array zero i = refl
slot-null_array (suc n) zero = refl
slot-null_array (suc n) (suc i) = slot-null_array n i

pub new-IsWhole : IsWhole (init_instance new_dll_drv_obj)
new-IsWhole = length-null_array max_open

pub objects_of-new : objects_of (init_instance new_dll_drv_obj) ≡ no_objects
objects_of-new = fun_ext λ i. slot-null_array max_open i

-- The destructor closes nothing and leaves every object in the array.
dll_destroy_from_lem :
    (n i : ℕ) (a : DllDrvObj) → n + i ≤ max_open → dll_destroy_from n i a ≡ (a, [])
unfolding dll_destroy_from dll_get_driver_object array_index
dll_destroy_from_lem zero i a h = refl
dll_destroy_from_lem (suc n) i a h = grind (arith, dll_destroy_from_lem n (suc i) a)

pub dll_destroy_lem : (a : DllDrvObj) → dll_destroy a ≡ (a, [])
unfolding dll_destroy
dll_destroy_lem a = dll_destroy_from_lem max_open 0 a (omega arith)

-- `addDriverObject` is that of the table.
pub dll_add_driver_object_lem :
    (d : Driver) (a : DllDrvObj)
    → IsWhole a
    → (objects_of (dll_add_driver_object d a).0, (dll_add_driver_object d a).1)
      ≡ add_driver_object d (objects_of a)
unfolding dll_add_driver_object add_driver_object
dll_add_driver_object_lem d a whole = on (null_slot a.drv_obj_array 0) (null_slot_lem a whole)
  where
    on :
        (i : Option ℕ)
        → i ≡ free_slot (objects_of a) max_open 0
        → (objects_of (use_slot d a i).0, (use_slot d a i).1)
          ≡ fill_slot d (objects_of a) (free_slot (objects_of a) max_open 0)
    on none e = ap (fill_slot d (objects_of a)) e
    on (some i) e =
        let (small, empty) = free_slot-some (objects_of a) max_open 0 i (sym e) in
        let put : slot (set_slot a.drv_obj_array i (some d))
            ≡ set_object (objects_of a) i (some d) =
          fun_ext λ j. slot-set_slot a.drv_obj_array i j (some d) (omega (arith, whole, small)) in
        ap (λ t. (t, i + 1681)) put ∙ ap (fill_slot d (objects_of a)) e

pub dll_add-IsWhole :
    (d : Driver) (a : DllDrvObj) → IsWhole a → IsWhole (dll_add_driver_object d a).0
unfolding dll_add_driver_object
dll_add-IsWhole d a whole = on (null_slot a.drv_obj_array 0)
  where
    on : (i : Option ℕ) → IsWhole (use_slot d a i).0
    on none = whole
    on (some i) = length-set_slot a.drv_obj_array i (some d) ∙ whole
