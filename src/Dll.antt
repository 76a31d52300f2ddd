-- ===== src/Dll.antt =====
-- src/common/dlldrvobj.cpp: the table of driver objects of `CDllDrvObj`, an array. `long` does not
-- wrap. The mutex around each operation is left out. The destructor gives the objects that it
-- closes among its results.
pub mod Laws
use vscpl1drv_can4vscp.Prelude.{
  ℕ, zero, suc, ◌+◌, ◌-◌, Option, none, some, List, [], ◌∷◌, ltb, leb, if◌then◌else◌,
}
use vscpl1drv_can4vscp.Driver.{Driver}
use vscpl1drv_can4vscp.Handles.{ℤ, pos, negsuc, max_open}

-- m_drvObjArray, with `none` for NULL, and m_instanceCounter.
pub record DllDrvObj : Type 0 where
  pub drv_obj_array : List (Option Driver)
  pub instance_counter : ℕ

unfoldable pub null_array : ℕ → List (Option Driver)
null_array zero = []
null_array (suc n) = none ∷ null_array n

abbrev pub new_dll_drv_obj : DllDrvObj
new_dll_drv_obj = record { drv_obj_array = null_array max_open; instance_counter = 0 }

abbrev pub init_instance : DllDrvObj → DllDrvObj
init_instance a = record a { instance_counter = a.instance_counter + 1 }

-- An element of the array, and the array with the element replaced.
unfoldable pub slot : List (Option Driver) → ℕ → Option Driver
slot [] i = none
slot (o ∷ os) zero = o
slot (o ∷ os) (suc i) = slot os i

unfoldable pub set_slot : List (Option Driver) → ℕ → Option Driver → List (Option Driver)
set_slot [] i x = []
set_slot (o ∷ os) zero x = x ∷ os
set_slot (o ∷ os) (suc i) x = o ∷ set_slot os i x

-- The loop of `addDriverObject`, over the elements from `i` on: the first that is NULL.
unfoldable pub null_slot : List (Option Driver) → ℕ → Option ℕ
null_slot [] i = none
null_slot (o ∷ os) i = let rest = null_slot os (suc i) in elim o [ none ↦ some i | some d ↦ rest ]

abbrev pub use_slot : Driver → DllDrvObj → Option ℕ → DllDrvObj × ℕ
use_slot d a none = (a, 0)
use_slot d a (some i) = (record a { drv_obj_array = set_slot a.drv_obj_array i (some d) }, i + 1681)

unfoldable pub dll_add_driver_object : Driver → DllDrvObj → DllDrvObj × ℕ
dll_add_driver_object d a = use_slot d a (null_slot a.drv_obj_array 0)

-- `h - 1681`, where this is an index of the array.
unfoldable pub array_index : ℤ → Option ℕ
array_index (negsuc h) = none
array_index (pos h) =
    if ltb h 1681 then none else if leb max_open (h - 1681) then none else some (h - 1681)

abbrev pub slot_at : List (Option Driver) → Option ℕ → Option Driver
slot_at os none = none
slot_at os (some i) = slot os i

abbrev pub set_slot_at : List (Option Driver) → Option ℕ → Option Driver → List (Option Driver)
set_slot_at os none x = os
set_slot_at os (some i) x = set_slot os i x

unfoldable pub dll_get_driver_object : DllDrvObj → ℤ → Option Driver
dll_get_driver_object a h = slot_at a.drv_obj_array (array_index h)

-- The object under a handle, replaced.
abbrev pub set_driver_object : ℤ → DllDrvObj → Option Driver → DllDrvObj
set_driver_object h a x = record a { drv_obj_array = set_slot_at a.drv_obj_array (array_index h) x }

unfoldable pub dll_remove_driver_object : ℤ → DllDrvObj → DllDrvObj
dll_remove_driver_object h a = set_driver_object h a none

-- The loop of the destructor, from `i` on with `n` elements to go. With the objects that it closes.
unfoldable pub dll_destroy_from : ℕ → ℕ → DllDrvObj → DllDrvObj × List Driver
dll_destroy_from zero i a = (a, [])
dll_destroy_from (suc n) i a =
    let kept = dll_destroy_from n (suc i) a in
    let (a', closed) =
      dll_destroy_from n (suc i) (record a { drv_obj_array = set_slot a.drv_obj_array i none }) in
    elim (slot a.drv_obj_array i) [
      | none ↦ kept
      | some o ↦ elim (dll_get_driver_object a (pos i)) [ none ↦ kept | some d ↦ (a', d ∷ closed) ]
    ]

unfoldable pub dll_destroy : DllDrvObj → DllDrvObj × List Driver
dll_destroy a = dll_destroy_from max_open 0 a
