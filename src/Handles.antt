-- ===== src/Handles.antt =====
-- src/linux/vscpl1drv-can4vscp.cpp: the table of driver objects of `Ccan4vscpApp`, and the CANAL
-- functions that work on the object of a handle. `long` does not wrap. `CanalOpen` and `CanalClose`
-- stand in Canal. The destructor of the table gives the objects that it closes among its results.
pub mod Laws
use vscpl1drv_can4vscp.Prelude.{
  ℕ, zero, suc, ◌+◌, ◌-◌, ◌==◌, Bool, Option, none, some, List, [], ◌∷◌, ltb, leb, if◌then◌else◌,
}
use vscpl1drv_can4vscp.Message.{CanalMsg}
use vscpl1drv_can4vscp.Platform.{Platform}
use vscpl1drv_can4vscp.Driver.{Driver, Code, success, Statistics}
use vscpl1drv_can4vscp.Filter.{set_filter, set_mask}
use vscpl1drv_can4vscp.Queues.{
  Wait, write_msg, write_msg_blocking, read_msg, read_msg_blocking, data_available, get_status,
  get_statistics,
}

-- The integers: `negsuc n` is -1 - n.
pub data ℤ : Type 0 where
  pos negsuc : ℕ → ℤ

-- CANAL_CAN4VSCP_DRIVER_MAX_OPEN
abbrev pub max_open : ℕ
max_open = 256

-- m_socketcanArray, with `none` for NULL
abbrev pub Table : Type 0
Table = ℕ → Option Driver

-- What the constructor makes.
abbrev pub no_objects : Table
no_objects i = none

abbrev pub set_object : Table → ℕ → Option Driver → Table
set_object t i o j = if i == j then o else t j

-- The loop of `addDriverObject`, from `i` on with `n` slots to go: the first slot that is NULL.
unfoldable pub free_slot : Table → ℕ → ℕ → Option ℕ
free_slot t zero i = none
free_slot t (suc n) i =
    let rest = free_slot t n (suc i) in elim (t i) [ none ↦ some i | some o ↦ rest ]

-- The handle, 0 where the table is full.
abbrev pub fill_slot : Driver → Table → Option ℕ → Table × ℕ
fill_slot d t (some i) = (set_object t i (some d), i + 1681)
fill_slot d t none = (t, 0)

unfoldable pub add_driver_object : Driver → Table → Table × ℕ
add_driver_object d t = fill_slot d t (free_slot t max_open 0)

-- `h - 1681`, where this is an index of the table.
unfoldable pub index : ℤ → Option ℕ
index (pos h) =
    if ltb h 1681 then none else if leb max_open (h - 1681) then none else some (h - 1681)
index (negsuc h) = none

abbrev pub object_at : Table → Option ℕ → Option Driver
object_at t (some i) = t i
object_at t none = none

abbrev pub put_at : Table → Option ℕ → Option Driver → Table
put_at t (some i) o = set_object t i o
put_at t none o = t

unfoldable pub get_driver_object : Table → ℤ → Option Driver
get_driver_object t h = object_at t (index h)

unfoldable pub remove_driver_object : ℤ → Table → Table
remove_driver_object h t = put_at t (index h) none

-- The loop of the destructor, from `i` on with `n` slots to go. With the objects that it closes.
unfoldable pub destroy_from : ℕ → ℕ → Table → Table × List Driver
destroy_from zero i t = (t, [])
destroy_from (suc n) i t =
    let kept = destroy_from n (suc i) t in
    let (t', closed) = destroy_from n (suc i) (set_object t i none) in
    elim (t i) [
      | none ↦ kept
      | some o ↦ elim (get_driver_object t (pos i)) [ none ↦ kept | some d ↦ (t', d ∷ closed) ]
    ]

unfoldable pub destroy : Table → Table × List Driver
destroy t = destroy_from max_open 0 t

-- An operation on the object of a handle. Without an object the functions below return 0, which is
-- CANAL_ERROR_SUCCESS where the result is a code.
abbrev pub on_found {ℓ} :
    {A : Type ℓ} → ℤ → A → (Driver → Driver × A) → Table → Option Driver → Table × A
on_found h default op t none = (t, default)
on_found h default op t (some d) = let r = op d in (put_at t (index h) (some r.0), r.1)

unfoldable pub on_object {ℓ} : {A : Type ℓ} → ℤ → A → (Driver → Driver × A) → Table → Table × A
on_object h default op t = on_found h default op t (get_driver_object t h)

unfoldable pub canal_send : Platform → ℤ → Option CanalMsg → Table → Table × Code
canal_send p h m t = on_object h success (write_msg p m) t

unfoldable pub canal_blocking_send :
    Platform → Wait → (Driver → Driver) → ℤ → Option CanalMsg → Table → Table × Code
canal_blocking_send p wait meanwhile h m t =
    on_object h success (write_msg_blocking p wait meanwhile m) t

abbrev pub paired : Driver × Code × Option CanalMsg → Driver × (Code × Option CanalMsg)
paired (d, code, m) = (d, (code, m))

unfoldable pub canal_receive : Platform → ℤ → Bool → Table → Table × (Code × Option CanalMsg)
canal_receive p h null t = on_object h (success, none) (λ d. paired (read_msg p null d)) t

unfoldable pub canal_blocking_receive :
    Platform → Wait → (Driver → Driver) → ℤ → Bool → Table → Table × (Code × Option CanalMsg)
canal_blocking_receive p wait meanwhile h null t =
    on_object h (success, none) (λ d. paired (read_msg_blocking p wait meanwhile null d)) t

unfoldable pub canal_set_filter : ℤ → ℕ → Table → Table × Code
canal_set_filter h filter t = on_object h success (set_filter filter) t

unfoldable pub canal_set_mask : ℤ → ℕ → Table → Table × Code
canal_set_mask h mask t = on_object h success (set_mask mask) t

-- The functions that only read the object.
unfoldable pub canal_data_available : ℤ → Table → ℕ
canal_data_available h t = elim (get_driver_object t h) [ none ↦ 0 | some d ↦ data_available d ]

unfoldable pub canal_get_status : ℤ → Bool → Table → Code
canal_get_status h null t = elim (get_driver_object t h) [
  | none ↦ success
  | some d ↦ get_status null d
]

unfoldable pub canal_get_statistics : ℤ → Bool → Table → Code × Option Statistics
canal_get_statistics h null t = elim (get_driver_object t h) [
  | none ↦ (success, none)
  | some d ↦ get_statistics null d
]
