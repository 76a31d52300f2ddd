-- ===== src/Platform.antt =====
-- What the driver takes from the vscp library and the system, none of which is part of the
-- repository: the CRC update, the list of dllist.h, the frame type codes of vscp-serial.h, the flag
-- bits of canal.h, and the outcome of a write to the serial port. The laws that the driver relies on
-- are stated apart, as hypotheses.
use vscpl1drv_can4vscp.Prelude.{ℕ, ◌≡◌, Bool, List, [], ◌∷◌, ◌++◌}
use vscpl1drv_can4vscp.Message.{CanalMsg}

-- A `DoubleLinkedList` is the objects of its nodes, from `pHead` on; `nCount` is their number.
pub record Dllist (A : Type 0) : Type 0 where
  -- dll_addNode, on a list with SORT_NONE
  pub add_node : List A → A → List A
  -- dll_removeNode of the node pHead
  pub remove_head : List A → List A
  -- dll_removeAllNodes
  pub remove_all_nodes : List A → List A

-- A list with SORT_NONE keeps the order in which its nodes were added.
pub record IsFifo {A : Type 0} (l : Dllist A) : Type 0 where
  pub add_node_lem : (xs : List A) (x : A) → l.add_node xs x ≡ xs ++ (x ∷ [])
  pub remove_head_lem : (x : A) (xs : List A) → l.remove_head (x ∷ xs) ≡ xs
  pub remove_all_nodes_lem : (xs : List A) → l.remove_all_nodes xs ≡ []

-- VSCP_SERIAL_DRIVER_FRAME_TYPE_...
pub record FrameTypes : Type 0 where
  pub noop : ℕ
  pub canal : ℕ
  pub canal_timestamp : ℕ
  pub vscp_event : ℕ
  pub vscp_event_timestamp : ℕ
  pub configure : ℕ
  pub poll : ℕ
  pub no_event : ℕ
  pub multi_frame_vscp : ℕ
  pub multi_frame_vscp_timestamp : ℕ
  pub multi_frame_canal : ℕ
  pub multi_frame_canal_timestamp : ℕ
  pub sent_ack : ℕ
  pub sent_nack : ℕ
  pub ack : ℕ
  pub nack : ℕ
  pub error : ℕ
  pub command_reply : ℕ
  pub caps_request : ℕ
  pub caps_response : ℕ
  pub command : ℕ

-- The driver's `cmdResponseMsg`. `payload` is the part of the array that has been written.
pub record Response : Type 0 where
  pub op : ℕ
  pub seq : ℕ
  pub channel : ℕ
  pub size_payload : ℕ
  pub payload : List ℕ

pub record Platform : Type 0 where
  pub crc8 : ℕ → ℕ → ℕ
  pub messages : Dllist CanalMsg
  pub responses : Dllist Response
  pub frame_types : FrameTypes
  -- CANAL_IDFLAG_EXTENDED, CANAL_IDFLAG_RTR
  pub idflag_extended : ℕ
  pub idflag_rtr : ℕ
  -- VSCP_SERIAL_DRIVER_POS_FRAME_SEQUENCY, VSCP_SERIAL_DRIVER_CAPS_SIZE
  pub pos_frame_sequency : ℕ
  pub caps_size : ℕ
  -- Whether `comm_puts` reports success, after the writes that went before.
  pub comm_puts : List (List ℕ) → List ℕ → Bool
  -- Whether the log level lets trace messages be formatted.
  pub trace_enabled : Bool
