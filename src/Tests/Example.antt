-- ===== src/Tests/Example.antt =====
-- A concrete platform, and an open driver on it.
use vscpl1drv_can4vscp.Prelude.{ℕ, ◌+◌, ◌%◌, refl, true, List, [], ◌∷◌, ◌++◌}
use vscpl1drv_can4vscp.Platform.{Dllist, IsFifo, FrameTypes, Platform}
use vscpl1drv_can4vscp.Driver.{Driver, no_statistics, construct}

-- A sum of the bytes in place of the CRC of the library.
abbrev pub sum8 : ℕ → ℕ → ℕ
sum8 k c = (k + c) % 256

abbrev pub tail : {A : Type 0} → List A → List A
tail [] = []
tail (x ∷ xs) = xs

abbrev pub list_dllist : {A : Type 0} → Dllist A
list_dllist = record {
  add_node = λ xs x. xs ++ (x ∷ []);
  remove_head = tail;
  remove_all_nodes = λ xs. [];
}

abbrev pub list_dllist-IsFifo : {A : Type 0} → IsFifo (list_dllist {A = A})
list_dllist-IsFifo = record {
  add_node_lem = λ xs x. refl;
  remove_head_lem = λ x xs. refl;
  remove_all_nodes_lem = λ xs. refl;
}

abbrev pub example_frame_types : FrameTypes
example_frame_types = record {
  noop = 0;
  canal = 1;
  canal_timestamp = 2;
  vscp_event = 3;
  vscp_event_timestamp = 4;
  configure = 5;
  poll = 6;
  no_event = 7;
  multi_frame_vscp = 8;
  multi_frame_vscp_timestamp = 9;
  multi_frame_canal = 10;
  multi_frame_canal_timestamp = 11;
  sent_ack = 12;
  sent_nack = 13;
  ack = 14;
  nack = 15;
  error = 17;
  command_reply = 18;
  caps_request = 19;
  caps_response = 20;
  command = 21;
}

abbrev pub example_platform : Platform
example_platform = record {
  crc8 = sum8;
  messages = list_dllist;
  responses = list_dllist;
  frame_types = example_frame_types;
  idflag_extended = 1;
  idflag_rtr = 2;
  pos_frame_sequency = 2;
  caps_size = 2;
  comm_puts = λ writes bytes. true;
  trace_enabled = true;
}

abbrev pub open_driver : Driver
open_driver = record (construct 0 (λ i. 0) 0 no_statistics) {
  opened = true;
  running = true;
  port = record { is_open = true; writes = [] };
}
