-- ===== src/Tests/Queues.antt =====
-- The queues and the filter of an open driver.
use vscpl1drv_can4vscp.Prelude.{
  suc, ◌≤◌, ◌≡◌, ◌⊎◌, refl, some, List, [], ◌∷◌, length, arith, true, false, ◌<◌,
}
use vscpl1drv_can4vscp.Message.{CanalMsg}
use vscpl1drv_can4vscp.Driver.{
  construct, success, fifo_empty, max_receive, max_send, not_open, fifo_full,
}
use vscpl1drv_can4vscp.Filter.{do_filter}
use vscpl1drv_can4vscp.Filter.Laws.{do_filter_ignores_flags}
use vscpl1drv_can4vscp.Receive.Packing.{accept_all}
use vscpl1drv_can4vscp.Queues.{write_msg}
use vscpl1drv_can4vscp.Queues.Bounds.{write_msg-bounded}
use vscpl1drv_can4vscp.Queues.Fifo.{passing, take, read_all, read_all-accept_all}
use vscpl1drv_can4vscp.Tests.Example.{example_platform, list_dllist-IsFifo, open_driver}

abbrev pub message : CanalMsg
message = record { flags = 1; obid = 0; id = 3; size_data = 1; bytes = 7 ∷ []; timestamp = 0 }

abbrev two_messages : List CanalMsg
two_messages = message ∷ record message { id = 4 } ∷ []

read_all-accept_all_example :
    let queue = take max_receive (passing example_platform open_driver two_messages) in
    read_all example_platform
      (suc (length queue))
      (accept_all example_platform two_messages open_driver)
    ≡ (queue, fifo_empty)
unfolding construct
read_all-accept_all_example =
    read_all-accept_all example_platform list_dllist-IsFifo two_messages open_driver refl

write_msg-bounded_example :
    let r = write_msg example_platform (some message) open_driver in
    (length r.0.transmit_list ≤ suc max_send)
    × (((true ≡ false) × (r ≡ (open_driver, not_open)))
        ⊎ ((true ≡ true) × (max_send < 0) × (r ≡ (open_driver, fifo_full)))
        ⊎ ((true ≡ true)
            × (0 ≤ max_send)
            × (r.1 ≡ success)
            × (r.0.transmit_list ≡ message ∷ [])
            × (r.0.transmit_data_get_sem ≡ 1)))
unfolding construct
write_msg-bounded_example =
    write_msg-bounded example_platform list_dllist-IsFifo message open_driver (omega arith)

do_filter_ignores_flags_example :
    do_filter example_platform (record open_driver { mask = 0xff }) (record message { flags = 2 })
    ≡ do_filter example_platform (record open_driver { mask = 0xff }) message
do_filter_ignores_flags_example =
    do_filter_ignores_flags example_platform (record open_driver { mask = 0xff }) message 2
      (λ e. omega arith) (λ e. omega arith)
