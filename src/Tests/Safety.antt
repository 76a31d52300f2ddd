-- ===== src/Tests/Safety.antt =====
-- Frames whose declared size fits the receive buffer, and one that does not.
use vscpl1drv_can4vscp.Prelude.{◌≡◌, refl, List, [], ◌∷◌, arith}
use vscpl1drv_can4vscp.Rx.{Read, serial_data}
use vscpl1drv_can4vscp.Rx.RoundTrip.{chars}
use vscpl1drv_can4vscp.Driver.{Driver, construct, ok, fault}
use vscpl1drv_can4vscp.Receive.{read_serial_data}
use vscpl1drv_can4vscp.Receive.Safety.{read_serial_data-returns, read_serial_data_overread}
use vscpl1drv_can4vscp.Tests.Example.{example_platform, open_driver}

-- A CANAL frame with one message, and a frame of six bytes that declares 65535.
abbrev canal_reads : List Read
canal_reads = chars (16 ∷ 2 ∷ 1 ∷ 0 ∷ 7 ∷ 0 ∷ 6 ∷ 0 ∷ 0 ∷ 0 ∷ 3 ∷ 1 ∷ 9 ∷ 27 ∷ 16 ∷ 3 ∷ []) []

abbrev long_reads : List Read
long_reads = chars (16 ∷ 2 ∷ 0 ∷ 0 ∷ 7 ∷ 255 ∷ 255 ∷ 7 ∷ 16 ∷ 3 ∷ []) []

read_serial_data-returns_example :
    (r : Driver × List Read) × (read_serial_data example_platform 1 (λ i. i) canal_reads open_driver
      ≡ ok r)
unfolding serial_data construct
read_serial_data-returns_example =
    read_serial_data-returns example_platform (omega arith) 1 (λ i. i) canal_reads open_driver
      (omega arith)

read_serial_data_overread_example :
    read_serial_data example_platform 1 (λ i. i) long_reads open_driver ≡ fault
unfolding serial_data construct
read_serial_data_overread_example =
    read_serial_data_overread example_platform 1 (λ i. i) long_reads open_driver refl refl
      (omega arith)
