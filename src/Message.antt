-- ===== src/Message.antt =====
-- The CAN message of the driver's queues (`canalMsg`, with the fields that src/common/can4vscpobj.cpp
-- uses), and the bytes of its identifier and time stamp on the serial line.
pub mod Identifier
use vscpl1drv_can4vscp.Prelude.{ℕ, ◌*◌, ◌/◌, ◌%◌, ◌^◌, List, bit_and, bit_or, [], ◌∷◌}

-- `bytes` is the array `data`, as far as it has been written.
pub record CanalMsg : Type 0 where
  pub flags : ℕ
  pub obid : ℕ
  pub id : ℕ
  pub size_data : ℕ
  pub bytes : List ℕ
  pub timestamp : ℕ

-- `(((uint32_t) b0 << 24) & 0x1f000000) | (b1 << 16) & 0x00ff0000 | ...`, of the identifier and of
-- the time stamp alike.
unfoldable pub masked_word : ℕ → ℕ → ℕ → ℕ → ℕ
masked_word b0 b1 b2 b3 =
    bit_or
      (bit_or
        (bit_or (bit_and (b0 * 2 ^ 24 % 2 ^ 32) 0x1f000000)
          (bit_and (b1 * 2 ^ 16 % 2 ^ 32) 0x00ff0000))
        (bit_and (b2 * 2 ^ 8 % 2 ^ 32) 0x0000ff00))
      (bit_and b3 0x000000ff)

-- The four bytes of the identifier in a transmitted frame, the most significant one first. The
-- mask 0xff is the remainder by 256.
unfoldable pub id_bytes : ℕ → List ℕ
id_bytes id = (id / 2 ^ 24 % 256) ∷ (id / 2 ^ 16 % 256) ∷ (id / 2 ^ 8 % 256) ∷ (id % 256) ∷ []
