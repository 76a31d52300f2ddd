-- ===== src/Frame.antt =====
-- src/common/can4vscp-protocol.h and can4vscp-protocol.cpp: byte stuffing, frame construction and
-- the CRC check. `crc8` is the update of a running CRC by one byte, of the vscp library; it is a
-- parameter. A pointer into a frame buffer is the memory and an offset into it.
pub mod Encode
pub mod Check
use vscpl1drv_can4vscp.Prelude.{
  ℕ, zero, suc, ◌+◌, ◌-◌, ◌/◌, ◌%◌, ◌^◌, Bool, false, List, [], ◌∷◌, Option, none, some, ◌==◌,
  if◌then◌else◌,
}
use vscpl1drv_can4vscp.Prelude.Memory.{Memory, update}
use mathlib.Core.Option
use mathlib.Core.Option.{get_or}

abbrev pub dle : ℕ
dle = 0x10

abbrev pub stx : ℕ
stx = 0x02

abbrev pub etx : ℕ
etx = 0x03

-- `*pcrc`, where `pcrc` is not NULL, and the number of bytes written.
pub record Escaped : Type 0 where
  pub buf : Memory
  pub crc : Option ℕ
  pub written : ℕ

-- The state of `can4vscp_buildFrame`: the buffer, the running CRC and `pos`, a `uint16_t`.
pub record Writer : Type 0 where
  pub buf : Memory
  pub crc : ℕ
  pub pos : ℕ

module _ (crc8 : ℕ → ℕ → ℕ) where
  unfoldable pub add_with_escape : Memory → ℕ → ℕ → Option ℕ → Escaped
  add_with_escape p at c crc =
      if c == dle
      then record {
        buf = update (update p at dle) (at + 1) dle;
        crc = Option.map (λ k. crc8 k dle) crc;
        written = 2;
      }
      else record { buf = update p at c; crc = Option.map (λ k. crc8 k c) crc; written = 1 }

  -- `pbuf[pos++] = c`
  unfoldable pub put : ℕ → Writer → Writer
  put c w = record w { buf = update w.buf w.pos c; pos = (w.pos + 1) % 2 ^ 16 }

  -- `pbuf[pos++] = c; crc8(&crc, c)`
  unfoldable pub put_crc : ℕ → Writer → Writer
  put_crc c w = record w {
    buf = update w.buf w.pos c;
    crc = crc8 w.crc c;
    pos = (w.pos + 1) % 2 ^ 16;
  }

  -- `pos += can4vscp_addWithEscape(pbuf + pos, c, &crc)`
  unfoldable pub put_escaped : ℕ → Writer → Writer
  unfolding add_with_escape
  put_escaped c w =
      let e = add_with_escape w.buf w.pos c (some w.crc) in
      record { buf = e.buf; crc = get_or e.crc w.crc; pos = (w.pos + e.written) % 2 ^ 16 }

  -- The payload loop.
  unfoldable pub put_payload : List ℕ → Writer → Writer
  put_payload [] w = w
  put_payload (c ∷ cs) w = put_payload cs (put_escaped c w)

  -- `pos += can4vscp_addWithEscape(pbuf + pos, crc, NULL)`
  unfoldable pub put_checksum : Writer → Writer
  unfolding add_with_escape
  put_checksum w =
      let e = add_with_escape w.buf w.pos w.crc none in
      record w { buf = e.buf; pos = (w.pos + e.written) % 2 ^ 16 }

  -- The buffer, and in `pos` the length that is returned.
  unfoldable pub build_frame : Memory → ℕ → ℕ → ℕ → ℕ → List ℕ → Writer
  unfolding put put_crc put_escaped put_payload put_checksum
  build_frame buf frame_type channel seq declared payload =
      let start = put stx (put dle (record { buf = buf; crc = 0; pos = 0 })) in
      let typed = put_crc channel (put_crc frame_type start) in
      let numbered = put_escaped seq typed in
      let sized = put_escaped (declared % 256) (put_escaped (declared / 2 ^ 8 % 256) numbered) in
      put etx (put dle (put_checksum (put_payload payload sized)))

  -- The loop of `can4vscp_checkCRC` over the first `n` bytes.
  unfoldable pub crc_loop : Memory → ℕ → ℕ
  crc_loop buf zero = 0
  crc_loop buf (suc n) = crc8 (crc_loop buf n) (buf n)

  unfoldable pub check_crc : Memory → ℕ → Bool
  unfolding crc_loop
  check_crc buf len = if len == 0 then false else crc_loop buf ((len - 1) % 2 ^ 16) == buf (len - 1)
