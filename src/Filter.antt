-- ===== src/Filter.antt =====
-- src/common/can4vscpobj.cpp: `doFilter`, `setFilter`, `setMask`. The constants 80000000 and 40000000
-- stand in the source in decimal.
pub mod Laws
use vscpl1drv_can4vscp.Prelude.{
  ℕ, ◌%◌, ◌^◌, Bool, true, false, not, ◌==◌, if◌then◌else◌, bit_and, bit_or, bit_xor,
}
use vscpl1drv_can4vscp.Message.{CanalMsg}
use vscpl1drv_can4vscp.Platform.{Platform}
use vscpl1drv_can4vscp.Driver.{Driver, Code, success}

unfoldable pub do_filter : Platform → Driver → CanalMsg → Bool
do_filter p d m =
    let whole = bit_and m.id 0x1fffffff in
    let typed =
      if not (bit_or m.flags p.idflag_extended == 0)
      then bit_or (bit_and whole 0x1fffffff) 80000000
      else bit_and whole 0x000007ff in
    let requested =
      if not (bit_or m.flags p.idflag_rtr == 0) then bit_or typed 40000000 else typed in
    if d.mask == 0 then true else bit_and (bit_xor d.filter requested) d.mask == 0

unfoldable pub set_filter : ℕ → Driver → Driver × Code
set_filter filter d = (record d { filter = filter % 2 ^ 32 }, success)

unfoldable pub set_mask : ℕ → Driver → Driver × Code
set_mask mask d = (record d { mask = mask % 2 ^ 32 }, success)
