-- ===== src/Filter/Laws.antt =====
-- Laws of the filter, `doFilter` of src/common/can4vscpobj.cpp.
use vscpl1drv_can4vscp.Prelude.{ℕ, ◌^◌, ◌*◌, true, ==-ne, bit_or, ◌≡◌, ◌≢◌, arith}
use vscpl1drv_can4vscp.Prelude.Bits.{bit_or-ne_zero}
use vscpl1drv_can4vscp.Message.{CanalMsg}
use vscpl1drv_can4vscp.Platform.{Platform}
use vscpl1drv_can4vscp.Driver.{Driver}
use vscpl1drv_can4vscp.Filter.{do_filter, set_mask}

-- With the mask 0, set by setMask in any state, every message is accepted, whatever the filter.
pub do_filter-set_mask_zero :
    (p : Platform) (d : Driver) (k : ℕ) (m : CanalMsg)
    → do_filter p (set_mask (k * 2 ^ 32) d).0 m ≡ true
unfolding do_filter set_mask
do_filter-set_mask_zero p d k m = ground arith

-- The filter's answer does not depend on the message's flags: standard and extended frames, data
-- and remote frames are treated alike, where the two flag bits are not 0.
pub do_filter_ignores_flags :
    (p : Platform) (d : Driver) (m : CanalMsg) (flags : ℕ)
    → p.idflag_extended ≢ 0
    → p.idflag_rtr ≢ 0
    → do_filter p d (record m { flags = flags }) ≡ do_filter p d m
unfolding do_filter
do_filter_ignores_flags p d m flags he hr = rw (
  ==-ne (bit_or flags p.idflag_extended) 0 (bit_or-ne_zero flags p.idflag_extended he),
  ==-ne (bit_or m.flags p.idflag_extended) 0 (bit_or-ne_zero m.flags p.idflag_extended he),
  ==-ne (bit_or flags p.idflag_rtr) 0 (bit_or-ne_zero flags p.idflag_rtr hr),
  ==-ne (bit_or m.flags p.idflag_rtr) 0 (bit_or-ne_zero m.flags p.idflag_rtr hr),
)
