-- ===== src/Gic/Gicd.antt =====
-- include/gic_v3.h: the registers of the distributor, by their addresses.
use nbos.Base.{ℕ, ◌+◌, ◌*◌}

abbrev pub gic_base : ℕ
gic_base = 0xffff_0000_3fe0_0000

abbrev pub ctlr : ℕ
ctlr = gic_base + 0x000

abbrev pub isenabler : ℕ → ℕ
isenabler n = gic_base + 0x100 + n * 4

abbrev pub icenabler : ℕ → ℕ
icenabler n = gic_base + 0x180 + n * 4

abbrev pub ispendr : ℕ → ℕ
ispendr n = gic_base + 0x200 + n * 4

abbrev pub icpendr : ℕ → ℕ
icpendr n = gic_base + 0x280 + n * 4

abbrev pub ipriorityr : ℕ → ℕ
ipriorityr n = gic_base + 0x400 + n * 4

abbrev pub itargetsr : ℕ → ℕ
itargetsr n = gic_base + 0x800 + n * 4

abbrev pub icfgr : ℕ → ℕ
icfgr n = gic_base + 0xc00 + n * 4
