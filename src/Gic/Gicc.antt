-- ===== src/Gic/Gicc.antt =====
-- include/gic_v3.h: the registers of the CPU interface, by their addresses.
use nbos.Base.{ℕ, ◌+◌}
use nbos.Gic.Gicd.{gic_base}

abbrev pub base : ℕ
base = gic_base + 0x10000

abbrev pub ctlr : ℕ
ctlr = base + 0x000

abbrev pub pmr : ℕ
pmr = base + 0x004

abbrev pub bpr : ℕ
bpr = base + 0x008

abbrev pub iar : ℕ
iar = base + 0x00c

abbrev pub eoir : ℕ
eoir = base + 0x010
