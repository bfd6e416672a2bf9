-- ===== src/Cpu/Regs.antt =====
-- Register numbers, bit masks and interrupt vectors of lib/include/emusa80535/emu8051.h. A `reg_`
-- name is an index into the register array, an `sfr_` name a full address.
use emu_sa80535_n.Base.{ℕ, ◌-◌}

abbrev pub reg_acc : ℕ
reg_acc = 0x60

abbrev pub reg_b : ℕ
reg_b = 0x70

abbrev pub reg_psw : ℕ
reg_psw = 0x50

abbrev pub reg_sp : ℕ
reg_sp = 0x01

abbrev pub reg_dpl : ℕ
reg_dpl = 0x02

abbrev pub reg_dph : ℕ
reg_dph = 0x03

abbrev pub reg_p0 : ℕ
reg_p0 = 0x00

abbrev pub reg_p1 : ℕ
reg_p1 = 0x10

abbrev pub reg_p2 : ℕ
reg_p2 = 0x20

abbrev pub reg_p3 : ℕ
reg_p3 = 0x30

abbrev pub reg_ip : ℕ
reg_ip = 0x38

abbrev pub reg_ie : ℕ
reg_ie = 0x28

abbrev pub reg_tmod : ℕ
reg_tmod = 0x09

abbrev pub reg_tcon : ℕ
reg_tcon = 0x08

abbrev pub reg_th0 : ℕ
reg_th0 = 0x0c

abbrev pub reg_tl0 : ℕ
reg_tl0 = 0x0a

abbrev pub reg_th1 : ℕ
reg_th1 = 0x0d

abbrev pub reg_tl1 : ℕ
reg_tl1 = 0x0b

abbrev pub reg_scon : ℕ
reg_scon = 0x18

abbrev pub reg_sbuf : ℕ
reg_sbuf = 0x19

abbrev pub reg_pcon : ℕ
reg_pcon = 0x07

abbrev pub sfr_ien0 : ℕ
sfr_ien0 = 0xa8

abbrev pub sfr_ip0 : ℕ
sfr_ip0 = 0xa9

abbrev pub sfr_ien1 : ℕ
sfr_ien1 = 0xb8

abbrev pub sfr_ip1 : ℕ
sfr_ip1 = 0xb9

abbrev pub sfr_ircon : ℕ
sfr_ircon = 0xc0

abbrev pub sfr_t2con : ℕ
sfr_t2con = 0xc8

abbrev pub sfr_tl2 : ℕ
sfr_tl2 = 0xcc

abbrev pub sfr_th2 : ℕ
sfr_th2 = 0xcd

abbrev pub sfr_adcon : ℕ
sfr_adcon = 0xd8

abbrev pub sfr_addat : ℕ
sfr_addat = 0xd9

abbrev pub sfr_dapr : ℕ
sfr_dapr = 0xda

abbrev pub sfr_p6 : ℕ
sfr_p6 = 0xdb

abbrev pub sfr_p4 : ℕ
sfr_p4 = 0xe8

abbrev pub sfr_p5 : ℕ
sfr_p5 = 0xf8

abbrev pub sfr_p1 : ℕ
sfr_p1 = 0x90

abbrev pub sfr_p3 : ℕ
sfr_p3 = 0xb0

-- `SAB_SFR_INDEX`.
abbrev pub sfr_index : ℕ → ℕ
sfr_index address = address - 0x80
