-- ===== src/Cpu/Masks.antt =====
-- Bit masks of lib/include/emusa80535/emu8051.h.
use emu_sa80535_n.Base.{ℕ}

abbrev pub psw_p : ℕ
psw_p = 0x01

abbrev pub psw_ov : ℕ
psw_ov = 0x04

abbrev pub psw_rs0 : ℕ
psw_rs0 = 0x08

abbrev pub psw_rs1 : ℕ
psw_rs1 = 0x10

abbrev pub psw_ac : ℕ
psw_ac = 0x40

abbrev pub psw_c : ℕ
psw_c = 0x80

abbrev pub ie_ex0 : ℕ
ie_ex0 = 0x01

abbrev pub ie_et0 : ℕ
ie_et0 = 0x02

abbrev pub ie_ex1 : ℕ
ie_ex1 = 0x04

abbrev pub ie_et1 : ℕ
ie_et1 = 0x08

abbrev pub ie_es : ℕ
ie_es = 0x10

abbrev pub ie_et2 : ℕ
ie_et2 = 0x20

abbrev pub ie_ea : ℕ
ie_ea = 0x80

abbrev pub tcon_it0 : ℕ
tcon_it0 = 0x01

abbrev pub tcon_ie0 : ℕ
tcon_ie0 = 0x02

abbrev pub tcon_it1 : ℕ
tcon_it1 = 0x04

abbrev pub tcon_ie1 : ℕ
tcon_ie1 = 0x08

abbrev pub tcon_tr0 : ℕ
tcon_tr0 = 0x10

abbrev pub tcon_tf0 : ℕ
tcon_tf0 = 0x20

abbrev pub tcon_tr1 : ℕ
tcon_tr1 = 0x40

abbrev pub tcon_tf1 : ℕ
tcon_tf1 = 0x80

abbrev pub tmod_m0_0 : ℕ
tmod_m0_0 = 0x01

abbrev pub tmod_m1_0 : ℕ
tmod_m1_0 = 0x02

abbrev pub tmod_ct_0 : ℕ
tmod_ct_0 = 0x04

abbrev pub tmod_gate_0 : ℕ
tmod_gate_0 = 0x08

abbrev pub tmod_m0_1 : ℕ
tmod_m0_1 = 0x10

abbrev pub tmod_m1_1 : ℕ
tmod_m1_1 = 0x20

abbrev pub tmod_ct_1 : ℕ
tmod_ct_1 = 0x40

abbrev pub tmod_gate_1 : ℕ
tmod_gate_1 = 0x80

abbrev pub ip_px0 : ℕ
ip_px0 = 0x01

abbrev pub ip_pt0 : ℕ
ip_pt0 = 0x02

abbrev pub ip_px1 : ℕ
ip_px1 = 0x04

abbrev pub ip_pt1 : ℕ
ip_pt1 = 0x08

abbrev pub ip_ps : ℕ
ip_ps = 0x10

abbrev pub scon_ri : ℕ
scon_ri = 0x01

abbrev pub scon_ti : ℕ
scon_ti = 0x02

abbrev pub scon_rb8 : ℕ
scon_rb8 = 0x04

abbrev pub scon_tb8 : ℕ
scon_tb8 = 0x08

abbrev pub scon_ren : ℕ
scon_ren = 0x10

abbrev pub scon_sm2 : ℕ
scon_sm2 = 0x20

abbrev pub scon_sm1 : ℕ
scon_sm1 = 0x40

abbrev pub scon_sm0 : ℕ
scon_sm0 = 0x80

abbrev pub pcon_smod : ℕ
pcon_smod = 0x80

abbrev pub ien1_exen2 : ℕ
ien1_exen2 = 0x80

abbrev pub ircon_iadc : ℕ
ircon_iadc = 0x01

abbrev pub ircon_iex2 : ℕ
ircon_iex2 = 0x02

abbrev pub ircon_iex3 : ℕ
ircon_iex3 = 0x04

abbrev pub ircon_iex4 : ℕ
ircon_iex4 = 0x08

abbrev pub ircon_iex5 : ℕ
ircon_iex5 = 0x10

abbrev pub ircon_iex6 : ℕ
ircon_iex6 = 0x20

abbrev pub ircon_tf2 : ℕ
ircon_tf2 = 0x40

abbrev pub ircon_exf2 : ℕ
ircon_exf2 = 0x80

abbrev pub t2con_t2i0 : ℕ
t2con_t2i0 = 0x01

abbrev pub t2con_t2i1 : ℕ
t2con_t2i1 = 0x02

abbrev pub t2con_t2r1 : ℕ
t2con_t2r1 = 0x10

abbrev pub t2con_i2fr : ℕ
t2con_i2fr = 0x20

abbrev pub t2con_i3fr : ℕ
t2con_i3fr = 0x40

abbrev pub t2con_t2ps : ℕ
t2con_t2ps = 0x80

abbrev pub adcon_mx : ℕ
adcon_mx = 0x07

abbrev pub adcon_adm : ℕ
adcon_adm = 0x08

abbrev pub adcon_bsy : ℕ
adcon_bsy = 0x10

abbrev pub adcon_bd : ℕ
adcon_bd = 0x80
