-- ===== src/Vme/Chip/Codes.antt =====
-- vmebridge/driver/tsi148.h: address sizes, access types, transfer modes and data widths.
use ht_drivers.Base.{ℕ}

abbrev pub a16 : ℕ
a16 = 0

abbrev pub a24 : ℕ
a24 = 1

abbrev pub a32 : ℕ
a32 = 2

abbrev pub a64 : ℕ
a64 = 4

abbrev pub crcsr : ℕ
crcsr = 5

abbrev pub user1 : ℕ
user1 = 8

abbrev pub user2 : ℕ
user2 = 9

abbrev pub user3 : ℕ
user3 = 10

abbrev pub user4 : ℕ
user4 = 11

abbrev pub sct : ℕ
sct = 0

abbrev pub blt : ℕ
blt = 1

abbrev pub mblt : ℕ
mblt = 2

abbrev pub v2evme : ℕ
v2evme = 3

abbrev pub v2esst : ℕ
v2esst = 4

abbrev pub v2esstb : ℕ
v2esstb = 5

abbrev pub user : ℕ
user = 0

abbrev pub super : ℕ
super = 1

abbrev pub data_cycle : ℕ
data_cycle = 0

abbrev pub prog : ℕ
prog = 1

abbrev pub dw_16 : ℕ
dw_16 = 0

abbrev pub dw_32 : ℕ
dw_32 = 1
