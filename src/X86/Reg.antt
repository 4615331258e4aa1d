-- ===== src/X86/Reg.antt =====
-- The numbers of the registers in x86.py: `zero` is the hidden one that is read as 0.
use life.Prelude.{ℕ}

abbrev pub zero : ℕ
zero = 0

abbrev pub ax : ℕ
ax = 1

abbrev pub bx : ℕ
bx = 2

abbrev pub cx : ℕ
cx = 3

abbrev pub dx : ℕ
dx = 4

abbrev pub ex : ℕ
ex = 5

abbrev pub fx : ℕ
fx = 6

abbrev pub sp : ℕ
sp = 7

abbrev pub bp : ℕ
bp = 8
