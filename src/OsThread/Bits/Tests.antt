-- ===== src/OsThread/Bits/Tests.antt =====
-- Leading zeros of concrete words.
use gamecube_port.Base.{◌≡◌, refl}
use gamecube_port.OsThread.{cntlzw, leading_zeros}

cntlzw_one : cntlzw 1 ≡ 31
unfolding cntlzw leading_zeros
cntlzw_one = refl
