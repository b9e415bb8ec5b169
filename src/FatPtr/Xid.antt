-- ===== src/FatPtr/Xid.antt =====
-- `struct XID` of dbcore/sm-common.h: an epoch and a local part.
use preemptdb.Prelude.{ℕ, ◌/◌, ◌%◌, ◌^◌, bit_or}
use preemptdb.SizeEncode.{invalid_size_code}
use preemptdb.FatPtr.{shl, asi_flag, asi_xid}

unfoldable pub make : ℕ → ℕ → ℕ
make e i = bit_or (bit_or (shl (bit_or (shl e 32) i) 16) (asi_flag asi_xid)) invalid_size_code

unfoldable pub to_ptr : ℕ → ℕ
to_ptr val = bit_or val invalid_size_code

unfoldable pub epoch : ℕ → ℕ
epoch val = val / 2 ^ 48

unfoldable pub local : ℕ → ℕ
local val = val / 2 ^ 16 % 2 ^ 32
