-- ===== src/FatPtr/Csn.antt =====
-- `struct CSN` of dbcore/sm-common.h.
use preemptdb.Prelude.{ℕ, bit_or}
use preemptdb.SizeEncode.{invalid_size_code}
use preemptdb.FatPtr.{shl, asi_flag, asi_csn}

unfoldable pub make : ℕ → ℕ
make c = bit_or (bit_or (shl c 16) (asi_flag asi_csn)) invalid_size_code

unfoldable pub to_ptr : ℕ → ℕ
to_ptr val = bit_or val invalid_size_code
