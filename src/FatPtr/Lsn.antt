-- ===== src/FatPtr/Lsn.antt =====
-- `struct LSN` of dbcore/sm-common.h: a log's number and an offset in that log.
use preemptdb.Prelude.{ℕ, ◌-◌, ◌/◌, ◌^◌, bit_and, bit_or, Option, none, some, ◌==◌, if◌then◌else◌}
use mathlib.Core.Path.{◌≡◌, refl}
use preemptdb.SizeEncode.{invalid_size_code}
use preemptdb.FatPtr.{shl, asi_flag, asi_log, asi_type, asi_segment, offset}

unfoldable pub make : ℕ → ℕ → ℕ → ℕ → ℕ
make logid loff segnum size =
    bit_or (bit_or (bit_or (shl logid 56) (shl loff 16)) (shl segnum 8)) size

unfoldable pub to_ptr : ℕ → ℕ
to_ptr val = bit_or val (asi_flag asi_log)

unfoldable pub logid : ℕ → ℕ
logid val = val / 2 ^ 56

unfoldable pub loffset : ℕ → ℕ
loffset val = bit_and (val / 2 ^ 16) (2 ^ 40 - 1)

unfoldable pub segment : ℕ → ℕ
segment val = bit_and (val / 2 ^ 8) 0x0f

-- `none` is the fatal check of the address space; the size code is not passed on.
pub from_ptr : ℕ → Option ℕ
from_ptr ptr =
    if asi_type ptr == asi_log
    then some (
        make (offset ptr / 2 ^ 40) (bit_and (offset ptr) (2 ^ 40 - 1)) (asi_segment ptr)
          invalid_size_code)
    else none

pub from_ptr_lem :
    (ptr l o s : ℕ)
    → asi_type ptr ≡ asi_log
    → offset ptr / 2 ^ 40 ≡ l
    → bit_and (offset ptr) (2 ^ 40 - 1) ≡ o
    → asi_segment ptr ≡ s
    → from_ptr ptr ≡ some (make l o s invalid_size_code)
unfolding from_ptr
from_ptr_lem ptr l o s typed logs offs seg = rw (typed, logs, offs, seg) refl
