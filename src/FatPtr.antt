-- ===== src/FatPtr.antt =====
-- dbcore/sm-common.h: 64-bit words that carry an address or a timestamp, an address space and a
-- size code: fat pointers, LSNs, XIDs and CSNs. A word is a number below 2 ^ 64.
pub mod Lsn
pub mod Xid
pub mod Csn
pub mod Fields
pub mod Types
use preemptdb.Prelude.{
  ℕ, ◌+◌, ◌-◌, ◌*◌, ◌/◌, ◌%◌, ◌^◌, bit_and, bit_or, Option, none, some, ◌==◌, if◌then◌else◌,
}

abbrev pub word_mod : ℕ
word_mod = 2 ^ 64

abbrev pub asi_log : ℕ
asi_log = 0x10

abbrev pub asi_xid : ℕ
asi_xid = 0x40

abbrev pub asi_csn : ℕ
asi_csn = 0x60

-- `x << n` in 64 bits, and a flag of an address space
abbrev pub shl : ℕ → ℕ → ℕ
shl x n = x * 2 ^ n % word_mod

abbrev pub asi_flag : ℕ → ℕ
asi_flag asi = shl asi 8

unfoldable pub make : ℕ → ℕ → ℕ → ℕ
make n sz_code flags = bit_or (bit_or (shl n 16) sz_code) flags

unfoldable pub offset : ℕ → ℕ
offset ptr = ptr / 2 ^ 16

unfoldable pub size_code : ℕ → ℕ
size_code ptr = bit_and ptr 0xff

unfoldable pub asi : ℕ → ℕ
asi ptr = bit_and (ptr / 2 ^ 8) 0x7f

unfoldable pub asi_type : ℕ → ℕ
asi_type ptr = bit_and (asi ptr) (word_mod - 1 - 0x0f)

unfoldable pub asi_segment : ℕ → ℕ
asi_segment ptr = bit_and (asi ptr) 0x0f

-- -1 is `none`.
pub log_segment : ℕ → Option ℕ
log_segment ptr = if asi_type ptr == asi_log then some (asi_segment ptr) else none
