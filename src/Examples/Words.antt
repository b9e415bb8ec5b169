-- ===== src/Examples/Words.antt =====
-- Size codes and words.
use preemptdb.Prelude.{ℕ, ◌+◌, ◌*◌, ◌^◌, ◌≡◌, ◌≤◌, ◌<◌, refl, some, arith}
use preemptdb.FatPtr.{asi_type, asi_log, asi_segment, size_code, offset}
use preemptdb.FatPtr.Lsn
use preemptdb.FatPtr.Types.{Lsn-round_trip}
use preemptdb.SizeEncode.{Encoded, encode_size_aligned, decode_size, decode_size_aligned}
use preemptdb.SizeEncode.Search.{encode_size_aligned_least}

encode_size_aligned_least_example :
    (e : Encoded) × (encode_size_aligned 1000 4 ≡ some e)
    × (e.code < 255)
    × (1000 ≤ decode_size e.code * 2 ^ 4)
    × ((j : ℕ) → j < e.code → decode_size j * 2 ^ 4 < 1000)
    × (e.size ≡ decode_size_aligned e.code 4)
encode_size_aligned_least_example =
    encode_size_aligned_least 1000 4 60 refl (omega arith) (omega arith) (omega arith)

Lsn-round_trip_example :
    let ptr = Lsn.to_ptr (Lsn.make 3 70000 5 0x2a) in
    (asi_type ptr ≡ asi_log)
    × (asi_segment ptr ≡ 5)
    × (size_code ptr ≡ 0x2a)
    × (offset ptr ≡ 3 * 2 ^ 40 + 70000)
    × (Lsn.from_ptr ptr ≡ some (Lsn.make 3 70000 5 0xff))
Lsn-round_trip_example =
    Lsn-round_trip 3 70000 5 0x2a (omega arith) (omega arith) (omega arith) (omega arith)
