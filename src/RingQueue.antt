-- ===== src/RingQueue.antt =====
-- dbcore/ring-buff-queue.h: the ring between one producer and one consumer. The indices are
-- `uint32_t`, and one slot stays free to tell a full ring from an empty one.
pub mod Fifo
use preemptdb.Prelude.{ℕ, ◌+◌, ◌%◌, ◌^◌, Bool, ◌==◌, if◌then◌else◌}

-- `array` is `data`, read and written below `capacity` only.
pub record RingQueue {ℓ} (T : Type ℓ) : Type ℓ where
  pub array : ℕ → T
  pub start_idx : ℕ
  pub end_idx : ℕ
  pub capacity : ℕ

-- `(i + 1) % capacity`
unfoldable pub next_idx : ℕ → ℕ → ℕ
next_idx i capacity = (i + 1) % 2 ^ 32 % capacity

module _ {ℓ} {T : Type ℓ} where
  pub init : (ℕ → T) → ℕ → RingQueue T
  init array capacity = record {
    array = array;
    start_idx = 0;
    end_idx = 0;
    capacity = (capacity + 1) % 2 ^ 32;
  }

  unfoldable pub is_empty : RingQueue T → Bool
  is_empty q = q.start_idx == q.end_idx

  unfoldable pub is_full : RingQueue T → Bool
  is_full q = next_idx q.end_idx q.capacity == q.start_idx

  unfoldable pub pop : RingQueue T → RingQueue T
  pop q = record q { start_idx = next_idx q.start_idx q.capacity }

  unfoldable pub front : RingQueue T → T
  front q = q.array q.start_idx

  unfoldable pub push : T → RingQueue T → RingQueue T
  push t q = record q {
    array = λ i. if i == q.end_idx then t else q.array i;
    end_idx = next_idx q.end_idx q.capacity;
  }
