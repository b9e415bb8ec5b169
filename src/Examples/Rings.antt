-- ===== src/Examples/Rings.antt =====
-- A ring of four slots whose entries wrap around its end.
use preemptdb.Prelude.{ℕ, ◌≡◌, refl, false, [], ◌∷◌, ◌++◌, arith}
use preemptdb.RingQueue.{RingQueue, next_idx, is_empty, is_full, pop, front, push}
use preemptdb.RingQueue.Fifo.{IsValid, contents, push-contents, pop-contents}

abbrev ring : RingQueue ℕ
ring = record { array = λ i. i; start_idx = 3; end_idx = 1; capacity = 4 }

ring-IsValid : IsValid ring
ring-IsValid = record { start = omega arith; end = omega arith; small = omega arith }

push-contents_example :
    (contents (push 7 ring) ≡ contents ring ++ 7 ∷ [])
    × (is_empty (push 7 ring) ≡ false)
    × IsValid (push 7 ring)
unfolding is_full next_idx
push-contents_example = push-contents 7 ring ring-IsValid refl

pop-contents_example :
    (contents ring ≡ front ring ∷ contents (pop ring))
    × (is_full (pop ring) ≡ false)
    × IsValid (pop ring)
unfolding is_empty
pop-contents_example = pop-contents ring ring-IsValid refl
