-- ===== src/Exception/Messages/Tests.antt =====
-- The texts of exceptions at concrete ones.
use rtp_server.Common.{
  ℕ, ◌≤◌, ◌≡◌, refl, arith, [], ◌∷◌, length, length-replicate, replicate, codes, Bytes, All,
  all-NoneOf, get_elem?, some,
}
use rtp_server.Util.RingBuffer.{RingBuffer}
use rtp_server.Exception.Messages.{
  plain, view, IsBuffer, new_exception, what, raise, addresses, what-raise, new_exception-past_end,
}

-- The buffer, with `n` bytes of the heap behind it.
heap_of : ℕ → RingBuffer
heap_of n = record { memory = replicate n 0; i = 0; n = 4096 }

heap_of-IsBuffer : (n : ℕ) → 4096 ≤ n → IsBuffer (heap_of n)
unfolding heap_of
heap_of-IsBuffer n h = record {
  at_start = refl;
  size = refl;
  held = omega (arith, length-replicate {A = ℕ} n 0);
}

what-raise_example :
    All
      (λ address.
        what address
          (raise (plain (codes "no session") ∷ view (codes "no port") ∷ []) (heap_of 5000))
        ≡ codes "no port")
      (addresses (plain (codes "no session") ∷ view (codes "no port") ∷ []) (heap_of 5000))
what-raise_example =
    what-raise (plain (codes "no session") ∷ []) (view (codes "no port")) (heap_of 5000)
      (heap_of-IsBuffer 5000 (omega arith))
      (record { no_zero = all-NoneOf 0 (codes "no session") refl; short = omega arith }, tt)
      (record { no_zero = all-NoneOf 0 (codes "no port") refl; short = omega arith })

long_text : ℕ → Bytes
long_text n = replicate n b'x'

length-long_text : (n : ℕ) → length (long_text n) ≡ n
unfolding long_text
length-long_text n = length-replicate n b'x'

length-heap_of : (n : ℕ) → length (heap_of n).memory ≡ n
unfolding heap_of
length-heap_of n = length-replicate n 0

new_exception-past_end_example :
    ((heap_of 5000).n ≤ length (long_text 4096))
    × (get_elem?
          (new_exception (view (long_text 4096)) (heap_of 5000)).1.memory
          (length (long_text 4096))
        ≡ some 0)
new_exception-past_end_example =
    new_exception-past_end (long_text 4096) (heap_of 5000) (heap_of-IsBuffer 5000 (omega arith))
      (omega (arith, length-long_text 4096))
      (omega (arith, length-long_text 4096, length-heap_of 5000))
