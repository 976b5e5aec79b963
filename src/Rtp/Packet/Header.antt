-- ===== src/Rtp/Packet/Header.antt =====
-- What the header words and the two bytes of the fragment header say.
use rtp_server.Common.{
  ℕ, ◌+◌, ◌*◌, ◌/◌, ◌%◌, ◌^◌, ◌≤◌, ◌<◌, ◌≡◌, ◌↔◌, refl, ◌⊎◌, inl, inr, Bool, true, false, arith,
  ◌&&◌, ◌==◌, ==_iff, if◌then◌else◌, holds_below, holds_below_lem, bit_or-disjoint,
}
use rtp_server.Rtp.Packet.{
  first_word, max_size, fu_indicator, fu_header, fu_a_type, ser_bits, to_size, remaining_of,
}

first_word-sum :
    (seq : ℕ) (video : Bool)
    → seq < 2 ^ 16
    → first_word seq video ≡ (if video then 2 ^ 15 + 32 else 2 ^ 15) * 2 ^ 16 + seq
unfolding first_word
first_word-sum seq true h = bit_or-disjoint 16 (2 ^ 15 + 32) seq h
first_word-sum seq false h = bit_or-disjoint 16 (2 ^ 15) seq h

-- For every 16-bit sequence number, the first header word has version 2, no marker, payload type 32
-- for video and 0 for audio, and the sequence number in its lower half.
pub first_word_fields :
    (seq : ℕ) (video : Bool)
    → seq < 2 ^ 16
    → (first_word seq video / 2 ^ 30 ≡ 2)
      × (first_word seq video / 2 ^ 23 % 2 ^ 7 ≡ 0)
      × (first_word seq video / 2 ^ 16 % 2 ^ 7 ≡ (if video then 32 else 0))
      × (first_word seq video % 2 ^ 16 ≡ seq)
first_word_fields seq true h = omega (arith, first_word-sum seq true h)
first_word_fields seq false h = omega (arith, first_word-sum seq false h)

indicator_table : holds_below 256 (λ n. fu_indicator n == n / 32 * 32 + 28) ≡ true
unfolding holds_below fu_indicator
indicator_table = refl

-- For every byte at the start of a frame, the indicator keeps its three upper bits, with the type
-- of a fragment below them.
pub fu_indicator_lem : (n : ℕ) → n < 256 → fu_indicator n ≡ n / 32 * 32 + fu_a_type
fu_indicator_lem n h = (==_iff _ _).0 (holds_below_lem 256 _ n indicator_table h)

header_table :
    holds_below 256 (λ n.
      (fu_header (2 ^ 7) n == 2 ^ 7 + n % 16)
      && (fu_header (2 ^ 6) n == 2 ^ 6 + n % 16)
      && (fu_header 0 n == n % 16))
    ≡ true
unfolding holds_below fu_header
header_table = refl

abbrev IsSer : ℕ → Type 0
IsSer ser = (ser ≡ 2 ^ 7) ⊎ (ser ≡ 2 ^ 6) ⊎ (ser ≡ 0)

-- The fragment header holds the bits and, of the type of the unit, the four lower bits.
fu_header-sum : (ser n : ℕ) → IsSer ser → n < 256 → fu_header ser n ≡ ser + n % 16
fu_header-sum ser n s h = pick s (rows (holds_below_lem 256 _ n header_table h))
  where
    Row : Type 0
    Row =
        (fu_header (2 ^ 7) n ≡ 2 ^ 7 + n % 16)
        × (fu_header (2 ^ 6) n ≡ 2 ^ 6 + n % 16)
        × (fu_header 0 n ≡ n % 16)

    rows :
        ((fu_header (2 ^ 7) n == 2 ^ 7 + n % 16)
            && (fu_header (2 ^ 6) n == 2 ^ 6 + n % 16)
            && (fu_header 0 n == n % 16))
          ≡ true
        → Row
    rows e = ground arith

    pick : IsSer ser → Row → fu_header ser n ≡ ser + n % 16
    pick (inl e) r = rw e r.0
    pick (inr (inl e)) r = rw e r.1
    pick (inr (inr e)) r = rw e (omega (arith, r.2))

-- For every byte at the start of a frame and all three settings of the start and end bits, the five
-- lower bits of the fragment header are the type of the unit exactly when that is below 16.
pub fu_header-type :
    (ser n : ℕ)
    → (ser ≡ 2 ^ 7) ⊎ (ser ≡ 2 ^ 6) ⊎ (ser ≡ 0)
    → n < 256
    → (fu_header ser n % 32 ≡ n % 32) ↔ (n % 32 < 16)
fu_header-type ser n s h =
    ((λ e. ground (arith, fu_header-sum ser n s h)), (λ l. ground (arith, fu_header-sum ser n s h)))

-- On the last packet of a frame below 2 ^ 31 bytes that was cut, where `k` packets of 1400 bytes,
-- one at least, are sent and from 1 to 1400 bytes are left, the end bit is set exactly when the
-- frame has 2800 bytes.
pub ser_bits-last :
    (k b : ℕ)
    → 0 < k
    → 0 < b
    → b ≤ max_size
    → b + max_size * k < 2 ^ 31
    → (ser_bits b (max_size * k) ≡ 2 ^ 6) ↔ (b + max_size * k ≡ 2800)
unfolding ser_bits to_size remaining_of
ser_bits-last k b hk hb last small = ((λ e. ground arith), (λ e. ground arith))
