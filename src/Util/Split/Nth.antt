-- ===== src/Util/Split/Nth.antt =====
-- What `find_nth_of` finds.
use rtp_server.Common.{
  ℕ, suc, ◌+◌, ◌-◌, ◌<◌, ◌≡◌, ◌⊎◌, inl, inr, Option, none, some, [], ◌∷◌, arith, ◌==◌, ==_iff,
  Bool-cases, sym, ap, ◌∙◌, if◌then◌else◌, take, get_elem?, Bytes,
}
use rtp_server.Util.Split.{find_nth_from, find_nth_of}

abbrev pub count : ℕ → Bytes → ℕ
count c [] = 0
count c (x ∷ s) = (if x == c then 1 else 0) + count c s

-- `s` holds its `n`-th byte `c` at the index returned, or has fewer of them.
abbrev pub FindsNth : Bytes → ℕ → ℕ → Option ℕ → Type 0
FindsNth s c n none = (n ≡ 0) ⊎ (count c s < n)
FindsNth s c n (some i) = (get_elem? s i ≡ some c) × (count c (take i s) + 1 ≡ n)

-- The same for the loop, `i` bytes behind the start.
abbrev FindsFrom : Bytes → ℕ → ℕ → ℕ → Option ℕ → Type 0
FindsFrom s c n i none = count c s < n
FindsFrom s c n i (some j) =
    (k : ℕ) × (j ≡ i + k) × (get_elem? s k ≡ some c) × (count c (take k s) + 1 ≡ n)

module _ (c : ℕ) where
  FindsFrom-skip :
      (x : ℕ) (s : Bytes) (n m i : ℕ) (r : Option ℕ)
      → m ≡ (if x == c then 1 else 0) + n
      → FindsFrom s c n (i + 1) r
      → FindsFrom (x ∷ s) c m i r
  FindsFrom-skip x s n m i none e h = omega (arith, e)
  FindsFrom-skip x s n m i (some j) e (k, at, byte, cnt) =
      (suc k, omega arith, byte, omega (arith, e))

  find_nth_from-FindsFrom :
      (s : Bytes) (n i : ℕ) → 0 < n → FindsFrom s c n i (find_nth_from s c n i)
  unfolding find_nth_from
  find_nth_from-FindsFrom [] n i h = ground arith
  find_nth_from-FindsFrom (x ∷ s) n i h = elim (Bool-cases (x == c)) [
    | inr miss ↦
        rw miss (
          FindsFrom-skip x s n n i _ (rw miss (omega arith))
            (find_nth_from-FindsFrom s n (i + 1) h))
    | inl hit ↦ rw hit (elim (Bool-cases (n == 1)) [
      | inl last ↦
          rw last
            (0, omega arith, ap some ((==_iff x c).0 hit), sym ((==_iff n 1).0 last ∙ omega arith))
      | inr more ↦ rw more (
          FindsFrom-skip x s (n - 1) n i _ (rw hit (ground arith))
            (find_nth_from-FindsFrom s (n - 1) (i + 1) (ground arith)))
    ])
  ]

FindsNth-start : (s : Bytes) (c n : ℕ) (r : Option ℕ) → FindsFrom s c n 0 r → FindsNth s c n r
FindsNth-start s c n none h = inr h
FindsNth-start s c n (some j) (k, at, byte, cnt) = let e : j ≡ k = omega arith in rw e (byte, cnt)

-- For every text, byte and `n`: an index returned holds the `n`-th such byte, and with none
-- returned `n` is 0 or the text has fewer than `n` of them.
pub find_nth_of-FindsNth : (s : Bytes) (c n : ℕ) → FindsNth s c n (find_nth_of s c n)
unfolding find_nth_of
find_nth_of-FindsNth s c n = elim (Bool-cases (n == 0)) [
  | inl z ↦ rw z (inl ((==_iff n 0).0 z))
  | inr p ↦ rw p (FindsNth-start s c n _ (find_nth_from-FindsFrom c s n 0 (ground arith)))
]
