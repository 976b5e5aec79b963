-- ===== src/Util/Split/Pieces.antt =====
-- The loop of `split` against one walk over the text, and what its parts are.
use rtp_server.Common.{
  ℕ, zero, suc, ◌+◌, ◌-◌, ◌≤◌, ◌<◌, ◌≡◌, refl, sym, ap, ◌∙◌, ◌≢◌, inl, inr, Bool, true, none, some,
  List, [], ◌∷◌, ◌++◌, arith, ltb, ◌==◌, if◌then◌else◌, Bool-cases, Option-cases, length, take,
  drop, length-drop, Bytes, NoneOf, find, lt→ltb, ltb→lt, lt-leb, drop-drop, ==_ne, All,
}
use rtp_server.Util.Split.{split_from, split, extend_first, pieces}

-- What one round of the loop does to the text that is left.
pieces-find_failed :
    (c x : ℕ) (s : Bytes) → find (c ∷ []) (x ∷ s) ≡ none → pieces c (x ∷ s) ≡ (x ∷ s) ∷ []
unfolding pieces find
pieces-find_failed c x [] h = ground arith
pieces-find_failed c x (y ∷ s) h = ground (arith, pieces-find_failed c y s)

pieces-find :
    (c : ℕ) (s : Bytes) (k : ℕ)
    → find (c ∷ []) s ≡ some k
    → pieces c s ≡ take k s ∷ pieces c (drop (suc k) s)
unfolding pieces find
pieces-find c [] k h = ground arith
pieces-find c (x ∷ s) zero h = ground arith
pieces-find c (x ∷ s) (suc k) h = ground (arith, pieces-find c s k)

drop_cons : (s : Bytes) (i : ℕ) → i < length s → (x : ℕ) × (t : Bytes) × (drop i s ≡ x ∷ t)
drop_cons [] i h = absurd (omega arith)
drop_cons (x ∷ s) zero h = (x, s, refl)
drop_cons (x ∷ s) (suc i) h = drop_cons s i (omega arith)

drop_past : (s : Bytes) (i : ℕ) → length s ≤ i → drop i s ≡ []
drop_past [] zero h = refl
drop_past [] (suc i) h = refl
drop_past (x ∷ s) zero h = absurd (omega arith)
drop_past (x ∷ s) (suc i) h = drop_past s i (omega arith)

take_past : (s : Bytes) (i : ℕ) → length s ≤ i → take i s ≡ s
take_past [] zero h = refl
take_past [] (suc i) h = refl
take_past (x ∷ s) zero h = absurd (omega arith)
take_past (x ∷ s) (suc i) h = ap (◌∷◌ x) (take_past s i (omega arith))

module _ (c f : ℕ) (s : Bytes) (i : ℕ) where
  round_last :
      i < length s
      → find (c ∷ []) (drop i s) ≡ none
      → split_from (suc f) s c i ≡ drop i s ∷ split_from f s c (length s + 1)
  unfolding split_from
  round_last h e =
      rw (lt→ltb i (length s) h, lt-leb h, e)
        (ap (λ p. p ∷ split_from f s c (length s + 1))
          (take_past (drop i s) (length s - i) (omega (arith, length-drop i s))))

  round_next :
      (k : ℕ)
      → i < length s
      → find (c ∷ []) (drop i s) ≡ some k
      → split_from (suc f) s c i ≡ take k (drop i s) ∷ split_from f s c (i + k + 1)
  unfolding split_from
  round_next k h e =
      let d : i + k - i ≡ k = omega arith in rw (lt→ltb i (length s) h, lt-leb h, e, d)

split_from-end : (f c : ℕ) (s : Bytes) (i : ℕ) → length s ≤ i → split_from f s c i ≡ []
unfolding split_from
split_from-end zero c s i h = refl
split_from-end (suc f) c s i h = ground arith

pieces-drop_last :
    (c i : ℕ) (s : Bytes)
    → i < length s
    → find (c ∷ []) (drop i s) ≡ none
    → pieces c (drop i s) ≡ drop i s ∷ []
pieces-drop_last c i s h e =
    let (x, t, d) = drop_cons s i h in rw d (pieces-find_failed c x t (rw d at e))

split_from-pieces :
    (f c : ℕ) (s : Bytes) (i : ℕ) → length s < f + i → split_from f s c i ≡ pieces c (drop i s)
split_from-pieces zero c s i h =
    split_from-end zero c s i (omega arith)
    ∙ rw (drop_past s i (omega arith)) (unfold pieces in refl)
split_from-pieces (suc f) c s i h = elim (Bool-cases (ltb i (length s))) [
  | inr past ↦
      let over : length s ≤ i = ground arith in
      split_from-end (suc f) c s i over ∙ rw (drop_past s i over) (unfold pieces in refl)
  | inl inside ↦ elim (Option-cases (find (c ∷ []) (drop i s))) [
    | inl e ↦
        round_last c f s i (ltb→lt i (length s) inside) e
        ∙ ap (◌∷◌ (drop i s)) (split_from-end f c s (length s + 1) (omega arith))
        ∙ sym (pieces-drop_last c i s (ltb→lt i (length s) inside) e)
    | inr (k, e) ↦
        round_next c f s i k (ltb→lt i (length s) inside) e
        ∙ ap (◌∷◌ (take k (drop i s)))
            (split_from-pieces f c s (i + k + 1) (omega arith) ∙ ap (pieces c) (shift k))
        ∙ sym (pieces-find c (drop i s) k e)
  ]
]
  where
    shift : (k : ℕ) → drop (i + k + 1) s ≡ drop (suc k) (drop i s)
    shift k = ap (λ n. drop n s) (omega arith) ∙ sym (drop-drop (suc k) i s)

-- The indexed loop of `split` yields the pieces of one walk over the text, for every text.
pub split_lem : (s : Bytes) (c : ℕ) → split s c ≡ pieces c s
unfolding split
split_lem s c = split_from-pieces (length s + 1) c s 0 (omega arith)

-- A piece that ends at its separator comes first.
pub pieces-append : (c : ℕ) (a s : Bytes) → NoneOf c a → pieces c (a ++ c ∷ s) ≡ a ∷ pieces c s
unfolding pieces
pieces-append c [] s h = ground arith
pieces-append c (x ∷ a) s h = rw (==_ne x c h.0, pieces-append c a s h.1)

-- A text with no separator is its only piece.
pub pieces_one : (c x : ℕ) (a : Bytes) → NoneOf c (x ∷ a) → pieces c (x ∷ a) ≡ (x ∷ a) ∷ []
unfolding pieces
pieces_one c x [] h = rw (==_ne x c h.0)
pieces_one c x (y ∷ a) h = rw (==_ne x c h.0, pieces_one c y a h.1)

pub pieces_whole : (c : ℕ) (s : Bytes) → NoneOf c s → 1 ≤ length s → pieces c s ≡ s ∷ []
pieces_whole c [] z h = absurd (omega arith)
pieces_whole c (x ∷ s) z h = pieces_one c x s z

-- The parts, each followed by the separator.
abbrev pub glue : ℕ → List Bytes → Bytes
glue c [] = []
glue c (p ∷ ps) = p ++ (c ∷ glue c ps)

-- Whether the last byte is `c`, or there is none.
unfoldable pub is_ended : ℕ → Bytes → Bool
is_ended c [] = true
is_ended c (x ∷ []) = x == c
is_ended c (x ∷ y ∷ s) = is_ended c (y ∷ s)

pieces_cons : (c x : ℕ) (s : Bytes) → (p : Bytes) × (ps : List Bytes) × (pieces c (x ∷ s) ≡ p ∷ ps)
unfolding pieces
pieces_cons c x s = elim (Bool-cases (x == c)) [
  | inl hit ↦ rw hit ([], pieces c s, refl)
  | inr miss ↦ rw miss (first_of_extend (pieces c s))
]
  where
    first_of_extend :
        (l : List Bytes) → (p : Bytes) × (ps : List Bytes) × (extend_first x l ≡ p ∷ ps)
    first_of_extend [] = (x ∷ [], [], refl)
    first_of_extend (p ∷ ps) = (x ∷ p, ps, refl)

glue-pieces : (c : ℕ) (s : Bytes) → glue c (pieces c s) ≡ (if is_ended c s then s else s ++ c ∷ [])
unfolding pieces is_ended
glue-pieces c [] = refl
glue-pieces c (x ∷ []) = ground arith
glue-pieces c (x ∷ y ∷ s) =
    let (p, ps, e) = pieces_cons c y s in
    let ih : glue c (p ∷ ps) ≡ (if is_ended c (y ∷ s) then y ∷ s else y ∷ (s ++ c ∷ [])) =
      ap (glue c) (sym e) ∙ glue-pieces c (y ∷ s) in
    elim (Bool-cases (x == c)) [
      | inl hit ↦ rw hit (rw e (ground (arith, ih)))
      | inr miss ↦ rw miss (rw e (ground (arith, ih)))
    ]

extend_first-NoneOf :
    (c x : ℕ) (l : List Bytes) → x ≢ c → All (NoneOf c) l → All (NoneOf c) (extend_first x l)
extend_first-NoneOf c x [] n h = ((n, tt), tt)
extend_first-NoneOf c x (p ∷ ps) n h = ((n, h.0), h.1)

pieces-NoneOf : (c : ℕ) (s : Bytes) → All (NoneOf c) (pieces c s)
unfolding pieces
pieces-NoneOf c [] = tt
pieces-NoneOf c (x ∷ s) = elim (Bool-cases (x == c)) [
  | inl hit ↦ rw hit (tt, pieces-NoneOf c s)
  | inr miss ↦ rw miss (extend_first-NoneOf c x (pieces c s) (ground arith) (pieces-NoneOf c s))
]

-- For every text and separator: no part that `split` yields holds the separator, and the parts,
-- each followed by the separator, are the text again, which keeps its last separator or gets one.
pub split_partition :
    (s : Bytes) (c : ℕ)
    → All (NoneOf c) (split s c) × (glue c (split s c) ≡ (if is_ended c s then s else s ++ c ∷ []))
split_partition s c = rw (split_lem s c) (pieces-NoneOf c s, glue-pieces c s)
