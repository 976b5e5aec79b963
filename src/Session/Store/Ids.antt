-- ===== src/Session/Store/Ids.antt =====
-- Sessions by their ids: how a new one is made, and what a lookup gives.
use rtp_server.Common.{
  ℕ, zero, suc, ◌+◌, ◌/◌, ◌≤◌, ◌<◌, ◌≡◌, refl, ap, sym, subst, ◌∙◌, ◌⊎◌, inl, inr, Option, none,
  some, List, [], ◌∷◌, arith, ltb, ltb→lt, if◌then◌else◌, Bool-cases, Option-cases, length,
  get_elem?, All, Bytes, bytes_eq, bytes_eq_iff,
}
use rtp_server.Exception.{bad_session, err}
use rtp_server.Session.{TrackOps, Session, teardown}
use rtp_server.Session.Store.{
  letters, generate_id, Group, least_from, Sessions, find_session, put_session, Store, get_session,
  fresh_id,
}
use rtp_server.Session.Store.Passes.{some_inj}

abbrev pub IsLetter : ℕ → Type 0
IsLetter c = (b'A' ≤ c) × (c ≤ b'Z')

letters_lem : (n bits : ℕ) → (length (letters n bits) ≡ n) × All IsLetter (letters n bits)
unfolding letters
letters_lem zero bits = (refl, tt)
letters_lem (suc n) bits =
    let (size, rest) = letters_lem n (bits / 256) in
    (omega arith, ((omega arith, omega arith), rest))

-- Every id has eight letters from A to Z, whatever number was drawn.
pub generate_id_lem : (bits : ℕ) → (length (generate_id bits) ≡ 8) × All IsLetter (generate_id bits)
unfolding generate_id
generate_id_lem bits = letters_lem 8 bits

-- The group at place `i` has the fewest sessions of all.
abbrev pub IsLeast : List Group → ℕ → Type 0
IsLeast gs i =
    (g : Group) × (get_elem? gs i ≡ some g)
    × All (λ (h : Group). length g.sessions ≤ length h.sessions) gs

-- The same behind `k` groups, with the best of those.
abbrev LeastFrom : ℕ → ℕ × ℕ → List Group → Option ℕ → Type 0
LeastFrom k best gs none = ⊥
LeastFrom k best gs (some i) =
    ((i ≡ best.0) × All (λ (h : Group). best.1 ≤ length h.sessions) gs)
    ⊎ ((j : ℕ) × (g : Group) × (i ≡ k + j)
        × (get_elem? gs j ≡ some g)
        × (length g.sessions < best.1)
        × All (λ (h : Group). length g.sessions ≤ length h.sessions) gs)

module _ (ops : TrackOps) where
  pub get_session_put :
      (id k : Bytes) (s s' : Session ops) (ss : Sessions ops)
      → find_session ops id ss ≡ some s
      → find_session ops k (put_session ops id s' ss)
        ≡ (if bytes_eq id k then some s' else find_session ops k ss)
  unfolding find_session put_session
  get_session_put id k s s' [] e = absurd (ground arith)
  get_session_put id k s s' ((j, t) ∷ ss) e =
      ground (
        arith,
        bytes_eq_iff j id,
        bytes_eq_iff j k,
        bytes_eq_iff id k,
        get_session_put id k s s' ss,
      )

  -- Once a session of the map is torn down, looking it up throws, and every other id gives what it
  -- gave before.
  pub get_session-teardown :
      (id k : Bytes) (s : Session ops) (st : Store ops)
      → find_session ops id st.sessions ≡ some s
      → get_session ops k (record st { sessions = put_session ops id (teardown ops s) st.sessions })
        ≡ (if bytes_eq id k then err bad_session else get_session ops k st)
  unfolding get_session teardown
  get_session-teardown id k s st e = elim (Bool-cases (bytes_eq id k)) [
    | inl same ↦ rw (get_session, get_session_put id k s (teardown ops s) st.sessions e, same)
    | inr other ↦ rw (get_session, get_session_put id k s (teardown ops s) st.sessions e, other)
  ]

  -- If one of the next `tries` numbers gives an id that is not in the map, the loop ends, with such
  -- an id.
  pub fresh_id_lem :
      (tries : ℕ) (random : ℕ → ℕ) (n j : ℕ) (ss : Sessions ops)
      → j < tries
      → find_session ops (generate_id (random (n + j))) ss ≡ none
      → (id : Bytes) × (m : ℕ) × (fresh_id ops tries random n ss ≡ some (id, m))
        × (find_session ops id ss ≡ none)
  unfolding fresh_id
  fresh_id_lem zero random n j ss l e = absurd (omega arith)
  fresh_id_lem (suc tries) random n zero ss l e =
      let same : n + 0 ≡ n = omega arith in
      let free : find_session ops (generate_id (random n)) ss ≡ none = rw same at e in
      rw (fresh_id, free) (generate_id (random n), n + 1, refl, free)
  fresh_id_lem (suc tries) random n (suc j) ss l e =
      let same : n + suc j ≡ n + 1 + j = omega arith in
      let later : find_session ops (generate_id (random (n + 1 + j))) ss ≡ none = rw same at e in
      elim (Option-cases (find_session ops (generate_id (random n)) ss)) [
        | inl free ↦ rw (fresh_id, free) (generate_id (random n), n + 1, refl, free)
        | inr (s, taken) ↦
            rw (fresh_id, taken) (fresh_id_lem tries random (n + 1) j ss (omega arith) later)
      ]

least_from_lem :
    (gs : List Group) (k : ℕ) (best : ℕ × ℕ) → LeastFrom k best gs (least_from k (some best) gs)
unfolding least_from
least_from_lem [] k best = inl (refl, tt)
least_from_lem (g ∷ gs) k best = elim (Bool-cases (ltb (length g.sessions) best.1)) [
  | inl less ↦ rw less (
      better (least_from (suc k) (some (k, length g.sessions)) gs)
        (ltb→lt (length g.sessions) best.1 less) (least_from_lem gs (suc k) (k, length g.sessions)))
  | inr not_less ↦
      rw not_less
        (worse (least_from (suc k) (some best) gs) (ground arith) (least_from_lem gs (suc k) best))
]
  where
    better :
        (r : Option ℕ)
        → length g.sessions < best.1
        → LeastFrom (suc k) (k, length g.sessions) gs r
        → LeastFrom k best (g ∷ gs) r
    better none l h = h
    better (some i) l (inl (e, all)) = inr (0, g, e ∙ omega arith, refl, l, (omega arith, all))
    better (some i) l (inr (j, h, e, at, less, all)) =
        inr (suc j, h, e ∙ omega arith, at, omega arith, (omega arith, all))

    worse :
        (r : Option ℕ)
        → best.1 ≤ length g.sessions
        → LeastFrom (suc k) best gs r
        → LeastFrom k best (g ∷ gs) r
    worse none l h = h
    worse (some i) l (inl (e, all)) = inl (e, (l, all))
    worse (some i) l (inr (j, h, e, at, less, all)) =
        inr (suc j, h, e ∙ omega arith, at, less, (omega arith, all))

-- Where there is a group, the loop over the groups finds one with the fewest sessions.
pub least_from-IsLeast :
    (g : Group) (gs : List Group)
    → (i : ℕ) × (least_from 0 none (g ∷ gs) ≡ some i) × IsLeast (g ∷ gs) i
unfolding least_from
least_from-IsLeast g gs =
    pick (least_from 1 (some (0, length g.sessions)) gs)
      (least_from_lem gs 1 (0, length g.sessions))
  where
    place : {i j : ℕ} → i ≡ 1 + j → i ≡ suc j
    place e = omega arith

    pick :
        (r : Option ℕ)
        → LeastFrom 1 (0, length g.sessions) gs r
        → (i : ℕ) × (r ≡ some i) × IsLeast (g ∷ gs) i
    pick none h = absurd h
    pick (some i) (inl (e, all)) = (i, refl, (g, rw e refl, (omega arith, all)))
    pick (some i) (inr (j, h, e, at, less, all)) =
        (i, refl, (h, ap (get_elem? (g ∷ gs)) (place e) ∙ at, (omega arith, all)))

-- The group that is found has the fewest sessions.
pub found-IsLeast : (gs : List Group) (i : ℕ) → least_from 0 none gs ≡ some i → IsLeast gs i
unfolding least_from
found-IsLeast [] i e = absurd (ground arith)
found-IsLeast (g ∷ gs) i e =
    let (j, chosen, least) = least_from-IsLeast g gs in
    subst (IsLeast (g ∷ gs)) (some_inj (sym chosen ∙ e)) least
