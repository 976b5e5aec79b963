-- ===== src/Session/Store/Counted.antt =====
-- How many pointers to a session the groups hold.
use rtp_server.Common.{
  ℕ, zero, suc, ◌+◌, ◌≤◌, ◌≡◌, refl, ap, some, List, [], ◌∷◌, ◌++◌, arith, get_elem?, Bytes,
  bytes_eq, bytes_eq_iff, ◌⊎◌, inl, inr, Bool-cases, All, subst,
}
use rtp_server.Session.{TrackOps}
use rtp_server.Session.Store.{
  Group, add_session, count_id, count_groups, set_group, Sessions, Store, use_count,
}
use rtp_server.Session.Store.Kept.{Known, IsLinked}
use rtp_server.Session.Store.Passes.{some_inj, grown}

pub count_id-append :
    (id : Bytes) (xs ys : List Bytes) → count_id id (xs ++ ys) ≡ count_id id xs + count_id id ys
unfolding count_id
count_id-append id [] ys = omega arith
count_id-append id (x ∷ xs) ys = omega (arith, count_id-append id xs ys)

pub count_groups-add_session :
    (id k : Bytes) (i : ℕ) (gs : List Group)
    → count_groups id gs ≤ count_groups id (add_session i k gs)
unfolding count_groups add_session
count_groups-add_session id k i [] = omega arith
count_groups-add_session id k zero (g ∷ gs) =
    omega (arith, count_id-append id g.newly_added (k ∷ []))
count_groups-add_session id k (suc i) (g ∷ gs) = omega (arith, count_groups-add_session id k i gs)

pub count_groups-set_group :
    (ops : TrackOps) (id : Bytes) (i : ℕ) (g : Group) (gs : List Group)
    → get_elem? gs i ≡ some g
    → count_groups id (set_group i (grown ops g) gs) ≡ count_groups id gs
unfolding count_groups set_group count_id
count_groups-set_group ops id i g [] e = refl
count_groups-set_group ops id zero g (h ∷ gs) e = omega (
  arith,
  count_id-append id g.sessions g.newly_added,
  ap (count_id id) (ap (λ (x : Group). x.sessions) same),
  ap (count_id id) (ap (λ (x : Group). x.newly_added) same),
)
  where
    same : h ≡ g
    same = some_inj e
count_groups-set_group ops id (suc i) g (h ∷ gs) e =
    omega (arith, count_groups-set_group ops id i g gs e)

module _ (ops : TrackOps) where
  counted-Known :
      (ss : Sessions ops) (id : Bytes) (ids : List Bytes)
      → All (Known ops ss) ids
      → 1 ≤ count_id id ids
      → Known ops ss id
  unfolding count_id
  counted-Known ss id [] h l = absurd (omega arith)
  counted-Known ss id (x ∷ ids) h l = elim (Bool-cases (bytes_eq x id)) [
    | inl same ↦ subst (Known ops ss) ((bytes_eq_iff x id).0 same) h.0
    | inr other ↦ counted-Known ss id ids h.1 (omega (arith, rw other at l))
  ]

  counted_groups-Known :
      (ss : Sessions ops) (id : Bytes) (gs : List Group)
      → All (λ (g : Group). All (Known ops ss) g.sessions × All (Known ops ss) g.newly_added) gs
      → 1 ≤ count_groups id gs
      → Known ops ss id
  unfolding count_groups
  counted_groups-Known ss id [] h l = absurd (omega arith)
  counted_groups-Known ss id (g ∷ gs) ((old, new), h) l =
      elim (zero_or_more (count_id id g.sessions)) [
        | inr more ↦ counted-Known ss id g.sessions old more
        | inl none_old ↦ elim (zero_or_more (count_id id g.newly_added)) [
          | inr more ↦ counted-Known ss id g.newly_added new more
          | inl none_new ↦ counted_groups-Known ss id gs h (omega (arith, l, none_old, none_new))
        ]
      ]
    where
      zero_or_more : (n : ℕ) → (n ≡ 0) ⊎ (1 ≤ n)
      zero_or_more zero = inl refl
      zero_or_more (suc n) = inr (omega arith)

  -- A session in a group is in the map too, so that its count is at least 2.
  pub use_count-held :
      (holders : Bytes → ℕ) (id : Bytes) (st : Store ops)
      → IsLinked ops st
      → 1 ≤ count_groups id st.groups
      → 2 ≤ use_count ops holders id st
  unfolding use_count
  use_count-held holders id st l held =
      let (s, e) = counted_groups-Known st.sessions id st.groups l held in
      rw (use_count, e) (omega (arith, held))
