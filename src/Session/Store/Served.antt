-- ===== src/Session/Store/Served.antt =====
-- That each session of the map is in exactly one place of the groups.
use rtp_server.Common.{
  ℕ, zero, suc, ◌+◌, ◌*◌, ◌≡◌, refl, ap, sym, ◌∙◌, inl, inr, Bool, Option, none, some, Option-cases,
  List, [], ◌∷◌, ◌++◌, arith, ◌==◌, if◌then◌else◌, Bool-cases, get_elem?, Bytes, bytes_eq,
  bytes_eq_iff,
}
use rtp_server.Exception.{Outcome-cases, Result-cases}
use rtp_server.Session.{TrackOps, Session, tick}
use rtp_server.Session.Store.{
  Group, add_session, count_id, count_groups, Sessions, find_session, put_session, Store, use_count,
  visit, erase_all, pass,
}
use rtp_server.Session.Store.Ids.{get_session_put}
use rtp_server.Session.Store.Counted.{count_id-append}
use rtp_server.Session.Store.Frozen.{left_by}
use rtp_server.Session.Store.Writes.{Writes, nothing, wrote, created}

count_groups_added :
    (id k : Bytes) (i : ℕ) (gs : List Group) (g : Group)
    → get_elem? gs i ≡ some g
    → count_groups id (add_session i k gs) ≡ count_groups id gs + (if bytes_eq k id then 1 else 0)
unfolding count_groups add_session count_id
count_groups_added id k i [] g e = absurd (ground arith)
count_groups_added id k zero (h ∷ gs) g e = omega (arith, count_id-append id h.newly_added (k ∷ []))
count_groups_added id k (suc i) (h ∷ gs) g e = omega (arith, count_groups_added id k i gs g e)

module _ (ops : TrackOps) where
  abbrev pub count_of : Option (Session ops) → ℕ
  count_of none = 0
  count_of (some _) = 1

  -- How often an id is in the map.
  abbrev pub times_found : Bytes → Sessions ops → ℕ
  times_found id ss = count_of (find_session ops id ss)

  -- The groups hold one pointer to each session of the map, and no other.
  abbrev pub IsServed : Store ops → Type 0
  IsServed st = (id : Bytes) → count_groups id st.groups ≡ times_found id st.sessions

  times_found_put :
      (id k : Bytes) (s s' : Session ops) (ss : Sessions ops)
      → find_session ops k ss ≡ some s
      → times_found id (put_session ops k s' ss) ≡ times_found id ss
  times_found_put id k s s' ss e =
      let put = get_session_put ops k id s s' ss e in
      let choose : Bool → Option (Session ops) =
        λ b. if b then some s' else find_session ops id ss in
      elim (Bool-cases (bytes_eq k id)) [
        | inl same ↦
            let here : k ≡ id = (bytes_eq_iff k id).0 same in
            let at : find_session ops id ss ≡ some s =
              ap (λ j. find_session ops j ss) (sym here) ∙ e in
            ap count_of (put ∙ ap choose same) ∙ sym (ap count_of at)
        | inr other ↦ ap count_of (put ∙ ap choose other)
      ]

  visit-times_found :
      (id : Bytes) (holders : Bytes → ℕ) (ids rm : List Bytes) (st : Store ops)
      → times_found id (left_by ops (visit ops holders ids rm st)).1.sessions
        ≡ times_found id st.sessions
  unfolding visit
  visit-times_found id holders [] rm st = refl
  visit-times_found id holders (k ∷ ids) rm st =
      elim (Option-cases (find_session ops k st.sessions)) [
        | inl absent ↦ rw (visit, absent) refl
        | inr (s, found) ↦ elim (Bool-cases s.is_active) [
          | inr gone ↦
              rw (visit, found, gone)
                (visit-times_found id holders ids
                  (if use_count ops holders k st == 1 then rm ++ k ∷ [] else rm) st)
          | inl live ↦ elim (Outcome-cases (tick ops s)) [
            | inl (s', ticked) ↦
                rw (visit, found, ticked, live)
                  (visit-times_found id holders ids rm
                      (record st { sessions = put_session ops k s' st.sessions })
                    ∙ times_found_put id k s s' st.sessions found)
            | inr (x, s', ticked) ↦
                rw (visit, found, ticked, live) (times_found_put id k s s' st.sessions found)
          ]
        ]
      ]

  pub pass-times_found :
      (id : Bytes) (holders : Bytes → ℕ) (i : ℕ) (rm : List Bytes) (st : Store ops)
      → times_found id (left_by ops (pass ops holders i rm st)).1.sessions
        ≡ times_found id st.sessions
  unfolding pass
  pass-times_found id holders i rm st = elim (Option-cases (get_elem? st.groups i)) [
    | inl absent ↦ rw (pass, absent) refl
    | inr (g, found) ↦
        let visited = visit-times_found id holders g.sessions rm st in
        elim (Outcome-cases (visit ops holders g.sessions rm st)) [
          | inl ((rm', st'), run) ↦ elim (Result-cases (erase_all rm' g.sessions)) [
            | inl (ids, erased) ↦ rw (pass, found, run, erased) (rw run at visited)
            | inr (x, erased) ↦ rw (pass, found, run, erased) (rw run at visited)
          ]
          | inr (x, r, run) ↦ rw (pass, found, run) (rw run at visited)
        ]
  ]

  pub Writes-IsServed : {st st' : Store ops} → Writes ops st st' → IsServed st → IsServed st'
  unfolding find_session
  Writes-IsServed nothing h = h
  Writes-IsServed (wrote {st' = st'} k s s' w e live) h =
      λ id. Writes-IsServed w h id ∙ sym (times_found_put id k s s' st'.sessions e)
  Writes-IsServed (created {st' = st'} k i w e (g, there, _)) h = λ id.
      let before = Writes-IsServed w h id in
      let added = count_groups_added id k i st'.groups g there in
      elim (Bool-cases (bytes_eq k id)) [
        | inl same ↦
            let here : k ≡ id = (bytes_eq_iff k id).0 same in
            let free : find_session ops id st'.sessions ≡ none =
              ap (λ j. find_session ops j st'.sessions) (sym here) ∙ e in
            added ∙ rw same (omega (arith, before ∙ ap count_of free))
        | inr other ↦ added ∙ rw other (omega (arith, before))
      ]

  -- The count of the pointers to a session: one in the map, one in the groups, and the copies.
  pub use_count-IsServed :
      (holders : Bytes → ℕ) (id : Bytes) (st : Store ops)
      → IsServed st
      → use_count ops holders id st ≡ 2 * times_found id st.sessions + holders id
  unfolding use_count
  use_count-IsServed holders id st h = elim (Option-cases (find_session ops id st.sessions)) [
    | inl absent ↦ rw (use_count, absent) (omega (arith, h id ∙ ap count_of absent))
    | inr (s, found) ↦ rw (use_count, found) (omega (arith, h id ∙ ap count_of found))
  ]
