-- ===== src/Session/Store/Created.antt =====
-- What the store is once a session is created.
use rtp_server.Common.{
  ℕ, zero, suc, ◌+◌, ◌<◌, ◌≡◌, refl, ap, ◌∙◌, inl, inr, none, some, List, [], ◌∷◌, ◌++◌,
  if◌then◌else◌, Bool-cases, All, Bytes, bytes_eq, bytes_eq_refl,
}
use rtp_server.Exception.{ok}
use rtp_server.Session.{TrackOps, new_session}
use rtp_server.Session.Store.{
  generate_id, Group, least_from, add_session, Sessions, find_session, Store, get_session,
  insert_session, create_session,
}
use rtp_server.Session.Store.Kept.{Known, IsLinked}
use rtp_server.Session.Store.Ids.{IsLeast, least_from-IsLeast, fresh_id_lem}

module _ (ops : TrackOps) where
  abbrev with_new : Bytes → Sessions ops → Sessions ops
  with_new id ss = (id, new_session ops id) ∷ ss

  Known-with_new :
      (id k : Bytes) (ss : Sessions ops) → Known ops ss k → Known ops (with_new id ss) k
  unfolding find_session
  Known-with_new id k ss (s, e) = elim (Bool-cases (bytes_eq id k)) [
    | inl same ↦ rw same (new_session ops id, refl)
    | inr other ↦ rw other (s, e)
  ]

  All-Known-with_new :
      (id : Bytes) (ss : Sessions ops) (ks : List Bytes)
      → All (Known ops ss) ks
      → All (Known ops (with_new id ss)) ks
  All-Known-with_new id ss [] h = tt
  All-Known-with_new id ss (k ∷ ks) h =
      (Known-with_new id k ss h.0, All-Known-with_new id ss ks h.1)

  All-Known-last :
      (id : Bytes) (ss : Sessions ops) (ks : List Bytes)
      → All (Known ops ss) ks
      → All (Known ops (with_new id ss)) (ks ++ id ∷ [])
  unfolding find_session
  All-Known-last id ss [] h = (rw (bytes_eq_refl id) (new_session ops id, refl), tt)
  All-Known-last id ss (k ∷ ks) h = (Known-with_new id k ss h.0, All-Known-last id ss ks h.1)

  abbrev Linked : Sessions ops → Group → Type 0
  Linked ss g = All (Known ops ss) g.sessions × All (Known ops ss) g.newly_added

  Linked-groups :
      (id : Bytes) (ss : Sessions ops) (gs : List Group)
      → All (Linked ss) gs
      → All (Linked (with_new id ss)) gs
  Linked-groups id ss [] h = tt
  Linked-groups id ss (g ∷ gs) h = (
    (All-Known-with_new id ss g.sessions h.0.0, All-Known-with_new id ss g.newly_added h.0.1),
    Linked-groups id ss gs h.1,
  )

  pub Linked-add_session :
      (i : ℕ) (id : Bytes) (ss : Sessions ops) (gs : List Group)
      → All (Linked ss) gs
      → All (Linked (with_new id ss)) (add_session i id gs)
  unfolding add_session
  Linked-add_session i id ss [] h = tt
  Linked-add_session zero id ss (g ∷ gs) h = (
    (All-Known-with_new id ss g.sessions h.0.0, All-Known-last id ss g.newly_added h.0.1),
    Linked-groups id ss gs h.1,
  )
  Linked-add_session (suc i) id ss (g ∷ gs) h = (
    (All-Known-with_new id ss g.sessions h.0.0, All-Known-with_new id ss g.newly_added h.0.1),
    Linked-add_session i id ss gs h.1,
  )

  get_session_new :
      (id k : Bytes) (st st' : Store ops)
      → st'.sessions ≡ with_new id st.sessions
      → get_session ops k st'
        ≡ (if bytes_eq id k then ok (new_session ops id) else get_session ops k st)
  unfolding get_session find_session
  get_session_new id k st st' e = elim (Bool-cases (bytes_eq id k)) [
    | inl same ↦ rw (get_session, e, same)
    | inr other ↦ rw (get_session, e, other)
  ]

  -- The store after `get()`, from `st`, with the new session `id`.
  pub record IsCreated (id : Bytes) (st st' : Store ops) : Type 0 where
    pub was_free : find_session ops id st.sessions ≡ none
    pub found :
        (k : Bytes)
        → get_session ops k st'
          ≡ (if bytes_eq id k then ok (new_session ops id) else get_session ops k st)
    pub linked : IsLinked ops st'
    pub in_least : (i : ℕ) × IsLeast st.groups i × (st'.groups ≡ add_session i id st.groups)

  -- Where there is a group, every pointer of a group is to a session of the map, and one of the next
  -- `tries` numbers gives an id that is not in it: `get()` makes a session with such an id, which a
  -- lookup then gives, in the state of a new one; every other id gives what it gave before; the
  -- session waits in a group with the fewest sessions, and all pointers are still to sessions of
  -- the map.
  pub create_session-IsCreated :
      (tries : ℕ) (random : ℕ → ℕ) (n j : ℕ) (st : Store ops) (g : Group) (gs : List Group)
      → st.groups ≡ g ∷ gs
      → IsLinked ops st
      → j < tries
      → find_session ops (generate_id (random (n + j))) st.sessions ≡ none
      → (id : Bytes) × (m : ℕ) × (st' : Store ops) × (create_session ops tries random n st
          ≡ ok ((id, m), st'))
        × IsCreated id st st'
  unfolding create_session insert_session
  create_session-IsCreated tries random n j st g gs some_group l t e =
      let (id, m, drawn, free) = fresh_id_lem ops tries random n j st.sessions t e in
      let (i, least, is_least) = least_from-IsLeast g gs in
      let st' : Store ops = record {
        sessions = with_new id st.sessions;
        groups = add_session i id st.groups;
      } in
      let chosen : least_from 0 none st.groups ≡ some i =
        ap (least_from 0 none) some_group ∙ least in
      (
        id,
        m,
        st',
        rw (create_session, drawn, insert_session, chosen),
        record {
          was_free = free;
          found = λ k. get_session_new id k st st' refl;
          linked = Linked-add_session i id st.sessions st.groups l;
          in_least = (i, rw some_group is_least, refl);
        },
      )
