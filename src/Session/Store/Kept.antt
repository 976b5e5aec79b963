-- ===== src/Session/Store/Kept.antt =====
-- What a pass of a worker does to the sessions of its group.
use rtp_server.Common.{
  ℕ, ◌≤◌, ◌≡◌, refl, ◌∙◌, inl, inr, false, some, List, [], ◌∷◌, arith, ◌==◌, Bool-cases, All, Bytes,
  bytes_eq,
}
use rtp_server.Exception.{Outcome, done, threw, Outcome-cases}
use rtp_server.Session.{TrackOps, Session, tick}
use rtp_server.Session.Store.{
  Group, count_groups, Sessions, find_session, put_session, Store, use_count, visit,
}

module _ (ops : TrackOps) where
  abbrev pub Known : Sessions ops → Bytes → Type 0
  Known ss id = (s : Session ops) × (find_session ops id ss ≡ some s)

  -- Every pointer of a group is to a session of the map.
  abbrev pub IsLinked : Store ops → Type 0
  IsLinked st =
      All
        (λ (g : Group). All (Known st.sessions) g.sessions × All (Known st.sessions) g.newly_added)
        st.groups

  Known-put_session :
      (ss : Sessions ops) (k : Bytes) (s : Session ops) (id : Bytes)
      → Known ss id
      → Known (put_session ops k s ss) id
  unfolding find_session put_session
  Known-put_session [] k s id (_, e) = absurd (ground arith)
  Known-put_session ((j, t) ∷ ss) k s id (u, e) = elim (Bool-cases (bytes_eq j k)) [
    | inl same ↦ elim (Bool-cases (bytes_eq j id)) [
      | inl here ↦ rw same (rw here (s, refl))
      | inr later ↦ rw same (rw later (u, rw later at e))
    ]
    | inr other ↦ elim (Bool-cases (bytes_eq j id)) [
      | inl here ↦ rw other (rw here (t, refl))
      | inr later ↦ rw other (rw later (Known-put_session ss k s id (u, rw later at e)))
    ]
  ]

  -- The map has at least the sessions it had, and the groups are the same.
  pub record Keeps (st st' : Store ops) : Type 0 where
    pub groups_same : st'.groups ≡ st.groups
    pub known : (id : Bytes) → Known st.sessions id → Known st'.sessions id

  pub Keeps-put_session :
      (st : Store ops) (k : Bytes) (s : Session ops)
      → Keeps st (record st { sessions = put_session ops k s st.sessions })
  Keeps-put_session st k s = record {
    groups_same = refl;
    known = λ id h. Known-put_session st.sessions k s id h;
  }

  Keeps-Keeps : {st st' st'' : Store ops} → Keeps st st' → Keeps st' st'' → Keeps st st''
  Keeps-Keeps a b = record {
    groups_same = b.groups_same ∙ a.groups_same;
    known = λ id h. b.known id (a.known id h);
  }

  -- Nothing is put into the queue.
  abbrev pub Visited : List Bytes → Store ops → Outcome (List Bytes × Store ops) → Type 0
  Visited rm st (done (rm', st')) = (rm' ≡ rm) × Keeps st st'
  Visited rm st (threw e (rm', st')) = (rm' ≡ rm) × Keeps st st'

  Visited-Keeps :
      (rm : List Bytes) (st st' : Store ops) (o : Outcome (List Bytes × Store ops))
      → Keeps st st'
      → Visited rm st' o
      → Visited rm st o
  Visited-Keeps rm st st' (done (rm', s)) a (e, b) = (e, Keeps-Keeps a b)
  Visited-Keeps rm st st' (threw x (rm', s)) a (e, b) = (e, Keeps-Keeps a b)

  -- A session that is in the map and in a group is held twice.
  use_count-Known :
      (holders : Bytes → ℕ) (id : Bytes) (st : Store ops)
      → Known st.sessions id
      → 1 ≤ count_groups id st.groups
      → (use_count ops holders id st == 1) ≡ false
  unfolding use_count
  use_count-Known holders id st (s, e) l = rw (use_count, e) (ground arith)

  abbrev pub InGroups : List Group → Bytes → Type 0
  InGroups gs id = 1 ≤ count_groups id gs

  abbrev pub Ready : Store ops → List Bytes → Type 0
  Ready st = All (λ id. Known st.sessions id × InGroups st.groups id)

  Ready-Keeps :
      (st st' : Store ops) (ids : List Bytes) → Keeps st st' → Ready st ids → Ready st' ids
  Ready-Keeps st st' [] k r = tt
  Ready-Keeps st st' (id ∷ ids) k r =
      ((k.known id r.0.0, rw k.groups_same r.0.1), Ready-Keeps st st' ids k r.1)

  pub visit-Visited :
      (holders : Bytes → ℕ) (ids rm : List Bytes) (st : Store ops)
      → Ready st ids
      → Visited rm st (visit ops holders ids rm st)
  unfolding visit
  visit-Visited holders [] rm st r = (refl, record { groups_same = refl; known = λ id h. h })
  visit-Visited holders (id ∷ ids) rm st (((s, e), held), r) = elim (Bool-cases s.is_active) [
    | inr gone ↦
        rw (visit, e, gone, use_count-Known holders id st (s, e) held)
          (visit-Visited holders ids rm st r)
    | inl live ↦ elim (Outcome-cases (tick ops s)) [
      | inl (s', ticked) ↦
          rw (visit, e, ticked, live)
            (Visited-Keeps rm st (after s') _ (Keeps-put_session st id s') (
              visit-Visited holders ids rm (after s')
                (Ready-Keeps st (after s') ids (Keeps-put_session st id s') r)))
      | inr (x, s', ticked) ↦ rw (visit, e, ticked, live) (refl, Keeps-put_session st id s')
    ]
  ]
    where
      after : Session ops → Store ops
      after s' = record st { sessions = put_session ops id s' st.sessions }
