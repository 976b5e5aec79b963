-- ===== src/Session/Store/Frozen.antt =====
-- That nothing is written to a session that is torn down.
use rtp_server.Common.{
  ℕ, ◌≡◌, sym, ◌∙◌, inl, ap, inr, true, false, Option, none, some, Option-cases, List, [], ◌∷◌,
  ◌++◌, arith, ◌==◌, if◌then◌else◌, Bool-cases, get_elem?, Bytes, bytes_eq, bytes_eq_iff,
}
use rtp_server.Exception.{Outcome, done, threw, Outcome-cases, Result-cases}
use rtp_server.Session.{TrackOps, Session, tick}
use rtp_server.Session.Store.{
  Sessions, find_session, put_session, Store, use_count, visit, erase_all, pass,
}
use rtp_server.Session.Store.Ids.{get_session_put}

module _ (ops : TrackOps) where
  -- Every session of the first map that is torn down is in the second one, as it was.
  pub record Freezes (ss ss' : Sessions ops) : Type 0 where
    pub frozen :
        (id : Bytes) (s : Session ops)
        → find_session ops id ss ≡ some s
        → s.is_active ≡ false
        → find_session ops id ss' ≡ some s

  pub Freezes-refl : (ss : Sessions ops) → Freezes ss ss
  Freezes-refl ss = record { frozen = λ id s e f. e }

  pub Freezes-trans : {a b c : Sessions ops} → Freezes a b → Freezes b c → Freezes a c
  Freezes-trans p q = record { frozen = λ id s e f. q.frozen id s (p.frozen id s e f) f }

  not_both :
      {s t : Session ops} {o : Option (Session ops)}
      → o ≡ some t
      → o ≡ some s
      → t.is_active ≡ false
      → s.is_active ≡ true
      → ⊥
  not_both {s = s} {t = t} p q gone live =
      let alike : t.is_active ≡ s.is_active =
        ap (λ o. elim o [ none ↦ true | some u ↦ u.is_active ]) (sym p ∙ q) in
      ground arith

  pub put_session-Freezes :
      (k : Bytes) (s s' : Session ops) (ss : Sessions ops)
      → find_session ops k ss ≡ some s
      → s.is_active ≡ true
      → Freezes ss (put_session ops k s' ss)
  put_session-Freezes k s s' ss e live = record {
    frozen = λ id t f gone. elim (Bool-cases (bytes_eq k id)) [
      | inl same ↦
          let here : k ≡ id = (bytes_eq_iff k id).0 same in
          absurd (not_both (ap (λ j. find_session ops j ss) here ∙ f) e gone live)
      | inr other ↦ get_session_put ops k id s s' ss e ∙ rw other f
    ];
  }

  pub with_new-Freezes :
      (k : Bytes) (s : Session ops) (ss : Sessions ops)
      → find_session ops k ss ≡ none
      → Freezes ss ((k, s) ∷ ss)
  unfolding find_session
  with_new-Freezes k s ss e = record {
    frozen = λ id t f gone. elim (Bool-cases (bytes_eq k id)) [
      | inl same ↦
          let here : k ≡ id = (bytes_eq_iff k id).0 same in
          absurd (ground (arith, sym e ∙ (ap (λ j. find_session ops j ss) here ∙ f)))
      | inr other ↦ rw other f
    ];
  }

  -- The store that a pass leaves, whether it throws or not.
  abbrev pub left_by : Outcome (List Bytes × Store ops) → List Bytes × Store ops
  left_by (done r) = r
  left_by (threw e r) = r

  visit-Freezes :
      (holders : Bytes → ℕ) (ids rm : List Bytes) (st : Store ops)
      → Freezes st.sessions (left_by (visit ops holders ids rm st)).1.sessions
  unfolding visit
  visit-Freezes holders [] rm st = Freezes-refl st.sessions
  visit-Freezes holders (id ∷ ids) rm st = elim (Option-cases (find_session ops id st.sessions)) [
    | inl absent ↦ rw (visit, absent) (Freezes-refl st.sessions)
    | inr (s, found) ↦ elim (Bool-cases s.is_active) [
      | inr gone ↦
          rw (visit, found, gone)
            (visit-Freezes holders ids
              (if use_count ops holders id st == 1 then rm ++ id ∷ [] else rm) st)
      | inl live ↦ elim (Outcome-cases (tick ops s)) [
        | inl (s', ticked) ↦
            rw (visit, found, ticked, live)
              (Freezes-trans (put_session-Freezes id s s' st.sessions found live) (
                visit-Freezes holders ids rm
                  (record st { sessions = put_session ops id s' st.sessions })))
        | inr (x, s', ticked) ↦
            rw (visit, found, ticked, live) (put_session-Freezes id s s' st.sessions found live)
      ]
    ]
  ]

  pub pass-Freezes :
      (holders : Bytes → ℕ) (i : ℕ) (rm : List Bytes) (st : Store ops)
      → Freezes st.sessions (left_by (pass ops holders i rm st)).1.sessions
  unfolding pass
  pass-Freezes holders i rm st = elim (Option-cases (get_elem? st.groups i)) [
    | inl absent ↦ rw (pass, absent) (Freezes-refl st.sessions)
    | inr (g, found) ↦
        let visited = visit-Freezes holders g.sessions rm st in
        elim (Outcome-cases (visit ops holders g.sessions rm st)) [
          | inl ((rm', st'), run) ↦ elim (Result-cases (erase_all rm' g.sessions)) [
            | inl (ids, erased) ↦ rw (pass, found, run, erased) (rw run at visited)
            | inr (x, erased) ↦ rw (pass, found, run, erased) (rw run at visited)
          ]
          | inr (x, r, run) ↦ rw (pass, found, run) (rw run at visited)
        ]
  ]
