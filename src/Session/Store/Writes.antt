-- ===== src/Session/Store/Writes.antt =====
-- What the request handlers do to the store, as a sequence of writes.
use rtp_server.Common.{ℕ, ◌≡◌, true, none, some, ◌∷◌, Bytes}
use rtp_server.Session.{TrackOps, Session, new_session}
use rtp_server.Session.Store.{add_session, find_session, put_session, Store}
use rtp_server.Session.Store.Ids.{IsLeast}
use rtp_server.Session.Store.Kept.{IsLinked, Keeps-put_session}
use rtp_server.Session.Store.Passes.{IsLinked-Keeps}
use rtp_server.Session.Store.Created.{Linked-add_session}
use rtp_server.Session.Store.Frozen.{
  Freezes, Freezes-refl, Freezes-trans, put_session-Freezes, with_new-Freezes,
}

module _ (ops : TrackOps) where
  -- A session that is active is written, or a new one is put under a free id, and into a group
  -- with the fewest sessions.
  pub data Writes (st : Store ops) : Store ops → Type 0 where
    nothing : Writes st st
    wrote :
        {st' : Store ops} (k : Bytes) (s s' : Session ops)
        → Writes st st'
        → find_session ops k st'.sessions ≡ some s
        → s.is_active ≡ true
        → Writes st (record st' { sessions = put_session ops k s' st'.sessions })
    created :
        {st' : Store ops} (k : Bytes) (i : ℕ)
        → Writes st st'
        → find_session ops k st'.sessions ≡ none
        → IsLeast st'.groups i
        → Writes st (record {
          sessions = (k, new_session ops k) ∷ st'.sessions;
          groups = add_session i k st'.groups;
        })

  pub Writes-Freezes : {st st' : Store ops} → Writes st st' → Freezes ops st.sessions st'.sessions
  Writes-Freezes nothing = Freezes-refl ops _
  Writes-Freezes (wrote {st' = st'} k s s' w e live) =
      Freezes-trans ops (Writes-Freezes w) (put_session-Freezes ops k s s' st'.sessions e live)
  Writes-Freezes (created {st' = st'} k i w e least) =
      Freezes-trans ops (Writes-Freezes w)
        (with_new-Freezes ops k (new_session ops k) st'.sessions e)

  pub Writes-IsLinked : {st st' : Store ops} → Writes st st' → IsLinked ops st → IsLinked ops st'
  Writes-IsLinked nothing l = l
  Writes-IsLinked (wrote {st' = st'} k s s' w e live) l =
      IsLinked-Keeps ops st' (record st' { sessions = put_session ops k s' st'.sessions })
        (Keeps-put_session ops st' k s') (Writes-IsLinked w l)
  Writes-IsLinked (created {st' = st'} k i w e least) l =
      Linked-add_session ops i k st'.sessions st'.groups (Writes-IsLinked w l)
