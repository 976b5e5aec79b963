-- ===== src/Dispatch/Runs/Kept.antt =====
-- What holds in every state that requests and workers reach: the pointers of the groups, and the
-- sessions that are torn down.
use rtp_server.Common.{
  ℕ, ◌≡◌, refl, ap, ◌∙◌, inl, inr, some, Option-cases, List, [], ◌==◌, Bool-cases, get_elem?, Bytes,
  codes, bytes_eq_refl,
}
use rtp_server.Exception.{bad_session, ok, err, Outcome, done, threw}
use rtp_server.Rtsp.Request.{Request, get_header}
use rtp_server.Rtsp.Response.{empty_response}
use rtp_server.Session.{TrackOps, Session, teardown}
use rtp_server.Session.Store.{Group, find_session, put_session, Store, get_session, pass}
use rtp_server.Session.Store.Ids.{get_session_put}
use rtp_server.Session.Store.Kept.{IsLinked}
use rtp_server.Session.Store.Passes.{PassKeeps, pass-PassKeeps}
use rtp_server.Session.Store.Frozen.{Freezes, Freezes-refl, Freezes-trans, left_by, pass-Freezes}
use rtp_server.Session.Store.Writes.{Writes-Freezes, Writes-IsLinked}
use rtp_server.Dispatch.{Context, Opener, write_session, handle_play, handle_pause, handle_teardown}
use rtp_server.Dispatch.Answers.{handlers_unknown}
use rtp_server.Dispatch.Runs.{Running, Move, requested, worked, Run, here, next}
use rtp_server.Dispatch.Runs.Handled.{get_session-found, dispatch-Writes}

module _ (ops : TrackOps) (opener : Opener ops.Track) where
  -- Every pointer of a group is to a session of the map, and no worker has anything to remove.
  pub record IsSound (y : Running ops opener) : Type 0 where
    pub is_linked : IsLinked ops y.world.store
    pub none_queued : (i : ℕ) → y.queues i ≡ []

  Sound : List Bytes × Store ops → Type 0
  Sound r = (r.0 ≡ []) × IsLinked ops r.1

  PassKeeps-Sound :
      (i : ℕ) (g : Group) (st : Store ops) (o : Outcome (List Bytes × Store ops))
      → PassKeeps ops i g st o
      → Sound (left_by ops o)
  unfolding Sound
  PassKeeps-Sound i g st (done (rm, st')) (e, _, l) = (e, l)
  PassKeeps-Sound i g st (threw x (rm, st')) (e, _, l) = (e, l)

  pass-Sound :
      (holders : Bytes → ℕ) (i : ℕ) (st : Store ops)
      → IsLinked ops st
      → Sound (left_by ops (pass ops holders i [] st))
  unfolding pass Sound
  pass-Sound holders i st l = elim (Option-cases (get_elem? st.groups i)) [
    | inl absent ↦ rw (pass, absent) (refl, l)
    | inr (g, e) ↦
        PassKeeps-Sound i g st (pass ops holders i [] st) (pass-PassKeeps ops holders i g st e l)
  ]

  Move-IsSound : {y z : Running ops opener} → IsSound y → Move ops opener y z → IsSound z
  unfolding Sound
  Move-IsSound {y = y} h (requested iterate tries random c q) = record {
    is_linked =
        Writes-IsLinked ops (dispatch-Writes ops opener iterate tries random c q y.world)
          h.is_linked;
    none_queued = h.none_queued;
  }
  Move-IsSound {y = y} h (worked holders i) =
      let kept = pass-Sound holders i y.world.store h.is_linked in
      rw (h.none_queued i) (record {
        is_linked = kept.1;
        none_queued = λ j. elim (Bool-cases (j == i)) [
          | inl same ↦ rw (same, kept.0)
          | inr other ↦ rw other (h.none_queued j)
        ];
      })

  -- From a state in which every pointer of a group is to a session of the map and no worker has
  -- anything queued, whatever is requested and however the workers take their turns, it is so in
  -- every state that is reached.
  pub Run-IsSound : {y z : Running ops opener} → IsSound y → Run ops opener y z → IsSound z
  Run-IsSound h here = h
  Run-IsSound h (next r m) = Move-IsSound (Run-IsSound h r) m

  Move-Freezes :
      {y z : Running ops opener}
      → Move ops opener y z
      → Freezes ops y.world.store.sessions z.world.store.sessions
  Move-Freezes {y = y} (requested iterate tries random c q) =
      Writes-Freezes ops (dispatch-Writes ops opener iterate tries random c q y.world)
  Move-Freezes {y = y} (worked holders i) = pass-Freezes ops holders i (y.queues i) y.world.store

  Run-Freezes :
      {y z : Running ops opener}
      → Run ops opener y z
      → Freezes ops y.world.store.sessions z.world.store.sessions
  Run-Freezes here = Freezes-refl ops _
  Run-Freezes (next r m) = Freezes-trans ops (Run-Freezes r) (Move-Freezes m)

  -- Where a session is found, TEARDOWN answers with an empty response. From then on, whatever is
  -- requested and however the workers take their turns, the map has the session as TEARDOWN left it,
  -- with its tracks, and every PLAY, PAUSE or TEARDOWN request with the same Session header throws
  -- and changes nothing.
  pub teardown-IsFinal :
      (c : Context ops.Time) (q : Request) (y z : Running ops opener) (s : Session ops)
      → get_session ops (get_header (codes "session") q) y.world.store ≡ ok s
      → Run ops opener (record y { world = (handle_teardown ops opener q y.world).1 }) z
      → ((handle_teardown ops opener q y.world).0 ≡ ok empty_response)
        × (find_session ops (get_header (codes "session") q) z.world.store.sessions
            ≡ some (teardown ops s))
        × ((q' : Request)
            → get_header (codes "session") q' ≡ get_header (codes "session") q
            → (handle_play ops opener c q' z.world ≡ (err bad_session, z.world))
              × (handle_pause ops opener c.date q' z.world ≡ (err bad_session, z.world))
              × (handle_teardown ops opener q' z.world ≡ (err bad_session, z.world)))
  unfolding handle_teardown write_session get_session teardown
  teardown-IsFinal c q y z s e r = (
    rw (handle_teardown, e),
    kept,
    λ q' same. handlers_unknown ops opener c q' z.world (rw same (rw (get_session, kept))),
  )
    where
      id : Bytes
      id = get_header (codes "session") q

      after : Store ops
      after = record y.world.store {
        sessions = put_session ops id (teardown ops s) y.world.store.sessions;
      }

      torn_down : find_session ops id after.sessions ≡ some (teardown ops s)
      torn_down =
          get_session_put ops id id s (teardown ops s) y.world.store.sessions
            (get_session-found ops id y.world.store s e).0
          ∙ rw (bytes_eq_refl id)

      left : (handle_teardown ops opener q y.world).1.store ≡ after
      left = rw (handle_teardown, e)

      kept : find_session ops id z.world.store.sessions ≡ some (teardown ops s)
      kept =
          (Run-Freezes r).frozen id (teardown ops s)
            (ap (λ (st : Store ops). find_session ops id st.sessions) left ∙ torn_down) refl
