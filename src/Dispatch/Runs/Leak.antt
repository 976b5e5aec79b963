-- ===== src/Dispatch/Runs/Leak.antt =====
-- That no session leaves the group of a worker, whether it is torn down or not.
use rtp_server.Common.{
  ℕ, ◌≤◌, ◌≡◌, refl, ap, sym, ◌∙◌, inl, inr, some, Option-cases, List, [], arith, get_elem?, Bytes,
}
use rtp_server.Exception.{Outcome, done, threw}
use rtp_server.Session.{TrackOps}
use rtp_server.Session.Store.{Group, count_groups, Store, pass, use_count}
use rtp_server.Session.Store.Counted.{
  count_groups-add_session, count_groups-set_group, use_count-held,
}
use rtp_server.Session.Store.Kept.{IsLinked}
use rtp_server.Session.Store.Passes.{PassKeeps, pass-PassKeeps}
use rtp_server.Session.Store.Frozen.{left_by}
use rtp_server.Session.Store.Writes.{Writes, nothing, wrote, created}
use rtp_server.Dispatch.{Opener}
use rtp_server.Dispatch.Runs.{Running, Move, requested, worked, Run, here, next}
use rtp_server.Dispatch.Runs.Handled.{dispatch-Writes}
use rtp_server.Dispatch.Runs.Kept.{IsSound, Run-IsSound}

module _ (ops : TrackOps) (opener : Opener ops.Track) where
  Writes-count_groups :
      {st st' : Store ops} (id : Bytes)
      → Writes ops st st'
      → count_groups id st.groups ≤ count_groups id st'.groups
  Writes-count_groups id nothing = omega arith
  Writes-count_groups id (wrote k s s' w e live) = Writes-count_groups id w
  Writes-count_groups id (created {st' = st'} k i w e least) =
      omega (arith, Writes-count_groups id w, count_groups-add_session id k i st'.groups)

  PassKeeps-count_groups :
      (id : Bytes) (i : ℕ) (g : Group) (st : Store ops) (o : Outcome (List Bytes × Store ops))
      → get_elem? st.groups i ≡ some g
      → PassKeeps ops i g st o
      → count_groups id st.groups ≡ count_groups id (left_by ops o).1.groups
  PassKeeps-count_groups id i g st (done r) e (_, same, _) =
      sym (ap (count_groups id) same ∙ count_groups-set_group ops id i g st.groups e)
  PassKeeps-count_groups id i g st (threw x r) e (_, same, _) = sym (ap (count_groups id) same)

  pub pass-count_groups :
      (id : Bytes) (holders : Bytes → ℕ) (i : ℕ) (st : Store ops)
      → IsLinked ops st
      → count_groups id st.groups
        ≡ count_groups id (left_by ops (pass ops holders i [] st)).1.groups
  unfolding pass
  pass-count_groups id holders i st l = elim (Option-cases (get_elem? st.groups i)) [
    | inl absent ↦ rw (pass, absent) refl
    | inr (g, e) ↦
        PassKeeps-count_groups id i g st (pass ops holders i [] st) e
          (pass-PassKeeps ops holders i g st e l)
  ]

  Move-count_groups :
      {y z : Running ops opener} (id : Bytes)
      → IsSound ops opener y
      → Move ops opener y z
      → count_groups id y.world.store.groups ≤ count_groups id z.world.store.groups
  Move-count_groups {y = y} id h (requested iterate tries random c q) =
      Writes-count_groups id (dispatch-Writes ops opener iterate tries random c q y.world)
  Move-count_groups {y = y} id h (worked holders i) =
      rw (h.none_queued i) (omega (arith, pass-count_groups id holders i y.world.store h.is_linked))

  Run-count_groups :
      {y z : Running ops opener} (id : Bytes)
      → IsSound ops opener y
      → Run ops opener y z
      → count_groups id y.world.store.groups ≤ count_groups id z.world.store.groups
  Run-count_groups id h here = omega arith
  Run-count_groups id h (next r m) =
      omega (arith, Run-count_groups id h r, Move-count_groups id (Run-IsSound ops opener h r) m)

  -- From a state in which every pointer of a group is to a session of the map and no worker has
  -- anything queued, whatever is requested and however the workers take their turns: a session that
  -- is in a group stays in one, be it torn down or not, and its pointer count, for which a worker
  -- would remove it at 1, is at least 2, however many copies the handlers hold.
  pub Run-use_count :
      {y z : Running ops opener} (id : Bytes)
      → IsSound ops opener y
      → 1 ≤ count_groups id y.world.store.groups
      → Run ops opener y z
      → (1 ≤ count_groups id z.world.store.groups)
        × ((holders : Bytes → ℕ) → 2 ≤ use_count ops holders id z.world.store)
  Run-use_count {z = z} id h held r =
      let still : 1 ≤ count_groups id z.world.store.groups =
        omega (arith, held, Run-count_groups id h r) in
      (
        still,
        λ holders.
            use_count-held ops holders id z.world.store (Run-IsSound ops opener h r).is_linked
              still,
      )
