-- ===== src/Session/Store.antt =====
-- The static part of `Session` and `Session::Group` of src/Server/Session.h and
-- src/Server/Session.cpp. Nothing takes a session out of the map `sessions`, so a `shared_ptr` to
-- one is its id. An operation under a lock, and one pass of a worker, is taken in one piece.
pub mod Ids
pub mod Kept
pub mod Passes
pub mod Created
pub mod Frozen
pub mod Writes
pub mod Counted
pub mod Served
use rtp_server.Common.{
  ℕ, zero, suc, ◌+◌, ◌-◌, ◌*◌, ◌/◌, ◌%◌, ◌^◌, Bool, true, false, Option, none, some, List, [], ◌∷◌,
  ◌++◌, ltb, ◌==◌, if◌then◌else◌, length, get_elem?, Bytes, bytes_eq,
}
use rtp_server.Exception.{
  Error, bad_session, out_of_fuel, undefined_behaviour, Result, ok, err, Outcome, done, threw,
}
use rtp_server.Session.{TrackOps, Session, new_session, tick}

-- The bytes of the random number, the lowest first, each taken to a letter from A to Z.
pub letters : ℕ → ℕ → Bytes
letters zero bits = []
letters (suc n) bits = (bits % 256 % 26 + b'A') ∷ letters n (bits / 256)

unfoldable pub generate_id : ℕ → Bytes
unfolding letters
generate_id bits = letters 8 bits

pub record Group : Type 0 where
  pub sessions : List Bytes
  pub newly_added : List Bytes

-- The loop over the groups: the first one with the fewest sessions, `best` being the place and the
-- number of the one found before.
pub least_from : ℕ → Option (ℕ × ℕ) → List Group → Option ℕ
least_from i none [] = none
least_from i (some best) [] = some best.0
least_from i none (g ∷ gs) = least_from (suc i) (some (i, length g.sessions)) gs
least_from i (some best) (g ∷ gs) =
    least_from (suc i)
      (some (if ltb (length g.sessions) best.1 then (i, length g.sessions) else best)) gs

unfoldable pub add_session : ℕ → Bytes → List Group → List Group
add_session i id [] = []
add_session zero id (g ∷ gs) = record g { newly_added = g.newly_added ++ id ∷ [] } ∷ gs
add_session (suc i) id (g ∷ gs) = g ∷ add_session i id gs

unfoldable pub count_id : Bytes → List Bytes → ℕ
count_id id [] = 0
count_id id (x ∷ xs) = (if bytes_eq x id then 1 else 0) + count_id id xs

unfoldable pub count_groups : Bytes → List Group → ℕ
count_groups id [] = 0
count_groups id (g ∷ gs) = count_id id g.sessions + count_id id g.newly_added + count_groups id gs

module _ (ops : TrackOps) where
  abbrev pub Sessions : Type 0
  Sessions = List (Bytes × Session ops)

  unfoldable pub find_session : Bytes → Sessions → Option (Session ops)
  find_session id [] = none
  find_session id ((k, s) ∷ ss) = if bytes_eq k id then some s else find_session id ss

  -- What is written through a pointer to the session.
  unfoldable pub put_session : Bytes → Session ops → Sessions → Sessions
  put_session id s' [] = []
  put_session id s' ((k, s) ∷ ss) =
      if bytes_eq k id then (k, s') ∷ ss else (k, s) ∷ put_session id s' ss

  pub record Store : Type 0 where
    pub sessions : Sessions
    pub groups : List Group

  -- `get(id)`
  unfoldable pub get_session : Bytes → Store → Result (Session ops)
  unfolding find_session
  get_session id st = elim (find_session id st.sessions) [
    | none ↦ err bad_session
    | some s ↦ if s.is_active then ok s else err bad_session
  ]

  -- The `do` loop: `random n` is the `n`-th number that is drawn. It is left at an id that is not in
  -- the map, and `tries` bounds it.
  unfoldable pub fresh_id : ℕ → (ℕ → ℕ) → ℕ → Sessions → Option (Bytes × ℕ)
  fresh_id zero random n ss = none
  fresh_id (suc tries) random n ss = elim (find_session (generate_id (random n)) ss) [
    | none ↦ some (generate_id (random n), n + 1)
    | some _ ↦ fresh_id tries random (n + 1) ss
  ]

  -- `get()` behind the choice of the id. Without a group, `dest` is a null pointer.
  unfoldable pub insert_session : Bytes → Store → Result Store
  unfolding add_session least_from
  insert_session id st = elim (least_from 0 none st.groups) [
    | none ↦ err undefined_behaviour
    | some i ↦ ok (record {
      sessions = (id, new_session ops id) ∷ st.sessions;
      groups = add_session i id st.groups;
    })
  ]

  -- `get()`, with the id and the place of the next number.
  unfoldable pub create_session : ℕ → (ℕ → ℕ) → ℕ → Store → Result ((Bytes × ℕ) × Store)
  create_session tries random n st = elim (fresh_id tries random n st.sessions) [
    | none ↦ err out_of_fuel
    | some (id, m) ↦ elim (insert_session id st) [ err e ↦ err e | ok st' ↦ ok ((id, m), st') ]
  ]

  -- `use_count`: the map, the groups, and the copies that handlers hold.
  unfoldable pub use_count : (Bytes → ℕ) → Bytes → Store → ℕ
  unfolding count_groups count_id
  use_count holders id st =
      (elim (find_session id st.sessions) [ none ↦ 0 | some _ ↦ 1 ])
      + (count_groups id st.groups + holders id)

  -- The `for` loop of `watch_streams` over the sessions of a group, with those to be removed.
  pub visit : (Bytes → ℕ) → List Bytes → List Bytes → Store → Outcome (List Bytes × Store)
  visit holders [] to_remove st = done (to_remove, st)
  visit holders (id ∷ ids) to_remove st = elim (find_session id st.sessions) [
    | none ↦ threw undefined_behaviour (to_remove, st)
    | some s ↦
        if s.is_active
        then (elim (tick ops s) [
          | threw e s' ↦ threw e (to_remove, record st { sessions = put_session id s' st.sessions })
          | done s' ↦
              visit holders ids to_remove (record st { sessions = put_session id s' st.sessions })
        ])
        else visit holders ids
            (if use_count holders id st == 1 then to_remove ++ id ∷ [] else to_remove) st
  ]

-- `sessions.erase` of each iterator in `to_remove`. After the first one the others are invalid.
pub erase_all : List Bytes → List Bytes → Result (List Bytes)
erase_all [] ids = ok ids
erase_all (r ∷ []) [] = ok []
erase_all (r ∷ []) (id ∷ ids) = elim (erase_all (r ∷ []) ids) [
  | err e ↦ err e
  | ok rest ↦ ok (if bytes_eq id r then ids else id ∷ rest)
]
erase_all (r ∷ q ∷ rs) ids = err undefined_behaviour

unfoldable pub set_group : ℕ → Group → List Group → List Group
set_group i g' [] = []
set_group zero g' (g ∷ gs) = g' ∷ gs
set_group (suc i) g' (g ∷ gs) = g ∷ set_group i g' gs

module _ (ops : TrackOps) where
  -- One pass of the `while` loop of `watch_streams` for group `i`, with the queue `to_remove`, which
  -- outlives it.
  unfoldable pub pass : (Bytes → ℕ) → ℕ → List Bytes → Store ops → Outcome (List Bytes × Store ops)
  unfolding visit erase_all set_group
  pass holders i to_remove st = elim (get_elem? st.groups i) [
    | none ↦ threw undefined_behaviour (to_remove, st)
    | some g ↦ elim (visit ops holders g.sessions to_remove st) [
      | threw e r ↦ threw e r
      | done (to_remove', st') ↦ elim (erase_all to_remove' g.sessions) [
        | err e ↦ threw e (to_remove', st')
        | ok ids ↦ done (
          [],
          record st' {
            groups =
                set_group i (record { sessions = ids ++ g.newly_added; newly_added = [] })
                  st'.groups;
          },
        )
      ]
    ]
  ]
