-- ===== src/Session/Store/Passes.antt =====
-- That no session leaves its group.
use rtp_server.Common.{
  ℕ, zero, suc, ◌≤◌, ◌≡◌, refl, subst, ap, inl, inr, none, some, List, [], ◌∷◌, ◌++◌, arith,
  get_elem?, All, Bytes, bytes_eq_refl,
}
use rtp_server.Exception.{Outcome, done, threw, Outcome-cases}
use rtp_server.Session.{TrackOps}
use rtp_server.Session.Store.{
  Group, count_id, count_groups, Sessions, Store, visit, erase_all, set_group, pass,
}
use rtp_server.Session.Store.Kept.{Known, IsLinked, Keeps, Ready, Visited, visit-Visited}

All-weaken {ℓ κ μ} :
    {A : Type ℓ} (P : A → Type κ) (Q : A → Type μ) (xs : List A)
    → ((x : A) → P x → Q x)
    → All P xs
    → All Q xs
All-weaken P Q [] f h = tt
All-weaken P Q (x ∷ xs) f h = (f x h.0, All-weaken P Q xs f h.1)

All-append {ℓ κ} :
    {A : Type ℓ} (P : A → Type κ) (xs ys : List A) → All P xs → All P ys → All P (xs ++ ys)
All-append P [] ys h k = k
All-append P (x ∷ xs) ys h k = (h.0, All-append P xs ys h.1 k)

count_id_self : (ids : List Bytes) → All (λ id. 1 ≤ count_id id ids) ids
unfolding count_id
count_id_self [] = tt
count_id_self (y ∷ ys) = (
  rw (bytes_eq_refl y) (omega arith),
  All-weaken (λ id. 1 ≤ count_id id ys) (λ id. 1 ≤ count_id id (y ∷ ys)) ys
      (λ id h. omega (arith, h)) (count_id_self ys),
)

count_groups-get_elem? :
    (id : Bytes) (gs : List Group) (i : ℕ) {g : Group}
    → get_elem? gs i ≡ some g
    → count_id id g.sessions ≤ count_groups id gs
unfolding count_groups
count_groups-get_elem? id [] i e = absurd (ground arith)
count_groups-get_elem? id (g ∷ gs) zero e = ground (arith, e)
count_groups-get_elem? id (g ∷ gs) (suc i) e = omega (arith, count_groups-get_elem? id gs i e)

pub some_inj {ℓ} : {A : Type ℓ} {a b : A} → some a ≡ some b → a ≡ b
some_inj {a = a} p = ap (λ o. elim o [ none ↦ a | some x ↦ x ]) p

All-get_elem? {ℓ κ} :
    {A : Type ℓ} (P : A → Type κ) (xs : List A) (i : ℕ) {x : A}
    → All P xs
    → get_elem? xs i ≡ some x
    → P x
All-get_elem? P [] i h e = absurd (ground arith)
All-get_elem? P (y ∷ ys) zero h e = subst P (some_inj e) h.0
All-get_elem? P (y ∷ ys) (suc i) h e = All-get_elem? P ys i h.1 e

All-set_group {κ} :
    (P : Group → Type κ) (i : ℕ) (g : Group) (gs : List Group)
    → P g
    → All P gs
    → All P (set_group i g gs)
unfolding set_group
All-set_group P i g [] p h = tt
All-set_group P zero g (x ∷ gs) p h = (p, h.1)
All-set_group P (suc i) g (x ∷ gs) p h = (h.0, All-set_group P i g gs p h.1)

module _ (ops : TrackOps) where
  abbrev Linked : Sessions ops → Group → Type 0
  Linked ss g = All (Known ops ss) g.sessions × All (Known ops ss) g.newly_added

  pub IsLinked-Keeps : (st st' : Store ops) → Keeps ops st st' → IsLinked ops st → IsLinked ops st'
  IsLinked-Keeps st st' k l = rw k.groups_same (
      All-weaken (Linked st.sessions) (Linked st'.sessions) st.groups
        (λ g h. (
          All-weaken (Known ops st.sessions) (Known ops st'.sessions) g.sessions k.known h.0,
          All-weaken (Known ops st.sessions) (Known ops st'.sessions) g.newly_added k.known h.1,
        ))
        l)

  sessions-Ready :
      (st : Store ops) (i : ℕ) (g : Group)
      → get_elem? st.groups i ≡ some g
      → All (Known ops st.sessions) g.sessions
      → Ready ops st g.sessions
  sessions-Ready st i g e known = both g.sessions known (count_id_self g.sessions)
    where
      both :
          (ids : List Bytes)
          → All (Known ops st.sessions) ids
          → All (λ id. 1 ≤ count_id id g.sessions) ids
          → Ready ops st ids
      both [] k c = tt
      both (id ∷ ids) k c =
          ((k.0, omega (arith, c.0, count_groups-get_elem? id st.groups i e)), both ids k.1 c.1)

  -- Group `i` behind a pass: its sessions and the new ones.
  abbrev pub grown : Group → Group
  grown g = record { sessions = g.sessions ++ g.newly_added; newly_added = [] }

  abbrev pub PassKeeps : ℕ → Group → Store ops → Outcome (List Bytes × Store ops) → Type 0
  PassKeeps i g st (done (rm, st')) =
      (rm ≡ []) × (st'.groups ≡ set_group i (grown g) st.groups) × IsLinked ops st'
  PassKeeps i g st (threw e (rm, st')) = (rm ≡ []) × (st'.groups ≡ st.groups) × IsLinked ops st'

  IsLinked-grown :
      (i : ℕ) (g : Group) (st : Store ops)
      → get_elem? st.groups i ≡ some g
      → IsLinked ops st
      → IsLinked ops (record st { groups = set_group i (grown g) st.groups })
  IsLinked-grown i g st e l =
      let here : Linked st.sessions g = All-get_elem? (Linked st.sessions) st.groups i l e in
      All-set_group (Linked st.sessions) i (grown g) st.groups
        (All-append (Known ops st.sessions) g.sessions g.newly_added here.0 here.1, tt) l

  -- One pass of a worker over its group, where every pointer of a group is to a session of the map
  -- and nothing is queued: no session is removed, whether it is torn down or not. The group has its
  -- sessions and the new ones behind them, and every other group is as it was; if a tick throws, all
  -- groups are as they were. The pointers are still to sessions of the map, and nothing is queued.
  pub pass-PassKeeps :
      (holders : Bytes → ℕ) (i : ℕ) (g : Group) (st : Store ops)
      → get_elem? st.groups i ≡ some g
      → IsLinked ops st
      → PassKeeps i g st (pass ops holders i [] st)
  unfolding pass
  pass-PassKeeps holders i g st e l = elim (Outcome-cases visited) [
    | inl ((rm, st'), run) ↦
        let v : (rm ≡ []) × Keeps ops st st' = subst (Visited ops [] st) run visited_keeps in
        let k : Keeps ops st st' = v.1 in
        let l' : IsLinked ops st' = IsLinked-Keeps st st' k l in
        rw (pass, e, run, v.0, erase_all)
          (
            refl,
            ap (set_group i (grown g)) k.groups_same,
            IsLinked-grown i g st' (rw k.groups_same e) l',
          )
    | inr (x, (rm, st'), run) ↦
        let v : (rm ≡ []) × Keeps ops st st' = subst (Visited ops [] st) run visited_keeps in
        let k : Keeps ops st st' = v.1 in
        rw (pass, e, run) (v.0, k.groups_same, IsLinked-Keeps st st' k l)
  ]
    where
      visited : Outcome (List Bytes × Store ops)
      visited = visit ops holders g.sessions [] st

      visited_keeps : Visited ops [] st visited
      visited_keeps =
          visit-Visited ops holders g.sessions [] st
            (sessions-Ready st i g e (All-get_elem? (Linked st.sessions) st.groups i l e).0)
