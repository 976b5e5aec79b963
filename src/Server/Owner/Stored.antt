-- ===== src/Server/Owner/Stored.antt =====
-- That the map of objects does what the steps of the server take it to do.
use rtp_server.Common.{
  ℕ, zero, suc, ◌≡◌, ◌≢◌, refl, ap, sym, true, ◌∙◌, inl, inr, false, Option, none, some,
  Option-cases, arith, ◌==◌, if◌then◌else◌, Bytes,
}
use rtp_server.Exception.{out_of_fuel, ok, err}
use rtp_server.Server.{Connection, new_connection}
use rtp_server.Server.Loop.{Platform, Server, put, erase}
use rtp_server.Server.Owner.{
  Object, move_object, assign_object, Objects, destroy_object, insert_object, erase_object,
}

abbrev pub connection_of : Option Object → Option Connection
connection_of none = none
connection_of (some o) = some o.connection

module _ (moved_from : Connection → Connection) where
  assign_object_lem :
      (calls : ℕ) (this other : Object)
      → assign_object moved_from calls this other ≡ err out_of_fuel
  unfolding assign_object
  assign_object_lem zero this other = refl
  assign_object_lem (suc calls) this other = rw (assign_object, assign_object_lem calls)

  -- A connection is accepted whose descriptor is in the map: however deep the calls may go,
  -- `insert_or_assign` does not return.
  pub insert_object-never_returns :
      (w : Objects moved_from) (fd calls : ℕ) (address : Bytes) (o : Object)
      → w.objects fd ≡ some o
      → insert_object moved_from calls fd address w ≡ err out_of_fuel
  unfolding insert_object
  insert_object-never_returns w fd calls address o e =
      rw (insert_object, e, assign_object_lem calls) refl

module _ (g : Platform) (moved_from : Connection → Connection) where
  -- The map gives the connections of the server, each object has the descriptor that it is stored
  -- under, and the same descriptors are open.
  pub record Stores (w : Objects moved_from) (s : Server g) : Type 0 where
    pub same_connection : (x : ℕ) → s.connections x ≡ connection_of (w.objects x)
    pub own_descriptor : (x : ℕ) (o : Object) → w.objects x ≡ some o → o.fd ≡ x
    pub same_open : (x : ℕ) → s.is_open x ≡ w.is_open x

  insert_object-Stores :
      (w : Objects moved_from) (s : Server g) (fd calls : ℕ) (address : Bytes)
      → Stores w s
      → w.objects fd ≡ none
      → (w' : Objects moved_from) × (insert_object moved_from calls fd address w ≡ ok w')
        × Stores w' (put g fd (new_connection address) s)
  unfolding insert_object destroy_object move_object
  insert_object-Stores w s fd calls address h e =
      rw (insert_object, e)
        (
          _,
          refl,
          record {
            same_connection = λ x. ground (arith, h.same_connection x);
            own_descriptor = λ x o f. ground (arith, h.own_descriptor x o, f);
            same_open = h.same_open;
          },
        )

  erase_object-Stores :
      (w : Objects moved_from) (s : Server g) (fd : ℕ) (o : Object)
      → Stores w s
      → w.objects fd ≡ some o
      → fd ≢ 0
      → Stores (erase_object moved_from fd w) (erase g fd s)
  unfolding erase_object destroy_object erase
  erase_object-Stores w s fd o h e positive =
      let own : o.fd ≡ fd = h.own_descriptor fd o e in
      let closes : (o.fd == 0) ≡ false = ground (arith, own, positive) in
      rw (erase_object, e, closes)
        (record {
          same_connection = λ x. ground (arith, h.same_connection x);
          own_descriptor = λ x p f. ground (arith, h.own_descriptor x p, f);
          same_open = λ x. ground (arith, own, h.same_open x);
        })

  -- Where the objects are those of the server, a connection is accepted whose descriptor is neither 0
  -- nor in the map: `insert_or_assign` returns, and the objects are those of the server with the new
  -- connection, whose descriptor is not closed with the object made for the call. Once it is erased
  -- again they are those of the server without it, in which that descriptor alone is closed.
  pub insert_and_erase-Stores :
      (w : Objects moved_from) (s : Server g) (fd calls : ℕ) (address : Bytes)
      → Stores w s
      → w.objects fd ≡ none
      → fd ≢ 0
      → (w' : Objects moved_from) × (insert_object moved_from calls fd address w ≡ ok w')
        × Stores w' (put g fd (new_connection address) s)
        × Stores (erase_object moved_from fd w') (erase g fd (put g fd (new_connection address) s))
  insert_and_erase-Stores w s fd calls address h e positive =
      let (w', run, stored) = insert_object-Stores w s fd calls address h e in
      let self : (fd == fd) ≡ true = ground arith in
      let there : connection_of (w'.objects fd) ≡ some (new_connection address) =
        sym (stored.same_connection fd)
        ∙ ap (λ b. if b then some (new_connection address) else s.connections fd) self in
      elim (Option-cases (w'.objects fd)) [
        | inl absent ↦ absurd (ground (arith, rw absent at there))
        | inr (o, found) ↦ (
          w',
          run,
          stored,
          erase_object-Stores w' (put g fd (new_connection address) s) fd o stored found positive,
        )
      ]
