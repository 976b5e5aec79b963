-- ===== src/Server/Owner.antt =====
-- The objects of `Server::Connection` of src/Server/Connection.cpp in the map of the server: their
-- moves and destructors, each of which may close a descriptor.
pub mod Stored
mod Tests
use rtp_server.Common.{
  ℕ, zero, suc, Bool, true, false, Option, none, some, ◌==◌, if◌then◌else◌, Bytes,
}
use rtp_server.Exception.{out_of_fuel, Result, ok, err, ◌>>=◌}
use rtp_server.Server.{Connection, new_connection}

-- A connection with its descriptor; 0 is that of an object which has been moved from.
pub record Object : Type 0 where
  pub fd : ℕ
  pub connection : Connection

-- The constructor.
abbrev pub object_of : ℕ → Bytes → Object
object_of fd address = record { fd = fd; connection = new_connection address }

-- What the library leaves in a string and a request that were moved from is a parameter.
module _ (moved_from : Connection → Connection) where
  -- The move constructor, with what it leaves of the other object.
  unfoldable pub move_object : Object → Object × Object
  move_object other = (other, record { fd = 0; connection = moved_from other.connection })

  -- `operator=`, with what it leaves of the other object. `std::swap` moves the first object into a
  -- third one, and then assigns by `operator=` two times (the destructor of the third one is left
  -- out). `calls` bounds the depth.
  unfoldable pub assign_object : ℕ → Object → Object → Result (Object × Object)
  assign_object zero this other = err out_of_fuel
  assign_object (suc calls) this other =
      let (third, this₁) = move_object this in
      do
        (this₂, other₁) ← assign_object calls this₁ other
        (other₂, third₁) ← assign_object calls other₁ third
        ok (this₂, other₂)

  -- The map, and the descriptors that are open.
  pub record Objects : Type 0 where
    pub objects : ℕ → Option Object
    pub is_open : ℕ → Bool

  -- The destructor.
  unfoldable pub destroy_object : Object → Objects → Objects
  destroy_object o w =
      if o.fd == 0 then w else record w { is_open = λ x. if o.fd == x then false else w.is_open x }

  abbrev put_object : ℕ → Object → Objects → Objects
  put_object fd o w = record w { objects = λ x. if fd == x then some o else w.objects x }

  -- `connections.insert_or_assign(connection, Connection(connection, connection_addr))`: the object
  -- made for the call is moved into the map, or assigned to the one there, and destroyed.
  unfoldable pub insert_object : ℕ → ℕ → Bytes → Objects → Result Objects
  insert_object calls fd address w = elim (w.objects fd) [
    | none ↦
        let (stored, temporary) = move_object (object_of fd address) in
        ok (destroy_object temporary (put_object fd stored w))
    | some there ↦ do
      (stored, temporary) ← assign_object calls there (object_of fd address)
      ok (destroy_object temporary (put_object fd stored w))
  ]

  -- `connections.erase(fd)`
  unfoldable pub erase_object : ℕ → Objects → Objects
  erase_object fd w = elim (w.objects fd) [
    | none ↦ w
    | some o ↦ destroy_object o (record w { objects = λ x. if fd == x then none else w.objects x })
  ]
