-- ===== src/Server/Owner/Tests.antt =====
-- Descriptor 7 on a server without connections.
use rtp_server.Common.{true, false, none, ◌≡◌, refl, arith, ◌==◌, [], codes}
use rtp_server.Exception.{ok}
use rtp_server.Server.{Connection, new_connection}
use rtp_server.Server.Loop.{Server, put, erase}
use rtp_server.Server.Loop.Tests.{platform, start}
use rtp_server.Server.Owner.{Objects, insert_object, erase_object}
use rtp_server.Server.Owner.Stored.{Stores, insert_and_erase-Stores}

abbrev emptied : Connection → Connection
emptied c = new_connection []

abbrev server : Server platform
server = record {
  connections = λ x. none;
  epoll = λ x. false;
  is_open = λ x. x == 7;
  is_live = true;
  world = start.server.world;
  sent = [];
}

abbrev no_objects : Objects emptied
no_objects = record { objects = λ x. none; is_open = λ x. x == 7 }

insert_and_erase_example :
    (w' : Objects emptied) × (insert_object emptied 9 7 (codes "h") no_objects ≡ ok w')
    × Stores platform emptied w' (put platform 7 (new_connection (codes "h")) server)
    × Stores platform emptied
        (erase_object emptied 7 w')
        (erase platform 7 (put platform 7 (new_connection (codes "h")) server))
insert_and_erase_example =
    insert_and_erase-Stores platform emptied no_objects server 7 9 (codes "h")
      (record {
        same_connection = λ x. refl;
        own_descriptor = λ x o e. absurd (ground arith);
        same_open = λ x. refl;
      })
      refl (λ e. ground arith)
