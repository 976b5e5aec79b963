-- ===== src/Server/Loop/Defined.antt =====
-- Where a thread of the server comes to undefined behaviour.
use rtp_server.Common.{ℕ, false, some, ◌≡◌, Bytes}
use rtp_server.Exception.{Error, is_caught}
use rtp_server.Rtsp.Response.{Response}
use rtp_server.Server.{Connection}
use rtp_server.Server.Loop.{Platform, Server, Answers, Pc, undefined, received, erased}
use rtp_server.Server.Loop.Round.{stopped_by}

-- Every place but one.
abbrev IsDefined : Pc → Type 0
IsDefined undefined = ⊥
IsDefined _ = Unit

module _ (g : Platform) where
  -- The parser or the handler stops with what is no exception of the code.
  abbrev pub Breaks : Answers g → Bytes → Connection → Server g → Type 0
  Breaks k b c s = (e : Error) × (stopped_by g k b c s ≡ some e) × (is_caught e ≡ false)

  -- The thread is there already, or at the end of the scope of `_d1` behind `erase`, or it has
  -- received bytes that break the parser or the handler.
  pub data IsLeft (k : Answers g) (p : Pc) (s : Server g) : Type 0 where
    already : p ≡ undefined → IsLeft k p s
    unlocks_erased : (fd : ℕ) → p ≡ erased fd → IsLeft k p s
    breaks :
        (fd : ℕ) (b : Bytes) (c : Connection)
        → p ≡ received fd b
        → s.connections fd ≡ some c
        → Breaks k b c s
        → IsLeft k p s
