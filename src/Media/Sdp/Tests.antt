-- ===== src/Media/Sdp/Tests.antt =====
-- A description of two lines, in a buffer of 16 bytes.
use rtp_server.Common.{
  ◌≡◌, refl, some, blit, [], ◌∷◌, ◌++◌, length, Bytes, codes, c_str, all-NoneOf,
}
use rtp_server.Exception.{ok}
use rtp_server.Media.Sdp.{get_sdp, remove_from}
use rtp_server.Media.Sdp.Removed.{get_sdp-without_cr}

abbrev two_lines : Bytes
two_lines = codes "v=0\r\nt=0 0\r\n"

get_sdp-without_cr_example :
    (b : Bytes) × (get_sdp (some (two_lines ++ 0 ∷ (0 ∷ 0 ∷ []))) ≡ ok b)
    × (c_str b ≡ codes "v=0\nt=0 0\n")
    × (length b ≡ 15)
get_sdp-without_cr_example = get_sdp-without_cr two_lines (0 ∷ 0 ∷ []) (all-NoneOf 0 two_lines refl)

-- What the last move leaves stands behind the description.
get_sdp_leftovers :
    get_sdp (some (two_lines ++ 0 ∷ [])) ≡ ok (codes "v=0\nt=0 0\n" ++ 0 ∷ codes "\n" ++ 0 ∷ [])
unfolding get_sdp remove_from blit
get_sdp_leftovers = refl
