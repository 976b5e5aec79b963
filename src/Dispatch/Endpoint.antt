-- ===== src/Dispatch/Endpoint.antt =====
-- What `get_endpoint_from_url` takes from an address.
use rtp_server.Common.{
  ℕ, suc, ◌+◌, ◌-◌, ◌≤◌, ◌≡◌, refl, ap, ◌∙◌, true, false, some, [], ◌∷◌, ◌++◌, append_assoc, arith,
  ltb, lt→ltb, ==_ne, if◌then◌else◌, length, length-append, drop, drop-append, Bytes, NoneOf, codes,
}
use rtp_server.Util.Split.{find_nth_from, find_nth_of}
use rtp_server.Dispatch.{get_endpoint_from_url}

-- Up to the next byte `c` the counters go on, and there one is taken off.
find_nth_from-append :
    (c : ℕ) (a s : Bytes) (n i : ℕ)
    → NoneOf c a
    → find_nth_from (a ++ c ∷ s) c (suc (suc n)) i ≡ find_nth_from s c (suc n) (i + length a + 1)
unfolding find_nth_from
find_nth_from-append c [] s n i h = ground arith
find_nth_from-append c (x ∷ a) s n i h =
    rw (==_ne x c h.0)
      (find_nth_from-append c a s n (i + 1) h.1 ∙ ap (find_nth_from s c (suc n)) (omega arith))

find_nth_from-last :
    (c : ℕ) (a s : Bytes) (i : ℕ)
    → NoneOf c a
    → find_nth_from (a ++ c ∷ s) c 1 i ≡ some (i + length a)
unfolding find_nth_from
find_nth_from-last c [] s i h = ground arith
find_nth_from-last c (x ∷ a) s i h =
    rw (==_ne x c h.0) (find_nth_from-last c a s (i + 1) h.1 ∙ ap some (omega arith))

-- An address `scheme:` / / host / endpoint, whose first two parts hold no slash, gives the endpoint,
-- whatever it holds, also where it is empty.
pub get_endpoint_from_url_lem :
    (scheme host endpoint : Bytes)
    → NoneOf b'/' scheme
    → NoneOf b'/' host
    → get_endpoint_from_url (scheme ++ (codes "//" ++ (host ++ b'/' ∷ endpoint))) ≡ endpoint
unfolding get_endpoint_from_url find_nth_of
get_endpoint_from_url_lem scheme host endpoint s h =
    rw (get_endpoint_from_url, found) (pick endpoint refl)
  where
    url : Bytes
    url = scheme ++ (codes "//" ++ (host ++ b'/' ∷ endpoint))

    i : ℕ
    i = 0 + length scheme + 1 + length {A = ℕ} [] + 1 + length host

    found : find_nth_from url b'/' 3 0 ≡ some i
    found =
        find_nth_from-append b'/' scheme (b'/' ∷ (host ++ b'/' ∷ endpoint)) 1 0 s
        ∙ find_nth_from-append b'/' [] (host ++ b'/' ∷ endpoint) 0 (0 + length scheme + 1) tt
        ∙ find_nth_from-last b'/' host endpoint _ h

    front : Bytes
    front = scheme ++ (codes "//" ++ (host ++ b'/' ∷ []))

    size : length url ≡ i + 1 + length endpoint
    size = omega (
      arith,
      length-append scheme (codes "//" ++ (host ++ b'/' ∷ endpoint)),
      length-append host (b'/' ∷ endpoint),
    )

    behind : drop (i + 1) url ≡ endpoint
    behind =
        let at : i + 1 ≡ length front = omega (
          arith,
          length-append scheme (codes "//" ++ (host ++ b'/' ∷ [])),
          length-append host (b'/' ∷ []),
        ) in
        let regroup : url ≡ front ++ endpoint = simp append_assoc in
        rw (at, regroup) (drop-append front endpoint)

    ltb_over : (a b : ℕ) → b ≤ a → ltb a b ≡ false
    ltb_over a b l = ground arith

    pick :
        (e : Bytes)
        → e ≡ endpoint
        → (if ltb i (length url - 1) then drop (i + 1) url else []) ≡ endpoint
    pick [] p =
        let none_left : ltb i (length url - 1) ≡ false =
          ltb_over i (length url - 1) (omega (arith, size, ap length p)) in
        rw none_left p
    pick (c ∷ e) p =
        let more : ltb i (length url - 1) ≡ true =
          lt→ltb i (length url - 1) (omega (arith, size, ap length p)) in
        rw more behind
