-- ===== src/Rtp/Transport/Ports.antt =====
-- The client's ports.
use mathlib.Core.Option
use native.Mathlib.Numerals.{add-one}
use rtp_server.Common.{
  append-nil, find_char_free, find_char-append, ==_refl, ==_ne, take_all, take-append,
  drop-suc_append, length-append, ℕ, suc, ◌+◌, ◌%◌, ◌^◌, ◌<◌, ◌≡◌, ◌∙◌, ◌⊎◌, inl, inr, false,
  Option, none, some, Option-cases, [], ◌++◌, arith, ◌==◌, length, take, drop, Bytes, codes, find,
}
use rtp_server.Exception.{ok, IsOk, IsOk-bind}
use rtp_server.Util.Decimal.{
  from_chars, from_chars_bound, from_chars-to_chars, AllDigits-NoneOf, to_chars-AllDigits, to_chars,
}
use rtp_server.Rtp.Transport.{PortPair, to_even, set_rtcp_port, set_client_ports}

-- A port pair for RTP and RTCP: an even port, and the one behind it or none.
abbrev pub IsPair : PortPair → Type 0
IsPair p = (p.first % 2 ≡ 0) × (p.first < 2 ^ 16) × ((p.second ≡ 0) ⊎ (p.second ≡ p.first + 1))

abbrev HasNext : ℕ → PortPair → Type 0
HasNext first q = (q.first ≡ first) × ((q.second ≡ 0) ⊎ (q.second ≡ first + 1))

set_rtcp_port-HasNext :
    (value : Bytes) (i : ℕ) (p : PortPair)
    → p.second ≡ 0
    → IsOk (HasNext p.first) (set_rtcp_port value i p)
unfolding set_rtcp_port
set_rtcp_port-HasNext value i p h = ground arith

to_even-IsPair : (first : ℕ) (p : PortPair) → first < 2 ^ 16 → HasNext first p → IsPair (to_even p)
unfolding to_even
to_even-IsPair first p l h = ground arith

to_even-IsEven :
    (p : PortPair) → p.first < 2 ^ 16 → ((to_even p).first % 2 ≡ 0) × ((to_even p).first < 2 ^ 16)
unfolding to_even
to_even-IsEven p l = ground arith

-- Where no second port was stored before, any `client_port` value that is accepted gives an even
-- port, with the next port behind it or none.
pub set_client_ports-IsPair :
    (value : Bytes) (p : PortPair) → p.second ≡ 0 → IsOk IsPair (set_client_ports value p)
unfolding set_client_ports
set_client_ports-IsPair value p h = elim (Option-cases first) [
  | inl e ↦ rw (set_client_ports, e) tt
  | inr (n, e) ↦
      rw (set_client_ports, e)
        (IsOk-bind (HasNext n) IsPair (set_rtcp_port value i (record p { first = n })) _
          (set_rtcp_port-HasNext value i (record p { first = n }) h)
          (λ q. to_even-IsPair n q (from_chars_bound (2 ^ 16) (take i value) e)))
]
  where
    i : ℕ
    i = Option.get_or (find (codes "-") value) (length value)

    first : Option ℕ
    first = from_chars (2 ^ 16) (take i value)

set_rtcp_port-first :
    (value : Bytes) (i : ℕ) (p : PortPair) → IsOk (λ q. q.first ≡ p.first) (set_rtcp_port value i p)
unfolding set_rtcp_port
set_rtcp_port-first value i p = ground arith

abbrev pub IsEven : PortPair → Type 0
IsEven p = (p.first % 2 ≡ 0) × (p.first < 2 ^ 16)

pub set_client_ports-IsEven :
    (value : Bytes) (p : PortPair) → IsOk IsEven (set_client_ports value p)
unfolding set_client_ports
set_client_ports-IsEven value p = elim (Option-cases first) [
  | inl e ↦ rw (set_client_ports, e) tt
  | inr (n, e) ↦
      rw (set_client_ports, e)
        (IsOk-bind (λ q. q.first ≡ n) IsEven (set_rtcp_port value i (record p { first = n })) _
          (set_rtcp_port-first value i (record p { first = n }))
          (λ q s. to_even-IsEven q (rw s (from_chars_bound (2 ^ 16) (take i value) e))))
]
  where
    i : ℕ
    i = Option.get_or (find (codes "-") value) (length value)

    first : Option ℕ
    first = from_chars (2 ^ 16) (take i value)

-- A `client_port` value of one number.
pub set_client_ports_one :
    (n : ℕ) (p : PortPair)
    → n < 2 ^ 16
    → set_client_ports (to_chars n) p ≡ ok (to_even (record p { first = n }))
unfolding set_client_ports set_rtcp_port
set_client_ports_one n p h = rw (
  set_client_ports,
  no_dash,
  take_all (to_chars n),
  number,
  set_rtcp_port,
  ==_refl (length (to_chars n)),
)
  where
    no_dash : find (codes "-") (to_chars n) ≡ none
    no_dash =
        find_char_free b'-' (to_chars n)
          (AllDigits-NoneOf b'-' (to_chars n) (inl (omega arith)) (to_chars-AllDigits n))

    number : from_chars (2 ^ 16) (to_chars n) ≡ some n
    number = rw (← append-nil (to_chars n)) (from_chars-to_chars (2 ^ 16) n [] h (omega arith) tt)

-- A `client_port` parameter with one even number below 2 ^ 16 replaces the first port alone: the
-- second one stays, whatever it was.
pub set_client_ports-stale :
    (n : ℕ) (p : PortPair)
    → n < 2 ^ 16
    → n % 2 ≡ 0
    → set_client_ports (to_chars n) p ≡ ok (record { first = n; second = p.second })
set_client_ports-stale n p h e = set_client_ports_one n p h ∙ unfold to_even in ground arith

-- A `client_port` value of two numbers, the second one more than the first.
pub set_client_ports_pair :
    (n : ℕ) (p : PortPair)
    → suc n < 2 ^ 16
    → set_client_ports (to_chars n ++ (codes "-" ++ to_chars (suc n))) p
      ≡ ok (to_even (record { first = n; second = suc n }))
unfolding set_client_ports set_rtcp_port
set_client_ports_pair n p h =
    rw
      (
        set_client_ports,
        dash,
        take-append (to_chars n) (codes "-" ++ to_chars (suc n)),
        first,
        set_rtcp_port,
        not_all,
        behind,
        second,
      )
      (ground arith)
  where
    value : Bytes
    value = to_chars n ++ (codes "-" ++ to_chars (suc n))

    dash : find (codes "-") value ≡ some (length (to_chars n))
    dash =
        find_char-append b'-' (to_chars n) (to_chars (suc n))
          (AllDigits-NoneOf b'-' (to_chars n) (inl (omega arith)) (to_chars-AllDigits n))

    first : from_chars (2 ^ 16) (to_chars n) ≡ some n
    first =
        rw (← append-nil (to_chars n))
          (from_chars-to_chars (2 ^ 16) n [] (omega arith) (omega arith) tt)

    second : from_chars (2 ^ 16) (to_chars (suc n)) ≡ some (suc n)
    second =
        rw (← append-nil (to_chars (suc n)))
          (from_chars-to_chars (2 ^ 16) (suc n) [] h (omega arith) tt)

    not_all : (length (to_chars n) == length value) ≡ false
    not_all = ==_ne _ _ (omega (arith, length-append (to_chars n) (codes "-" ++ to_chars (suc n))))

    behind : drop (length (to_chars n) + 1) value ≡ to_chars (suc n)
    behind =
        rw (add-one (length (to_chars n))) (drop-suc_append (to_chars n) b'-' (to_chars (suc n)))
