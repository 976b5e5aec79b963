-- ===== src/Exception.antt =====
-- What the sources throw (src/Server/Exception.h), as values. The text of a message is read by
-- nobody but the log, so each `throw` is named for its cause.
pub mod Messages
use rtp_server.Common.{refl, ◌⊎◌, inl, inr, ◌≡◌, subst, Option, none, some, Bool, true, false}

pub data Error : Type 0 where
  -- RTSPRequest.cpp
  bad_request_line bad_header bad_content_length : Error
  -- RTPTransport.cpp
  bad_transport_spec bad_protocol bad_profile bad_lower_transport missing_unicast : Error
  unsupported_mode bad_rtp_port bad_rtcp_port bind_failed : Error
  -- UDP.cpp
  socket_failed address_failed connect_failed send_failed : Error
  -- RTSPResponse.cpp, Session.cpp, Server.cpp, Track.cpp, NPT.cpp, Stream.cpp
  bad_status_code bad_session bad_method bad_presentation bad_npt stream_failed sdp_failed : Error
  -- `std::bad_optional_access`
  bad_optional_access : Error
  -- not an exception: the behaviour of the code is undefined from here on
  undefined_behaviour : Error
  -- not in the code either: a loop of the model used up its rounds
  out_of_fuel : Error

-- What is thrown in the code, and can be caught there.
abbrev pub is_caught : Error → Bool
is_caught undefined_behaviour = false
is_caught out_of_fuel = false
is_caught _ = true

pub data Result {ℓ} (A : Type ℓ) : Type ℓ where
  ok : A → Result A
  err : Error → Result A

pub Result-cases {ℓ} :
    {A : Type ℓ} (r : Result A) → ((a : A) × (r ≡ ok a)) ⊎ ((e : Error) × (r ≡ err e))
Result-cases (ok a) = inl (a, refl)
Result-cases (err e) = inr (e, refl)

infixl 5 ◌>>=◌
abbrev pub ◌>>=◌ {ℓ κ} : {A : Type ℓ} {B : Type κ} → Result A → (A → Result B) → Result B
ok a >>= f = f a
err e >>= f = err e

-- `std::optional`, read by code that throws where there is nothing.
abbrev pub or_throw {ℓ} : {A : Type ℓ} → Option A → Error → Result A
or_throw none e = err e
or_throw (some a) e = ok a

-- A property of the result, if there is one.
abbrev pub IsOk {ℓ κ} : {A : Type ℓ} → (A → Type κ) → Result A → Type κ
IsOk P (ok a) = P a
IsOk P (err _) = Unit

pub IsOk-bind {ℓ κ} :
    {A B : Type ℓ} (P : A → Type κ) (Q : B → Type κ) (r : Result A) (f : A → Result B)
    → IsOk P r
    → ((a : A) → P a → IsOk Q (f a))
    → IsOk Q (r >>= f)
IsOk-bind P Q (ok a) f h k = k a h
IsOk-bind P Q (err e) f h k = tt

pub IsOk-eq {ℓ κ} : {A : Type ℓ} (P : A → Type κ) {r : Result A} {a : A} → IsOk P r → r ≡ ok a → P a
IsOk-eq P h e = subst (IsOk P) e h

-- A method that throws half-way leaves its object as it is by then.
pub data Outcome {ℓ} (S : Type ℓ) : Type ℓ where
  done : S → Outcome S
  threw : Error → S → Outcome S

pub Outcome-cases {ℓ} :
    {S : Type ℓ} (o : Outcome S)
    → ((s : S) × (o ≡ done s)) ⊎ ((e : Error) × (s : S) × (o ≡ threw e s))
Outcome-cases (done s) = inl (s, refl)
Outcome-cases (threw e s) = inr (e, s, refl)
