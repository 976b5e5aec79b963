-- ===== src/Rtsp/Headers.antt =====
-- `std::unordered_map<std::string, std::string>`, which holds the headers of a message, as an
-- association list.
use rtp_server.Common.{
  Bool, false, ◌||◌, Option, none, some, List, [], ◌∷◌, ◌++◌, ◌≡◌, refl, if◌then◌else◌, arith,
  Bytes, codes, bytes_eq, bytes_eq_iff,
}

abbrev pub Headers : Type 0
Headers = List (Bytes × Bytes)

unfoldable pub lookup : Bytes → Headers → Option Bytes
unfolding bytes_eq
lookup key [] = none
lookup key ((k, v) ∷ hs) = if bytes_eq k key then some v else lookup key hs

unfoldable pub contains : List Bytes → Bytes → Bool
unfolding bytes_eq
contains [] key = false
contains (k ∷ ks) key = bytes_eq k key || contains ks key

-- `add_header` behind its parsing: a new name is stored; a known one gets the value appended,
-- unless it is `unique`.
unfoldable pub add_value : Bool → Bytes → Bytes → Headers → Headers
unfolding bytes_eq
add_value unique key value [] = (key, value) ∷ []
add_value unique key value ((k, v) ∷ hs) =
    if bytes_eq k key
    then (k, if unique then v else v ++ (codes ", " ++ value)) ∷ hs
    else (k, v) ∷ add_value unique key value hs

-- `headers.insert_or_assign(key, value)`
unfoldable pub insert_or_assign : Bytes → Bytes → Headers → Headers
unfolding bytes_eq
insert_or_assign key value [] = (key, value) ∷ []
insert_or_assign key value ((k, v) ∷ hs) =
    if bytes_eq k key then (k, value) ∷ hs else (k, v) ∷ insert_or_assign key value hs

pub lookup-insert_or_assign :
    (key value k : Bytes) (hs : Headers)
    → lookup k (insert_or_assign key value hs)
      ≡ (if bytes_eq key k then some value else lookup k hs)
unfolding lookup insert_or_assign
lookup-insert_or_assign key value k [] = refl
lookup-insert_or_assign key value k ((j, v) ∷ hs) = ground (
  arith,
  bytes_eq_iff key k,
  bytes_eq_iff j key,
  bytes_eq_iff j k,
  lookup-insert_or_assign key value k hs,
)

-- One header is added: the name looked up has the new value, or its own with the new one behind
-- it, and every other name keeps its value.
pub lookup-add_value :
    (unique : Bool) (key value k : Bytes) (hs : Headers)
    → lookup k (add_value unique key value hs) ≡ (
        if bytes_eq key k
        then (elim (lookup k hs) [
          | none ↦ some value
          | some v ↦ some (if unique then v else v ++ (codes ", " ++ value))
        ])
        else lookup k hs)
unfolding lookup add_value
lookup-add_value unique key value k [] = ground arith
lookup-add_value unique key value k ((j, v) ∷ hs) = ground (
  arith,
  bytes_eq_iff key k,
  bytes_eq_iff j key,
  bytes_eq_iff j k,
  lookup-add_value unique key value k hs,
)
