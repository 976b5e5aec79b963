-- ===== src/Rtsp/Request/Line.antt =====
-- What `set_request_line_parts` and `add_header` read from a well-formed line.
use rtp_server.Common.{
  ℕ, ◌+◌, ◌≤◌, ◌≡◌, refl, ap, sym, ◌∙◌, Bool, false, some, [], ◌∷◌, ◌++◌, append_assoc, append-nil,
  map, arith, le-leb, length, length-append, take, drop, drop-append, take-append, Bytes, All,
  NoneOf, codes, find_at, find_char-append, find-append_miss, slice, slice-append,
  slice-append_tail, Lowercase, to_lower-Lowercase, bytes_eq,
}
use rtp_server.Exception.{done}
use rtp_server.Rtsp.Request.{
  Request, set_request_line_parts, set_url, set_version, add_header, add_headers, unique_headers,
}
use rtp_server.Rtsp.Headers.{Headers, add_value, contains}

abbrev pub sp : ℕ
sp = b' '

pub find_at-append :
    (line pre s rest : Bytes)
    → line ≡ pre ++ (s ++ sp ∷ rest)
    → NoneOf sp s
    → find_at (sp ∷ []) line (length pre) ≡ some (length pre + length s)
unfolding find_at
find_at-append line pre s rest e n =
    let h : length pre ≤ length line =
      omega (arith, ap length e, length-append pre (s ++ sp ∷ rest)) in
    rw (le-leb h, e, drop-append pre (s ++ sp ∷ rest), find_char-append sp s rest n)

module _ (line pre : Bytes) (r : Request) where
  set_version_lem :
      (version : Bytes)
      → line ≡ pre ++ version
      → set_version line (length pre) r ≡ done (record r { version = version })
  unfolding set_version
  set_version_lem version e =
      ap (λ v. done (record r { version = v }))
        (rw (e, length-append pre version) (slice-append_tail pre version))

module _ (line pre : Bytes) (r : Request) where
  set_url_lem :
      (url version : Bytes)
      → line ≡ pre ++ (url ++ sp ∷ version)
      → NoneOf sp url
      → set_url line (length pre) r ≡ done (record r { url = url; version = version })
  unfolding set_url
  set_url_lem url version e n =
      rw (set_url, find_at-append line pre url version e n, slice_url, index)
        (set_version_lem line (pre ++ (url ++ sp ∷ [])) (record r { url = url }) version
          (e ∙ simp append_assoc))
    where
      slice_url : slice (length pre) (length pre + length url) line ≡ url
      slice_url = rw e (slice-append pre url (sp ∷ version))

      index : length pre + length url + 1 ≡ length (pre ++ (url ++ sp ∷ []))
      index = omega (arith, length-append pre (url ++ sp ∷ []), length-append url (sp ∷ []))

abbrev pub request_line : Request → Bytes
request_line r = r.method ++ (sp ∷ (r.url ++ (sp ∷ r.version)))

abbrev pub header_line : Bytes × Bytes → Bytes
header_line h = h.0 ++ (codes ": " ++ h.1)

-- A request line is taken apart into the method, the address and the version.
pub set_request_line_parts_lem :
    (q r : Request)
    → NoneOf sp q.method
    → NoneOf sp q.url
    → set_request_line_parts (request_line q) r
      ≡ done (record r { method = q.method; url = q.url; version = q.version })
unfolding set_request_line_parts
set_request_line_parts_lem q r m u =
    rw
      (
        set_request_line_parts,
        find_at-append (request_line q) [] q.method (q.url ++ (sp ∷ q.version)) refl m,
        slice_method,
        index,
      )
      (set_url_lem (request_line q) (q.method ++ sp ∷ []) (record r { method = q.method }) q.url
        q.version (sym (append_assoc q.method (sp ∷ []) (q.url ++ (sp ∷ q.version)))) u)
  where
    slice_method : slice 0 (0 + length q.method) (request_line q) ≡ q.method
    slice_method = slice-append [] q.method (sp ∷ (q.url ++ (sp ∷ q.version)))

    index : 0 + length q.method + 1 ≡ length (q.method ++ sp ∷ [])
    index = omega (arith, length-append q.method (sp ∷ []))

take_key : (k v : Bytes) → take (length k) (header_line (k, v)) ≡ k
take_key k v = take-append k (codes ": " ++ v)

drop_value : (k v : Bytes) → drop (length k + 2) (header_line (k, v)) ≡ v
drop_value k v = rw (← append_assoc k (codes ": ") v, index) (drop-append (k ++ codes ": ") v)
  where
    index : length k + 2 ≡ length (k ++ codes ": ")
    index = omega (arith, length-append k (codes ": "))

-- The name is in lower case and holds no colon.
abbrev pub IsName : Bytes → Type 0
IsName k = Lowercase k × NoneOf b':' k

abbrev pub Absent : Bytes → Headers → Type 0
Absent k = All (λ (h : Bytes × Bytes). bytes_eq h.0 k ≡ false)

add_value-Absent :
    (u : Bool) (k v : Bytes) (hs : Headers) → Absent k hs → add_value u k v hs ≡ hs ++ (k, v) ∷ []
unfolding add_value
add_value-Absent u k v [] a = refl
add_value-Absent u k v (h ∷ hs) a = rw (a.0, add_value-Absent u k v hs a.1)

-- A header with a new name is stored behind the others.
pub add_header_lem :
    (k v : Bytes) (r : Request)
    → IsName k
    → Absent k r.headers
    → add_header (header_line (k, v)) r ≡ done (record r { headers = r.headers ++ (k, v) ∷ [] })
unfolding add_header
add_header_lem k v r n a = rw (
  add_header,
  find-append_miss b':' b' ' k v n.1,
  take_key k v,
  drop_value k v,
  to_lower-Lowercase k n.0,
  add_value-Absent (contains unique_headers k) k v r.headers a,
)

-- Every name is new when its turn comes.
abbrev pub Distinct : Headers → Headers → Type 0
Distinct seen [] = Unit {0}
Distinct seen (h ∷ hs) = IsName h.0 × Absent h.0 seen × Distinct (seen ++ h ∷ []) hs

pub add_headers_lem :
    (hs : Headers) (r : Request)
    → Distinct r.headers hs
    → add_headers (map header_line hs) r ≡ done (record r { headers = r.headers ++ hs })
unfolding add_headers
add_headers_lem [] r d = ap (λ h. done (record r { headers = h })) (sym (append-nil r.headers))
add_headers_lem ((k, v) ∷ hs) r d =
    rw (add_headers, add_header_lem k v r d.0 d.1)
      (add_headers_lem hs (record r { headers = r.headers ++ (k, v) ∷ [] }) d.2
        ∙ ap (λ h. done (record r { headers = h })) (append_assoc r.headers ((k, v) ∷ []) hs))
