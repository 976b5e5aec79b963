-- ===== src/Start/Loader/Found.antt =====
-- Which media are found once they are loaded, and what DESCRIBE answers for them.
use rtp_server.Common.{
  ◌≡◌, refl, ap, subst, ◌∙◌, inl, inr, Option, none, some, List, [], ◌∷◌, ◌++◌, arith,
  if◌then◌else◌, Bool-cases, Bytes, bytes_eq, bytes_eq_iff, NoneOf, c_str, codes, ℕ,
}
use rtp_server.Exception.{Result, ok, err, IsOk, IsOk-eq, Result-cases}
use rtp_server.Rtsp.Headers.{lookup}
use rtp_server.Rtsp.Request.{Request}
use rtp_server.Rtsp.Response.{Response}
use rtp_server.Media.Sdp.{get_sdp}
use rtp_server.Media.Sdp.Removed.{without_cr, get_sdp-without_cr}
use rtp_server.Media.Controls.{video}
use rtp_server.Rtp.Track.{Stream}
use rtp_server.Rtp.Track.Open.{Media, find_media, Studio, load}
use rtp_server.Dispatch.{get_endpoint_from_url, handle_describe}
use rtp_server.Dispatch.Answers.{handle_describe_lem}
use rtp_server.Start.Loader.{assign_media, descriptions, load_media, load_all}

-- The last medium of the list with a name.
abbrev pub last_named : Bytes → List Media → Option Media
last_named name [] = none
last_named name (m ∷ ms) = elim (last_named name ms) [
  | none ↦ if bytes_eq m.basename name then some m else none
  | some n ↦ some n
]

find_media-assign_media :
    (name : Bytes) (m : Media) (found : List Media)
    → find_media name (assign_media m found)
      ≡ (if bytes_eq m.basename name then some m else find_media name found)
unfolding find_media assign_media
find_media-assign_media name m [] = refl
find_media-assign_media name m (n ∷ found) = ground (
  arith,
  bytes_eq_iff m.basename name,
  bytes_eq_iff n.basename m.basename,
  bytes_eq_iff n.basename name,
  find_media-assign_media name m found,
)

lookup-descriptions :
    (name : Bytes) (found : List Media) (m : Media)
    → find_media name found ≡ some m
    → lookup name (descriptions found) ≡ some m.sdp
unfolding find_media lookup
lookup-descriptions name [] m e = absurd (ground arith)
lookup-descriptions name (n ∷ found) m e = elim (Bool-cases (bytes_eq n.basename name)) [
  | inl same ↦
      rw same (
        ap (λ (o : Option Media). elim o [ none ↦ some n.sdp | some x ↦ some x.sdp ])
          (rw same at e))
  | inr other ↦ rw other (lookup-descriptions name found m (rw other at e))
]

module _ (g : Studio) (av_sdp_create : g.av.File → Option Bytes) where
  load_media-basename :
      (m : Media) → IsOk (λ (m' : Media). m'.basename ≡ m.basename) (load_media g av_sdp_create m)
  unfolding load_media
  load_media-basename m = elim (Result-cases (load g m.file_name video)) [
    | inr (x, bad) ↦ rw (load_media, bad) tt
    | inl (s, loaded) ↦ elim (Result-cases (get_sdp (av_sdp_create s.file))) [
      | inr (x, bad) ↦ rw (load_media, loaded, bad) tt
      | inl (sdp, made) ↦ rw (load_media, loaded, made) refl
    ]
  ]

  -- What a lookup finds in `out`, where the last medium of that name is `o`.
  abbrev Finds : Bytes → List Media → List Media → Option Media → Type 0
  Finds name found out none = find_media name out ≡ find_media name found
  Finds name found out (some m) =
      (m' : Media) × (load_media g av_sdp_create m ≡ ok m') × (find_media name out ≡ some m')

  Finds-assign_media :
      (name : Bytes) (m m' : Media) (found out : List Media) (o : Option Media)
      → load_media g av_sdp_create m ≡ ok m'
      → Finds name (assign_media m' found) out o
      → Finds name found out
          (elim o [ none ↦ if bytes_eq m.basename name then some m else none | some n ↦ some n ])
  Finds-assign_media name m m' found out (some n) loaded f = f
  Finds-assign_media name m m' found out none loaded f =
      let named : m'.basename ≡ m.basename = IsOk-eq _ (load_media-basename m) loaded in
      let now = f ∙ find_media-assign_media name m' found in
      let as_named = ap (λ b. bytes_eq b name) named in
      elim (Bool-cases (bytes_eq m.basename name)) [
        | inl same ↦ rw same (
          m',
          loaded,
          now ∙ ap (λ b. if b then some m' else find_media name found) (as_named ∙ same),
        )
        | inr other ↦
            rw other
              (now ∙ ap (λ b. if b then some m' else find_media name found) (as_named ∙ other))
      ]

  load_all-Finds :
      (name : Bytes) (ms found : List Media)
      → IsOk (λ out. Finds name found out (last_named name ms)) (load_all g av_sdp_create ms found)
  unfolding load_all
  load_all-Finds name [] found = refl
  load_all-Finds name (m ∷ ms) found = elim (Result-cases (load_media g av_sdp_create m)) [
    | inr (x, bad) ↦ rw (load_all, bad) tt
    | inl (m', loaded) ↦
        rw (load_all, loaded)
          (step m' loaded (load_all g av_sdp_create ms (assign_media m' found))
            (load_all-Finds name ms (assign_media m' found)))
  ]
    where
      step :
          (m' : Media)
          → load_media g av_sdp_create m ≡ ok m'
          → (r : Result (List Media))
          → IsOk (λ out. Finds name (assign_media m' found) out (last_named name ms)) r
          → IsOk (λ out. Finds name found out (last_named name (m ∷ ms))) r
      step m' loaded (err x) ih = tt
      step m' loaded (ok out) ih =
          Finds-assign_media name m m' found out (last_named name ms) loaded ih

  -- What `get_sdp` gives for a description without a 0 byte.
  load_media-without_cr :
      (m : Media) (s : Stream g.clock g.av) (text tail : Bytes)
      → load g m.file_name video ≡ ok s
      → av_sdp_create s.file ≡ some (text ++ 0 ∷ tail)
      → NoneOf 0 text
      → IsOk (λ (m' : Media). c_str m'.sdp ≡ without_cr text) (load_media g av_sdp_create m)
  unfolding load_media
  load_media-without_cr m s text tail loaded created z =
      let (b, made, is_text, _) = get_sdp-without_cr text tail z in
      rw (load_media, loaded, created, made) is_text

  -- All media are loaded, and the last one of a name has a file whose description, as
  -- `av_sdp_create` writes it, has no 0 byte. A DESCRIBE request for an address that ends in the name
  -- is answered with 200 OK, and the body, up to the first 0 byte, is that description without its
  -- carriage returns.
  pub handle_describe-load_all :
      (all_media found : List Media) (m : Media) (s : Stream g.clock g.av) (text tail date : Bytes)
      (c : ℕ) (name : Bytes) (q : Request)
      → load_all g av_sdp_create all_media [] ≡ ok found
      → last_named (c ∷ name) all_media ≡ some m
      → load g m.file_name video ≡ ok s
      → av_sdp_create s.file ≡ some (text ++ 0 ∷ tail)
      → NoneOf 0 text
      → get_endpoint_from_url q.url ≡ c ∷ name
      → (r : Response) × (handle_describe (descriptions found) date q ≡ ok r)
        × (r.status ≡ codes "200 OK")
        × (c_str r.body ≡ without_cr text)
  handle_describe-load_all all_media found m s text tail date c name q run named loaded created z
        asked =
      let finds : Finds (c ∷ name) [] found (some m) = subst (Finds (c ∷ name) [] found) named (
        IsOk-eq (λ out. Finds (c ∷ name) [] out (last_named (c ∷ name) all_media))
          (load_all-Finds (c ∷ name) all_media []) run) in
      let (m', made, there) = finds in
      let (r, answered, status, body) =
        handle_describe_lem (descriptions found) date q c name m'.sdp asked
          (lookup-descriptions (c ∷ name) found m' there) in
      (
        r,
        answered,
        status,
        ap c_str body ∙ IsOk-eq _ (load_media-without_cr m s text tail loaded created z) made,
      )
