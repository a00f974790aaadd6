-- ===== src/Media/Download.antt =====
-- src/infrastructure/media.ts: which addresses a media file may come from, and its download.
-- `new URL` and `fetch` are parameters. A body is the chunks that arrive, until the stream ends or
-- breaks: also the timer breaks it.
pub mod Safe
use zolo.Prelude.{
  ℕ, ◌+◌, String, Bool, true, false, not, ◌&&◌, ◌||◌, Option, none, some, List, [], ◌∷◌, ◌++◌, map,
  string_eq, ◌==◌, ltb, if◌then◌else◌, length, any, filter, nonempty, starts, split, trim, Failure,
  error, retryable, plain_error, Result, ok, err, ◌>>=◌, ◌>>◌, ensure,
}

-- The parts of a `URL` that the program reads.
pub record Url : Type 0 where
  pub username : String
  pub password : String
  pub protocol : String
  pub hash : String
  pub origin : String
  pub pathname : String

-- Of the configuration what a download reads.
pub record MediaConfig : Type 0 where
  pub waha_base_url : String
  pub waha_media_origins : String
  pub waha_api_key : String
  pub media_max_bytes : ℕ

-- `new URL(value)`
unfoldable pub url_of : (String → Option Url) → String → Result Url
url_of parse value = elim (parse value) [
  | none ↦ err (plain_error "ERR_INVALID_URL")
  | some u ↦ ok u
]

unfoldable pub extra_origins : MediaConfig → List String
unfolding split trim
extra_origins c = filter nonempty (map trim (split "," c.waha_media_origins))

abbrev pub is_web : Url → Bool
is_web u = u.protocol == "http:" || u.protocol == "https:"

abbrev pub is_unsafe : Url → Bool
is_unsafe u = nonempty u.username || nonempty u.password || not (is_web u) || nonempty u.hash

unfoldable pub is_extra : MediaConfig → Url → Bool
unfolding extra_origins
is_extra c u = any (λ o. o == u.origin) (extra_origins c)

abbrev pub is_waha_file : Url → Bool
is_waha_file u = starts "/api/files/" u.pathname

unfoldable pub check_url : MediaConfig → Url → Url → Result Url
unfolding is_extra
check_url c base u = do
  ensure (not (is_unsafe u)) (error "unsafe_media_url")
  ensure (u.origin == base.origin || is_extra c u) (error "media_origin_not_allowed")
  ensure (not (u.origin == base.origin && not (is_waha_file u))) (error "unsafe_waha_media_path")
  ok u

unfoldable pub allowed_media_url : (String → Option Url) → MediaConfig → String → Result Url
unfolding url_of check_url
allowed_media_url parse c value = do
  u ← url_of parse value
  base ← url_of parse c.waha_base_url
  check_url c base u

pub data Body : Type 0 where
  ends : Body
  breaks : String → Body
  chunk : List ℕ → Body → Body

-- `content_length` is what `Number` reads from the header, 0 when it reads none.
pub record Response : Type 0 where
  pub is_ok : Bool
  pub content_length : ℕ
  pub body : Option Body

-- `Buffer.concat(parts)`
abbrev pub concat : List (List ℕ) → List ℕ
concat [] = []
concat (part ∷ parts) = part ++ concat parts

-- The loop over the chunks.
unfoldable pub read_body : ℕ → ℕ → List (List ℕ) → Body → Result (List ℕ)
read_body media_max_bytes size parts ends = ok (concat parts)
read_body media_max_bytes size parts (breaks why) = err (plain_error why)
read_body media_max_bytes size parts (chunk c body) =
    let rest = read_body media_max_bytes (size + length c) (parts ++ (c ∷ [])) body in
    if ltb media_max_bytes (size + length c) then err (error "media_too_large") else rest

unfoldable pub read_response : ℕ → Response → Result (List ℕ)
unfolding read_body
read_response media_max_bytes r =
    if not r.is_ok then err (retryable "media_download_failed") else elim r.body [
      | none ↦ err (retryable "media_download_failed")
      | some body ↦
          if ltb media_max_bytes r.content_length
          then err (error "media_too_large")
          else read_body media_max_bytes 0 [] body
    ]

-- The header `X-Api-Key`, for the origin of WAHA alone.
abbrev pub api_key_for : MediaConfig → Url → Url → Option String
api_key_for c base u = if u.origin == base.origin then some c.waha_api_key else none

unfoldable pub download_media :
    (String → Option Url)
    → (Url → Option String → Result Response)
    → MediaConfig
    → String
    → Result (List ℕ)
unfolding allowed_media_url read_response url_of
download_media parse fetch c url = do
  u ← allowed_media_url parse c url
  base ← url_of parse c.waha_base_url
  r ← fetch u (api_key_for c base u)
  read_response c.media_max_bytes r
