-- ===== src/Media/Download/Safe.antt =====
-- src/infrastructure/media.ts: what holds of a download that returns.
use zolo.Prelude.{
  bound, ℕ, ◌+◌, ◌≤◌, String, ◌≡◌, refl, ◌∙◌, sym, ap, subst, Bool, true, false, not, ◌&&◌, ◌||◌,
  ◌⊎◌, inl, inr, Option, none, some, some_injective, List, [], ◌∷◌, ◌++◌, string_eq, ◌==◌, eq_iff,
  ltb, length, nonempty, arith, Bool-cases, Option-cases, ok_injective, length-append, Failure,
  Result, ok, ◌>>◌, ensure,
}
use mathlib.Core.List.{append-nil, append_assoc}
use zolo.Media.Download.{
  Url, MediaConfig, url_of, is_unsafe, is_extra, is_waha_file, check_url, allowed_media_url, Body,
  ends, breaks, chunk, Response, concat, read_body, read_response, api_key_for, download_media,
}

-- The bytes of a body that ends.
abbrev pub whole : Body → Option (List ℕ)
whole ends = some []
whole (breaks _) = none
whole (chunk c body) = elim (whole body) [ none ↦ none | some bytes ↦ some (c ++ bytes) ]

-- An address from which a file may be taken.
pub record IsAllowed (c : MediaConfig) (base u : Url) : Type 0 where
  pub plain :
      (nonempty u.username ≡ false) × (nonempty u.password ≡ false) × (nonempty u.hash ≡ false)
  pub web : (u.protocol ≡ "http:") ⊎ (u.protocol ≡ "https:")
  pub known : ((u.origin ≡ base.origin) × (is_waha_file u ≡ true)) ⊎ (is_extra c u ≡ true)

pub record Downloaded (parse : String → Option Url) (fetch : Url → Option String → Result Response)
    (c : MediaConfig) (url : String) (bytes : List ℕ) : Type 0 where
  pub base : Url
  pub source : Url
  pub api_key : Option String
  pub response : Response
  pub body : Body
  pub parsed : (parse url ≡ some source) × (parse c.waha_base_url ≡ some base)
  pub allowed : IsAllowed c base source
  pub fetched : fetch source api_key ≡ ok response
  pub secret :
      (key : String)
      → api_key ≡ some key
      → (source.origin ≡ base.origin) × (is_waha_file source ≡ true)
  pub complete : (response.body ≡ some body) × (whole body ≡ some bytes)
  pub small : length bytes ≤ c.media_max_bytes

ensure_passed :
    {A : Type 0} (b : Bool) (e : Failure) (m : Result A) (a : A)
    → (ensure b e >> m) ≡ ok a
    → (b ≡ true) × (m ≡ ok a)
ensure_passed true e m a h = (refl, h)
ensure_passed false e m a h = absurd (grind arith)

none_of :
    (a b p h : Bool)
    → not (a || b || not p || h) ≡ true
    → (a ≡ false) × (b ≡ false) × (h ≡ false) × (p ≡ true)
none_of a b p h e = ground arith

or_true : (a b : Bool) → (a || b) ≡ true → (a ≡ true) ⊎ (b ≡ true)
or_true true b e = inl refl
or_true false b e = inr e

-- Behind the tests: at WAHA's origin the path is one of its files.
known_origin :
    (t files extra : Bool)
    → (t || extra) ≡ true
    → not (t && not files) ≡ true
    → ((t ≡ true) × (files ≡ true)) ⊎ (extra ≡ true)
known_origin true true extra e f = inl (refl, refl)
known_origin true false extra e f = absurd (grind arith)
known_origin false files extra e f = inr e

file_at : (t files : Bool) → t ≡ true → not (t && not files) ≡ true → files ≡ true
file_at t files e f = ground arith

check_url-IsAllowed :
    (c : MediaConfig) (base u u' : Url)
    → check_url c base u ≡ ok u'
    → IsAllowed c base u × (u ≡ u') × ((u.origin == base.origin) ≡ true → is_waha_file u ≡ true)
unfolding check_url
check_url-IsAllowed c base u u' h =
    let first = ensure_passed (not (is_unsafe u)) _ _ u' h in
    let second = ensure_passed (u.origin == base.origin || is_extra c u) _ _ u' first.1 in
    let third =
      ensure_passed (not (u.origin == base.origin && not (is_waha_file u))) _ _ u' second.1 in
    let tests = none_of (nonempty u.username) _ _ _ first.0 in
    let origin = eq_iff u.origin base.origin in
    let web = or_true _ _ tests.3 in
    let file_of =
      known_origin (u.origin == base.origin) (is_waha_file u) (is_extra c u) second.0 third.0 in
    (
      record {
        plain = (tests.0, tests.1, tests.2);
        web = elim web [
          | inl e ↦ inl ((eq_iff u.protocol "http:").0 e)
          | inr e ↦ inr ((eq_iff u.protocol "https:").0 e)
        ];
        known = elim file_of [ inl e ↦ inl (origin.0 e.0, e.1) | inr e ↦ inr e ];
      },
      ok_injective third.1,
      λ e. file_at (u.origin == base.origin) (is_waha_file u) e third.0,
    )

concat-append :
    (parts : List (List ℕ)) (x : List ℕ) → concat (parts ++ (x ∷ [])) ≡ concat parts ++ x
concat-append [] x = append-nil x
concat-append (p ∷ parts) x = rw (concat-append parts x, append_assoc p (concat parts) x) refl

-- What the loop over the chunks returns: the parts so far and the rest of the body.
record Whole (limit : ℕ) (parts : List (List ℕ)) (body : Body) (bytes : List ℕ) : Type 0 where
  rest : List ℕ
  read : whole body ≡ some rest
  joined : bytes ≡ concat parts ++ rest
  small : length bytes ≤ limit

Whole-chunk :
    (limit : ℕ) (parts : List (List ℕ)) (c : List ℕ) (body : Body) (bytes : List ℕ)
    → Whole limit (parts ++ (c ∷ [])) body bytes
    → Whole limit parts (chunk c body) bytes
Whole-chunk limit parts c body bytes w = record {
  rest = c ++ w.rest;
  read = rw w.read refl;
  joined =
      w.joined
      ∙ (ap (λ l. l ++ w.rest) (concat-append parts c) ∙ append_assoc (concat parts) c w.rest);
  small = w.small;
}

read_body-Whole :
    (limit size : ℕ) (parts : List (List ℕ)) (body : Body) (bytes : List ℕ)
    → length (concat parts) ≡ size
    → size ≤ limit
    → read_body limit size parts body ≡ ok bytes
    → Whole limit parts body bytes
unfolding read_body
read_body-Whole limit size parts ends bytes e f h =
    let same = ok_injective h in
    record {
      rest = [];
      read = refl;
      joined = rw (append-nil (concat parts)) (sym same);
      small = rw (← same) (omega arith);
    }
read_body-Whole limit size parts (breaks why) bytes e f h = absurd (grind arith)
read_body-Whole limit size parts (chunk c body) bytes e f h =
    elim (Bool-cases (ltb limit (size + length c))) [
      | inl t ↦ absurd (grind arith)
      | inr t ↦ Whole-chunk limit parts c body bytes (
          read_body-Whole limit (size + length c) (parts ++ (c ∷ [])) body bytes
            (rw (concat-append parts c, length-append (concat parts) c, e) refl) (ground arith)
            (ground arith))
    ]

read_response-Whole :
    (limit n : ℕ) (good : Bool) (found : Option Body) (bytes : List ℕ)
    → read_response limit (record { is_ok = good; content_length = n; body = found }) ≡ ok bytes
    → (body : Body) × (found ≡ some body) × Whole limit [] body bytes
unfolding read_response
read_response-Whole limit n false found bytes h = absurd (grind arith)
read_response-Whole limit n true none bytes h = absurd (grind arith)
read_response-Whole limit n true (some b) bytes h = elim (Bool-cases (ltb limit n)) [
  | inl f ↦ absurd (grind arith)
  | inr f ↦ (b, refl, read_body-Whole limit 0 [] b bytes refl (omega arith) (ground arith))
]

url_of-parse :
    (parse : String → Option Url) (value : String) (u : Url)
    → url_of parse value ≡ ok u
    → parse value ≡ some u
unfolding url_of
url_of-parse parse value u h = elim (Option-cases (parse value)) [
  | inl e ↦ absurd (grind arith)
  | inr (v, e) ↦ grind arith
]

allowed_lem :
    (parse : String → Option Url) (c : MediaConfig) (url : String) (u : Url)
    → allowed_media_url parse c url ≡ ok u
    → (base : Url) × (parse url ≡ some u)
      × (parse c.waha_base_url ≡ some base)
      × (check_url c base u ≡ ok u)
unfolding allowed_media_url
allowed_lem parse c url u h =
    let (v, e, h1) = bound (url_of parse url) _ u h in
    let (base, f, h2) = bound (url_of parse c.waha_base_url) _ u h1 in
    let same = (check_url-IsAllowed c base v u h2).1 in
    (
      base,
      subst (λ x. parse url ≡ some x) same (url_of-parse parse url v e),
      url_of-parse parse _ base f,
      subst (λ x. check_url c base x ≡ ok u) same h2,
    )

secret_lem :
    (c : MediaConfig) (base u : Url) (key : String)
    → api_key_for c base u ≡ some key
    → (u.origin == base.origin) ≡ true
secret_lem c base u key h = elim (Bool-cases (u.origin == base.origin)) [
  | inl e ↦ e
  | inr e ↦ absurd (grind arith)
]

-- A download that returns took a whole body, within the limit of bytes, from an address with http
-- or https and without credentials or fragment, which is one of WAHA's files or of an origin that
-- the configuration names; the key of WAHA went to WAHA's files alone.
pub download_media-Safe :
    (parse : String → Option Url) (fetch : Url → Option String → Result Response) (c : MediaConfig)
    (url : String) (bytes : List ℕ)
    → download_media parse fetch c url ≡ ok bytes
    → Downloaded parse fetch c url bytes
unfolding download_media
download_media-Safe parse fetch c url bytes h =
    let (u, e, h1) = bound (allowed_media_url parse c url) _ bytes h in
    let (base, f, h2) = bound (url_of parse c.waha_base_url) _ bytes h1 in
    let (r, g, h3) = bound (fetch u (api_key_for c base u)) _ bytes h2 in
    let (body, there, w) =
      read_response-Whole c.media_max_bytes r.content_length r.is_ok r.body bytes h3 in
    let (base', p, q, checked) = allowed_lem parse c url u e in
    let same : base' ≡ base = some_injective (sym q ∙ url_of-parse parse _ base f) in
    let ok_url =
      check_url-IsAllowed c base u u (subst (λ b. check_url c b u ≡ ok u) same checked) in
    record {
      base = base;
      source = u;
      api_key = api_key_for c base u;
      response = r;
      body = body;
      parsed = (p, url_of-parse parse _ base f);
      allowed = ok_url.0;
      fetched = g;
      secret = λ key k. let t = secret_lem c base u key k in ((eq_iff _ _).0 t, ok_url.2 t);
      complete = (there, w.read ∙ ap some (sym w.joined));
      small = w.small;
    }
