-- ===== src/Examples/Media.antt =====
-- A picture that is stored and read back, and one that is downloaded.
use zolo.Prelude.{
  ℕ, String, ◌≡◌, refl, true, false, Option, none, some, List, [], ◌∷◌, string_eq, ◌==◌, eq_iff,
  arith, if◌then◌else◌, nat_eq, text_length, all_chars, Bool-cases, inl, inr, Result, ok,
}
use zolo.Media.{image, no_faults, Disk, StoredMedia, put, get}
use zolo.Media.Keys.{IsDigest}
use zolo.Media.Keep.{Attempt, puts, get-put}
use zolo.Media.Download.{Url, MediaConfig, ends, chunk, Response, download_media}
use zolo.Media.Download.Safe.{Downloaded, download_media-Safe}

abbrev picture : List ℕ
picture = 255 ∷ 216 ∷ 255 ∷ 0 ∷ 1 ∷ 2 ∷ 3 ∷ 4 ∷ 5 ∷ 6 ∷ 7 ∷ 8 ∷ []

abbrev other_picture : List ℕ
other_picture = 137 ∷ 80 ∷ 78 ∷ 71 ∷ 13 ∷ 10 ∷ 26 ∷ 10 ∷ 0 ∷ 0 ∷ 0 ∷ 0 ∷ []

abbrev zeros : String
zeros = "0000000000000000000000000000000000000000000000000000000000000000"

abbrev ones : String
ones = "1111111111111111111111111111111111111111111111111111111111111111"

abbrev digest : List ℕ → String
digest [] = zeros
digest (x ∷ _) = if x == 137 then ones else zeros

digest-IsDigest : (b : List ℕ) → IsDigest (digest b)
unfolding text_length all_chars
digest-IsDigest [] = record { long = refl; plain = refl }
digest-IsDigest (x ∷ b) = elim (Bool-cases (x == 137)) [
  | inl e ↦ rw e (record { long = refl; plain = refl })
  | inr e ↦ rw e (record { long = refl; plain = refl })
]

abbrev bare : Disk
bare name = none

abbrev full : Disk
full = (put digest 100 no_faults "a" picture image bare).0

abbrev stored : StoredMedia
stored = record {
  key = "0000000000000000000000000000000000000000000000000000000000000000.jpg";
  checksum = zeros;
  mime = "image/jpeg";
  size = 12;
}

stores : put digest 100 no_faults "a" picture image bare ≡ (full, ok stored)
unfolding put
stores = refl

-- A second picture is stored, and a third is cut off by a full disk.
abbrev attempts : List Attempt
attempts =
    record { faults = no_faults; uuid = "b"; bytes = other_picture; kind = image }
    ∷ record {
      faults = record no_faults { at_write = some (255 ∷ [], "ENOSPC") };
      uuid = "c";
      bytes = picture;
      kind = image;
    }
    ∷ []

differ : digest other_picture ≡ digest picture → other_picture ≡ picture
differ e = ground (arith, eq_iff ones zeros)

get-put_example : get digest 100 stored.key (puts digest 100 attempts full) ≡ ok picture
get-put_example =
    get-put digest digest-IsDigest 100 no_faults "a" picture image bare full stored stores attempts
      (differ, ((λ e. refl), tt))

abbrev parsed : String → String → Url
parsed origin pathname = record {
  username = "";
  password = "";
  protocol = "http:";
  hash = "";
  origin = origin;
  pathname = pathname;
}

-- Two addresses are known.
abbrev parse : String → Option Url
parse value =
    if value == "http://waha:3000"
    then some (parsed "http://waha:3000" "/")
    else if value == "http://waha:3000/api/files/1.jpg"
    then some (parsed "http://waha:3000" "/api/files/1.jpg")
    else none

abbrev limits : MediaConfig
limits = record {
  waha_base_url = "http://waha:3000";
  waha_media_origins = "";
  waha_api_key = "k";
  media_max_bytes = 4;
}

-- The service wants its key.
abbrev fetch : Url → Option String → Result Response
fetch u none = ok (record { is_ok = false; content_length = 0; body = none })
fetch u (some _) = ok (record {
  is_ok = true;
  content_length = 3;
  body = some (chunk (1 ∷ 2 ∷ []) (chunk (3 ∷ []) ends));
})

downloads :
    download_media parse fetch limits "http://waha:3000/api/files/1.jpg" ≡ ok (1 ∷ 2 ∷ 3 ∷ [])
unfolding download_media
downloads = refl

download_media-Safe_example :
    Downloaded parse fetch limits "http://waha:3000/api/files/1.jpg" (1 ∷ 2 ∷ 3 ∷ [])
download_media-Safe_example =
    download_media-Safe parse fetch limits "http://waha:3000/api/files/1.jpg" _ downloads
