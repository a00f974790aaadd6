-- ===== src/Media.antt =====
-- src/infrastructure/media.ts: the kinds of media, and the storage of the files.
-- A buffer is the list of its bytes. A directory gives each name its node. The platform's calls can
-- fail at each step, as the argument `Faults` says; SHA-256 is a parameter, and so is the random part
-- of a temporary name.
pub mod Keys
pub mod Keep
pub mod Download
use zolo.Prelude.{
  ℕ, zero, suc, ◌/◌, ◌%◌, String, code, Bool, true, false, not, ◌&&◌, ◌||◌, Option, none, some,
  List, [], ◌∷◌, ◌++◌, string_eq, nat_eq, ◌==◌, ltb, leb, if◌then◌else◌, length, any, drop,
  template, is_digit, text_take, text_drop, text_length, all_chars, Failure, error, plain_error,
  Result, ok, err,
}

pub data MediaKind : Type 0 where
  image voice : MediaKind

abbrev pub same_kind : MediaKind → MediaKind → Bool
same_kind image image = true
same_kind voice voice = true
same_kind _ _ = false

pub record Detected : Type 0 where
  pub ext : String
  pub mime : String
  pub kind : MediaKind

-- `interface StoredMedia`
pub record StoredMedia : Type 0 where
  pub key : String
  pub checksum : String
  pub mime : String
  pub size : ℕ

abbrev codes : String → List ℕ
codes String.[] = []
codes (String.◌∷◌ c s) = code c ∷ codes s

-- Whether the bytes from a position on begin with the given ones.
abbrev begins_with : List ℕ → List ℕ → Bool
begins_with [] bytes = true
begins_with (x ∷ xs) [] = false
begins_with (x ∷ xs) (y ∷ ys) = x == y && begins_with xs ys

abbrev pub has_at : ℕ → List ℕ → List ℕ → Bool
has_at n part bytes = begins_with part (drop n bytes)

-- `b[0] === 255 && (b[1] & 224) === 224`
abbrev frame_sync : List ℕ → Bool
frame_sync (x ∷ y ∷ _) = x == 255 && (y / 32) % 8 == 7
frame_sync _ = false

unfoldable pub detect_media : List ℕ → Option Detected
detect_media b =
    if ltb (length b) 12
    then none
    else if has_at 0 (255 ∷ 216 ∷ 255 ∷ []) b
    then some (record { ext = "jpg"; mime = "image/jpeg"; kind = image })
    else if has_at 0 (137 ∷ 80 ∷ 78 ∷ 71 ∷ 13 ∷ 10 ∷ 26 ∷ 10 ∷ []) b
    then some (record { ext = "png"; mime = "image/png"; kind = image })
    else if has_at 0 (codes "RIFF") b && has_at 8 (codes "WEBP") b
    then some (record { ext = "webp"; mime = "image/webp"; kind = image })
    else if has_at 0 (codes "OggS") b
    then some (record { ext = "ogg"; mime = "audio/ogg"; kind = voice })
    else if has_at 0 (codes "RIFF") b && has_at 8 (codes "WAVE") b
    then some (record { ext = "wav"; mime = "audio/wav"; kind = voice })
    else if has_at 4 (codes "ftyp") b
    then some (record { ext = "m4a"; mime = "audio/mp4"; kind = voice })
    else if has_at 0 (codes "ID3") b || frame_sync b
    then some (record { ext = "mp3"; mime = "audio/mpeg"; kind = voice })
    else none

pub data Node : Type 0 where
  file : List ℕ → Node
  folder symlink : Node

-- The root directory of the storage.
abbrev pub Disk : Type 0
Disk = String → Option Node

abbrev pub written : String → Option Node → Disk → Disk
written name node disk other = if other == name then node else disk other

-- The calls that fail, each with its error: a write that fails leaves some bytes of the file, and a
-- `close` that fails counts as a `sync`.
pub record Faults : Type 0 where
  pub at_open : Option String
  pub at_write : Option (List ℕ × String)
  pub at_sync : Option String
  pub at_rename : Option String
  pub at_root : Option String

abbrev pub no_faults : Faults
no_faults = record {
  at_open = none;
  at_write = none;
  at_sync = none;
  at_rename = none;
  at_root = none;
}

-- What a call returns that may fail once the disk is as given.
abbrev pub answer : Option String → StoredMedia → Disk → Disk × Result StoredMedia
answer none stored disk = (disk, ok stored)
answer (some why) stored disk = (disk, err (plain_error why))

-- A directory is not replaced by a file.
abbrev pub rename_error : Option Node → Option String → Option String
rename_error (some folder) fault = some "EISDIR"
rename_error _ fault = fault

-- `rename(tmp, key)`, and the directory opened and synced behind it.
abbrev pub rename_onto :
    Option String → Option String → String → List ℕ → StoredMedia → Disk → Disk × Result StoredMedia
rename_onto (some why) at_root tmp bytes stored disk = (disk, err (plain_error why))
rename_onto none at_root tmp bytes stored disk =
    answer at_root stored (written stored.key (some (file bytes)) (written tmp none disk))

abbrev pub sync_tmp :
    Option String → Faults → String → List ℕ → StoredMedia → Disk → Disk × Result StoredMedia
sync_tmp (some why) faults tmp bytes stored disk = (disk, err (plain_error why))
sync_tmp none faults tmp bytes stored disk =
    rename_onto (rename_error (disk stored.key) faults.at_rename) faults.at_root tmp bytes stored
      disk

abbrev pub write_tmp :
    Option (List ℕ × String)
    → Faults
    → String
    → List ℕ
    → StoredMedia
    → Disk
    → Disk × Result StoredMedia
write_tmp (some (part, why)) faults tmp bytes stored disk =
    (written tmp (some (file part)) disk, err (plain_error why))
write_tmp none faults tmp bytes stored disk =
    sync_tmp faults.at_sync faults tmp bytes stored (written tmp (some (file bytes)) disk)

-- `O_EXCL`: a name that is there is an error.
abbrev pub open_error : Option Node → Option String → Option String
open_error (some _) fault = some "EEXIST"
open_error none fault = fault

abbrev pub open_tmp :
    Option String → Faults → String → List ℕ → StoredMedia → Disk → Disk × Result StoredMedia
open_tmp (some why) faults tmp bytes stored disk = (disk, err (plain_error why))
open_tmp none faults tmp bytes stored disk = write_tmp faults.at_write faults tmp bytes stored disk

abbrev pub tmp_name : String → String
tmp_name uuid = template (".tmp-" ∷ uuid ∷ [])

-- `/[a-f0-9]/`
abbrev pub is_hex : ℕ → Bool
is_hex c = leb b'a' c && leb c b'f' || is_digit c

abbrev pub file_ends : List String
file_ends = ".jpg" ∷ ".png" ∷ ".webp" ∷ ".ogg" ∷ ".mp3" ∷ ".m4a" ∷ ".wav" ∷ []

-- `/^[a-f0-9]{64}\.(jpg|png|webp|ogg|mp3|m4a|wav)$/`
unfoldable pub is_media_key : String → Bool
is_media_key key =
    all_chars is_hex (text_take 64 key)
    && (text_length (text_take 64 key) == 64 && any (λ end. end == text_drop 64 key) file_ends)

module _ (hash : List ℕ → String) where
  -- `{ key, checksum, mime: m.mime, size: bytes.length }`
  abbrev pub stored_as : List ℕ → Detected → StoredMedia
  stored_as bytes m = record {
    key = template (hash bytes ∷ "." ∷ m.ext ∷ []);
    checksum = hash bytes;
    mime = m.mime;
    size = length bytes;
  }

module _ (hash : List ℕ → String) (media_max_bytes : ℕ) where
  -- `if (!m || m.kind !== kind) throw`
  abbrev pub put_detected :
      Option Detected → Faults → String → List ℕ → MediaKind → Disk → Disk × Result StoredMedia
  put_detected none faults uuid bytes kind disk = (disk, err (error "unsupported_media"))
  put_detected (some m) faults uuid bytes kind disk =
      if same_kind m.kind kind
      then open_tmp (open_error (disk (tmp_name uuid)) faults.at_open) faults (tmp_name uuid) bytes
          (stored_as hash bytes m) disk
      else (disk, err (error "unsupported_media"))

  unfoldable pub put : Faults → String → List ℕ → MediaKind → Disk → Disk × Result StoredMedia
  unfolding detect_media
  put faults uuid bytes kind disk =
      if ltb media_max_bytes (length bytes)
      then (disk, err (error "media_too_large"))
      else put_detected (detect_media bytes) faults uuid bytes kind disk

  -- What `open(O_NOFOLLOW)`, `stat` and `readFile` give, and the tests on it.
  abbrev pub read_node : Option Node → String → Result (List ℕ)
  read_node none key = err (plain_error "ENOENT")
  read_node (some symlink) key = err (plain_error "ELOOP")
  read_node (some folder) key = err (error "invalid_media_file")
  read_node (some (file bytes)) key =
      if ltb media_max_bytes (length bytes)
      then err (error "invalid_media_file")
      else if not (hash bytes == text_take 64 key)
      then err (error "media_checksum_mismatch")
      else ok bytes

  unfoldable pub get : String → Disk → Result (List ℕ)
  unfolding is_media_key
  get key disk =
      if is_media_key key then read_node (disk key) key else err (error "invalid_media_key")
