-- ===== src/Media/Keep.antt =====
-- src/infrastructure/media.ts: what `put` stored stays readable under its key.
use zolo.Prelude.{
  ℕ, String, ◌≡◌, refl, ◌∙◌, ap, sym, subst, true, false, Option, none, some, List, [], ◌∷◌, arith,
  eq_iff, eq_refl, string_eq, nat_eq, ◌==◌, ltb, length, inl, inr, Bool-cases, text_take, Result,
  ok, err, All,
}
use zolo.Media.{
  MediaKind, Detected, StoredMedia, Node, file, Disk, written, Faults, rename_onto, sync_tmp,
  write_tmp, open_tmp, open_error, rename_error, tmp_name, stored_as, put_detected, put, get,
  detect_media, same_kind,
}
use zolo.Media.Keys.{IsDigest, digest_of, stored_as-known, tmp_apart}

-- A file under a key, through the steps of a `put` under another temporary name.
module _ (key tmp : String) (bytes : List ℕ) (apart : (tmp == key) ≡ false) where
  Kept : Disk → Type 0
  Kept disk = disk key ≡ some (file bytes)

  Kept-written : (there : Option Node) (disk : Disk) → Kept disk → Kept (written tmp there disk)
  unfolding Kept
  Kept-written there disk h = ground (arith, eq_iff tmp key, eq_iff key tmp)

  module _ (new : List ℕ) (stored : StoredMedia) (same : stored.key ≡ key → new ≡ bytes) where
    Kept-placed :
        (disk : Disk)
        → Kept disk
        → Kept (written stored.key (some (file new)) (written tmp none disk))
    unfolding Kept
    Kept-placed disk h = elim (Bool-cases (key == stored.key)) [
      | inl e ↦ rw (e, same (sym ((eq_iff key stored.key).0 e))) refl
      | inr e ↦ rw e (Kept-written none disk h)
    ]

    rename_onto-Kept :
        (why why' : Option String) (disk : Disk)
        → Kept disk
        → Kept (rename_onto why why' tmp new stored disk).0
    rename_onto-Kept (some _) why' disk h = h
    rename_onto-Kept none (some _) disk h = Kept-placed disk h
    rename_onto-Kept none none disk h = Kept-placed disk h

    sync_tmp-Kept :
        (why : Option String) (faults : Faults) (disk : Disk)
        → Kept disk
        → Kept (sync_tmp why faults tmp new stored disk).0
    sync_tmp-Kept (some _) faults disk h = h
    sync_tmp-Kept none faults disk h = rename_onto-Kept _ _ disk h

    write_tmp-Kept :
        (why : Option (List ℕ × String)) (faults : Faults) (disk : Disk)
        → Kept disk
        → Kept (write_tmp why faults tmp new stored disk).0
    write_tmp-Kept (some (part, _)) faults disk h = Kept-written (some (file part)) disk h
    write_tmp-Kept none faults disk h =
        sync_tmp-Kept _ faults _ (Kept-written (some (file new)) disk h)

    open_tmp-Kept :
        (why : Option String) (faults : Faults) (disk : Disk)
        → Kept disk
        → Kept (open_tmp why faults tmp new stored disk).0
    open_tmp-Kept (some _) faults disk h = h
    open_tmp-Kept none faults disk h = write_tmp-Kept _ faults disk h

module _ (hash : List ℕ → String) (media_max_bytes : ℕ) (bytes : List ℕ) where
  -- What `put` returns when it returns: the description, and the file under its key.
  Placed : StoredMedia → Disk × Result StoredMedia → Type 0
  Placed stored (disk, ok s) = (s ≡ stored) × (disk stored.key ≡ some (file bytes))
  Placed stored (disk, err _) = Unit {0}

  rename_onto-Placed :
      (why why' : Option String) (tmp : String) (stored : StoredMedia) (disk : Disk)
      → Placed stored (rename_onto why why' tmp bytes stored disk)
  unfolding Placed
  rename_onto-Placed (some _) why' tmp stored disk = tt
  rename_onto-Placed none (some _) tmp stored disk = tt
  rename_onto-Placed none none tmp stored disk = (refl, rw (eq_refl stored.key) refl)

  sync_tmp-Placed :
      (why : Option String) (faults : Faults) (tmp : String) (stored : StoredMedia) (disk : Disk)
      → Placed stored (sync_tmp why faults tmp bytes stored disk)
  unfolding Placed
  sync_tmp-Placed (some _) faults tmp stored disk = tt
  sync_tmp-Placed none faults tmp stored disk =
      rename_onto-Placed (rename_error (disk stored.key) faults.at_rename) faults.at_root tmp stored
        disk

  write_tmp-Placed :
      (why : Option (List ℕ × String)) (faults : Faults) (tmp : String) (stored : StoredMedia)
      (disk : Disk)
      → Placed stored (write_tmp why faults tmp bytes stored disk)
  unfolding Placed
  write_tmp-Placed (some _) faults tmp stored disk = tt
  write_tmp-Placed none faults tmp stored disk =
      sync_tmp-Placed faults.at_sync faults tmp stored (written tmp (some (file bytes)) disk)

  open_tmp-Placed :
      (why : Option String) (faults : Faults) (tmp : String) (stored : StoredMedia) (disk : Disk)
      → Placed stored (open_tmp why faults tmp bytes stored disk)
  unfolding Placed
  open_tmp-Placed (some _) faults tmp stored disk = tt
  open_tmp-Placed none faults tmp stored disk =
      write_tmp-Placed faults.at_write faults tmp stored disk

-- A later call of `put`.
pub record Attempt : Type 0 where
  pub faults : Faults
  pub uuid : String
  pub bytes : List ℕ
  pub kind : MediaKind

unfoldable pub puts : (List ℕ → String) → ℕ → List Attempt → Disk → Disk
unfolding put
puts hash media_max_bytes [] disk = disk
puts hash media_max_bytes (a ∷ later) disk =
    puts hash media_max_bytes later (put hash media_max_bytes a.faults a.uuid a.bytes a.kind disk).0

module _ (hash : List ℕ → String) (digests : (b : List ℕ) → IsDigest (hash b)) (media_max_bytes : ℕ)
    (bytes : List ℕ) (d : Detected) (known : detect_media bytes ≡ some d) where
  abbrev key : String
  key = (stored_as hash bytes d).key

  key_digest :
      (new : List ℕ) (m : Detected) → (stored_as hash new m).key ≡ key → hash new ≡ hash bytes
  key_digest new m e =
      sym (digest_of _ _ (digests new)) ∙ (ap (text_take 64) e ∙ digest_of _ _ (digests bytes))

  Stays : Disk → Type 0
  Stays disk = disk key ≡ some (file bytes)

  put_detected-Stays :
      (found : Option Detected) (faults : Faults) (uuid : String) (new : List ℕ) (kind : MediaKind)
      (disk : Disk)
      → (hash new ≡ hash bytes → new ≡ bytes)
      → Stays disk
      → Stays (put_detected hash media_max_bytes found faults uuid new kind disk).0
  unfolding Stays Kept
  put_detected-Stays none faults uuid new kind disk same h = h
  put_detected-Stays (some m) faults uuid new kind disk same h =
      elim (Bool-cases (same_kind m.kind kind)) [
        | inl e ↦ rw e (
            open_tmp-Kept key (tmp_name uuid) bytes
              (tmp_apart key uuid (stored_as-known hash digests bytes d known)) new _
              (λ k. same (key_digest new m k)) _ faults disk h)
        | inr e ↦ rw e h
      ]

  put-Stays :
      (a : Attempt) (disk : Disk)
      → (hash a.bytes ≡ hash bytes → a.bytes ≡ bytes)
      → Stays disk
      → Stays (put hash media_max_bytes a.faults a.uuid a.bytes a.kind disk).0
  unfolding put
  put-Stays a disk same h = elim (Bool-cases (ltb media_max_bytes (length a.bytes))) [
    | inl e ↦ rw e h
    | inr e ↦ rw e (put_detected-Stays _ a.faults a.uuid a.bytes a.kind disk same h)
  ]

  puts-Stays :
      (later : List Attempt) (disk : Disk)
      → All (λ (a : Attempt). hash a.bytes ≡ hash bytes → a.bytes ≡ bytes) later
      → Stays disk
      → Stays (puts hash media_max_bytes later disk)
  unfolding puts
  puts-Stays [] disk same h = h
  puts-Stays (a ∷ later) disk (same, rest) h = puts-Stays later _ rest (put-Stays a disk same h)

  get-Stays :
      (disk : Disk)
      → ltb media_max_bytes (length bytes) ≡ false
      → Stays disk
      → get hash media_max_bytes key disk ≡ ok bytes
  unfolding get Stays
  get-Stays disk small h =
      rw
        (
          stored_as-known hash digests bytes d known,
          h,
          small,
          digest_of _ _ (digests bytes),
          eq_refl (hash bytes),
        )
        refl

-- What a `put` that returns has done.
record Put (hash : List ℕ → String) (media_max_bytes : ℕ) (bytes : List ℕ) (stored : StoredMedia)
    (disk : Disk) : Type 0 where
  kind : Detected
  known : detect_media bytes ≡ some kind
  small : ltb media_max_bytes (length bytes) ≡ false
  described : stored ≡ stored_as hash bytes kind
  placed : disk (stored_as hash bytes kind).key ≡ some (file bytes)

put_detected-Put :
    (hash : List ℕ → String) (media_max_bytes : ℕ) (found : Option Detected) (faults : Faults)
    (uuid : String) (bytes : List ℕ) (kind : MediaKind) (disk disk' : Disk) (stored : StoredMedia)
    → ltb media_max_bytes (length bytes) ≡ false
    → detect_media bytes ≡ found
    → put_detected hash media_max_bytes found faults uuid bytes kind disk ≡ (disk', ok stored)
    → Put hash media_max_bytes bytes stored disk'
unfolding Placed
put_detected-Put hash limit none faults uuid bytes kind disk disk' stored small known e =
    absurd (grind arith)
put_detected-Put hash limit (some m) faults uuid bytes kind disk disk' stored small known e =
    elim (Bool-cases (same_kind m.kind kind)) [
      | inl t ↦
          let p = subst (Placed hash limit bytes (stored_as hash bytes m)) (e1 t) (
            open_tmp-Placed hash limit bytes _ faults (tmp_name uuid) (stored_as hash bytes m)
              disk) in
          record { kind = m; known = known; small = small; described = p.0; placed = p.1 }
      | inr t ↦ absurd (grind arith)
    ]
  where
    e1 :
        same_kind m.kind kind ≡ true
        → open_tmp
            (open_error (disk (tmp_name uuid)) faults.at_open)
            faults
            (tmp_name uuid)
            bytes
            (stored_as hash bytes m)
            disk
          ≡ (disk', ok stored)
    e1 t = ground arith

put-Put :
    (hash : List ℕ → String) (media_max_bytes : ℕ) (faults : Faults) (uuid : String)
    (bytes : List ℕ) (kind : MediaKind) (disk disk' : Disk) (stored : StoredMedia)
    → put hash media_max_bytes faults uuid bytes kind disk ≡ (disk', ok stored)
    → Put hash media_max_bytes bytes stored disk'
unfolding put
put-Put hash limit faults uuid bytes kind disk disk' stored e =
    elim (Bool-cases (ltb limit (length bytes))) [
      | inl t ↦ absurd (grind arith)
      | inr t ↦
          put_detected-Put hash limit _ faults uuid bytes kind disk disk' stored t refl
            (ground arith)
    ]

-- When SHA-256 gives 64 hexadecimal digits, the bytes of a put that returned are what get reads
-- under its key, also behind any later puts, failed ones among them, whose bytes have another
-- digest or are the same bytes.
pub get-put :
    (hash : List ℕ → String) (digests : (b : List ℕ) → IsDigest (hash b)) (media_max_bytes : ℕ)
    (faults : Faults) (uuid : String) (bytes : List ℕ) (kind : MediaKind) (disk disk' : Disk)
    (stored : StoredMedia)
    → put hash media_max_bytes faults uuid bytes kind disk ≡ (disk', ok stored)
    → (later : List Attempt)
    → All (λ (a : Attempt). hash a.bytes ≡ hash bytes → a.bytes ≡ bytes) later
    → get hash media_max_bytes stored.key (puts hash media_max_bytes later disk') ≡ ok bytes
unfolding Stays
get-put hash digests media_max_bytes faults uuid bytes kind disk disk' stored e later apart =
    let p = put-Put hash media_max_bytes faults uuid bytes kind disk disk' stored e in
    rw p.described (
      get-Stays hash digests media_max_bytes bytes p.kind p.known _ p.small
        (puts-Stays hash digests media_max_bytes bytes p.kind p.known later disk' apart p.placed))
