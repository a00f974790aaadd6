-- ===== src/Store/Matches/Photos.antt =====
-- src/infrastructure/store.ts: whose photographs `linkPhoto` links to a request.
use zolo.Prelude.{ℕ, true, some, ◌≡◌, any, nat_eq, option_eq, string_eq, ◌==◌, Mem}
use zolo.Domain.{Request, Incoming, donor, Party, image, ready}

-- What a link of a photograph means.
pub record Linked (r r' : Request) (m : Incoming) : Type 0 where
  pub picture : m.kind ≡ image
  pub file : m.media_state ≡ ready
  pub giver : Party
  pub part : Mem giver r.parties
  pub gives : giver.role ≡ donor
  pub sender : m.phone ≡ some giver.phone
  pub media : ℕ
  pub sent : m.media_id ≡ some media
  pub linked : any (λ x. x == media) r'.photo_ids ≡ true
  pub parties : r'.parties ≡ r.parties
