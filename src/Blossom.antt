-- ===== src/Blossom.antt =====
-- zooid/blossom.go: the media store. Blobs are files of one directory, named by their hash.
pub mod Gates
use unicity_relay.Prelude.{
  ltb, if◌then◌else◌, is_some, string_eq, nat_eq, take, Map, lookup, insert, delete, ℕ, ◌*◌, String,
  Bool, true, false, not, Option, none, some, List,
}
use unicity_relay.Nostr.{Externals}
use unicity_relay.Management.Store.{ManagementStore, is_member}

-- What becomes of a write: the file cannot be created, or so many bytes of the body arrive.
pub data Write : Type 0 where
  not_created : Write
  breaks_off : ℕ → Write
  arrives : Write

-- The error, whether there is one, and the files afterwards. `Create` truncates a file.
abbrev pub Blobs : Type 0
Blobs = Map String (List ℕ)

unfoldable pub store_blob : String → List ℕ → Write → Blobs → Bool × Blobs
store_blob sha256 body not_created files = (true, files)
store_blob sha256 body (breaks_off n) files = (true, insert sha256 (take n body) files)
store_blob sha256 body arrives files = (false, insert sha256 body files)

-- What becomes of an open.
pub data Open : Type 0 where
  opens not_opened : Open

-- `none` for an error: the file does not exist, or it cannot be opened for another reason.
unfoldable pub load_blob : String → Open → Blobs → Option (List ℕ)
load_blob sha256 opens files = lookup files sha256
load_blob sha256 not_opened files = none

-- `Remove` fails on a file that does not exist.
unfoldable pub delete_blob : String → Blobs → Bool × Blobs
delete_blob sha256 files = (not (is_some (lookup files sha256)), delete sha256 files)

-- The message and the status of a refusal.
pub data BlobRefusal : Type 0 where
  file_too_large unauthorized : BlobRefusal

module _ ⦃x : Externals⦄ where
  -- `auth == nil || !IsMember(auth.PubKey)`
  abbrev pub is_stranger : ManagementStore → Option ℕ → Bool
  is_stranger m none = true
  is_stranger m (some pubkey) = not (is_member m pubkey)

  unfoldable pub reject_upload : ManagementStore → Option ℕ → ℕ → Option BlobRefusal
  reject_upload m auth size =
      if ltb (10 * 1024 * 1024) size
      then some file_too_large
      else if is_stranger m auth
      then some unauthorized
      else none

  unfoldable pub reject_get : ManagementStore → Option ℕ → Option BlobRefusal
  reject_get m auth = if is_stranger m auth then some unauthorized else none

  unfoldable pub reject_list : ManagementStore → Option ℕ → Option BlobRefusal
  reject_list m auth = if is_stranger m auth then some unauthorized else none

  unfoldable pub reject_delete : ManagementStore → Option ℕ → Option BlobRefusal
  reject_delete m auth = if is_stranger m auth then some unauthorized else none
