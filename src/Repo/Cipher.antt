-- ===== src/Repo/Cipher.antt =====
-- How secrets are stored: loadOrCreateKey, encrypt and decrypt of
-- backend/internal/service/repo_service.go.
pub mod RoundTrip
use auto_restic.Shared.{
  ℕ, ◌≡◌, Bool, ◌||◌, List, ◌++◌, Option, none, some, Text, trim_space, nat_eq, ltb, length, take,
  drop, All, IsByte, hex_encode, hex_decode, if◌then◌else◌,
}
use auto_restic.Exec.{
  Error, bad_key, bad_hex, ciphertext_too_short, authentication_failed, Result, ok, err,
}

-- crypto/cipher's GCM over crypto/aes. A text that is not authentic opens to none.
pub record Gcm : Type 0 where
  pub seal : (key nonce plaintext : Text) → Text
  pub open_sealed : (key nonce ciphertext : Text) → Option Text

-- what GCM promises
pub record IsGcm (gcm : Gcm) : Type 0 where
  pub opens :
      (key nonce plaintext : Text)
      → gcm.open_sealed key nonce (gcm.seal key nonce plaintext) ≡ some plaintext
  pub bytes : (key nonce plaintext : Text) → All IsByte (gcm.seal key nonce plaintext)

-- gcm.NonceSize()
abbrev pub nonce_size : ℕ
nonce_size = 12

-- the keys that aes.NewCipher takes
abbrev pub is_aes_key : Text → Bool
is_aes_key key = nat_eq (length key) 16 || nat_eq (length key) 24 || nat_eq (length key) 32

module _ (gcm : Gcm) (key : Text) where
  -- `nonce` is what rand.Reader gives
  seal_text : Result Text → Text → Result Text
  seal_text (err e) plaintext = err e
  seal_text (ok nonce) plaintext = ok (hex_encode (nonce ++ gcm.seal key nonce plaintext))

  unfoldable pub encrypt : Result Text → Text → Result Text
  unfolding seal_text
  encrypt nonce plaintext = if is_aes_key key then seal_text nonce plaintext else err bad_key

  opened : Option Text → Result Text
  opened none = err authentication_failed
  opened (some plaintext) = ok plaintext

  open_text : Option Text → Result Text
  unfolding opened
  open_text none = err bad_hex
  open_text (some bytes) =
      if is_aes_key key
      then (if ltb (length bytes) nonce_size
          then err ciphertext_too_short
          else opened (gcm.open_sealed key (take nonce_size bytes) (drop nonce_size bytes)))
      else err bad_key

  unfoldable pub decrypt : Text → Result Text
  unfolding open_text
  decrypt cipher_hex = open_text (hex_decode cipher_hex)

-- What os.ReadFile finds.
pub data KeyFile : Type 0 where
  missing : KeyFile
  unreadable : Error → KeyFile
  contents : Text → KeyFile

key_of : Option Text → Result Text
key_of none = err bad_hex
key_of (some key) = if nat_eq (length key) 32 then ok key else err bad_key

-- The directory and the file, each of which may fail to be made. A write that fails leaves what it
-- leaves.
write_key : Text → (mkdir : Option Error) (write : Option (Error × KeyFile)) → KeyFile × Result Text
write_key key (some e) write = (missing, err e)
write_key key none (some (e, left)) = (left, err e)
write_key key none none = (contents (hex_encode key), ok key)

make_key :
    Result Text → (mkdir : Option Error) (write : Option (Error × KeyFile)) → KeyFile × Result Text
unfolding write_key
make_key (err e) mkdir write = (missing, err e)
make_key (ok key) mkdir write = write_key key mkdir write

-- `fresh` is what rand.Read gives.
unfoldable pub load_or_create_key :
    KeyFile
    → Result Text
    → (mkdir : Option Error) (write : Option (Error × KeyFile)) → KeyFile × Result Text
unfolding key_of make_key
load_or_create_key (unreadable e) fresh mkdir write = (unreadable e, err e)
load_or_create_key missing fresh mkdir write = make_key fresh mkdir write
load_or_create_key (contents text) fresh mkdir write = (
  contents text,
  (let trimmed = trim_space text in
      if nat_eq (length trimmed) 64 then key_of (hex_decode trimmed) else err bad_key),
)
