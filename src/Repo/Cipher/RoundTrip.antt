-- ===== src/Repo/Cipher/RoundTrip.antt =====
-- Secrets and the key that come back: loadOrCreateKey, encrypt and decrypt of
-- backend/internal/service/repo_service.go.
use auto_restic.Shared.{
  ℕ, ◌≡◌, refl, sym, ◌++◌, Option, none, some, Text, length, take, drop, All, IsByte, hex_encode,
  hex_decode-encode, hex_encode-IsPlain, length-hex_encode, All-append, trim_space-plain, arith,
  length-append, take_first, drop_first, Bool-cases, inl, inr,
}
use auto_restic.Exec.{Error, Result, ok, err, ok_inj, err_is_not_ok}
use auto_restic.Repo.Cipher.{
  Gcm, IsGcm, nonce_size, is_aes_key, encrypt, decrypt, KeyFile, missing, load_or_create_key,
}

-- A text that is encrypted under a nonce of its size is decrypted to itself.
pub decrypt-encrypt :
    (gcm : Gcm) (key nonce plaintext stored : Text)
    → IsGcm gcm
    → length nonce ≡ nonce_size
    → All IsByte nonce
    → encrypt gcm key (ok nonce) plaintext ≡ ok stored
    → decrypt gcm key stored ≡ ok plaintext
unfolding encrypt decrypt
decrypt-encrypt gcm key nonce plaintext stored g size bytes h = elim (Bool-cases (is_aes_key key)) [
  | inr bad ↦ absurd (err_is_not_ok (rw bad at h))
  | inl good ↦
      let sealed = gcm.seal key nonce plaintext in
      let same : hex_encode (nonce ++ sealed) ≡ stored = ok_inj (rw good at h) in
      rw
        (
          ← same,
          hex_decode-encode (nonce ++ sealed)
              (All-append IsByte nonce sealed bytes (g.bytes key nonce plaintext)),
          good,
        )
        (ground (
          arith,
          length-append nonce sealed,
          first nonce_size (sym size),
          rest nonce_size (sym size),
          g.opens key nonce plaintext,
        ))
]
  where
    first : (n : ℕ) → n ≡ length nonce → take n (nonce ++ gcm.seal key nonce plaintext) ≡ nonce
    first n e = rw e (take_first nonce (gcm.seal key nonce plaintext))

    rest :
        (n : ℕ)
        → n ≡ length nonce
        → drop n (nonce ++ gcm.seal key nonce plaintext) ≡ gcm.seal key nonce plaintext
    rest n e = rw e (drop_first nonce (gcm.seal key nonce plaintext))

-- A key that is made is the one that is read at the next start, whatever comes of the attempts to
-- make another.
pub load-create_key :
    (fresh : Result Text) (mkdir : Option Error) (write : Option (Error × KeyFile)) (key : Text)
    → ((made : Text) → fresh ≡ ok made → (length made ≡ 32) × All IsByte made)
    → (load_or_create_key missing fresh mkdir write).1 ≡ ok key
    → (later : Result Text) (mkdir' : Option Error) (write' : Option (Error × KeyFile))
    → (load_or_create_key (load_or_create_key missing fresh mkdir write).0 later mkdir' write').1
      ≡ ok key
unfolding load_or_create_key
load-create_key (err e) mkdir write key good h later mkdir' write' = absurd (err_is_not_ok h)
load-create_key (ok made) (some e) write key good h later mkdir' write' = absurd (err_is_not_ok h)
load-create_key (ok made) none (some e) key good h later mkdir' write' = absurd (err_is_not_ok h)
load-create_key (ok made) none none key good h later mkdir' write' =
    let (size, bytes) = good made refl in
    let same : made ≡ key = ok_inj h in
    rw
      (
        trim_space-plain (hex_encode made) (hex_encode-IsPlain made bytes),
        hex_decode-encode made bytes,
      )
      (ground (arith, length-hex_encode made))
