-- ===== src/Repo/Runtime/Probed.antt =====
-- The environment in which a repository is probed and the one in which its commands run:
-- buildAccessProbeEnv and buildResticRuntime of backend/internal/service/repo_service.go.
use auto_restic.Shared.{
  subst, ◌≡◌, ◌⊎◌, refl, sym, ap, ◌∙◌, inl, inr, ℕ, true, false, [], ◌++◌, Text, codes, is_empty,
  trim_space, length, All, IsByte, hex_encode, hex_encode-IsPlain, is_empty-hex_encode,
  trim_space-plain, All-append, length-append, Bool-cases, arith,
}
use auto_restic.Exec.{Result, ok, err, ◌>>=◌, ok_inj, err_is_not_ok}
use auto_restic.Repo.Cipher.{Gcm, IsGcm, nonce_size, is_aes_key, encrypt, decrypt}
use auto_restic.Repo.Cipher.RoundTrip.{decrypt-encrypt}
use auto_restic.Repo.{CreateRepoRequest, is_local, is_rclone, is_webdav, normalize_repo_endpoint}
use auto_restic.Repo.Access.{Outside, build_access_probe_env}
use auto_restic.Repo.Secrets.{Nonces, Secrets, encrypt_secrets, while_encrypting, unless_empty}
use auto_restic.Repo.Create.{access_request, new_repository}
use auto_restic.Repo.Runtime.{build_restic_runtime}

-- Random bytes for GCM, if there are any.
abbrev pub IsNonce : Result Text → Type 0
IsNonce source = (nonce : Text) → source ≡ ok nonce → (length nonce ≡ nonce_size) × All IsByte nonce

module _ (gcm : Gcm) (is_gcm : IsGcm gcm) (key : Text) where
  -- a stored text that is not empty and decrypts to the secret
  record Holds (secret stored : Text) : Type 0 where
    decrypts : decrypt gcm key stored ≡ ok secret
    filled : is_empty stored ≡ false
    filled_trimmed : is_empty (trim_space stored) ≡ false

  encrypt-Holds :
      (source : Result Text) (secret stored : Text)
      → IsNonce source
      → encrypt gcm key source secret ≡ ok stored
      → Holds secret stored
  unfolding encrypt
  encrypt-Holds (err e) secret stored good h = elim (Bool-cases (is_aes_key key)) [
    | inl fits ↦ absurd (err_is_not_ok (rw fits at h))
    | inr bad ↦ absurd (err_is_not_ok (rw bad at h))
  ]
  encrypt-Holds (ok nonce) secret stored good h =
      let (size, bytes) = good nonce refl in
      let sealed = gcm.seal key nonce secret in
      let all_bytes = All-append IsByte nonce sealed bytes (is_gcm.bytes key nonce secret) in
      elim (Bool-cases (is_aes_key key)) [
        | inr bad ↦ absurd (err_is_not_ok (rw bad at h))
        | inl fits ↦
            let same : hex_encode (nonce ++ sealed) ≡ stored = ok_inj (rw fits at h) in
            let not_empty =
              ap is_empty (sym same)
              ∙ is_empty-hex_encode (nonce ++ sealed)
                  (omega (arith, length-append nonce sealed, size)) in
            record {
              decrypts = decrypt-encrypt gcm key nonce secret stored is_gcm size bytes h;
              filled = not_empty;
              filled_trimmed =
                  ap (λ t. is_empty (trim_space t)) (sym same)
                  ∙ ap is_empty (
                      trim_space-plain (hex_encode (nonce ++ sealed))
                        (hex_encode-IsPlain (nonce ++ sealed) all_bytes))
                  ∙ ap is_empty same
                  ∙ not_empty;
            }
      ]

  -- a secret that is empty is stored as it is, any other one encrypted
  abbrev Keeps : (secret stored : Text) → Type 0
  Keeps secret stored =
      ((is_empty secret ≡ true) × (stored ≡ [])) ⊎ ((is_empty secret ≡ false) × Holds secret stored)

  while_encrypting_ok :
      (what : Text) (r : Result Text) (stored : Text)
      → while_encrypting what r ≡ ok stored
      → r ≡ ok stored
  while_encrypting_ok what (ok s) stored h = h
  while_encrypting_ok what (err e) stored h = absurd (err_is_not_ok h)

  unless_empty-Keeps :
      (secret stored : Text) (r : Result Text)
      → (r ≡ ok stored → Holds secret stored)
      → unless_empty secret r ≡ ok stored
      → Keeps secret stored
  unless_empty-Keeps secret stored r holds h = elim (Bool-cases (is_empty secret)) [
    | inl empty ↦ inl (empty, sym (ok_inj (rw empty at h)))
    | inr filled ↦ inr (filled, holds (rw filled at h))
  ]

  record AllKept (r : CreateRepoRequest) (secrets : Secrets) : Type 0 where
    password : Holds r.password secrets.password
    webdav : Keeps r.webdav_password secrets.webdav_password
    rclone : Keeps r.rclone_config secrets.rclone_config

  abbrev secrets_of : (password webdav config : Text) → Secrets
  secrets_of password webdav config = record {
    password = password;
    webdav_password = webdav;
    rclone_config = config;
  }

  encrypt_secrets-AllKept :
      (nonces : Nonces) (r : CreateRepoRequest) (secrets : Secrets)
      → IsNonce nonces.password
      → IsNonce nonces.webdav
      → IsNonce nonces.rclone
      → encrypt_secrets gcm key nonces r ≡ ok secrets
      → AllKept r secrets
  unfolding encrypt_secrets
  encrypt_secrets-AllKept nonces r secrets n1 n2 n3 h =
      go (while_encrypting (codes "password") (encrypt gcm key nonces.password r.password)) refl
        (unless_empty r.webdav_password (encrypt gcm key nonces.webdav r.webdav_password)) refl
        (unless_empty r.rclone_config (
          while_encrypting (codes "rclone config") (encrypt gcm key nonces.rclone r.rclone_config)))
        refl h
    where
      go :
          (p : Result Text)
          → while_encrypting (codes "password") (encrypt gcm key nonces.password r.password) ≡ p
          → (w : Result Text)
          → unless_empty r.webdav_password (encrypt gcm key nonces.webdav r.webdav_password) ≡ w
          → (c : Result Text)
          → unless_empty r.rclone_config (
              while_encrypting
                (codes "rclone config")
                (encrypt gcm key nonces.rclone r.rclone_config))
            ≡ c
          → (p >>= λ password.
              w >>= λ webdav. c >>= λ config. ok (secrets_of password webdav config))
            ≡ ok secrets
          → AllKept r secrets
      go (err e) pe w we c ce h = absurd (err_is_not_ok h)
      go (ok p) pe (err e) we c ce h = absurd (err_is_not_ok h)
      go (ok p) pe (ok w) we (err e) ce h = absurd (err_is_not_ok h)
      go (ok p) pe (ok w) we (ok c) ce h = subst (AllKept r) (ok_inj h) (record {
        password = encrypt-Holds nonces.password r.password p n1 (while_encrypting_ok _ _ p pe);
        webdav =
            unless_empty-Keeps r.webdav_password w _
              (encrypt-Holds nonces.webdav r.webdav_password w n2) we;
        rclone =
            unless_empty-Keeps r.rclone_config c _
              (λ e. encrypt-Holds nonces.rclone r.rclone_config c n3 (while_encrypting_ok _ _ c e))
              ce;
      })

  trimmed_nothing : is_empty (trim_space []) ≡ true
  unfolding trim_space
  trimmed_nothing = refl

  -- Every command of a repository that is created runs in the environment in which the repository
  -- was probed, with the secrets of the request: as long as random bytes are what they should be,
  -- and the rclone config does not consist of white space alone.
  pub create_runtime :
      (outside : Outside) (nonces : Nonces) (r : CreateRepoRequest) (endpoint : Text)
      (secrets : Secrets) (id : ℕ)
      → IsNonce nonces.password
      → IsNonce nonces.webdav
      → IsNonce nonces.rclone
      → is_empty (trim_space r.rclone_config) ≡ is_empty r.rclone_config
      → normalize_repo_endpoint r ≡ ok endpoint
      → encrypt_secrets gcm key nonces r ≡ ok secrets
      → build_restic_runtime outside gcm key (new_repository r endpoint secrets id)
        ≡ build_access_probe_env outside (access_request r endpoint) endpoint
  unfolding build_restic_runtime build_access_probe_env normalize_repo_endpoint
  create_runtime outside nonces r endpoint secrets id n1 n2 n3 solid supported h =
      let kept = encrypt_secrets-AllKept nonces r secrets n1 n2 n3 h in
      rw (kept.password.decrypts) (elim (Bool-cases (is_local r.type)) [
        | inl local ↦ rw local refl
        | inr not_local ↦ elim (Bool-cases (is_rclone r.type)) [
          | inl rclone ↦ elim kept.rclone [
            | inl (empty, stored) ↦
                rw (not_local, rclone, stored, solid, empty, trimmed_nothing) refl
            | inr (filled, holds) ↦
                rw (not_local, rclone, holds.filled_trimmed, solid, filled, holds.decrypts) refl
          ]
          | inr not_rclone ↦ elim (Bool-cases (is_webdav r.type)) [
            | inl webdav ↦ elim kept.webdav [
              | inl (empty, stored) ↦ rw (not_local, not_rclone, webdav, stored, empty) refl
              | inr (filled, holds) ↦
                  rw (not_local, not_rclone, webdav, holds.filled, filled, holds.decrypts) refl
            ]
            | inr unsupported ↦
                absurd (err_is_not_ok (rw (not_local, not_rclone, unsupported) at supported))
          ]
        ]
      ])
