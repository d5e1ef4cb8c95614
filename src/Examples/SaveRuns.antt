-- ===== src/Examples/SaveRuns.antt =====
-- Repositories that are created and renamed, with a cipher that only writes numbers out:
-- backend/internal/service/repo_service.go.
use auto_restic.Shared.{
  subst, ◌≡◌, ◌+◌, refl, ap, ◌∙◌, ℕ, zero, suc, pos, true, false, List, [], ◌∷◌, ◌++◌, Option, none,
  some, Text, codes, All, IsByte, text_eq, is_empty, trim_space, arith, hex_encode, length,
}
use auto_restic.Exec.{ok_inj, ok, empty_result}
use auto_restic.Fallible.Triples.{Ends}
use auto_restic.Repo.Cipher.{Gcm, IsGcm, nonce_size, encrypt, decrypt}
use auto_restic.Repo.Cipher.RoundTrip.{decrypt-encrypt}
use auto_restic.Repo.{Repository, CreateRepoRequest, UpdateRepoRequest, normalize_repo_endpoint}
use auto_restic.Repo.Access.{probe_repository_access, Outside, build_access_probe_env}
use auto_restic.Repo.Save.{SaveEnv, new_repo_service}
use auto_restic.Repo.Create.{create, access_request}
use auto_restic.Repo.Update.{Request, create_request, update_request, serve_all}
use auto_restic.Repo.Runtime.{build_restic_runtime}
use auto_restic.Repo.Runtime.Probed.{IsNonce}
use auto_restic.Repo.Runtime.Created.{create_adds_probed}
use auto_restic.Repo.Registry.{IsRegistry}
use auto_restic.Repo.Registry.Served.{serve_all-IsRegistry}

-- numbers as so many ones, with a zero behind each
abbrev pub ones : ℕ → Text → Text
ones zero s = 0 ∷ s
ones (suc n) s = 1 ∷ ones n s

abbrev pub sealed : Text → Text
sealed [] = []
sealed (n ∷ s) = ones n (sealed s)

abbrev pub opened_from : ℕ → Text → Option Text
opened_from k [] = some []
opened_from k (zero ∷ s) = elim (opened_from 0 s) [ none ↦ none | some t ↦ some (k ∷ t) ]
opened_from k (suc _ ∷ s) = opened_from (suc k) s

abbrev pub toy : Gcm
toy = record {
  seal = λ key nonce plaintext. sealed plaintext;
  open_sealed = λ key nonce ciphertext. opened_from 0 ciphertext;
}

opened-ones :
    (k n : ℕ) (s t : Text)
    → opened_from 0 s ≡ some t
    → opened_from k (ones n s) ≡ some ((k + n) ∷ t)
opened-ones k zero s t h = rw h (ap (λ m. some (m ∷ t)) (omega arith))
opened-ones k (suc n) s t h = opened-ones (suc k) n s t h ∙ ap (λ m. some (m ∷ t)) (omega arith)

pub opened-sealed : (s : Text) → opened_from 0 (sealed s) ≡ some s
opened-sealed [] = refl
opened-sealed (n ∷ s) =
    opened-ones 0 n (sealed s) s (opened-sealed s) ∙ ap (λ m. some (m ∷ s)) (omega arith)

ones-bytes : (n : ℕ) (s : Text) → All IsByte s → All IsByte (ones n s)
ones-bytes zero s h = (omega arith, h)
ones-bytes (suc n) s h = (omega arith, ones-bytes n s h)

pub sealed-bytes : (s : Text) → All IsByte (sealed s)
sealed-bytes [] = tt
sealed-bytes (n ∷ s) = ones-bytes n (sealed s) (sealed-bytes s)

pub toy-IsGcm : IsGcm toy
toy-IsGcm = record {
  opens = λ key nonce plaintext. opened-sealed plaintext;
  bytes = λ key nonce plaintext. sealed-bytes plaintext;
}

abbrev pub nonce : Text
nonce = 1 ∷ 2 ∷ 3 ∷ 4 ∷ 5 ∷ 6 ∷ 7 ∷ 8 ∷ 9 ∷ 10 ∷ 11 ∷ 12 ∷ []

pub nonce-bytes : All IsByte nonce
nonce-bytes = (
  omega arith,
  (
    omega arith,
    (
      omega arith,
      (
        omega arith,
        (
          omega arith,
          (
            omega arith,
            (
              omega arith,
              (omega arith, (omega arith, (omega arith, (omega arith, (omega arith, tt))))),
            ),
          ),
        ),
      ),
    ),
  ),
)

abbrev pub key : Text
key = nonce ++ nonce ++ 1 ∷ 2 ∷ 3 ∷ 4 ∷ 5 ∷ 6 ∷ 7 ∷ 8 ∷ []

encrypted_lem : encrypt toy key (ok nonce) (2 ∷ []) ≡ ok (hex_encode (nonce ++ 1 ∷ 1 ∷ 0 ∷ []))
unfolding encrypt hex_encode
encrypted_lem = refl

decrypt-encrypt_example : decrypt toy key (hex_encode (nonce ++ 1 ∷ 1 ∷ 0 ∷ [])) ≡ ok (2 ∷ [])
decrypt-encrypt_example =
    decrypt-encrypt toy key nonce (2 ∷ []) (hex_encode (nonce ++ 1 ∷ 1 ∷ 0 ∷ [])) toy-IsGcm refl
      nonce-bytes encrypted_lem

text_eq-sym : (s t : Text) → text_eq s t ≡ text_eq t s
unfolding text_eq
text_eq-sym [] [] = refl
text_eq-sym [] (b ∷ t) = refl
text_eq-sym (a ∷ s) [] = refl
text_eq-sym (a ∷ s) (b ∷ t) = ground (arith, text_eq-sym s t)

abbrev pub home_request : CreateRepoRequest
home_request = record {
  name = codes "home";
  type = codes "local";
  endpoint = codes " /srv/home";
  password = codes "p";
  rclone_config = [];
  webdav_url = [];
  webdav_user = [];
  webdav_password = [];
  options = [];
  init_on_create = true;
  auto_unlock = false;
  prune_enabled = none;
  prune_cron_expr = [];
  prune_args = [];
  check_enabled = some false;
  check_cron_expr = [];
  check_args = [];
}

-- no repository is there yet
abbrev pub nowhere : Outside
nowhere = record {
  run = λ trace. record empty_result { exit_code = pos 10; stderr = codes "does not exist" };
  temp_config = λ config. ok (codes "/tmp/rclone.conf");
  stat = λ dir rel. none;
}

abbrev quiet : SaveEnv
quiet = record {
  outside = nowhere;
  nonces = record { password = ok nonce; webdav = ok nonce; rclone = ok nonce };
  list_error = none;
  get_error = none;
  write_error = none;
  initial_import = ok 1;
  init = ok 2;
  reset_error = none;
}

abbrev renaming : UpdateRepoRequest
renaming = record {
  name = some (codes "attic");
  endpoint = none;
  password = none;
  rclone_config = none;
  webdav_url = none;
  webdav_user = none;
  webdav_password = none;
  options = none;
  prune_enabled = none;
  prune_cron_expr = none;
  prune_args = none;
  check_enabled = none;
  check_cron_expr = none;
  check_args = none;
}

abbrev requests : List Request
requests =
    create_request quiet home_request
    ∷ create_request quiet home_request
    ∷ update_request quiet 1 renaming
    ∷ create_request quiet (record home_request { endpoint = codes "/srv/other" })
    ∷ []

-- The second is refused.
requests-rows : length (serve_all text_eq toy key requests new_repo_service).rows ≡ 2
unfolding serve_all text_eq trim_space probe_repository_access
requests-rows = refl

serve_all-IsRegistry_example :
    IsRegistry text_eq (serve_all text_eq toy key requests new_repo_service)
serve_all-IsRegistry_example = serve_all-IsRegistry text_eq text_eq-sym toy key requests

nonce-IsNonce : IsNonce (ok nonce)
nonce-IsNonce n same =
    subst (λ (k : Text). (length k ≡ nonce_size) × All IsByte k) (ok_inj same) (refl, nonce-bytes)

no_config : is_empty (trim_space home_request.rclone_config) ≡ is_empty home_request.rclone_config
unfolding trim_space
no_config = refl

create_adds_probed_example :
    Ends
      (λ result s'.
        (row : Repository) × (endpoint : Text) × (s'.rows ≡ row ∷ [])
        × (row.id ≡ result.0.id)
        × (normalize_repo_endpoint home_request ≡ ok endpoint)
        × ((outside : Outside)
            → build_restic_runtime outside toy key row
              ≡ build_access_probe_env outside (access_request home_request endpoint) endpoint))
      (λ s'. s'.rows ≡ [])
      (create text_eq toy key quiet home_request new_repo_service)
create_adds_probed_example =
    create_adds_probed text_eq toy key quiet home_request new_repo_service toy-IsGcm nonce-IsNonce
      nonce-IsNonce nonce-IsNonce no_config
