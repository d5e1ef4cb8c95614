-- ===== src/Repo/Access/Said.antt =====
-- What restic says: isCredentialOrAccessError, isLockError, isRepoMissingError and hasResticLockIDs of
-- backend/internal/service/repo_service.go.
use auto_restic.Shared.{
  ◌&&◌, ◌||◌, not, leb, ltb, Bool, true, false, List, [], ◌∷◌, Text, codes, trim_space, to_lower,
  contains_text, split_at, length,
}

abbrev pub contains_any : Text → List Text → Bool
contains_any s [] = false
contains_any s (p ∷ ps) = contains_text s p || contains_any s ps

unfoldable pub is_credential_or_access_error : Text → Bool
unfolding contains_text to_lower
is_credential_or_access_error output = contains_any (to_lower output) (
    codes "wrong password"
    ∷ codes "no key found"
    ∷ codes "password is incorrect"
    ∷ codes "invalid password"
    ∷ codes "403 forbidden"
    ∷ codes "forbidden"
    ∷ codes "access denied"
    ∷ codes "authorization failed"
    ∷ codes "authentication failed"
    ∷ [])

unfoldable pub is_lock_error : Text → Bool
unfolding contains_text to_lower
is_lock_error output =
    contains_any (to_lower output)
      (codes "already locked" ∷ codes "repository is locked" ∷ codes "unable to create lock" ∷ [])

unfoldable pub is_repo_missing_error : Text → Bool
unfolding contains_text to_lower
is_repo_missing_error output = contains_any (to_lower output) (
    codes "does not exist"
    ∷ codes "no such file or directory"
    ∷ codes "unable to open config file"
    ∷ codes "404 not found"
    ∷ codes "repository does not exist"
    ∷ codes "not a repository"
    ∷ [])

abbrev pub all_lower_hex : Text → Bool
all_lower_hex [] = true
all_lower_hex (c ∷ s) = ((leb 48 c && leb c 57) || (leb 97 c && leb c 102)) && all_lower_hex s

abbrev pub is_lock_id : Text → Bool
is_lock_id line = not (ltb (length line) 8) && not (ltb 64 (length line)) && all_lower_hex line

abbrev pub any_lock_id : List Text → Bool
any_lock_id [] = false
any_lock_id (line ∷ lines) = is_lock_id (trim_space line) || any_lock_id lines

unfoldable pub has_restic_lock_ids : Text → Bool
unfolding split_at trim_space
has_restic_lock_ids output = any_lock_id (split_at 10 output)
