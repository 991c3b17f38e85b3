-- ===== src/Auth/FileAuth/Tests.antt =====
-- A file of two users, and one that is refused.
use scry_proxy.Base.{starts_with, ◌≡◌, refl, true, false, some, [], ◌∷◌, codes, ok, err}
use scry_proxy.Auth.FileAuth.{
  FileAuthenticator, plain, md5_hash, from_string, has_user, get_password, check_password,
  invalid_format,
}

abbrev file : FileAuthenticator
file = record { users = (codes "ann", plain (codes "s3")) ∷ [] }

file_run :
    (from_string
        (codes "\"ann\" \"s3\"\n; a comment\n\"bob\" \"md501234567890123456789012345678901\"")
      ≡ ok (record {
        users =
            (codes "ann", plain (codes "s3"))
            ∷ (codes "bob", md5_hash (codes "01234567890123456789012345678901"))
            ∷ [];
      }))
    × (from_string (codes "ann") ≡ err (invalid_format (codes "ann")))
    × (has_user (codes "ann") file ≡ true)
    × (get_password (codes "ann") file ≡ some (codes "s3"))
    × (check_password (λ s. s) (codes "ann") (codes "s4") file ≡ false)
unfolding from_string has_user get_password check_password starts_with
file_run = (refl, refl, refl, refl, refl)
