-- ===== src/Protocol/AuthMessages/RoundTrip.antt =====
-- What the builders of scry-proxy/src/protocol/auth_messages.rs write, its parsers read.
use scry_proxy.Base.{
  ℕ, zero, suc, ◌-◌, ◌+◌, ◌^◌, ◌≤◌, ◌<◌, ◌≡◌, refl, ap, ◌∙◌, true, false, none, some, List, [], ◌∷◌,
  ◌++◌, Bytes, bytes_eq, bytes_eq_sound, bytes_key, length, length-append, take, drop, ◌==◌,
  if◌then◌else◌, is_empty, insert, lookup, lookup-insert, codes, All, arith, take-append,
}
use scry_proxy.Protocol.Startup.{be32_at}
use scry_proxy.Protocol.Wire.{byte_at, be32_round}
use scry_proxy.Protocol.Utf8.{is_utf8}
use scry_proxy.Protocol.Messages.{parsed, rejected}
use scry_proxy.Protocol.Messages.RoundTrip.{IsText, cstring, split_nul-cstring}
use scry_proxy.Protocol.AuthMessages.{
  compute_md5_response, verify_md5_response, StartupMessage, until_nul, read_parameters,
  parse_startup, user, database, pairs_bytes, build_startup, parse_password_message,
  build_password_message, if_utf8,
}

-- A password message whose length field fits.
pub parse_password_message_fits :
    (bytes : Bytes) (n : ℕ)
    → be32_at bytes 1 ≡ n
    → byte_at bytes 0 ≡ b'p'
    → n < 2 ^ 31
    → 5 ≤ n
    → n < length bytes
    → parse_password_message bytes ≡ if_utf8 (take (n - 5) (drop 5 bytes))
unfolding parse_password_message
parse_password_message_fits bytes n e p small least fits = ground (arith, e, p)

-- A password of the size that a message can hold is read back from the message that is built of it.
pub parse_password_message-build_password_message :
    (password : Bytes)
    → is_utf8 password ≡ true
    → length password + 5 < 2 ^ 31
    → parse_password_message (build_password_message password) ≡ parsed password
unfolding parse_password_message build_password_message
parse_password_message-build_password_message password utf8 small =
    let n = 4 + length password + 1 in
    let bytes = build_password_message password in
    parse_password_message_fits bytes n (be32_round n (omega (arith, small))) refl
      (omega (arith, small)) (omega arith) (omega (arith, length-append password (0 ∷ [])))
    ∙ ap if_utf8
        (ap (λ k. take k (password ++ (0 ∷ []))) (omega arith) ∙ take-append password (0 ∷ []))
    ∙ ap (λ b. if b then parsed password else rejected) utf8

-- A parameter that a start-up message can carry.
abbrev pub IsParameter : Bytes × Bytes → Type 0
IsParameter (key, value) = IsText key × IsText value × (is_empty key ≡ false)

-- The parameters of a map after all the insertions, in order.
abbrev pub insert_all : List (Bytes × Bytes) → List (Bytes × Bytes) → List (Bytes × Bytes)
insert_all [] parameters = parameters
insert_all ((key, value) ∷ rest) parameters = insert_all rest (insert key value parameters)

nil_utf8 : is_utf8 [] ≡ true
unfolding is_utf8
nil_utf8 = refl

until_nul-cstring : (s rest : Bytes) → All (λ b. 0 < b) s → until_nul (cstring s rest) ≡ (s, rest)
unfolding until_nul
until_nul-cstring s rest h = rw (until_nul, split_nul-cstring s rest h) refl

read_parameters-pairs_bytes :
    (lossy : Bytes → Bytes) (fuel : ℕ) (ps parameters : List (Bytes × Bytes))
    → ((s : Bytes) → is_utf8 s ≡ true → lossy s ≡ s)
    → All IsParameter ps
    → length (pairs_bytes ps) ≤ fuel
    → read_parameters lossy fuel (pairs_bytes ps) parameters ≡ insert_all ps parameters
unfolding read_parameters until_nul
read_parameters-pairs_bytes lossy zero [] parameters same h enough = absurd (omega (arith, enough))
read_parameters-pairs_bytes lossy (suc fuel) [] parameters same h enough =
    rw (read_parameters, split_nul-cstring [] [] tt) (rw (same [] nil_utf8) refl)
read_parameters-pairs_bytes lossy zero ((key, value) ∷ ps) parameters same h enough =
    absurd (omega (arith, enough, length-append key (0 ∷ (value ++ (0 ∷ pairs_bytes ps)))))
read_parameters-pairs_bytes lossy (suc fuel) ((key, value) ∷ ps) parameters same
      ((t, u, nonempty), h) enough =
    let rest : Bytes = pairs_bytes ps in
    let later = read_parameters lossy fuel rest (insert key value parameters) in
    let short = length-append key (0 ∷ (value ++ (0 ∷ rest))) in
    let short' = length-append value (0 ∷ rest) in
    rw
      (
        read_parameters,
        split_nul-cstring key (value ++ (0 ∷ rest)) t.no_nul,
        until_nul-cstring value rest u.no_nul,
        same key t.utf8,
        same value u.utf8,
        nonempty,
      )
      (read_parameters-pairs_bytes lossy fuel ps (insert key value parameters) same h
        (omega (arith, short, short', enough)))

lookup-insert_all :
    (key : Bytes) (ps parameters : List (Bytes × Bytes))
    → lookup key ps ≡ none
    → lookup key (insert_all ps parameters) ≡ lookup key parameters
lookup-insert_all key [] parameters absent = refl
lookup-insert_all key ((k, v) ∷ ps) parameters absent =
    let different : bytes_eq k key ≡ false = ground (arith, absent) in
    lookup-insert_all key ps (insert k v parameters) (ground (arith, absent))
    ∙ lookup-insert k key v parameters
    ∙ ap (λ b. if b then some v else lookup key parameters) different

take-length : (xs : Bytes) → take (length xs) xs ≡ xs
take-length [] = refl
take-length (x ∷ xs) = ap (λ (ys : Bytes). x ∷ ys) (take-length xs)

-- A start-up message whose length field is its length, and that is no SSL request.
parse_startup_fits :
    (lossy : Bytes → Bytes) (bytes : Bytes) (k version : ℕ)
    → be32_at bytes 0 ≡ 8 + k
    → be32_at bytes 4 ≡ version
    → version == 80877103 ≡ false
    → 8 + k < 2 ^ 31
    → 8 + k ≡ length bytes
    → parse_startup lossy bytes
      ≡ some (record {
        protocol_version = version;
        parameters = read_parameters lossy (length bytes) (take k (drop 8 bytes)) [];
      })
unfolding parse_startup
parse_startup_fits lossy bytes k version e v no_ssl small whole =
    let cancel : 8 + k - 8 ≡ k = omega arith in ground (arith, e, v, no_ssl, cancel)

user-IsText : IsText (codes "user")
unfolding is_utf8
user-IsText = record {
  no_nul = (omega arith, (omega arith, (omega arith, (omega arith, tt))));
  utf8 = refl;
}

database-IsText : IsText (codes "database")
unfolding is_utf8
database-IsText = record {
  no_nul = (
    omega arith,
    (
      omega arith,
      (omega arith, (omega arith, (omega arith, (omega arith, (omega arith, (omega arith, tt)))))),
    ),
  );
  utf8 = refl;
}

-- A start-up message that is built with a user, a database and other parameters is read back: its version, and all
-- its parameters, where one of a name that came before takes its place; and the user and the database are the ones it
-- was built with. Conditions: the texts are UTF-8 and hold no zero byte, no name is empty, none of the other
-- parameters is called `user` or `database`, the message is shorter than 2 ^ 31, and the conversion of bytes leaves
-- UTF-8 as it is.
pub parse_startup-build_startup :
    (lossy : Bytes → Bytes) (name db : Bytes) (extra_params : List (Bytes × Bytes))
    → ((s : Bytes) → is_utf8 s ≡ true → lossy s ≡ s)
    → IsText name
    → IsText db
    → All IsParameter extra_params
    → length (build_startup name db extra_params) < 2 ^ 31
    → lookup (codes "user") extra_params ≡ none
    → lookup (codes "database") extra_params ≡ none
    → let m : StartupMessage = record {
      protocol_version = 196608;
      parameters = insert_all ((codes "user", name) ∷ (codes "database", db) ∷ extra_params) [];
    } in
      (parse_startup lossy (build_startup name db extra_params) ≡ some m)
      × (user m ≡ some name)
      × (database m ≡ some db)
unfolding build_startup user database
parse_startup-build_startup lossy name db extra_params same t u h small no_user no_db =
    let all : List (Bytes × Bytes) = (codes "user", name) ∷ (codes "database", db) ∷ extra_params in
    let params : Bytes = pairs_bytes all in
    let bytes : Bytes = build_startup name db extra_params in
    let parameters : All IsParameter all =
      ((user-IsText, t, refl), ((database-IsText, u, refl), h)) in
    let fits : 8 + length params < 2 ^ 31 = omega (arith, small) in
    let read : read_parameters lossy (length bytes) (take (length params) params) []
        ≡ insert_all all [] =
      ap (λ region. read_parameters lossy (length bytes) region []) (take-length params)
      ∙ read_parameters-pairs_bytes lossy (length bytes) all [] same parameters (omega arith) in
    let whole =
      parse_startup_fits lossy bytes (length params) 196608
        (be32_round (8 + length params) (omega (arith, fits))) refl refl fits (omega arith) in
    (
      whole ∙ ap (λ ps. some (record { protocol_version = 196608; parameters = ps })) read,
      lookup-insert_all (codes "user") extra_params _ no_user,
      lookup-insert_all (codes "database") extra_params _ no_db,
    )

-- A response that is accepted is the one that the password gives.
pub verify_md5_response_sound :
    (md5 : Bytes → Bytes) (client_response password username salt : Bytes)
    → verify_md5_response md5 client_response password username salt ≡ true
    → client_response ≡ compute_md5_response md5 password username salt
unfolding verify_md5_response
verify_md5_response_sound md5 client_response password username salt =
    bytes_eq_sound client_response (compute_md5_response md5 password username salt)
