-- ===== src/Admin/Settings.antt =====
-- internal/api/settings.go: the configuration that the administrator is shown, secrets masked.
use proxpass.Base.{
  ℕ, Bytes, codes, has_prefix, bytes_eq, Bool, false, ◌||◌, Option, none, some, List, [], ◌∷◌, ◌++◌,
  ◌==◌, if◌then◌else◌, All, All-append, ==_refl, append_assoc, ◌≡◌, refl, sym, ap, ◌∙◌, drop,
}

-- SettingsSnapshot; of the two tokens it is known only whether they were given.
pub record SettingsSnapshot : Type 0 where
  pub data_source : Bytes
  pub log_level : Bytes
  pub discovery_interval : Bytes
  pub listen : Bytes
  pub admin_key : Bytes
  pub nss_token_set : Bool
  pub rest_api_token_set : Bool
  pub activity_retention : Bytes
  pub activity_prune_interval : Bytes

abbrev bullet : Bytes
bullet = 226 ∷ 128 ∷ 162 ∷ []

unfoldable pub mask_secret_set : Bool → Bytes
mask_secret_set given =
    if given
    then bullet
      ++ bullet
      ++ bullet
      ++ bullet
      ++ bullet
      ++ bullet
      ++ bullet
      ++ bullet
      ++ codes " (set)"
    else codes "(not set)"

-- What is before the first such byte, and the rest from it on.
unfoldable pub cut_at : ℕ → Bytes → Option (Bytes × Bytes)
cut_at c [] = none
cut_at c (x ∷ xs) =
    let rest = cut_at c xs in
    if x == c then some ([], x ∷ xs) else elim rest [ none ↦ none | some (a, b) ↦ some (x ∷ a, b) ]

-- What is up to the end of the first "//", and the rest.
unfoldable pub after_slashes : Bytes → Bytes × Bytes
after_slashes [] = ([], [])
after_slashes (c ∷ cs) =
    let rest = after_slashes cs in
    if has_prefix (c ∷ cs) (codes "//") then (codes "//", drop 1 cs) else (c ∷ rest.0, rest.1)

-- The credentials, without what follows their first colon.
unfoldable pub mask_password : Bytes → Option (Bytes × Bytes) → Bytes
mask_password creds none = creds
mask_password creds (some (user, password)) = user ++ codes ":***"

unfoldable pub mask_credentials : Bytes → Bytes → Option (Bytes × Bytes) → Bytes
mask_credentials given scheme none = given
mask_credentials given scheme (some (creds, tail)) =
    scheme ++ mask_password creds (cut_at 58 creds) ++ tail

unfoldable pub mask_data_source : Bytes → Bytes
mask_data_source given =
    let (scheme, rest) = after_slashes given in
    if has_prefix given (codes "postgres://") || has_prefix given (codes "postgresql://")
    then mask_credentials given scheme (cut_at 64 rest)
    else given

unfoldable pub activity_retention_display : Bytes → Bytes
activity_retention_display v =
    if bytes_eq v [] || (bytes_eq v (codes "0s") || bytes_eq v (codes "0"))
    then codes "0s (activity logging disabled)"
    else v

unfoldable pub value_or_unset : Bytes → Bytes
value_or_unset v = if bytes_eq v [] then codes "(not set)" else v

-- A SettingEntry is a key and a value.
unfoldable pub build_settings : SettingsSnapshot → Bytes → List (Bytes × Bytes)
build_settings s public_endpoint =
    (codes "PROXPASS_PUBLIC_ENDPOINT", value_or_unset public_endpoint)
    ∷ (codes "PROXPASS_DATA", mask_data_source s.data_source)
    ∷ (codes "PROXPASS_LOG_LEVEL", s.log_level)
    ∷ (codes "PROXPASS_DISCOVERY_INTERVAL", s.discovery_interval)
    ∷ (codes "PROXPASS_LISTEN", s.listen)
    ∷ (codes "PROXPASS_ADMIN_KEY", value_or_unset s.admin_key)
    ∷ (codes "PROXPASS_NSS_TOKEN", mask_secret_set s.nss_token_set)
    ∷ (codes "PROXPASS_REST_API_TOKEN", mask_secret_set s.rest_api_token_set)
    ∷ (codes "PROXPASS_ACTIVITY_RETENTION", activity_retention_display s.activity_retention)
    ∷ (codes "PROXPASS_ACTIVITY_PRUNE_INTERVAL", s.activity_prune_interval)
    ∷ []

-- The byte is not in it.
abbrev pub Lacks : ℕ → Bytes → Type 0
Lacks c = All (λ x. (x == c) ≡ false)

cut_at-append :
    (c : ℕ) (before after : Bytes)
    → Lacks c before
    → cut_at c (before ++ c ∷ after) ≡ some (before, c ∷ after)
unfolding cut_at
cut_at-append c [] after n = rw (==_refl c) refl
cut_at-append c (x ∷ xs) after (n, ns) = rw (n, cut_at-append c xs after ns) refl

-- The two schemes that are masked.
pub data IsScheme : Bytes → Type 0 where
  short : IsScheme (codes "postgres://")
  long : IsScheme (codes "postgresql://")

masked_after :
    (scheme rest : Bytes) (creds tail : Bytes)
    → IsScheme scheme
    → cut_at 64 rest ≡ some (creds, tail)
    → mask_data_source (scheme ++ rest) ≡ scheme ++ mask_password creds (cut_at 58 creds) ++ tail
unfolding mask_data_source after_slashes has_prefix mask_credentials
masked_after _ rest creds tail short e = rw (e, mask_credentials) refl
masked_after _ rest creds tail long e = rw (e, mask_credentials) refl

-- A data source is shown with the scheme and the user's name, three stars for the password, and what
-- follows the first `@` as it is, whatever it is: if neither the name nor the password has an `@`, and
-- the name has no colon.
pub mask_data_source-hides :
    (scheme user password tail : Bytes)
    → IsScheme scheme
    → Lacks 64 user
    → Lacks 58 user
    → Lacks 64 password
    → mask_data_source (scheme ++ (user ++ 58 ∷ password) ++ 64 ∷ tail)
      ≡ scheme ++ (user ++ codes ":***") ++ 64 ∷ tail
unfolding mask_password
mask_data_source-hides scheme user password tail s a b c =
    let creds = user ++ 58 ∷ password in
    let free = All-append _ user (58 ∷ password) a (refl, c) in
    ap mask_data_source (append_assoc scheme creds (64 ∷ tail))
    ∙ masked_after scheme (creds ++ 64 ∷ tail) creds (64 ∷ tail) s
        (cut_at-append 64 creds tail free)
    ∙ ap (λ o. scheme ++ mask_password creds o ++ 64 ∷ tail) (cut_at-append 58 user password b)

-- Two snapshots that differ only in such a password are shown as the same settings.
pub build_settings-hides :
    (s : SettingsSnapshot) (endpoint scheme user password other tail : Bytes)
    → IsScheme scheme
    → Lacks 64 user
    → Lacks 58 user
    → Lacks 64 password
    → Lacks 64 other
    → build_settings
        (record s { data_source = scheme ++ (user ++ 58 ∷ password) ++ 64 ∷ tail })
        endpoint
      ≡ build_settings
          (record s { data_source = scheme ++ (user ++ 58 ∷ other) ++ 64 ∷ tail })
          endpoint
unfolding build_settings
build_settings-hides s endpoint scheme user password other tail k a b c d =
    let same =
      mask_data_source-hides scheme user password tail k a b c
      ∙ sym (mask_data_source-hides scheme user other tail k a b d) in
    rw same refl
