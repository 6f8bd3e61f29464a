-- ===== src/Directory/Names.antt =====
-- Which names may log in, said without the order of the tests, and what a 404 means.
use proxpass.Base.{
  has_prefix, ℕ, ◌≤◌, Bytes, bytes_eq, bytes_eq_iff, codes, Bool, true, false, not, ◌||◌, none, [],
  ◌∷◌, Result, ok, err, ltb, if◌then◌else◌, find, length, All, Elem, Elem-iff, ◌≡◌, ◌≢◌, ◌↔◌, ◌⊎◌,
  refl, inl, inr, arith, Bool-cases,
}
use proxpass.Models.{Client, names_equal, fold_name}
use proxpass.Ids.{IdLayout}
use proxpass.Db.State.{
  Tables, DbError, storage, no_rows, no_such_token, unique_violation, already_exists, Statement,
  select_client_by_name, run,
}
use proxpass.Db.Named.{client_columns, is_named, row_or_none, get_client_by_name}
use proxpass.Directory.{
  not_found, admin_login, max_login_name_len, contains_any, passwd_bytes, url_bytes, blank_bytes,
  valid_login_name, trim_prefix, write_admin_alias, client_reply, handle_user_by_name,
}

-- The byte would break a passwd line or the URL of the lookup.
abbrev pub IsReserved : ℕ → Type 0
IsReserved c = Elem c passwd_bytes ⊎ (Elem c url_bytes ⊎ Elem c blank_bytes)

pub record IsLoginName (s : Bytes) : Type 0 where
  pub bounded : (1 ≤ length s) × (length s ≤ 256)
  pub clean : All (λ c. ¬ IsReserved c) s
  pub no_dots : (s ≢ codes ".") × (s ≢ codes "..")
  pub no_flag : (rest : Bytes) → s ≢ 45 ∷ rest

contains_none : (s set : Bytes) → (contains_any s set ≡ false) ↔ All (λ c. ¬ Elem c set) s
unfolding contains_any
contains_none [] set = (λ _. tt, λ _. refl)
contains_none (c ∷ s) set = ground (arith, contains_none s set, Elem-iff set c)

All-split :
    (s : Bytes)
    → All (λ c. ¬ IsReserved c) s ↔ (
        All (λ c. ¬ Elem c passwd_bytes) s
        × (All (λ c. ¬ Elem c url_bytes) s × All (λ c. ¬ Elem c blank_bytes) s))
All-split [] = (λ _. (tt, (tt, tt)), λ _. tt)
All-split (c ∷ s) = (
  λ h.
      let k = (All-split s).0 h.1 in
      ((λ m. h.0 (inl m), k.0), ((λ m. h.0 (inr (inl m)), k.1.0), (λ m. h.0 (inr (inr m)), k.1.1))),
  λ h. (
    λ r. elim r [ inl m ↦ h.0.0 m | inr n ↦ elim n [ inl m ↦ h.1.0.0 m | inr m ↦ h.1.1.0 m ] ],
    (All-split s).1 (h.0.1, (h.1.0.1, h.1.1.1)),
  ),
)

flagged : (s : Bytes) → has_prefix s (codes "-") ≡ true → (rest : Bytes) × (s ≡ 45 ∷ rest)
unfolding has_prefix
flagged [] e = cc
flagged (c ∷ s) e = (s, ground arith)

flag-has_prefix : (s rest : Bytes) → s ≡ 45 ∷ rest → has_prefix s (codes "-") ≡ true
unfolding has_prefix
flag-has_prefix s rest e = rw e refl

not-eq : (a b : Bytes) → bytes_eq a b ≡ false ↔ a ≢ b
not-eq a b = (λ e q. cc ((bytes_eq_iff a b).1 q), λ n. ground (arith, (bytes_eq_iff a b).0))

-- A chain of tests that each refuse.
refused :
    (b : Bool) (rest : Bool) → ((if b then false else rest) ≡ true) ↔ ((b ≡ false) × (rest ≡ true))
refused true rest = ground arith
refused false rest = ground arith

neither : (a b : Bool) → ((a || b) ≡ false) ↔ ((a ≡ false) × (b ≡ false))
neither true b = ground arith
neither false b = ground arith

not-true : (b : Bool) → (not b ≡ true) ↔ (b ≡ false)
not-true true = ground arith
not-true false = ground arith

size_iff :
    (s : Bytes)
    → ((bytes_eq s [] ≡ false) × (ltb max_login_name_len (length s) ≡ false))
      ↔ ((1 ≤ length s) × (length s ≤ 256))
unfolding bytes_eq
size_iff [] = ground arith
size_iff (c ∷ s) = ground arith

flag_iff : (s : Bytes) → (has_prefix s (codes "-") ≡ false) ↔ ((rest : Bytes) → s ≢ 45 ∷ rest)
flag_iff s = (
  λ e rest q. cc (flag-has_prefix s rest q),
  λ n. elim (Bool-cases (has_prefix s (codes "-"))) [
    | inl e ↦ let (rest, q) = flagged s e in absurd (n rest q)
    | inr e ↦ e
  ],
)

-- The names that may log in are those of 1 to 256 bytes with none of `:`, `?`, `#`, `/`, `%`, blank,
-- tab, line feed, carriage return and NUL, that do not begin with `-` and are not `.` or `..`.
pub valid_login_name_iff : (s : Bytes) → (valid_login_name s ≡ true) ↔ IsLoginName s
unfolding valid_login_name
valid_login_name_iff s = (
  λ e.
      let (size, e1) = (refused _ _).0 e in
      let (passwd, e2) = (refused _ _).0 e1 in
      let (others, e3) = (refused _ _).0 e2 in
      let (dots, e4) = (refused _ _).0 e3 in
      let (url, blank) = (neither _ _).0 others in
      let (one, two) = (neither _ _).0 dots in
      record {
        bounded = (size_iff s).0 ((neither _ _).0 size);
        clean = (All-split s).1 (
          (contains_none s passwd_bytes).0 passwd,
          ((contains_none s url_bytes).0 url, (contains_none s blank_bytes).0 blank),
        );
        no_dots = ((not-eq s (codes ".")).0 one, (not-eq s (codes "..")).0 two);
        no_flag = (flag_iff s).0 ((not-true _).0 e4);
      },
  λ v.
      let (passwd, (url, blank)) = (All-split s).0 v.clean in
      (refused _ _).1 (
        (neither _ _).1 ((size_iff s).1 v.bounded),
        (refused _ _).1 (
          (contains_none s passwd_bytes).1 passwd,
          (refused _ _).1 (
            (neither _ _).1
                ((contains_none s url_bytes).1 url, (contains_none s blank_bytes).1 blank),
            (refused _ _).1 (
              (neither _ _).1
                  ((not-eq s (codes ".")).1 v.no_dots.0, (not-eq s (codes "..")).1 v.no_dots.1),
              (not-true _).1 ((flag_iff s).1 v.no_flag),
            ),
          ),
        ),
      ),
)

-- The name that a path asks for.
abbrev pub asked : Bytes → Bytes
asked path = trim_prefix path (codes "/user/name/")

alias_refused :
    (l : IdLayout) (name : Bytes) → write_admin_alias l name ≡ not_found → ¬ IsLoginName name
unfolding write_admin_alias
alias_refused l name e v = ground (arith, (valid_login_name_iff name).1 v)

reply_refused :
    (l : IdLayout) (name : Bytes) (r : Result DbError Client)
    → client_reply l name r ≡ not_found
    → (r ≡ err no_rows) × (¬ IsLoginName name)
unfolding client_reply
reply_refused l name (err no_rows) e = (refl, alias_refused l name e)
reply_refused l name (err storage) e = cc
reply_refused l name (err unique_violation) e = cc
reply_refused l name (err already_exists) e = cc
reply_refused l name (err no_such_token) e = cc
reply_refused l name (ok c) e = ground arith

no_row :
    (lower : Bytes → Bytes) (down : Statement → Bool) (db : Tables) (name : Bytes)
    → get_client_by_name lower down db name ≡ err no_rows
    → (down (select_client_by_name (fold_name lower name)) ≡ false)
      × (find (is_named client_columns (fold_name lower name)) db.clients ≡ none)
unfolding get_client_by_name run row_or_none
no_row lower down db name e = ground arith

-- The lookup of a login name answers "not found" only where the path names nobody: no name is given,
-- or no client has it and it could not be a login name. A failing database is never "not found".
pub not_found_absent :
    (lower : Bytes → Bytes) (l : IdLayout) (down : Statement → Bool) (db : Tables) (path : Bytes)
    → handle_user_by_name lower l down db path ≡ not_found
    → (asked path ≡ [])
      ⊎ ((down (select_client_by_name (fold_name lower (asked path))) ≡ false)
          × (find (is_named client_columns (fold_name lower (asked path))) db.clients ≡ none)
          × (¬ IsLoginName (asked path)))
unfolding handle_user_by_name
not_found_absent lower l down db path e = elim (Bool-cases (bytes_eq (asked path) [])) [
  | inl n ↦ inl ((bytes_eq_iff (asked path) []).0 n)
  | inr n ↦ elim (Bool-cases (names_equal lower (asked path) admin_login)) [
    | inl a ↦ absurd (ground arith)
    | inr a ↦
        let (gone, bad) =
          reply_refused l (asked path) (get_client_by_name lower down db (asked path))
            (ground arith) in
        let (up, none_found) = no_row lower down db (asked path) gone in inr (up, none_found, bad)
  ]
]
