-- ===== src/Directory/Accounts.antt =====
-- Which account the lookup of a login name gives, and that the lookup of its uid gives the same.
use mathlib.Core.Path.{subst}
use proxpass.Base.{
  ◌^◌, ◌≤◌, ◌<◌, Bytes, bytes_eq, codes, Bool, true, false, Option, some, List, [], ◌∷◌, map,
  Result, ok, err, ltb, ◌==◌, find, Elem, Any-map, Any-give, all_elem, Distinct, ◌≡◌, ◌≢◌, ◌↔◌, ◌⊎◌,
  refl, sym, inl, inr, arith, Bool-cases, Option-cases,
}
use proxpass.Models.{Client, names_equal, fold_name}
use proxpass.Ids.{IdLayout, in_range, uid_for, parse_uint, load_id_layout}
use proxpass.Ids.Safety.{IsSeparate, client_uid_high, load_id_layout-IsSeparate}
use proxpass.Db.State.{
  Tables, DbError, storage, no_rows, no_such_token, unique_violation, already_exists, Statement,
  select_clients, run,
}
use proxpass.Db.Named.{client_columns, is_named, row_or_none, get_client_by_name, list_clients}
use proxpass.Db.Named.Lookup.{HasNames}
use proxpass.Directory.{
  User, found, admin_login, valid_login_name, trim_prefix, alias_user, admin_user_as, user_for,
  write_admin_alias, client_reply, client_with_uid, handle_user_by_name, uid_reply,
  handle_user_by_uid,
}

-- The client's uid and gid are its own under a layout that was loaded, for every id in the table.
layout_of :
    (lookup : Bytes → Option Bytes) (l : IdLayout) (db : Tables) (c d : Client)
    → load_id_layout lookup ≡ ok l
    → HasNames db
    → db.next_client_id ≤ 2 ^ 63
    → Elem c db.clients
    → Elem d db.clients
    → IsSeparate l c.id d.id
layout_of lookup l db c d e k small m n =
    let mc = all_elem (λ r. r.id < db.next_client_id) db.clients c k.clients.below m in
    let md = all_elem (λ r. r.id < db.next_client_id) db.clients d k.clients.below n in
    load_id_layout-IsSeparate lookup l c.id d.id e (omega arith) (omega arith)

find-Elem : {A : Type 0} (p : A → Bool) (xs : List A) (a : A) → find p xs ≡ some a → Elem a xs
find-Elem p [] a e = cc
find-Elem p (x ∷ xs) a e = elim (Bool-cases (p x)) [
  | inl t ↦ inl (ground arith)
  | inr f ↦ inr (find-Elem p xs a (ground arith))
]

-- A client that the lookup by name gives is in the table.
looked-Elem :
    (lower : Bytes → Bytes) (down : Statement → Bool) (db : Tables) (name : Bytes) (c : Client)
    → get_client_by_name lower down db name ≡ ok c
    → Elem c db.clients
unfolding get_client_by_name run row_or_none
looked-Elem lower down db name c e =
    elim (Option-cases (find (is_named client_columns (fold_name lower name)) db.clients)) [
      | inl n ↦ absurd (ground arith)
      | inr (r, q) ↦
          find-Elem (is_named client_columns (fold_name lower name)) db.clients c (ground arith)
    ]

-- What the lookup of a name answers with.
pub data Served (l : IdLayout) (db : Tables) (name : Bytes) : User → Type 0 where
  as_alias : valid_login_name name ≡ true → Served l db name (alias_user l name)
  as_client :
      (c : Client)
      → Elem c db.clients
      → in_range l (uid_for l c.id) ≡ true
      → Served l db name (user_for l c)

alias-Served :
    (l : IdLayout) (db : Tables) (name : Bytes) (u : User)
    → write_admin_alias l name ≡ found u
    → Served l db name u
unfolding write_admin_alias
alias-Served l db name u e = elim (Bool-cases (valid_login_name name)) [
  | inl v ↦ subst (Served l db name) (ground arith) (as_alias v)
  | inr v ↦ absurd (ground arith)
]

reply-Served :
    (l : IdLayout) (db : Tables) (name : Bytes) (r : Result DbError Client) (u : User)
    → ((c : Client) → r ≡ ok c → Elem c db.clients)
    → client_reply l name r ≡ found u
    → Served l db name u
unfolding client_reply user_for
reply-Served l db name (err no_rows) u m e = alias-Served l db name u e
reply-Served l db name (err storage) u m e = cc
reply-Served l db name (err no_such_token) u m e = cc
reply-Served l db name (err unique_violation) u m e = cc
reply-Served l db name (err already_exists) u m e = cc
reply-Served l db name (ok c) u m e = elim (Bool-cases (in_range l (uid_for l c.id))) [
  | inl v ↦ subst (Served l db name) (ground arith) (as_client c (m c refl) v)
  | inr v ↦ absurd (ground arith)
]

-- The entry has the administrator's ids.
abbrev pub IsAdminEntry : IdLayout → User → Type 0
IsAdminEntry l u = (u.uid ≡ l.admin_uid) ⊎ (u.gid ≡ l.admin_group_gid)

Served-plain :
    (lookup : Bytes → Option Bytes) (l : IdLayout) (db : Tables) (name : Bytes) (u : User)
    → load_id_layout lookup ≡ ok l
    → HasNames db
    → db.next_client_id ≤ 2 ^ 63
    → Served l db name u
    → ¬ IsAdminEntry l u
unfolding alias_user user_for
Served-plain lookup l db name u e k small (as_alias v) (inl q) =
    (load_id_layout-IsSeparate lookup l 0 0 e (omega arith) (omega arith)).alias_is_not_admin q
Served-plain lookup l db name u e k small (as_alias v) (inr q) =
    (load_id_layout-IsSeparate lookup l 0 0 e (omega arith) (omega arith)).no_group_is_shared
      (sym q)
Served-plain lookup l db name u e k small (as_client c m v) (inl q) =
    (layout_of lookup l db c c e k small m m).no_client_is_admin q
Served-plain lookup l db name u e k small (as_client c m v) (inr q) =
    (layout_of lookup l db c c e k small m m).no_group_is_shared (sym q)

module _ (lookup : Bytes → Option Bytes) (lower : Bytes → Bytes) (l : IdLayout)
    (down : Statement → Bool) (db : Tables) where
  -- Under a layout that was loaded, the entry that a login name gets has the administrator's uid or
  -- gid exactly when the name folds to the reserved one. Ids are below 2 ^ 63.
  pub IsAdminEntry-iff :
      (path : Bytes) (u : User)
      → load_id_layout lookup ≡ ok l
      → HasNames db
      → db.next_client_id ≤ 2 ^ 63
      → handle_user_by_name lower l down db path ≡ found u
      → IsAdminEntry l u
        ↔ (names_equal lower (trim_prefix path (codes "/user/name/")) admin_login ≡ true)
  unfolding handle_user_by_name admin_user_as
  IsAdminEntry-iff path u loaded k small e =
      let name : Bytes = trim_prefix path (codes "/user/name/") in
      elim (Bool-cases (bytes_eq name [])) [
        | inl n ↦ absurd (ground arith)
        | inr n ↦ elim (Bool-cases (names_equal lower name admin_login)) [
          | inl a ↦ (λ _. a, λ _. inl (ground arith))
          | inr a ↦ (
            λ h. absurd (
                Served-plain lookup l db name u loaded k small
                  (reply-Served l db name (get_client_by_name lower down db name) u
                    (λ c q. looked-Elem lower down db name c q) (ground arith))
                  h),
            λ h. cc,
          )
        ]
      ]

-- The first row with a client's uid is the client's.
uid_finds :
    (l : IdLayout) (c : Client) (rows : List Client)
    → ((d : Client) → Elem d rows → uid_for l d.id ≡ uid_for l c.id → d.id ≡ c.id)
    → Distinct (map client_columns.id_of rows)
    → Elem c rows
    → client_with_uid l (uid_for l c.id) rows ≡ found (user_for l c)
unfolding client_with_uid user_for
uid_finds l c [] one d m = absurd m
uid_finds l c (r ∷ rows) one (fresh, d) (inl e) = rw e (ground arith)
uid_finds l c (r ∷ rows) one (fresh, d) (inr m) =
    elim (Bool-cases (uid_for l r.id == uid_for l c.id)) [
      | inl q ↦
          let same = one r (inl refl) (ground arith) in
          absurd (
            fresh (
              subst (λ i. Elem i (map client_columns.id_of rows)) (sym same)
                ((Any-map _ client_columns.id_of rows).1 (Any-give _ rows c refl m))))
      | inr q ↦ rw q (uid_finds l c rows (λ x k. one x (inr k)) d m)
    ]

module _ (lookup : Bytes → Option Bytes) (lower : Bytes → Bytes) (l : IdLayout)
    (down : Statement → Bool) (db : Tables) where
  client_by_uid :
      (path : Bytes) (c : Client)
      → load_id_layout lookup ≡ ok l
      → HasNames db
      → db.next_client_id ≤ 2 ^ 63
      → Elem c db.clients
      → down select_clients ≡ false
      → parse_uint (trim_prefix path (codes "/user/uid/")) ≡ some (uid_for l c.id)
      → handle_user_by_uid l down db path ≡ found (user_for l c)
  unfolding handle_user_by_uid uid_reply list_clients run
  client_by_uid path c loaded k small here up p =
      let below = all_elem (λ r. r.id < db.next_client_id) db.clients c k.clients.below here in
      let own = layout_of lookup l db c c loaded k small here here in
      let not_alias : (uid_for l c.id == l.alias_uid) ≡ false =
        ground (arith, own.no_client_is_alias) in
      let not_admin : (uid_for l c.id == l.admin_uid) ≡ false =
        ground (arith, own.no_client_is_admin) in
      let high : ltb (uid_for l c.id) l.uid_base ≡ false =
        ground (arith, client_uid_high lookup l c.id loaded (omega arith)) in
      rw (p, handle_user_by_uid)
        (rw (not_alias, uid_reply)
          (rw not_admin (
            rw high (
              rw up (
                uid_finds l c db.clients
                  (λ d m q. (layout_of lookup l db d c loaded k small m here).uids_injective q)
                  k.clients.ids here)))))

  Served-by_uid :
      (name path : Bytes) (u : User)
      → load_id_layout lookup ≡ ok l
      → HasNames db
      → db.next_client_id ≤ 2 ^ 63
      → u.uid ≢ l.alias_uid
      → down select_clients ≡ false
      → parse_uint (trim_prefix path (codes "/user/uid/")) ≡ some u.uid
      → Served l db name u
      → handle_user_by_uid l down db path ≡ found u
  unfolding alias_user user_for
  Served-by_uid name path u loaded k small n up p (as_alias v) = absurd (n refl)
  Served-by_uid name path u loaded k small n up p (as_client c m v) =
      client_by_uid path c loaded k small m up p

  -- Under a layout that was loaded: where the lookup of a name answers with a client's entry, one whose
  -- uid is not the administrator's or an alias's, the lookup of that uid, however it is written,
  -- answers with the same entry, as long as the clients can be read. Ids are below 2 ^ 63.
  pub same_account :
      (by_name by_uid : Bytes) (u : User)
      → load_id_layout lookup ≡ ok l
      → HasNames db
      → db.next_client_id ≤ 2 ^ 63
      → handle_user_by_name lower l down db by_name ≡ found u
      → u.uid ≢ l.admin_uid
      → u.uid ≢ l.alias_uid
      → down select_clients ≡ false
      → parse_uint (trim_prefix by_uid (codes "/user/uid/")) ≡ some u.uid
      → handle_user_by_uid l down db by_uid ≡ found u
  unfolding handle_user_by_name admin_user_as
  same_account by_name by_uid u loaded k small e not_admin not_alias up p =
      let name : Bytes = trim_prefix by_name (codes "/user/name/") in
      elim (Bool-cases (bytes_eq name [])) [
        | inl n ↦ absurd (ground arith)
        | inr n ↦ elim (Bool-cases (names_equal lower name admin_login)) [
          | inl a ↦ absurd (not_admin (ground arith))
          | inr a ↦ Served-by_uid name by_uid u loaded k small not_alias up p (
              reply-Served l db name (get_client_by_name lower down db name) u
                (λ c q. looked-Elem lower down db name c q) (ground arith))
        ]
      ]
