-- ===== src/Directory/Listing.antt =====
-- The lists of users and of groups, and the lookup of a gid in the latter.
use mathlib.Core.Path.{subst}
use proxpass.Base.{
  ℕ, ◌^◌, ◌≤◌, ◌<◌, Bytes, codes, Bool, true, false, Option, none, some, List, [], ◌∷◌, map, ok,
  ◌==◌, find, Any, Elem, Any-map, Any-take, Any-give, all_elem, Distinct, ◌≡◌, ◌≢◌, ◌↔◌, ◌⊎◌, refl,
  sym, ◌∙◌, ap, inl, inr, arith, Bool-cases,
}
use proxpass.Models.{Client, Group}
use proxpass.Ids.{IdLayout, in_range, uid_for, gid_for, load_id_layout, parse_uint}
use proxpass.Ids.Safety.{IsSeparate, load_id_layout-IsSeparate}
use proxpass.Db.State.{Tables, Statement, select_clients, select_groups, run}
use proxpass.Db.Named.{client_columns, group_columns, list_clients, list_groups}
use proxpass.Db.Named.Lookup.{HasNames}
use proxpass.Directory.{
  User, UnixGroup, found, admin_user_as, admin_user, user_for, group_for, listed_users,
  handle_users, member_names, groups_of, all_groups, handle_group_by_gid, trim_prefix, group_reply,
}

-- The client has an entry in the list.
abbrev IsListed : IdLayout → User → Client → Type 0
IsListed l u c = (user_for l c ≡ u) × (in_range l (uid_for l c.id) ≡ true)

IsListed-Elem :
    (l : IdLayout) (u : User) (cs : List Client)
    → Elem u (listed_users l cs) ↔ Any (IsListed l u) cs
unfolding listed_users user_for
IsListed-Elem l u [] = (λ h. h, λ h. h)
IsListed-Elem l u (c ∷ cs) = elim (Bool-cases (in_range l (uid_for l c.id))) [
  | inl e ↦ rw e (ground (arith, IsListed-Elem l u cs))
  | inr e ↦ rw e (ground (arith, IsListed-Elem l u cs))
]

answered :
    (l : IdLayout) (down : Statement → Bool) (db : Tables) (us : List User)
    → handle_users l down db ≡ found us
    → us ≡ admin_user l ∷ listed_users l db.clients
unfolding handle_users list_clients run
answered l down db us e = elim (Bool-cases (down select_clients)) [
  | inl t ↦ absurd (ground arith)
  | inr f ↦ ground arith
]

listed_apart :
    (l : IdLayout) (c : Client) (cs : List Client)
    → ((d : Client) → Elem d cs → uid_for l d.id ≢ uid_for l c.id)
    → ¬ Elem (uid_for l c.id) (map (λ u. u.uid) (listed_users l cs))
unfolding user_for
listed_apart l c cs n m =
    let (u, q, here) = Any-take _ _ ((Any-map _ (λ u. u.uid) (listed_users l cs)).0 m) in
    let (d, (same, _), there) = Any-take _ cs ((IsListed-Elem l u cs).0 here) in
    n d there (ap (λ (v : User). v.uid) same ∙ q)

listed-Distinct :
    (l : IdLayout) (cs : List Client)
    → ((c d : Client) → Elem c cs → Elem d cs → uid_for l c.id ≡ uid_for l d.id → c.id ≡ d.id)
    → Distinct (map client_columns.id_of cs)
    → Distinct (map (λ u. u.uid) (listed_users l cs))
unfolding listed_users user_for
listed-Distinct l [] one d = tt
listed-Distinct l (c ∷ cs) one (fresh, d) =
    let rest = listed-Distinct l cs (λ x y m n. one x y (inr m) (inr n)) d in
    elim (Bool-cases (in_range l (uid_for l c.id))) [
      | inl e ↦ rw e (
        listed_apart l c cs (λ x m q.
            let same = one x c (inr m) (inl refl) q in
            fresh (
              subst (λ i. Elem i (map client_columns.id_of cs)) same
                ((Any-map _ client_columns.id_of cs).1 (Any-give _ cs x refl m)))),
        rest,
      )
      | inr e ↦ rw e rest
    ]

-- The entries of the user list.
pub record IsUserList (l : IdLayout) (db : Tables) (us : List User) : Type 0 where
  pub distinct : Distinct (map (λ u. u.uid) us)
  pub exact : (u : User) → Elem u us ↔ ((admin_user l ≡ u) ⊎ Any (IsListed l u) db.clients)

module _ (lookup : Bytes → Option Bytes) (l : IdLayout) (db : Tables)
    (loaded : load_id_layout lookup ≡ ok l) (k : HasNames db) where
  ids_apart :
      db.next_client_id ≤ 2 ^ 63
      → (c d : Client) → Elem c db.clients
      → Elem d db.clients
      → IsSeparate l c.id d.id
  ids_apart small c d m n =
      let mc = all_elem (λ r. r.id < db.next_client_id) db.clients c k.clients.below m in
      let md = all_elem (λ r. r.id < db.next_client_id) db.clients d k.clients.below n in
      load_id_layout-IsSeparate lookup l c.id d.id loaded (omega arith) (omega arith)

  no_admin_listed :
      db.next_client_id ≤ 2 ^ 63 → ¬ Elem l.admin_uid (map (λ u. u.uid) (listed_users l db.clients))
  unfolding user_for
  no_admin_listed small m =
      let (u, q, here) = Any-take _ _ ((Any-map _ (λ u. u.uid) (listed_users l db.clients)).0 m) in
      let (d, (same, _), there) = Any-take _ db.clients ((IsListed-Elem l u db.clients).0 here) in
      (ids_apart small d d there there).no_client_is_admin (ap (λ (v : User). v.uid) same ∙ q)

  -- Under a layout that was loaded, the list of users has no uid twice, and its entries are exactly the
  -- administrator's and those of the clients whose uid is within the highest id. Ids are below 2 ^ 63.
  pub handle_users-IsUserList :
      (down : Statement → Bool) (us : List User)
      → db.next_client_id ≤ 2 ^ 63
      → handle_users l down db ≡ found us
      → IsUserList l db us
  unfolding admin_user admin_user_as
  handle_users-IsUserList down us small e =
      subst (IsUserList l db) (sym (answered l down db us e)) (record {
        distinct = (
          no_admin_listed small,
          listed-Distinct l db.clients (λ c d m n. (ids_apart small c d m n).uids_injective)
              k.clients.ids,
        );
        exact = λ u. ground (arith, IsListed-Elem l u db.clients);
      })

find_key :
    {A : Type 0} (key : A → ℕ) (n : ℕ) (xs : List A) (a : A)
    → Distinct (map key xs)
    → (find (λ x. key x == n) xs ≡ some a) ↔ (Elem a xs × (key a ≡ n))
find_key key n [] a d = (λ e. cc, λ h. absurd h.0)
find_key key n (x ∷ xs) a (fresh, d) = elim (Bool-cases (key x == n)) [
  | inl e ↦ rw e (
    λ q. let same : x ≡ a = ground arith in (inl same, ap key (sym same) ∙ ground arith),
    λ h. elim h.0 [
      | inl q ↦ ap some q
      | inr m ↦
          let same : key a ≡ key x = ground (arith, h.1) in
          absurd (
            fresh (
              subst (λ i. Elem i (map key xs)) same
                ((Any-map _ key xs).1 (Any-give _ xs a refl m))))
    ],
  )
  | inr e ↦ rw e (
    λ q. let (m, s) = (find_key key n xs a d).0 q in (inr m, s),
    λ h. elim h.0 [ inl q ↦ absurd (ground arith) | inr m ↦ (find_key key n xs a d).1 (m, h.1) ],
  )
]

gid-Distinct :
    (l : IdLayout) (members : Group → List Bytes) (gs : List Group)
    → ((c d : Group) → Elem c gs → Elem d gs → gid_for l c.id ≡ gid_for l d.id → c.id ≡ d.id)
    → Distinct (map group_columns.id_of gs)
    → Distinct (map (λ g. g.gid) (map (λ g. group_for l g (members g)) gs))
unfolding group_for
gid-Distinct l members [] one d = tt
gid-Distinct l members (g ∷ gs) one (fresh, d) = (
  λ m.
      let at = (Any-map _ _ gs).0 ((Any-map _ (λ u. u.gid) _).0 m) in
      let (h, q, there) = Any-take _ gs at in
      let same = one h g (inr there) (inl refl) q in
      fresh (
        subst (λ i. Elem i (map group_columns.id_of gs)) same
          ((Any-map _ group_columns.id_of gs).1 (Any-give _ gs h refl there))),
  gid-Distinct l members gs (λ x y m n. one x y (inr m) (inr n)) d,
)

module _ (lookup : Bytes → Option Bytes) (l : IdLayout) (db : Tables)
    (loaded : load_id_layout lookup ≡ ok l) (k : HasNames db) where
  group_ids_apart :
      db.next_group_id ≤ 2 ^ 63
      → (c d : Group) → Elem c db.groups
      → Elem d db.groups
      → IsSeparate l c.id d.id
  group_ids_apart small c d m n =
      let mc = all_elem (λ r. r.id < db.next_group_id) db.groups c k.groups.below m in
      let md = all_elem (λ r. r.id < db.next_group_id) db.groups d k.groups.below n in
      load_id_layout-IsSeparate lookup l c.id d.id loaded (omega arith) (omega arith)

  fixed_apart :
      db.next_group_id ≤ 2 ^ 63
      → (members : Group → List Bytes) (gid : ℕ)
      → ((gid ≡ l.admin_group_gid) ⊎ (gid ≡ l.shared_group_gid))
      → ¬ Elem gid (map (λ g. g.gid) (map (λ g. group_for l g (members g)) db.groups))
  unfolding group_for
  fixed_apart small members gid fixed m =
      let at = (Any-map _ _ db.groups).0 ((Any-map _ (λ u. u.gid) _).0 m) in
      let (h, q, there) = Any-take _ db.groups at in
      let own = (group_ids_apart small h h there there).no_group_is_fixed in
      elim fixed [ inl e ↦ own.0 (q ∙ e) | inr e ↦ own.1 (q ∙ e) ]

  groups_of-Distinct :
      db.next_group_id ≤ 2 ^ 63 → Distinct (map (λ g. g.gid) (groups_of l db.clients db.groups))
  unfolding groups_of
  groups_of-Distinct small =
      let members : Group → List Bytes = λ g. member_names db.clients g.client_ids in
      let first = load_id_layout-IsSeparate lookup l 0 0 loaded (omega arith) (omega arith) in
      (
        λ m. elim m [
          | inl e ↦ first.no_group_is_shared (sym e)
          | inr n ↦ fixed_apart small members l.admin_group_gid (inl refl) n
        ],
        (
          fixed_apart small members l.shared_group_gid (inr refl),
          gid-Distinct l members db.groups
              (λ c d m n. (group_ids_apart small c d m n).gids_injective) k.groups.ids,
        ),
      )

  group_found : (o : Option UnixGroup) (g : UnixGroup) → (group_reply o ≡ found g) ↔ (o ≡ some g)
  unfolding group_reply
  group_found none g = (λ e. cc, λ e. cc)
  group_found (some h) g = ground arith

  -- Under a layout that was loaded, and where the rows can be read: the lookup of a gid, however it is
  -- written, answers with a group exactly when the directory has that group with that gid. Ids are
  -- below 2 ^ 63.
  pub handle_group_by_gid_iff :
      (down : Statement → Bool) (path : Bytes) (gid : ℕ) (g : UnixGroup)
      → db.next_group_id ≤ 2 ^ 63
      → down select_clients ≡ false
      → down select_groups ≡ false
      → parse_uint (trim_prefix path (codes "/group/gid/")) ≡ some gid
      → (handle_group_by_gid l down db path ≡ found g)
        ↔ (Elem g (groups_of l db.clients db.groups) × (g.gid ≡ gid))
  unfolding handle_group_by_gid all_groups list_clients list_groups run
  handle_group_by_gid_iff down path gid g small up up' p =
      let groups = groups_of l db.clients db.groups in
      let one = find_key (λ (h : UnixGroup). h.gid) gid groups g (groups_of-Distinct small) in
      rw (p, handle_group_by_gid)
        (rw (up, all_groups)
          (rw up' (
            λ e. one.0 ((group_found (find (λ h. h.gid == gid) groups) g).0 e),
            λ h. (group_found (find (λ h. h.gid == gid) groups) g).1 (one.1 h),
          )))
