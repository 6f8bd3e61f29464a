-- ===== src/Target/Resolve.antt =====
-- The pair that a target resolves to: a guest that the identifier describes, on the instance named.
use mathlib.Core.Path.{subst}
use proxpass.Base.{
  ℕ, Bytes, bytes_eq, bytes_eq_iff, has_prefix, Bool, true, Option, none, some, List, [], ◌∷◌, map,
  Result, ok, parts_ok, ◌==◌, if◌then◌else◌, filter, length, drop, Elem, Any-map, Any-give,
  Distinct, ◌≡◌, ◌≢◌, ◌⊎◌, refl, sym, ap, ◌∙◌, arith, Bool-cases, Option-cases, inl, inr, ℤ,
}
use proxpass.Models.{ProxmoxInstance, Guest, GuestType, guest_type_ct, guest_type_vm, names_equal}
use proxpass.Target.{
  atoi, has_vmid, ResolveError, only_one, by_vmid, by_prefix, resolve_guest, last_named, inst_by_id,
  with_instance, resolve_in, resolve_named, resolve_guest_and_instance,
}

pub inst_by_id-Elem :
    (insts : List ProxmoxInstance) (id : ℕ) (i : ProxmoxInstance)
    → inst_by_id insts id ≡ some i
    → Elem i insts × (i.id ≡ id)
unfolding inst_by_id
inst_by_id-Elem [] id i e = cc
inst_by_id-Elem (j ∷ insts) id i e = elim (Option-cases (inst_by_id insts id)) [
  | inr (k, q) ↦
      let same : k ≡ i = ground arith in
      let (m, s) = inst_by_id-Elem insts id i (q ∙ ap some same) in (inr m, s)
  | inl q ↦ elim (Bool-cases (j.id == id)) [
    | inl t ↦ let same : j ≡ i = ground arith in (inl same, ground arith)
    | inr f ↦ absurd (ground arith)
  ]
]

module _ (lower : Bytes → Bytes) where
  pub last_named-Elem :
      (name : Bytes) (insts : List ProxmoxInstance) (i : ProxmoxInstance)
      → last_named lower name insts ≡ some i
      → Elem i insts × (names_equal lower i.name name ≡ true)
  unfolding last_named
  last_named-Elem name [] i e = cc
  last_named-Elem name (j ∷ insts) i e = elim (Option-cases (last_named lower name insts)) [
    | inr (k, q) ↦
        let same : k ≡ i = ground arith in
        let (m, s) = last_named-Elem name insts i (q ∙ ap some same) in (inr m, s)
    | inl q ↦ elim (Bool-cases (names_equal lower j.name name)) [
      | inl t ↦
          let same : j ≡ i = ground arith in
          (inl same, subst (λ (x : ProxmoxInstance). names_equal lower x.name name ≡ true) same t)
      | inr f ↦ absurd (ground arith)
    ]
  ]

  -- The identifier is the guest's VMID, its kind and VMID, or its name.
  pub data Describes (identifier : Bytes) (g : Guest) : Type 0 where
    by_number : (v : ℤ) → atoi identifier ≡ some v → has_vmid v g ≡ true → Describes identifier g
    by_kind :
        (v : ℤ)
        → has_prefix (lower identifier) g.kind ≡ true
        → atoi (drop (length g.kind) (lower identifier)) ≡ some v
        → has_vmid v g ≡ true
        → Describes identifier g
    by_name : names_equal lower g.name identifier ≡ true → Describes identifier g

  one_of :
      (gs : List Guest) (rest : Result ResolveError Guest) (g : Guest)
      → only_one gs rest ≡ ok g
      → Elem g gs ⊎ (rest ≡ ok g)
  unfolding only_one
  one_of [] rest g e = inr e
  one_of (h ∷ []) rest g e = inl (inl (ground arith))
  one_of (h ∷ k ∷ gs) rest g e = cc

  filtered :
      (p : Guest → Bool) (gs : List Guest) (g : Guest)
      → Elem g (filter p gs)
      → Elem g gs × (p g ≡ true)
  filtered p [] g m = absurd m
  filtered p (h ∷ gs) g m = elim (Bool-cases (p h)) [
    | inl t ↦ elim (subst (λ b. Elem g (if b then h ∷ filter p gs else filter p gs)) t m) [
      | inl e ↦ (inl e, subst (λ x. p x ≡ true) e t)
      | inr k ↦ let (n, q) = filtered p gs g k in (inr n, q)
    ]
    | inr f ↦
        let (n, q) =
          filtered p gs g (subst (λ b. Elem g (if b then h ∷ filter p gs else filter p gs)) f m) in
        (inr n, q)
  ]

  vmid_found :
      (o : Option ℤ) (gs : List Guest) (g : Guest)
      → Elem g (by_vmid o gs)
      → (v : ℤ) × (o ≡ some v) × (has_vmid v g ≡ true) × Elem g gs
  unfolding by_vmid
  vmid_found none gs g m = absurd m
  vmid_found (some v) gs g m = let (n, q) = filtered (has_vmid v) gs g m in (v, refl, q, n)

  abbrev in_kind : GuestType → Bytes → List Guest → List Guest
  in_kind kind identifier gs =
      by_vmid (atoi (drop (length kind) (lower identifier))) (filter (λ r. bytes_eq r.kind kind) gs)

  prefix_found :
      (kind : GuestType) (identifier : Bytes) (gs : List Guest) (g : Guest)
      → Elem g (by_prefix kind (lower identifier) gs)
      → Describes identifier g × Elem g gs
  unfolding by_prefix
  prefix_found kind identifier gs g m = elim (Bool-cases (has_prefix (lower identifier) kind)) [
    | inr f ↦ absurd (subst (λ b. Elem g (if b then in_kind kind identifier gs else [])) f m)
    | inl t ↦
        let there = subst (λ b. Elem g (if b then in_kind kind identifier gs else [])) t m in
        let (v, a, h, n) =
          vmid_found (atoi (drop (length kind) (lower identifier)))
            (filter (λ r. bytes_eq r.kind kind) gs) g there in
        let (n', q) = filtered (λ r. bytes_eq r.kind kind) gs g n in
        let same = (bytes_eq_iff g.kind kind).0 q in (by_kind v (rw same t) (rw same a) h, n')
  ]

  resolved-Describes :
      (identifier : Bytes) (gs : List Guest) (g : Guest)
      → resolve_guest lower identifier gs ≡ ok g
      → Describes identifier g × Elem g gs
  unfolding resolve_guest
  resolved-Describes identifier gs g e = elim (one_of (by_vmid (atoi identifier) gs) _ g e) [
    | inl m ↦ let (v, a, h, n) = vmid_found (atoi identifier) gs g m in (by_number v a h, n)
    | inr e1 ↦ elim (one_of (by_prefix guest_type_ct (lower identifier) gs) _ g e1) [
      | inl m ↦ prefix_found guest_type_ct identifier gs g m
      | inr e2 ↦ elim (one_of (by_prefix guest_type_vm (lower identifier) gs) _ g e2) [
        | inl m ↦ prefix_found guest_type_vm identifier gs g m
        | inr e3 ↦ elim (one_of (filter (λ h. names_equal lower h.name identifier) gs) _ g e3) [
          | inl m ↦
              let (n, q) = filtered (λ h. names_equal lower h.name identifier) gs g m in
              (by_name q, n)
          | inr e4 ↦ cc
        ]
      ]
    ]
  ]

  -- What a target resolved to: a known guest that the identifier describes, its instance, and the
  -- instance is the one that was named, if one was.
  pub record Resolved (identifier name : Bytes) (guests : List Guest) (insts : List ProxmoxInstance)
      (g : Guest) (i : ProxmoxInstance) : Type 0 where
    pub described : Describes identifier g
    pub guest_known : Elem g guests
    pub instance_known : Elem i insts
    pub hosts : i.id ≡ g.instance_id
    pub named : name ≢ [] → names_equal lower i.name name ≡ true

  resolved_in :
      (identifier : Bytes) (pool : List Guest) (insts : List ProxmoxInstance) (g : Guest)
      (i : ProxmoxInstance)
      → resolve_in lower identifier pool insts ≡ ok (g, i)
      → Describes identifier g × Elem g pool × Elem i insts × (i.id ≡ g.instance_id)
  unfolding resolve_in with_instance
  resolved_in identifier pool insts g i e =
      let (h, e1, e2) = parts_ok (resolve_guest lower identifier pool) _ e in
      elim (Option-cases (inst_by_id insts h.instance_id)) [
        | inl n ↦ absurd (ground arith)
        | inr (j, q) ↦
            let same_g : h ≡ g = ground arith in
            let same_i : j ≡ i = ground arith in
            let (d, m) = resolved-Describes identifier pool g (e1 ∙ ap ok same_g) in
            let (n, k) = inst_by_id-Elem insts h.instance_id i (q ∙ ap some same_i) in
            (d, m, n, k ∙ ap (λ (r : Guest). r.instance_id) same_g)
      ]

  one_instance :
      (insts : List ProxmoxInstance) (i j : ProxmoxInstance)
      → Distinct (map (λ k. k.id) insts)
      → Elem i insts
      → Elem j insts
      → i.id ≡ j.id
      → i ≡ j
  one_instance [] i j d m n e = absurd m
  one_instance (k ∷ insts) i j d (inl m) (inl n) e = sym m ∙ n
  one_instance (k ∷ insts) i j (f, d) (inl m) (inr n) e = absurd (
      f (
        (Any-map _ (λ (x : ProxmoxInstance). x.id) insts).1
          (Any-give _ insts j (sym e ∙ ap (λ (x : ProxmoxInstance). x.id) (sym m)) n)))
  one_instance (k ∷ insts) i j (f, d) (inr m) (inl n) e = absurd (
      f (
        (Any-map _ (λ (x : ProxmoxInstance). x.id) insts).1
          (Any-give _ insts i (e ∙ ap (λ (x : ProxmoxInstance). x.id) (sym n)) m)))
  one_instance (k ∷ insts) i j (f, d) (inr m) (inr n) e = one_instance insts i j d m n e

  -- A target that resolves gives a known guest that the identifier describes, by its VMID, its kind
  -- and VMID or its name, with the instance that hosts it, which is the one that was named, if one was.
  -- Instances have distinct ids.
  pub resolve-Resolved :
      (identifier name : Bytes) (guests : List Guest) (insts : List ProxmoxInstance) (g : Guest)
      (i : ProxmoxInstance)
      → Distinct (map (λ k. k.id) insts)
      → resolve_guest_and_instance lower identifier name guests insts ≡ ok (g, i)
      → Resolved identifier name guests insts g i
  unfolding resolve_guest_and_instance resolve_named
  resolve-Resolved identifier name guests insts g i d e = elim (Bool-cases (bytes_eq name [])) [
    | inl t ↦
        let (a, b, c, h) = resolved_in identifier guests insts g i (ground arith) in
        record {
          described = a;
          guest_known = b;
          instance_known = c;
          hosts = h;
          named = λ n. absurd (n ((bytes_eq_iff name []).0 t));
        }
    | inr f ↦ elim (Option-cases (last_named lower name insts)) [
      | inl n ↦ absurd (ground arith)
      | inr (j, q) ↦
          let pool = filter (λ r. r.instance_id == j.id) guests in
          let (a, b, c, h) = resolved_in identifier pool insts g i (ground arith) in
          let (m, k) = filtered (λ r. r.instance_id == j.id) guests g b in
          let (there, same_name) = last_named-Elem name insts j q in
          let same : j ≡ i = one_instance insts j i d there c (sym (h ∙ ground (arith, k))) in
          record {
            described = a;
            guest_known = m;
            instance_known = c;
            hosts = h;
            named = λ n.
                subst (λ (x : ProxmoxInstance). names_equal lower x.name name ≡ true) same
                  same_name;
          }
    ]
  ]
