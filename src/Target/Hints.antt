-- ===== src/Target/Hints.antt =====
-- The hint that an ambiguity error gives for a guest leads to that guest.
use mathlib.Core.Path.{subst}
use proxpass.Base.{
  leb, ℕ, ◌^◌, ◌<◌, ◌≤◌, Bytes, bytes_eq, bytes_eq_iff, bytes_eq_refl, has_prefix, Bool, true,
  false, ◌&&◌, none, some, List, [], ◌∷◌, ◌++◌, map, ok, ◌==◌, filter, All, Elem, Distinct,
  all_elem, ◌≡◌, ◌≢◌, ◌⊎◌, refl, sym, ap, ◌∙◌, arith, Bool-cases, Option-cases, inl, inr, pos,
}
use proxpass.Models.{ProxmoxInstance, Guest, GuestType, guest_type_ct, guest_type_vm, names_equal}
use proxpass.Ids.{digits_value}
use proxpass.Target.{
  parse_guest_target, instance_lookup, digits_of, plus_of, atoi, has_vmid, only_one, by_vmid,
  by_prefix, resolve_guest, last_named, inst_by_id, with_instance, resolve_in, resolve_named,
  resolve_guest_and_instance, decimal, known_name, qualified,
}
use proxpass.Target.Decimal.{IsDigits, decimal-IsDigits, atoi-decimal}
use proxpass.Target.Parse.{parse_guest_target_iff}
use proxpass.Target.Resolve.{inst_by_id-Elem, last_named-Elem}
use proxpass.Target.Single.{filter-filter, filter_one, All-weaken}

-- A lower-case letter or a digit of ASCII, which strings.ToLower leaves.
abbrev pub IsPlain : ℕ → Type 0
IsPlain c = ((97 ≤ c) × (c ≤ 122)) ⊎ ((48 ≤ c) × (c ≤ 57))

IsPlain-digits : (s : Bytes) → IsDigits s → All IsPlain s
IsPlain-digits [] d = tt
IsPlain-digits (c ∷ s) (d, ds) = (inr d, IsPlain-digits s ds)

-- The guest is a container or a virtual machine with a VMID that no other guest of its instance has,
-- and its instance has a name of its own with no `@` in it.
pub record IsHinted (lower : Bytes → Bytes) (guests : List Guest) (insts : List ProxmoxInstance)
    (g : Guest) (i : ProxmoxInstance) : Type 0 where
  pub kind : (g.kind ≡ guest_type_ct) ⊎ (g.kind ≡ guest_type_vm)
  pub small : g.proxmox_id < 2 ^ 63
  pub known : Elem g guests
  pub ids : Distinct (map (λ h. h.id) guests)
  pub alone : All (λ h. h.instance_id ≡ g.instance_id → h.proxmox_id ≡ g.proxmox_id → h ≡ g) guests
  pub hosted : inst_by_id insts g.instance_id ≡ some i
  pub named : i.name ≢ []
  pub no_at : ¬ Elem 64 i.name
  pub own_name : All (λ j. names_equal lower j.name i.name ≡ true → j ≡ i) insts

module _ (lower : Bytes → Bytes) (plain : (s : Bytes) → All IsPlain s → lower s ≡ s) where
  lowered_ct : (n : ℕ) → lower (guest_type_ct ++ decimal n) ≡ guest_type_ct ++ decimal n
  lowered_ct n = plain _ (
    inl (omega arith, omega arith),
    (inl (omega arith, omega arith), IsPlain-digits _ (decimal-IsDigits n)),
  )

  lowered_vm : (n : ℕ) → lower (guest_type_vm ++ decimal n) ≡ guest_type_vm ++ decimal n
  lowered_vm n = plain _ (
    inl (omega arith, omega arith),
    (inl (omega arith, omega arith), IsPlain-digits _ (decimal-IsDigits n)),
  )

  -- A letter is no number.
  no_number : (c : ℕ) (cs : Bytes) → 97 ≤ c → atoi (c ∷ cs) ≡ none
  unfolding atoi digits_of digits_value plus_of
  no_number c cs h =
      let no_minus : (c == 45) ≡ false = ground arith in
      let no_plus : (c == 43) ≡ false = ground arith in
      let no_digit : leb 48 c && leb c 57 ≡ false = ground arith in
      rw no_minus (rw no_plus (rw no_digit refl))

  resolve_ct :
      (g : Guest) (gs : List Guest)
      → g.proxmox_id < 2 ^ 63
      → filter (λ h. bytes_eq h.kind guest_type_ct && has_vmid (pos g.proxmox_id) h) gs ≡ g ∷ []
      → resolve_guest lower (guest_type_ct ++ decimal g.proxmox_id) gs ≡ ok g
  unfolding resolve_guest by_vmid by_prefix only_one has_prefix
  resolve_ct g gs small one =
      let letter = no_number 99 (116 ∷ decimal g.proxmox_id) (omega arith) in
      let found =
        filter-filter (has_vmid (pos g.proxmox_id)) (λ h. bytes_eq h.kind guest_type_ct) gs ∙ one in
      rw letter
        (rw (lowered_ct g.proxmox_id) (rw (atoi-decimal g.proxmox_id small) (rw found refl)))

  resolve_vm :
      (g : Guest) (gs : List Guest)
      → g.proxmox_id < 2 ^ 63
      → filter (λ h. bytes_eq h.kind guest_type_vm && has_vmid (pos g.proxmox_id) h) gs ≡ g ∷ []
      → resolve_guest lower (guest_type_vm ++ decimal g.proxmox_id) gs ≡ ok g
  unfolding resolve_guest by_vmid by_prefix only_one has_prefix
  resolve_vm g gs small one =
      let letter = no_number 118 (109 ∷ decimal g.proxmox_id) (omega arith) in
      let found =
        filter-filter (has_vmid (pos g.proxmox_id)) (λ h. bytes_eq h.kind guest_type_vm) gs ∙ one in
      rw letter
        (rw (lowered_vm g.proxmox_id) (rw (atoi-decimal g.proxmox_id small) (rw found refl)))

module _ (lower : Bytes → Bytes) (i : ProxmoxInstance) where
  same_name : names_equal lower i.name i.name ≡ true
  unfolding names_equal
  same_name = bytes_eq_refl _

  looked_up :
      (insts : List ProxmoxInstance) → Elem i insts → instance_lookup lower insts i.name ≡ true
  unfolding instance_lookup
  looked_up [] m = absurd m
  looked_up (j ∷ insts) (inl e) =
      let t =
        subst (λ (x : ProxmoxInstance). names_equal lower x.name i.name ≡ true) (sym e) same_name in
      rw t refl
  looked_up (j ∷ insts) (inr m) = ground (arith, looked_up insts m)

  last_is_own :
      (insts : List ProxmoxInstance)
      → All (λ j. names_equal lower j.name i.name ≡ true → j ≡ i) insts
      → Elem i insts
      → last_named lower i.name insts ≡ some i
  unfolding last_named
  last_is_own [] a m = absurd m
  last_is_own (j ∷ insts) (one, a) m = elim (Option-cases (last_named lower i.name insts)) [
    | inr (k, q) ↦
        let (there, t) = last_named-Elem lower i.name insts k q in
        rw q (ap some (all_elem _ insts k a there t))
    | inl q ↦ elim m [
      | inl e ↦
          let t =
            subst (λ (x : ProxmoxInstance). names_equal lower x.name i.name ≡ true) (sym e)
              same_name in
          rw q (rw t (ap some e))
      | inr n ↦ cc (last_is_own insts a n)
    ]
  ]

module _ (lower : Bytes → Bytes) (plain : (s : Bytes) → All IsPlain s → lower s ≡ s)
    (guests : List Guest) (insts : List ProxmoxInstance) (g : Guest) (i : ProxmoxInstance)
    (h : IsHinted lower guests insts g i) where
  abbrev on_instance : List Guest
  on_instance = filter (λ r. r.instance_id == i.id) guests

  one_on_instance :
      (kind : GuestType)
      → g.kind ≡ kind
      → filter (λ r. bytes_eq r.kind kind && has_vmid (pos g.proxmox_id) r) on_instance ≡ g ∷ []
  unfolding has_vmid
  one_on_instance kind e =
      let hosts = (inst_by_id-Elem insts g.instance_id i h.hosted).1 in
      let p : Guest → Bool =
        λ r. r.instance_id == i.id && (bytes_eq r.kind kind && (r.proxmox_id == g.proxmox_id)) in
      let is_kind = (bytes_eq_iff g.kind kind).1 e in
      let passes : p g ≡ true = ground arith in
      filter-filter _ _ guests
      ∙ filter_one p g guests passes
          (All-weaken _ _ guests (λ r one t. one (ground arith) (ground arith)) h.alone) h.ids
          h.known

  resolved_there : resolve_guest lower (g.kind ++ decimal g.proxmox_id) on_instance ≡ ok g
  resolved_there = elim h.kind [
    | inl e ↦
        subst (λ k. resolve_guest lower (k ++ decimal g.proxmox_id) on_instance ≡ ok g) (sym e)
          (resolve_ct lower plain g on_instance h.small (one_on_instance _ e))
    | inr e ↦
        subst (λ k. resolve_guest lower (k ++ decimal g.proxmox_id) on_instance ≡ ok g) (sym e)
          (resolve_vm lower plain g on_instance h.small (one_on_instance _ e))
  ]

  some_name : bytes_eq i.name [] ≡ false
  some_name = elim (Bool-cases (bytes_eq i.name [])) [
    | inl t ↦ absurd (h.named ((bytes_eq_iff i.name []).0 t))
    | inr f ↦ f
  ]

  some_kind : g.kind ++ decimal g.proxmox_id ≢ []
  some_kind q = elim h.kind [
    | inl e ↦ cc (subst (λ k. k ++ decimal g.proxmox_id ≡ []) e q)
    | inr e ↦ cc (subst (λ k. k ++ decimal g.proxmox_id ≡ []) e q)
  ]

  hint_text : qualified insts g ≡ (g.kind ++ decimal g.proxmox_id) ++ 64 ∷ i.name
  unfolding qualified known_name
  hint_text = rw h.hosted (rw some_name refl)

  resolve_hint :
      resolve_guest_and_instance lower (g.kind ++ decimal g.proxmox_id) i.name guests insts
      ≡ ok (g, i)
  unfolding resolve_guest_and_instance resolve_named resolve_in with_instance
  resolve_hint =
      let there = (inst_by_id-Elem insts g.instance_id i h.hosted).0 in
      rw some_name (
        rw (last_is_own lower i insts h.own_name there, resolve_named)
          (rw (resolved_there, resolve_in) (rw h.hosted refl)))

  -- The text that an ambiguity error shows for a guest, given back as a target, resolves to that guest
  -- and its instance: where the guest is a container or a virtual machine whose VMID no other guest of
  -- the instance has, guests have distinct ids, and the instance has a name of its own without an `@`.
  -- Lower-casing leaves lower-case letters and digits.
  pub hint_resolves :
      let parsed = parse_guest_target (qualified insts g) (some (instance_lookup lower insts)) in
      resolve_guest_and_instance lower parsed.1 parsed.0 guests insts ≡ ok (g, i)
  hint_resolves =
      let there = (inst_by_id-Elem insts g.instance_id i h.hosted).0 in
      let parsed =
        (parse_guest_target_iff (qualified insts g) (instance_lookup lower insts) i.name
            (g.kind ++ decimal g.proxmox_id) h.named).1
          (hint_text, h.no_at, some_kind, looked_up lower i insts there) in
      subst
        (λ (p : Bytes × Bytes). resolve_guest_and_instance lower p.1 p.0 guests insts ≡ ok (g, i))
        (sym parsed) resolve_hint
