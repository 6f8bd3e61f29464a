-- ===== src/Target.antt =====
-- internal/cli/resolve.go: which guest a user means. `lower` is strings.ToLower.
pub mod Decimal
pub mod Parse
pub mod Resolve
pub mod Single
pub mod Hints
pub mod Tests
use proxpass.Base.{
  ℕ, zero, suc, ◌+◌, ◌-◌, ◌*◌, ◌/◌, ◌%◌, ◌^◌, Bytes, bytes_eq, codes, has_prefix, Bool, true, false,
  not, ◌&&◌, ◌||◌, Option, none, some, List, [], ◌∷◌, ◌++◌, map, Result, ok, err, ◌>>=◌, ltb, leb,
  ◌==◌, if◌then◌else◌, any, find, filter, length, drop, ℤ, pos, negsuc,
}
use proxpass.Models.{ProxmoxInstance, Guest, GuestType, guest_type_ct, guest_type_vm, names_equal}
use proxpass.Ids.{digits_value}

-- Everything before and after the last `@`.
unfoldable pub last_at : Bytes → Option (Bytes × Bytes)
last_at [] = none
last_at (c ∷ cs) = elim (last_at cs) [
  | some (before, after) ↦ some (c ∷ before, after)
  | none ↦ if c == 64 then some ([], cs) else none
]

-- The instance's name, empty for none, and the identifier.
unfoldable pub cut_target : Bytes → (Bytes → Bool) → Option (Bytes × Bytes) → Bytes × Bytes
cut_target s known none = ([], s)
cut_target s known (some (before, after)) =
    if bytes_eq before [] || bytes_eq after []
    then ([], s)
    else if known after
    then (after, before)
    else ([], s)

-- A nil `known` means that there is nothing to look up.
unfoldable pub parse_guest_target : Bytes → Option (Bytes → Bool) → Bytes × Bytes
parse_guest_target s none = ([], s)
parse_guest_target s (some known) = cut_target s known (last_at s)

unfoldable pub instance_lookup : (Bytes → Bytes) → List ProxmoxInstance → Bytes → Bool
instance_lookup lower insts name = any (λ i. names_equal lower i.name name) insts

-- strconv.Atoi, of 64 bits: a sign, digits, and the range.
unfoldable pub plus_of : Option ℕ → Option ℤ
plus_of none = none
plus_of (some n) = if ltb n (2 ^ 63) then some (pos n) else none

unfoldable pub minus_of : Option ℕ → Option ℤ
minus_of none = none
minus_of (some n) =
    if ltb (2 ^ 63) n then none else if n == 0 then some (pos 0) else some (negsuc (n - 1))

unfoldable pub digits_of : Bytes → Option ℕ
digits_of [] = none
digits_of (c ∷ cs) = digits_value 0 (c ∷ cs)

unfoldable pub atoi : Bytes → Option ℤ
atoi [] = none
atoi (c ∷ cs) =
    if c == 45
    then minus_of (digits_of cs)
    else if c == 43
    then plus_of (digits_of cs)
    else plus_of (digits_of (c ∷ cs))

-- `g.ProxmoxID == vmid`
unfoldable pub has_vmid : ℤ → Guest → Bool
has_vmid (pos n) g = g.proxmox_id == n
has_vmid (negsuc n) g = false

-- ErrGuestNotFound, the error that lists the matches, and the two on instances.
pub data ResolveError : Type 0 where
  guest_not_found unknown_instance missing_instance : ResolveError
  ambiguous : List Guest → ResolveError

-- The one match; several are an error, and none leaves it to what follows.
unfoldable pub only_one : List Guest → Result ResolveError Guest → Result ResolveError Guest
only_one [] rest = rest
only_one (g ∷ []) rest = ok g
only_one (g ∷ h ∷ gs) rest = err (ambiguous (g ∷ h ∷ gs))

-- The guests with the VMID that the text is, if it is one.
unfoldable pub by_vmid : Option ℤ → List Guest → List Guest
by_vmid none guests = []
by_vmid (some v) guests = filter (has_vmid v) guests

-- One turn of the loop over the prefixes.
unfoldable pub by_prefix : GuestType → Bytes → List Guest → List Guest
by_prefix kind lowered guests =
    if has_prefix lowered kind
    then by_vmid (atoi (drop (length kind) lowered)) (filter (λ g. bytes_eq g.kind kind) guests)
    else []

unfoldable pub resolve_guest : (Bytes → Bytes) → Bytes → List Guest → Result ResolveError Guest
resolve_guest lower identifier guests = only_one (by_vmid (atoi identifier) guests) (
    only_one (by_prefix guest_type_ct (lower identifier) guests) (
      only_one (by_prefix guest_type_vm (lower identifier) guests) (
        only_one (filter (λ g. names_equal lower g.name identifier) guests) (err guest_not_found))))

-- The last instance with the name: a later one overwrites what the loop found.
unfoldable pub last_named : (Bytes → Bytes) → Bytes → List ProxmoxInstance → Option ProxmoxInstance
last_named lower name [] = none
last_named lower name (i ∷ insts) =
    let later = last_named lower name insts in
    elim later [ some j ↦ some j | none ↦ if names_equal lower i.name name then some i else none ]

-- `instByID[id]`
unfoldable pub inst_by_id : List ProxmoxInstance → ℕ → Option ProxmoxInstance
inst_by_id [] id = none
inst_by_id (i ∷ insts) id =
    let later = inst_by_id insts id in
    elim later [ some j ↦ some j | none ↦ if i.id == id then some i else none ]

unfoldable pub with_instance :
    Option ProxmoxInstance → Guest → Result ResolveError (Guest × ProxmoxInstance)
with_instance none g = err missing_instance
with_instance (some i) g = ok (g, i)

module _ (lower : Bytes → Bytes) (identifier : Bytes) where
  unfoldable pub resolve_in :
      List Guest → List ProxmoxInstance → Result ResolveError (Guest × ProxmoxInstance)
  resolve_in pool insts = do
    g ← resolve_guest lower identifier pool
    with_instance (inst_by_id insts g.instance_id) g

  unfoldable pub resolve_named :
      Option ProxmoxInstance
      → List Guest
      → List ProxmoxInstance
      → Result ResolveError (Guest × ProxmoxInstance)
  resolve_named none guests insts = err unknown_instance
  resolve_named (some i) guests insts =
      resolve_in (filter (λ g. g.instance_id == i.id) guests) insts

  unfoldable pub resolve_guest_and_instance :
      Bytes → List Guest → List ProxmoxInstance → Result ResolveError (Guest × ProxmoxInstance)
  resolve_guest_and_instance inst_name guests insts =
      if bytes_eq inst_name []
      then resolve_in guests insts
      else resolve_named (last_named lower inst_name insts) guests insts

-- The decimal form of a number, of which a digit is made in each step; `n + 1` steps are enough.
unfoldable pub decimal_steps : ℕ → ℕ → Bytes → Bytes
decimal_steps zero n out = out
decimal_steps (suc f) n out =
    let digits = (48 + n % 10) ∷ out in
    let rest = decimal_steps f (n / 10) digits in if n / 10 == 0 then digits else rest

-- `%d` of a number that is not negative.
unfoldable pub decimal : ℕ → Bytes
decimal n = decimal_steps (suc n) n []

unfoldable pub known_name : Option ProxmoxInstance → Bytes
known_name none = []
known_name (some i) = i.name

-- The hint of an ambiguity error for one match.
unfoldable pub qualified : List ProxmoxInstance → Guest → Bytes
qualified insts g =
    let id = g.kind ++ decimal g.proxmox_id in
    let name = known_name (inst_by_id insts g.instance_id) in
    if bytes_eq name [] then id else id ++ 64 ∷ name
