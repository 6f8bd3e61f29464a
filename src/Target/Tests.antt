-- ===== src/Target/Tests.antt =====
-- Witnesses and runs of the resolution of targets: two instances, each with a guest 100. The fold here
-- changes `R` to `r`.
use proxpass.Base.{
  Bytes, codes, bytes_eq, has_prefix, false, none, some, List, [], ◌∷◌, ok, err, All, Elem-iff, ap,
  ◌≡◌, ◌==◌, refl, inl, inr, arith, negsuc,
}
use proxpass.Models.{ProxmoxInstance, Guest, fold_name, names_equal}
use proxpass.Ids.{digits_value}
use proxpass.Db.Tests.{guest_row}
use proxpass.Db.Named.Tests.{small_r}
use proxpass.Session.Tests.{node3}
use proxpass.Target.{
  last_at, cut_target, parse_guest_target, instance_lookup, plus_of, minus_of, digits_of, atoi,
  has_vmid, ambiguous, unknown_instance, only_one, by_vmid, by_prefix, resolve_guest, last_named,
  inst_by_id, with_instance, resolve_in, resolve_named, resolve_guest_and_instance, decimal_steps,
  decimal, known_name, qualified,
}
use proxpass.Target.Resolve.{Resolved, resolve-Resolved}
use proxpass.Target.Hints.{IsPlain, IsHinted, hint_resolves}

unfoldable target_code : Unit {0}
unfolding has_prefix bytes_eq fold_name names_equal digits_value last_at cut_target
    parse_guest_target instance_lookup plus_of minus_of digits_of atoi has_vmid only_one by_vmid
    by_prefix resolve_guest last_named inst_by_id with_instance resolve_in resolve_named
    resolve_guest_and_instance decimal_steps decimal known_name qualified
target_code = tt

abbrev node4 : ProxmoxInstance
node4 = record node3 { id = 4; name = codes "oslo" }

abbrev nodes : List ProxmoxInstance
nodes = node3 ∷ node4 ∷ []

abbrev web : Guest
web = guest_row 10 100 3

abbrev web4 : Guest
web4 = guest_row 12 100 4

abbrev guests : List Guest
guests = web ∷ web4 ∷ []

negative : atoi (codes "-7") ≡ some (negsuc 6)
unfolding target_code
negative = refl

word : atoi (codes "7a") ≡ none
unfolding target_code
word = refl

both : resolve_guest_and_instance small_r (codes "100") [] guests nodes ≡ err (ambiguous guests)
unfolding target_code
both = refl

nowhere :
    resolve_guest_and_instance small_r (codes "100") (codes "bonn") guests nodes
    ≡ err unknown_instance
unfolding target_code
nowhere = refl

hint : qualified nodes web4 ≡ codes "ct100@oslo"
unfolding target_code
hint = refl

named :
    resolve_guest_and_instance small_r (codes "web") (codes "Rome") guests nodes ≡ ok (web, node3)
unfolding target_code
named = refl

resolve-Resolved_example : Resolved small_r (codes "web") (codes "Rome") guests nodes web node3
resolve-Resolved_example =
    resolve-Resolved small_r (codes "web") (codes "Rome") guests nodes web node3
      ((λ m. elim m [ inl e ↦ ground arith | inr z ↦ z ]), ((λ m. m), tt)) named

cut :
    parse_guest_target (codes "a@b@oslo") (some (instance_lookup small_r nodes))
    ≡ (codes "oslo", codes "a@b")
unfolding target_code
cut = refl

uncut : parse_guest_target (codes "a@b") (some (instance_lookup small_r nodes)) ≡ ([], codes "a@b")
unfolding target_code
uncut = refl

small_r_plain : (s : Bytes) → All IsPlain s → small_r s ≡ s
small_r_plain [] a = refl
small_r_plain (c ∷ s) (p, a) =
    let no_r : (c == 82) ≡ false = ground arith in rw no_r (ap (λ t. c ∷ t) (small_r_plain s a))

web-IsHinted : IsHinted small_r guests nodes web node3
unfolding target_code
web-IsHinted = record {
  kind = inl refl;
  small = omega arith;
  known = inl refl;
  ids = ((λ m. elim m [ inl e ↦ ground arith | inr z ↦ z ]), ((λ m. m), tt));
  alone = ((λ a b. refl), ((λ a b. ground arith), tt));
  hosted = refl;
  named = λ e. cc;
  no_at = λ m. cc ((Elem-iff (codes "rome") 64).1 m);
  own_name = ((λ e. refl), ((λ e. cc), tt));
}

hint_resolves_example :
    let parsed = parse_guest_target (qualified nodes web) (some (instance_lookup small_r nodes)) in
    resolve_guest_and_instance small_r parsed.1 parsed.0 guests nodes ≡ ok (web, node3)
hint_resolves_example = hint_resolves small_r small_r_plain guests nodes web node3 web-IsHinted
