-- ===== src/Console/Laws.antt =====
-- Neither the writer nor the reader depends on where the stream is cut, and what each does to it whole.
use mathlib.Core.Path.{subst}
use proxpass.Base.{
  Bytes, Bool, true, false, not, ◌&&◌, Option, none, some, List, [], ◌∷◌, ◌++◌, ◌==◌, ◌≡◌, ◌↔◌, ◌⊎◌,
  refl, sym, ap, ◌∙◌, arith, Bool-cases, Option-cases, inl, inr,
}
use proxpass.Console.{
  translate, ends_in_cr, crlf_write, crlf_writes, EscapeState, fresh_reader, is_escape_key,
  scan_keys, after_scan, read_keys, read_all,
}

abbrev pub concat : List Bytes → Bytes
concat [] = []
concat (p ∷ ps) = p ++ concat ps

translate-append :
    (cr : Bool) (p q : Bytes)
    → translate cr (p ++ q) ≡ translate cr p ++ translate (ends_in_cr cr p) q
unfolding translate ends_in_cr
translate-append cr [] q = refl
translate-append cr (b ∷ p) q = elim (Bool-cases ((b == 10) && not cr)) [
  | inl e ↦ rw e (ap (λ t. 13 ∷ b ∷ t) (translate-append (b == 13) p q))
  | inr e ↦ rw e (ap (λ t. b ∷ t) (translate-append (b == 13) p q))
]

writes_whole : (cr : Bool) (ps : List Bytes) → crlf_writes cr ps ≡ translate cr (concat ps)
unfolding crlf_writes crlf_write translate
writes_whole cr [] = refl
writes_whole cr (p ∷ ps) =
    ap (λ t. translate cr p ++ t) (writes_whole (ends_in_cr cr p) ps)
    ∙ sym (translate-append cr p (concat ps))

-- No line feed comes without a carriage return before it.
abbrev pub IsPaired : Bool → Bytes → Type 0
IsPaired was_cr [] = Unit
IsPaired was_cr (b ∷ bs) = (b ≡ 10 → was_cr ≡ true) × IsPaired (b == 13) bs

translate-IsPaired : (cr : Bool) (p : Bytes) → IsPaired cr (translate cr p)
unfolding translate
translate-IsPaired cr [] = tt
translate-IsPaired cr (b ∷ p) = elim (Bool-cases ((b == 10) && not cr)) [
  | inl e ↦ rw e ((λ q. absurd (omega arith)), ((λ q. refl), translate-IsPaired (b == 13) p))
  | inr e ↦ rw e ((λ q. ground arith), translate-IsPaired (b == 13) p)
]

-- Text that is paired already is left as it is.
paired_same : (cr : Bool) (p : Bytes) → IsPaired cr p → translate cr p ≡ p
unfolding translate
paired_same cr [] h = refl
paired_same cr (b ∷ p) (h, k) =
    let kept : ((b == 10) && not cr) ≡ false = ground arith in
    rw kept (ap (λ t. b ∷ t) (paired_same (b == 13) p k))

-- However a text is cut into writes, the terminal gets the same bytes, in which no line feed comes
-- without a carriage return before it, and a text in which none does is passed on unchanged.
pub crlf_writes_exact :
    (was_cr : Bool) (ps : List Bytes)
    → (crlf_writes was_cr ps ≡ translate was_cr (concat ps))
      × IsPaired was_cr (crlf_writes was_cr ps)
      × (IsPaired was_cr (concat ps) → crlf_writes was_cr ps ≡ concat ps)
crlf_writes_exact cr ps =
    let whole = writes_whole cr ps in
    (
      whole,
      subst (IsPaired cr) (sym whole) (translate-IsPaired cr (concat ps)),
      λ h. whole ∙ paired_same cr (concat ps) h,
    )

abbrev StartsWithKey : Bytes → Type 0
StartsWithKey [] = ⊥
StartsWithKey (c ∷ cs) = (c ≡ 88) ⊎ (c ≡ 120)

-- The keys contain Ctrl+A and, right after it, X or x.
abbrev pub HasEscape : Bytes → Type 0
HasEscape [] = ⊥
HasEscape (c ∷ cs) = ((c ≡ 1) × StartsWithKey cs) ⊎ HasEscape cs

scan_iff :
    (pending : Bool) (s : Bytes)
    → (scan_keys pending s ≡ none) ↔ (((pending ≡ true) × StartsWithKey s) ⊎ HasEscape s)
unfolding scan_keys
scan_iff pending [] = (λ e. cc, λ h. elim h [ inl k ↦ absurd k.1 | inr k ↦ absurd k ])
scan_iff true (c ∷ cs) = ground (arith, scan_iff (c == 1) cs)
scan_iff false (c ∷ cs) = ground (arith, scan_iff (c == 1) cs)

go_on : Bytes → Option Bool → Option Bool
go_on t none = none
go_on t (some p) = scan_keys p t

-- Scanning on from where the last read ended.
scan-append :
    (pending : Bool) (s t : Bytes) → scan_keys pending (s ++ t) ≡ go_on t (scan_keys pending s)
unfolding scan_keys go_on
scan-append pending [] t = refl
scan-append true (c ∷ s) t = elim (Bool-cases (is_escape_key c)) [
  | inl e ↦ rw e refl
  | inr e ↦ rw e (scan-append (c == 1) s t)
]
scan-append false (c ∷ s) t = scan-append (c == 1) s t

stays_done : (e : EscapeState) (ps : List Bytes) → e.done ≡ true → (read_all e ps).done ≡ true
unfolding read_all read_keys
stays_done e [] d = d
stays_done e (p ∷ ps) d = stays_done (read_keys e p).0 ps (rw (d, read_keys) refl)

reads_iff :
    (pending : Bool) (ps : List Bytes)
    → ((read_all (record { pending = pending; done = false }) ps).done ≡ true)
      ↔ (scan_keys pending (concat ps) ≡ none)
unfolding read_all read_keys after_scan scan_keys go_on
reads_iff pending [] = (λ e. cc, λ e. cc)
reads_iff pending (p ∷ ps) = elim (Option-cases (scan_keys pending p)) [
  | inl q ↦
      let whole : scan_keys pending (p ++ concat ps) ≡ none =
        scan-append pending p (concat ps) ∙ ap (go_on (concat ps)) q in
      rw (q, read_all) (λ _. whole, λ _. stays_done _ ps refl)
  | inr (r, q) ↦
      let whole : scan_keys pending (p ++ concat ps) ≡ scan_keys r (concat ps) =
        scan-append pending p (concat ps) ∙ ap (go_on (concat ps)) q in
      let (f, g) = reads_iff r ps in rw (q, read_all) (λ d. whole ∙ f d, λ e. g (sym whole ∙ e))
]

done_iff : (ps : List Bytes) → ((read_all fresh_reader ps).done ≡ true) ↔ HasEscape (concat ps)
done_iff ps =
    let (f, g) = reads_iff false ps in
    let (h, k) = scan_iff false (concat ps) in
    (λ d. elim (h (f d)) [ inl m ↦ cc | inr m ↦ m ], λ m. g (k (inr m)))

-- A read ends the session exactly when it leaves the reader done, and else gives the bytes that came.
read_result :
    (e : EscapeState) (p : Bytes)
    → ((read_keys e p).1 ≡ none ↔ (read_keys e p).0.done ≡ true)
      × ((read_keys e p).0.done ≡ false → (read_keys e p).1 ≡ some p)
unfolding read_keys after_scan
read_result e p = elim (Bool-cases e.done) [
  | inl d ↦ rw (d, read_keys) ((λ _. refl, λ _. refl), λ f. cc)
  | inr d ↦ elim (Option-cases (scan_keys e.pending p)) [
    | inl q ↦ rw (d, q, read_keys, after_scan) ((λ _. refl, λ _. refl), λ f. cc)
    | inr (r, q) ↦ rw (d, q, read_keys, after_scan) ((λ n. cc, λ t. cc), λ _. refl)
  ]
]

read_all-append :
    (e : EscapeState) (ps : List Bytes) (p : Bytes)
    → read_all e (ps ++ p ∷ []) ≡ (read_keys (read_all e ps) p).0
unfolding read_all
read_all-append e [] p = refl
read_all-append e (q ∷ ps) p = read_all-append (read_keys e q).0 ps p

-- A read, after any reads before it, reports the end of the keys, which ends the session, exactly when
-- the keys so far, its own included and however they are cut into reads, contain Ctrl+A with X or x
-- right after it. Otherwise it hands on the bytes that came, unchanged.
pub read_keys_iff :
    (ps : List Bytes) (p : Bytes)
    → let given = (read_keys (read_all fresh_reader ps) p).1 in
      (given ≡ none ↔ HasEscape (concat (ps ++ p ∷ [])))
      × ((¬ HasEscape (concat (ps ++ p ∷ []))) → given ≡ some p)
read_keys_iff ps p =
    let e = read_all fresh_reader ps in
    let (ends, hands) = read_result e p in
    let last = ap (λ (s : EscapeState). s.done) (read_all-append fresh_reader ps p) in
    let (f, g) = done_iff (ps ++ p ∷ []) in
    (
      (λ n. f (last ∙ ends.0 n), λ m. ends.1 (sym last ∙ g m)),
      λ n. elim (Bool-cases (read_keys e p).0.done) [
        | inl d ↦ absurd (n (f (last ∙ d)))
        | inr d ↦ hands d
      ],
    )
