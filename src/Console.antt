-- ===== src/Console.antt =====
-- internal/console/crlf.go and escape.go: the writer that adds carriage returns to proxpass's own output,
-- and the reader that watches a client's keys for Ctrl+A X. What the wrapped reader or writer does is
-- an argument: the bytes that a read gave, or whether a write failed.
pub mod Laws
pub mod Tests
use proxpass.Base.{
  ℕ, Bytes, Bool, true, false, not, ◌&&◌, ◌||◌, Option, none, some, List, [], ◌∷◌, ◌++◌, ◌==◌,
  if◌then◌else◌, length,
}

-- The loop of Write, from whether the byte before was a carriage return.
unfoldable pub translate : Bool → Bytes → Bytes
translate was_cr [] = []
translate was_cr (b ∷ bs) =
    let rest = translate (b == 13) bs in if (b == 10) && not was_cr then 13 ∷ b ∷ rest else b ∷ rest

-- `lastWasCR` after the loop.
unfoldable pub ends_in_cr : Bool → Bytes → Bool
ends_in_cr was_cr [] = was_cr
ends_in_cr was_cr (b ∷ bs) = ends_in_cr (b == 13) bs

-- One Write: the bytes handed on, what it returns (`none` is an error), and the new lastWasCR.
unfoldable pub crlf_write : Bool → Bool → Bytes → Bytes × Option ℕ × Bool
crlf_write fails was_cr p =
    (translate was_cr p, if fails then none else some (length p), ends_in_cr was_cr p)

-- Writes that do not fail, one after the other.
unfoldable pub crlf_writes : Bool → List Bytes → Bytes
crlf_writes was_cr [] = []
crlf_writes was_cr (p ∷ ps) =
    let (out, done, cr) = crlf_write false was_cr p in out ++ crlf_writes cr ps

pub record EscapeState : Type 0 where
  pub pending : Bool
  pub done : Bool

abbrev pub fresh_reader : EscapeState
fresh_reader = record { pending = false; done = false }

abbrev pub is_escape_key : ℕ → Bool
is_escape_key c = (c == 88) || (c == 120)

-- The loop of Read: `none` where it meets the key, and else the new `pending`.
unfoldable pub scan_keys : Bool → Bytes → Option Bool
scan_keys pending [] = some pending
scan_keys true (c ∷ cs) = let rest = scan_keys (c == 1) cs in if is_escape_key c then none else rest
scan_keys false (c ∷ cs) = scan_keys (c == 1) cs

-- What Read returns: the bytes, or io.EOF.
unfoldable pub after_scan : EscapeState → Bytes → Option Bool → EscapeState × Option Bytes
after_scan e p none = (record e { done = true }, none)
after_scan e p (some pending) = (record e { pending = pending }, some p)

unfoldable pub read_keys : EscapeState → Bytes → EscapeState × Option Bytes
read_keys e p = if e.done then (e, none) else after_scan e p (scan_keys e.pending p)

unfoldable pub read_all : EscapeState → List Bytes → EscapeState
read_all e [] = e
read_all e (p ∷ ps) = read_all (read_keys e p).0 ps
