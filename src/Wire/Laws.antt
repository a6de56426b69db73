-- ===== src/Wire/Laws.antt =====
-- Reads and writes of a connection on inputs whose front is known.
use vwarp.Prelude.{
  ℕ, suc, ◌<◌, ◌≡◌, ◌⊎◌, inl, inr, refl, List, [], ◌++◌, length, length-append, arith, ltb, lt→ltb,
  Bool-cases,
}
use vwarp.Text.Bytes.{take-length, drop-length}
use vwarp.Wire.{Conn, ok, err, eof, unexpected_eof, Error, read_full, write}

abbrev pub fed : List ℕ → Conn → Conn
fed bytes c = record c { input = bytes }

pub read_full-append :
    (n : ℕ) (xs rest : List ℕ) (c : Conn)
    → length xs ≡ n
    → read_full n (fed (xs ++ rest) c) ≡ (ok xs, fed rest c)
unfolding read_full
read_full-append n xs rest c e =
    rw (← e) (ground (arith, length-append xs rest, take-length xs rest, drop-length xs rest))

abbrev pub IsEnd : Error → Type 0
IsEnd e = (e ≡ eof) ⊎ (e ≡ unexpected_eof)

pub read_full_short :
    (n : ℕ) (c : Conn)
    → length c.input < n
    → (e : Error) × (read_full n c ≡ (err e, fed [] c)) × IsEnd e
unfolding read_full
read_full_short n c h = elim (Bool-cases (ltb 0 (length c.input))) [
  | inl some_left ↦ (unexpected_eof, rw (lt→ltb _ _ h, some_left), inr refl)
  | inr none_left ↦ (eof, rw (lt→ltb _ _ h, none_left), inl refl)
]

pub write_ok :
    (bytes : List ℕ) (c : Conn) (k : ℕ)
    → c.writes_left ≡ suc k
    → write bytes c ≡ (ok tt, record c { output = c.output ++ bytes; writes_left = k })
unfolding write
write_ok bytes c k e = rw e
