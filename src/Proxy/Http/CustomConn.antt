-- ===== src/Proxy/Http/CustomConn.antt =====
-- The connection of proxy/pkg/http/common.go that gives a user handler the printed request before the
-- bytes of the client.
use vwarp.Prelude.{
  ℕ, ◌≡◌, ◌↔◌, refl, ap, ◌∙◌, sym, Bool, true, false, List, [], ◌∷◌, ◌++◌, Option, none, some,
  length, take, drop, arith, suc, length-append, length-take, length-drop,
}
use mathlib.Core.List.{append-nil}

-- `once` is open until the first `Read`; `input` are the bytes that the client sends.
pub record CustomConn : Type 0 where
  pub printed : Option (List ℕ)
  pub started : Bool
  pub initial_data : List ℕ
  pub input : List ℕ

-- What a `Read` leaves in its buffer, the number it returns, and whether it returns the end of the input.
pub record Reading : Type 0 where
  pub buffer : List ℕ
  pub count : ℕ
  pub eof : Bool

-- `copy(p, data)`.
unfoldable pub copy_into : List ℕ → List ℕ → List ℕ
copy_into p bytes = take (length p) bytes ++ drop (length bytes) p

-- `Read` of the connection itself: as many of the bytes as fit.
unfoldable pub inner_read : List ℕ → CustomConn → Reading × CustomConn
inner_read p c = elim c.input [
  | [] ↦ (record { buffer = p; count = 0; eof = true }, c)
  | b ∷ rest ↦ (
    record { buffer = copy_into p c.input; count = length (take (length p) c.input); eof = false },
    record c { input = drop (length p) c.input },
  )
]

-- The function under `once`; an error of `req.Write` leaves no data.
unfoldable pub started_with : Option (List ℕ) → List ℕ
started_with none = []
started_with (some text) = text

unfoldable pub start : CustomConn → CustomConn
start c = elim c.started [
  | true ↦ c
  | false ↦ record c { started = true; initial_data = started_with c.printed }
]

-- `Read` behind `once`.
unfoldable pub give : List ℕ → List ℕ → CustomConn → Reading × CustomConn
give p [] c = inner_read p c
give p (b ∷ bytes) c = (
  record { buffer = copy_into p (b ∷ bytes); count = length p; eof = false },
  record c { initial_data = [] },
)

unfoldable pub custom_conn_read : List ℕ → CustomConn → Reading × CustomConn
custom_conn_read p c = give p (start c).initial_data (start c)

-- The bytes that the caller takes for read.
unfoldable pub data_read : Reading → List ℕ
data_read r = take r.count r.buffer

length-copy_into : (p bytes : List ℕ) → length (copy_into p bytes) ≡ length p
unfolding copy_into
length-copy_into p bytes = omega (
  arith,
  length-append (take (length p) bytes) (drop (length bytes) p),
  length-take (length p) bytes,
  length-drop (length bytes) p,
)

take-all : (xs : List ℕ) → take (length xs) xs ≡ xs
take-all [] = refl
take-all (x ∷ xs) = ap (λ l. x ∷ l) (take-all xs)

drop-all : (xs : List ℕ) → drop (length xs) xs ≡ []
drop-all [] = refl
drop-all (x ∷ xs) = drop-all xs

copy_into-same : (p bytes : List ℕ) → length p ≡ length bytes → copy_into p bytes ≡ bytes
unfolding copy_into
copy_into-same p bytes e = rw (e, take-all bytes) (rw (← e, drop-all p) (append-nil bytes))

take-of : (n : ℕ) (xs : List ℕ) → n ≡ length xs → take n xs ≡ xs
take-of n xs e = rw e (take-all xs)

abbrev pub fresh : List ℕ → List ℕ → CustomConn
fresh text input = record { printed = some text; started = false; initial_data = []; input = input }

-- The first read, whatever the buffer: its bytes are the request cut to the buffer's size, or the
-- request with what was in the buffer before behind it; they are the request only if the buffer has
-- exactly its length. What was cut off is lost: later reads give only the bytes of the client.
pub custom_conn_read-first :
    (p text input : List ℕ) (b : ℕ)
    → (data_read (custom_conn_read p (fresh (b ∷ text) input)).0
        ≡ take (length p) (b ∷ text) ++ drop (suc (length text)) p)
      × ((data_read (custom_conn_read p (fresh (b ∷ text) input)).0 ≡ b ∷ text)
          ↔ (length p ≡ suc (length text)))
      × ((q : List ℕ)
          → (custom_conn_read q (custom_conn_read p (fresh (b ∷ text) input)).1).0
            ≡ (inner_read q (fresh (b ∷ text) input)).0)
unfolding custom_conn_read start started_with give data_read copy_into inner_read
custom_conn_read-first p text input b = (
  taken,
  (
    (λ e. sym (length-copy_into p (b ∷ text)) ∙ ap length (sym taken ∙ e)),
    λ e. taken ∙ copy_into-same p (b ∷ text) e,
  ),
  λ q. later q input,
)
  where
    taken : take (length p) (copy_into p (b ∷ text)) ≡ copy_into p (b ∷ text)
    taken = take-of (length p) (copy_into p (b ∷ text)) (sym (length-copy_into p (b ∷ text)))

    later :
        (q input : List ℕ)
        → (inner_read q (record {
          printed = some (b ∷ text);
          started = true;
          initial_data = [];
          input = input;
        })).0
          ≡ (inner_read q (fresh (b ∷ text) input)).0
    later q [] = refl
    later q (c ∷ input) = refl
