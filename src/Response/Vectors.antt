-- ===== src/Response/Vectors.antt =====
-- The steps of mk_header_send as lists of entries: what each adds to a vector that has room.
use monkey.Prelude.{
  ℕ, ◌+◌, ◌≤◌, ◌≡◌, sym, ap, ◌∙◌, true, false, some, List, [], ◌++◌, append-nil, append_assoc,
  length, length-append, arith, if◌then◌else◌, Bool,
}
use monkey.Libc.{Bytes}
use monkey.Response.{Vector, iov_size, entry_and, add_entry}

-- A step that adds the entries of `part`, which are `k` at most, to a vector with room for them.
pub record Adds (k : ℕ) (part : List Bytes) (step : Vector → Vector) : Type 0 where
  pub short : length part ≤ k
  pub runs :
      (io : List Bytes) → length io + length part ≤ iov_size → step (some io) ≡ some (io ++ part)

pub Adds-skip : (k : ℕ) → Adds k [] (λ io. io)
Adds-skip k = record { short = omega arith; runs = λ io h. ap some (sym (append-nil io)) }

add_entry-runs :
    (buf sep : Bytes) (io : List Bytes)
    → length io + length (entry_and buf sep) ≤ iov_size
    → add_entry buf sep (some io) ≡ some (io ++ entry_and buf sep)
unfolding add_entry
add_entry-runs buf sep io h = ground (arith, length-append io (entry_and buf sep))

pub Adds-entry : (buf sep : Bytes) → Adds 2 (entry_and buf sep) (add_entry buf sep)
Adds-entry buf sep = record { short = ground arith; runs = add_entry-runs buf sep }

-- Without a separator it is one entry.
pub Adds-alone : (buf : Bytes) → Adds 1 (entry_and buf []) (add_entry buf [])
Adds-alone buf = record { short = omega arith; runs = add_entry-runs buf [] }

pub Adds-then :
    {j k : ℕ} {p q : List Bytes} {f g : Vector → Vector}
    → Adds j p f
    → Adds k q g
    → Adds (j + k) (p ++ q) (λ io. g (f io))
Adds-then {j} {k} {p} {q} {f} {g} a b = record {
  short = omega (arith, length-append p q, a.short, b.short);
  runs = λ io h.
      ap g (a.runs io (omega (arith, length-append p q)))
      ∙ b.runs (io ++ p) (omega (arith, length-append p q, length-append io p))
      ∙ ap some (append_assoc io p q);
}

pub Adds-if :
    (b : Bool) {k : ℕ} {p : List Bytes} {f : Vector → Vector}
    → Adds k p f
    → Adds k (if b then p else []) (λ io. if b then f io else io)
Adds-if true a = a
Adds-if false {k} a = Adds-skip k
