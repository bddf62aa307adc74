-- ===== src/Config/File.antt =====
-- The lines that fgets gives of a printed file to mk_config_create of src/mk_config.c.
use monkey.Prelude.{
  ◌<◌, ◌≤◌, ◌-◌, length-append, ◌||◌, ℕ, ◌≡◌, ◌≢◌, refl, sym, ap, subst, ◌∙◌, false, List, [], ◌∷◌,
  ◌++◌, length, append_assoc, All, arith, ◌==◌,
}
use monkey.Libc.{Bytes, fgets_loop, fgets_lines}
use monkey.Config.{buf_size}
use monkey.Config.Printed.{line_of}

-- The file with the lines.
abbrev pub file_of : List Bytes → Bytes
file_of [] = []
file_of (line ∷ lines) = line ++ file_of lines

-- The line fits the buffer of the reader.
abbrev pub Fits : Bytes → Type 0
Fits line = length line < buf_size

abbrev pub NoFeed : Bytes → Type 0
NoFeed = All (λ c. c ≢ b'\n')

-- One line is read, when what remains of the buffer has room for it.
fgets_loop_line :
    (size room : ℕ) (front text rest : Bytes)
    → NoFeed text
    → length text ≤ room
    → fgets_loop size room front (line_of text ++ rest)
      ≡ (front ++ line_of text) ∷ fgets_loop size size [] rest
unfolding fgets_loop
fgets_loop_line size room front [] rest h k = refl
fgets_loop_line size room front (c ∷ text) rest h k =
    let goes_on : (c == b'\n' || room == 0) ≡ false = ground (arith, h.0, k) in
    let ih = fgets_loop_line size (room - 1) (front ++ (c ∷ [])) text rest h.1 (omega (arith, k)) in
    rw (goes_on, fgets_loop)
      (ih ∙ ap (λ l. l ∷ fgets_loop size size [] rest) (append_assoc front (c ∷ []) (line_of text)))

-- The line is a text and a line feed.
pub record IsLine (line : Bytes) : Type 0 where
  pub text : Bytes
  pub is_text : line ≡ line_of text
  pub no_feed : NoFeed text

fgets_lines-line :
    (line rest : Bytes)
    → IsLine line
    → Fits line
    → fgets_lines buf_size (line ++ rest) ≡ line ∷ fgets_lines buf_size rest
fgets_lines-line line rest h k =
    let longer = length-append h.text (10 ∷ []) in
    let fits : length (line_of h.text) < buf_size = subst Fits h.is_text k in
    let short : length h.text ≤ 253 = omega (arith, longer, fits) in
    subst (λ l. fgets_lines buf_size (l ++ rest) ≡ l ∷ fgets_lines buf_size rest) (sym h.is_text)
      (fgets_loop_line 253 253 [] h.text rest h.no_feed short)

pub fgets_lines-file_of :
    (lines : List Bytes)
    → All IsLine lines
    → All Fits lines
    → fgets_lines buf_size (file_of lines) ≡ lines
unfolding fgets_loop
fgets_lines-file_of [] h k = refl
fgets_lines-file_of (line ∷ lines) h k =
    fgets_lines-line line (file_of lines) h.0 k.0
    ∙ ap (◌∷◌ line) (fgets_lines-file_of lines h.1 k.1)
