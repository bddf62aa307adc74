-- ===== src/Http/Methods.antt =====
-- Methods and protocol versions: mk_http_method_check, mk_http_method_check_str, mk_http_method_get,
-- mk_http_protocol_check and mk_http_protocol_check_str of src/mk_http.c.
use monkey.Prelude.{
  ℕ, zero, suc, ◌-◌, ◌^◌, ◌<◌, ◌≤◌, ◌≡◌, ◌≢◌, refl, inl, inr, true, ◌||◌, some, [], ◌∷◌, ◌++◌,
  length, take, arith, if◌then◌else◌, ℤ, pos, negsuc, eq_ℤ, leb_ℤ, pos_part, Option-cases,
}
use monkey.Libc.{Bytes, codes, cstr, memchr, strncmp_eq, equal_by}
use monkey.Text.{char_search}
use monkey.Text.Search.{char_search_pos}
use monkey.Types.{
  Pointer, Method, unknown, get, post, head, put, delete, null, literal, protocol_unknown,
  protocol_09, protocol_10, protocol_11,
}

-- mk_http_method_check on `len` bytes
unfoldable pub method_check : Bytes → ℕ → Method
method_check text len =
    if strncmp_eq text (codes "GET") len
    then get
    else if strncmp_eq text (codes "POST") len
    then post
    else if strncmp_eq text (codes "HEAD") len
    then head
    else if strncmp_eq text (codes "PUT") len
    then put
    else if strncmp_eq text (codes "DELETE") len
    then delete
    else unknown

unfoldable pub method_check_str : Method → Pointer
method_check_str get = literal (codes "GET") 3
method_check_str post = literal (codes "POST") 4
method_check_str head = literal (codes "HEAD") 4
method_check_str put = literal (codes "PUT") 3
method_check_str delete = literal (codes "DELETE") 6
method_check_str unknown = null

abbrev pub max_len_method : ℕ
max_len_method = 7

unfoldable pub method_get : Bytes → Method
method_get body =
    let p = char_search body b' ' (pos 7) in
    if leb_ℤ p (pos 2) || leb_ℤ (pos max_len_method) p
    then unknown
    else method_check body (pos_part p)

-- An int that is passed as a size_t.
abbrev pub to_size : ℤ → ℕ
to_size (pos n) = n
to_size (negsuc n) = 2 ^ 64 - n - 1

unfoldable pub protocol_check : Bytes → ℤ → ℤ
protocol_check protocol len =
    if strncmp_eq protocol (codes "HTTP/1.1") (to_size len)
    then protocol_11
    else if strncmp_eq protocol (codes "HTTP/1.0") (to_size len)
    then protocol_10
    else if strncmp_eq protocol (codes "HTTP/0.9") (to_size len)
    then protocol_09
    else protocol_unknown

unfoldable pub protocol_check_str : ℤ → Pointer
protocol_check_str protocol =
    if eq_ℤ protocol protocol_11
    then literal (codes "HTTP/1.1") 8
    else if eq_ℤ protocol protocol_10
    then literal (codes "HTTP/1.0") 8
    else if eq_ℤ protocol protocol_09
    then literal (codes "HTTP/0.9") 8
    else null

-- The text of a method, empty for the unknown one.
abbrev pub name_of : Method → Bytes
name_of get = codes "GET"
name_of post = codes "POST"
name_of head = codes "HEAD"
name_of put = codes "PUT"
name_of delete = codes "DELETE"
name_of unknown = []

-- A request line that begins with a method's name and a space is read as that method, and its name
-- is what mk_http_method_check_str returns.
pub method_get-name_of :
    (m : Method) (rest : Bytes)
    → m ≢ unknown
    → (method_get (name_of m ++ (b' ' ∷ rest)) ≡ m)
      × (method_check_str m ≡ literal (name_of m) (length (name_of m)))
unfolding method_get method_check method_check_str char_search memchr equal_by
method_get-name_of unknown rest h = absurd (h refl)
method_get-name_of get rest h = (refl, refl)
method_get-name_of post rest h = (refl, refl)
method_get-name_of head rest h = (refl, refl)
method_get-name_of put rest h = (refl, refl)
method_get-name_of delete rest h = (refl, refl)

strncmp_eq-take :
    (a b : Bytes) (n : ℕ) → strncmp_eq a b n ≡ true → cstr (take n a) ≡ cstr (take n b)
unfolding equal_by cstr
strncmp_eq-take a b zero e = refl
strncmp_eq-take [] [] (suc n) e = refl
strncmp_eq-take [] (y ∷ b) (suc n) e = ground arith
strncmp_eq-take (x ∷ a) [] (suc n) e = ground arith
strncmp_eq-take (x ∷ a) (y ∷ b) (suc n) e = ground (arith, strncmp_eq-take a b n)

-- `text` and the method's name agree on `n` bytes, as C strings.
abbrev pub Abbreviates : Bytes → ℕ → Method → Type 0
Abbreviates text n m = cstr (take n text) ≡ cstr (take n (name_of m))

method_check-Abbreviates :
    (text : Bytes) (n : ℕ) (m : Method)
    → method_check text n ≡ m
    → m ≢ unknown
    → Abbreviates text n m
unfolding method_check
method_check-Abbreviates text n get e h = strncmp_eq-take text (codes "GET") n (ground arith)
method_check-Abbreviates text n post e h = strncmp_eq-take text (codes "POST") n (ground arith)
method_check-Abbreviates text n head e h = strncmp_eq-take text (codes "HEAD") n (ground arith)
method_check-Abbreviates text n put e h = strncmp_eq-take text (codes "PUT") n (ground arith)
method_check-Abbreviates text n delete e h = strncmp_eq-take text (codes "DELETE") n (ground arith)
method_check-Abbreviates text n unknown e h = absurd (h refl)

-- A method that is read from a request is known by the bytes before the first space: there are three
-- to six of them, and they agree with the start of the method's name.
pub method_get-Abbreviates :
    (body : Bytes) (m : Method)
    → method_get body ≡ m
    → m ≢ unknown
    → (n : ℕ) × (memchr body b' ' 7 ≡ some n)
      × (2 < n)
      × (n < max_len_method)
      × Abbreviates body n m
unfolding method_get
method_get-Abbreviates body m e h = elim (Option-cases (memchr body b' ' 7)) [
  | inl q ↦ absurd (ground (arith, char_search_pos body b' ' 7))
  | inr (n, q) ↦ (
    n,
    q,
    ground (arith, char_search_pos body b' ' 7),
    ground (arith, char_search_pos body b' ' 7),
    method_check-Abbreviates body n m (ground (arith, char_search_pos body b' ' 7)) h,
  )
]

-- Three bytes are enough: a name that is cut short after its third byte is read as the full one.
pub method_get_cut :
    (rest : Bytes)
    → (method_get (codes "POS " ++ rest) ≡ post)
      × (method_get (codes "HEA " ++ rest) ≡ head)
      × (method_get (codes "DEL " ++ rest) ≡ delete)
unfolding method_get method_check char_search memchr equal_by
method_get_cut rest = (refl, refl, refl)

-- A version's text is read as that version, which has that text again.
pub protocol_check_round_trip :
    (rest : Bytes)
    → (protocol_check (codes "HTTP/1.1" ++ rest) (pos 8) ≡ protocol_11)
      × (protocol_check (codes "HTTP/1.0" ++ rest) (pos 8) ≡ protocol_10)
      × (protocol_check (codes "HTTP/0.9" ++ rest) (pos 8) ≡ protocol_09)
      × (protocol_check_str protocol_11 ≡ literal (codes "HTTP/1.1") 8)
      × (protocol_check_str protocol_10 ≡ literal (codes "HTTP/1.0") 8)
      × (protocol_check_str protocol_09 ≡ literal (codes "HTTP/0.9") 8)
unfolding protocol_check protocol_check_str equal_by
protocol_check_round_trip rest = (refl, refl, refl, refl, refl, refl)

strncmp_eq_cut :
    (text rest : Bytes) (n : ℕ) → n ≤ length text → strncmp_eq (take n text ++ rest) text n ≡ true
unfolding equal_by
strncmp_eq_cut text rest zero h = refl
strncmp_eq_cut [] rest (suc n) h = absurd (omega arith)
strncmp_eq_cut (x ∷ text) rest (suc n) h = ground (arith, strncmp_eq_cut text rest n)

-- Any start of `HTTP/1.1`, the empty one too, is read as version 1.1, whatever follows it.
pub protocol_check_cut :
    (n : ℕ) (rest : Bytes)
    → n ≤ 8
    → protocol_check (take n (codes "HTTP/1.1") ++ rest) (pos n) ≡ protocol_11
unfolding protocol_check
protocol_check_cut n rest h = rw (strncmp_eq_cut (codes "HTTP/1.1") rest n h)
