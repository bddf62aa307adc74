-- ===== src/Session/Buffer.antt =====
-- The request buffer that mk_handler_read of src/mk_request.c fills, and its memory.
use monkey.Prelude.{
  ℕ, ◌+◌, ◌-◌, ◌<◌, ◌≤◌, ◌≡◌, ◌≢◌, refl, ap, ◌∙◌, ◌⊎◌, inl, inr, Bool, true, false, length,
  length-append, arith, leb, if◌then◌else◌, pos, Bool-cases,
}
use monkey.Libc.{Bytes}
use monkey.Types.{ClientSession, ServerConfig}
use monkey.Session.{
  chunk, new_session, Read, got, again, failed, closed, Handled, kept, removed, premature_close,
  grow, read_result, read_into, handler_read,
}

-- The bytes of memory behind `body`: the array `body_fixed`, or one more than `body_size`.
abbrev pub allocated : ClientSession → ℕ
allocated cs = if cs.body_fixed then chunk else cs.body_size + 1

pub record IsBuffer (config : ServerConfig) (cs : ClientSession) : Type 0 where
  pub within : length cs.body ≤ cs.body_size
  pub fixed : cs.body_fixed ≡ true → cs.body_size ≡ chunk
  pub dynamic :
      cs.body_fixed ≡ false → (chunk < cs.body_size) × (cs.body_size < config.max_request_size)

-- Reading at most `n` bytes gives at least one byte and at most `n`, if it gives any.
abbrev pub IsRead : ℕ → Read → Type 0
IsRead n (got bytes) = (0 < length bytes) × (length bytes ≤ n)
IsRead n _ = Unit

abbrev pub Keeps : (ClientSession → Type 0) → Handled → Type 0
Keeps P (kept r cs) = P cs
Keeps P removed = Unit
Keeps P (premature_close status) = Unit

pub new_session-IsBuffer :
    (config : ServerConfig) (socket time : ℕ) → IsBuffer config (new_session socket time)
new_session-IsBuffer config socket time = record {
  within = omega arith;
  fixed = λ _. refl;
  dynamic = λ e. absurd (ground arith);
}

read_result-IsBuffer :
    (config : ServerConfig) (r : Read) (cs : ClientSession)
    → IsRead (cs.body_size - length cs.body) r
    → IsBuffer config cs
    → Keeps (IsBuffer config) (read_result r cs)
unfolding read_result
read_result-IsBuffer config (got bytes) cs h v = record {
  within = omega (arith, length-append cs.body bytes, h.1, v.within);
  fixed = v.fixed;
  dynamic = v.dynamic;
}
read_result-IsBuffer config again cs h v = v
read_result-IsBuffer config failed cs h v = tt
read_result-IsBuffer config closed cs h v = tt

grow_parts :
    (config : ServerConfig) (reallocated : Bool) (cs : ClientSession) {cs' : ClientSession}
    → grow config reallocated cs ≡ inr cs'
    → (cs'.body ≡ cs.body)
      × (cs'.body_size ≡ cs.body_size + chunk)
      × (cs'.body_fixed ≡ false)
      × (cs'.body_size < config.max_request_size)
unfolding grow
grow_parts config reallocated cs e = ground arith

IsBuffer-chunk :
    (config : ServerConfig) (cs : ClientSession) → IsBuffer config cs → chunk ≤ cs.body_size
IsBuffer-chunk config cs v = elim (Bool-cases cs.body_fixed) [
  | inl e ↦ omega (arith, v.fixed e)
  | inr e ↦ omega (arith, (v.dynamic e).0)
]

grow-IsBuffer :
    (config : ServerConfig) (reallocated : Bool) (cs : ClientSession) {cs' : ClientSession}
    → grow config reallocated cs ≡ inr cs'
    → IsBuffer config cs
    → IsBuffer config cs'
grow-IsBuffer config reallocated cs {cs'} e v =
    let (body, size, fixed, small) = grow_parts config reallocated cs e in
    let big = IsBuffer-chunk config cs v in
    record {
      within = omega (arith, ap length body, size, v.within);
      fixed = λ q. absurd (ground arith);
      dynamic = λ q. (omega (arith, big, size), small);
    }

-- The two ways into the read.
handler_read-cases :
    (config : ServerConfig) (reallocated : Bool) (read : ℕ → Read) (cs : ClientSession)
    → ((status : ℕ) × (handler_read config reallocated read cs ≡ premature_close status))
      ⊎ ((cs' : ClientSession) × ((cs' ≡ cs) ⊎ (grow config reallocated cs ≡ inr cs'))
          × (handler_read config reallocated read cs
              ≡ read_result (read (cs'.body_size - length cs'.body)) cs'))
unfolding handler_read read_into
handler_read-cases config reallocated read cs =
    elim (Bool-cases (leb cs.body_size (length cs.body))) [
      | inr e ↦ inr (cs, inl refl, rw e)
      | inl e ↦ rw e (grown (grow config reallocated cs) refl)
    ]
  where
    grown :
        (g : ℕ ⊎ ClientSession)
        → grow config reallocated cs ≡ g
        → ((status : ℕ) × (elim g [ inl s ↦ premature_close s | inr cs' ↦ read_into read cs' ]
              ≡ premature_close status))
          ⊎ ((cs' : ClientSession) × ((cs' ≡ cs) ⊎ (grow config reallocated cs ≡ inr cs'))
              × (elim g [ inl s ↦ premature_close s | inr cs' ↦ read_into read cs' ]
                  ≡ read_result (read (cs'.body_size - length cs'.body)) cs'))
    grown (inl s) q = inl (s, refl)
    grown (inr cs') q = inr (cs', inr q, refl)

-- A session that mk_session_create sets up has a well-formed buffer. If a read gives at least one byte
-- and at most those asked for, mk_handler_read keeps it so in every session that it keeps: the bytes
-- read so far fit the size, which is a chunk for the array in the session, and more than a chunk but
-- below the configured maximum for allocated memory.
pub handler_read-IsBuffer :
    (config : ServerConfig) (reallocated : Bool) (read : ℕ → Read) (cs : ClientSession)
    → ((n : ℕ) → IsRead n (read n))
    → IsBuffer config cs
    → Keeps (IsBuffer config) (handler_read config reallocated read cs)
      × ((socket time : ℕ) → IsBuffer config (new_session socket time))
handler_read-IsBuffer config reallocated read cs h v = (
  elim (handler_read-cases config reallocated read cs) [
    | inl (status, e) ↦ rw e tt
    | inr (cs', inl same, e) ↦ rw e (read_result-IsBuffer config _ cs' (h _) (rw same v))
    | inr (cs', inr grown, e) ↦
        rw e (read_result-IsBuffer config _ cs' (h _) (grow-IsBuffer config reallocated cs grown v))
  ],
  new_session-IsBuffer config,
)

-- The NUL behind the bytes read goes to index `length body`. In a well-formed buffer of allocated
-- memory that index lies inside. In the fixed array it does so too, unless the array is full: then it
-- is the first place behind the array.
pub nul_index :
    (config : ServerConfig) (cs : ClientSession)
    → IsBuffer config cs
    → (cs.body_fixed ≡ false → length cs.body < allocated cs)
      × (cs.body_fixed ≡ true → length cs.body ≢ cs.body_size → length cs.body < allocated cs)
      × (cs.body_fixed ≡ true → length cs.body ≡ cs.body_size → length cs.body ≡ allocated cs)
nul_index config cs v = (
  λ e. rw e (omega (arith, v.within)),
  λ e ne. rw e (omega (arith, v.within, v.fixed e)),
  λ e full. rw e (full ∙ v.fixed e),
)

-- A first read that gives a whole chunk fills the fixed array of a new session, and the NUL goes to the
-- first place behind it.
pub handler_read_whole_chunk :
    (config : ServerConfig) (reallocated : Bool) (read : ℕ → Read) (socket time : ℕ) (bytes : Bytes)
    → read chunk ≡ got bytes
    → length bytes ≡ chunk
    → (cs : ClientSession) × (handler_read config reallocated read (new_session socket time)
        ≡ kept (pos chunk) cs)
      × (length cs.body ≡ allocated cs)
unfolding handler_read read_into read_result
handler_read_whole_chunk config reallocated read socket time bytes e full = (
  record (new_session socket time) { body = bytes },
  rw (e, read_result)
      (ap (λ n. kept (pos n) (record (new_session socket time) { body = bytes })) full),
  full,
)
