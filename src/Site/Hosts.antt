-- ===== src/Site/Hosts.antt =====
-- mk_config_host_find of src/mk_config.c: the virtual host for the Host header of a request.
use monkey.Prelude.{
  ℕ, ◌≡◌, refl, ap, ◌⊎◌, inl, inr, ◌&&◌, true, none, some, List, [], ◌∷◌, ◌++◌, All, arith, ◌==◌,
  Bool-cases, pos, minus_one,
}
use monkey.Libc.{Bytes, strncmp_eq}
use monkey.Types.{Pointer}
use monkey.Site.{HostAlias, Host, Site, alias_find, host_loop, host_find}

-- The alias is the name of `len` bytes.
abbrev pub IsAlias : Bytes → ℕ → HostAlias → Type 0
IsAlias name len a = (a.len == len && strncmp_eq a.name name len) ≡ true

-- No alias of the host is the name.
abbrev pub IsOther : Bytes → ℕ → Host → Type 0
IsOther name len h = All (λ a. ¬ IsAlias name len a) h.server_names

-- The first entry that satisfies P, with what stands before it.
pub record First {A : Type 0} (P Q : A → Type 0) (l : List A) (a : A) : Type 0 where
  pub before : List A
  pub after : List A
  pub split : l ≡ before ++ (a ∷ after)
  pub holds : P a
  pub others : All Q before

First-here : {A : Type 0} (P Q : A → Type 0) (a : A) (l : List A) → P a → First P Q (a ∷ l) a
First-here P Q a l p = record { before = []; after = l; split = refl; holds = p; others = tt }

First-later :
    {A : Type 0} (P Q : A → Type 0) (b : A) (l : List A) (a : A)
    → Q b
    → First P Q l a
    → First P Q (b ∷ l) a
First-later P Q b l a q f = record {
  before = b ∷ f.before;
  after = f.after;
  split = ap (◌∷◌ b) f.split;
  holds = f.holds;
  others = (q, f.others);
}

-- The host has the name: its first such alias.
abbrev pub HasAlias : Bytes → ℕ → Host → Type 0
HasAlias name len h =
    (a : HostAlias) × First (IsAlias name len) (λ b. ¬ IsAlias name len b) h.server_names a

alias_find-cases :
    (name : Bytes) (len : ℕ) (l : List HostAlias)
    → ((alias_find name len l ≡ none) × All (λ b. ¬ IsAlias name len b) l)
      ⊎ ((a : HostAlias) × (alias_find name len l ≡ some a)
          × First (IsAlias name len) (λ b. ¬ IsAlias name len b) l a)
unfolding alias_find
alias_find-cases name len [] = inl (refl, tt)
alias_find-cases name len (b ∷ l) = elim (Bool-cases (b.len == len && strncmp_eq b.name name len)) [
  | inl e ↦ inr (b, ground arith, First-here (IsAlias name len) (λ c. ¬ IsAlias name len c) b l e)
  | inr e ↦ elim (alias_find-cases name len l) [
    | inl h ↦ inl (ground arith, (λ p. ground arith, h.1))
    | inr (a, f, g) ↦ inr (
      a,
      ground arith,
      First-later (IsAlias name len) (λ c. ¬ IsAlias name len c) b l a (λ p. ground arith) g,
    )
  ]
]

host_loop-cases :
    (name : Bytes) (len : ℕ) (l : List Host)
    → ((host_loop name len l ≡ none) × All (IsOther name len) l)
      ⊎ ((h : Host) × (a : HostAlias) × (host_loop name len l ≡ some (h, a))
          × First (HasAlias name len) (IsOther name len) l h)
unfolding host_loop
host_loop-cases name len [] = inl (refl, tt)
host_loop-cases name len (h ∷ l) = elim (alias_find-cases name len h.server_names) [
  | inr (a, e, f) ↦
      inr (h, a, ground arith, First-here (HasAlias name len) (IsOther name len) h l (a, f))
  | inl (e, n) ↦ elim (host_loop-cases name len l) [
    | inl (q, m) ↦ inl (ground arith, (n, m))
    | inr (g, a, q, f) ↦
        inr (g, a, ground arith, First-later (HasAlias name len) (IsOther name len) h l g n f)
  ]
]

-- mk_config_host_find chooses the first virtual host, the default one included, that has an alias of
-- the same length and the same bytes as the Host header, and returns 0. When no host has one it returns
-- -1 and leaves the request's host as it was.
pub host_find-First :
    (site : Site) (host : Pointer) (name : Bytes) (before : Host)
    → host.data_at ≡ some name
    → (All (IsOther name host.len) (site.default_host ∷ site.other_hosts)
        × (host_find site host before ≡ (minus_one, before)))
      ⊎ ((h : Host) × First
            (HasAlias name host.len)
            (IsOther name host.len)
            (site.default_host ∷ site.other_hosts)
            h
          × (host_find site host before ≡ (pos 0, h)))
unfolding host_find
host_find-First site host name before e =
    elim (host_loop-cases name host.len (site.default_host ∷ site.other_hosts)) [
      | inl (q, m) ↦ inl (m, ground arith)
      | inr (h, a, q, f) ↦ inr (h, f, ground arith)
    ]
