-- ===== src/Sched/Balance.antt =====
-- The choice of a worker by _next_target of src/mk_scheduler.c.
use monkey.Prelude.{
  ℕ, zero, suc, ◌+◌, ◌<◌, ◌≤◌, ◌≡◌, refl, ◌⊎◌, inl, inr, true, false, some, List, [], ◌∷◌, length,
  get_or, get_elem?, drop, drop_cons, drop_nil, leb→le, arith, ltb, leb, ◌==◌, ℤ, pos, negsuc,
  Bool-cases,
}
use monkey.Sched.{target_loop, next_target}

-- `t` is a worker whose load `cur` is least.
pub record IsLeast (loads : List ℕ) (t cur : ℕ) : Type 0 where
  pub holds : get_elem? loads t ≡ some cur
  pub least : (j : ℕ) → j < length loads → cur ≤ get_or loads j 0

module _ (i target cur tmp : ℕ) (loads : List ℕ) where
  target_loop_keep :
      ltb tmp cur ≡ false
      → target_loop i target cur (tmp ∷ loads) ≡ target_loop (i + 1) target cur loads
  unfolding target_loop
  target_loop_keep e = ground arith

  target_loop_stop :
      ltb tmp cur ≡ true → (tmp == 0) ≡ true → target_loop i target cur (tmp ∷ loads) ≡ (i, tmp)
  unfolding target_loop
  target_loop_stop e z = ground arith

  target_loop_move :
      ltb tmp cur ≡ true
      → (tmp == 0) ≡ false
      → target_loop i target cur (tmp ∷ loads) ≡ target_loop (i + 1) i tmp loads
  unfolding target_loop
  target_loop_move e z = ground arith

module _ (all : List ℕ) where
  -- `cur` is the least of the first `i` loads.
  abbrev LeastBelow : ℕ → ℕ → Type 0
  LeastBelow i cur = (j : ℕ) → j < i → cur ≤ get_or all j 0

  LeastBelow-suc :
      (i cur new : ℕ) → LeastBelow i cur → new ≤ cur → new ≤ get_or all i 0 → LeastBelow (i + 1) new
  LeastBelow-suc i cur new h le at j lt = elim below [
    | inl e ↦ rw e at
    | inr b ↦ omega (arith, h j b)
  ]
    where
      below : (j ≡ i) ⊎ (j < i)
      below = ground arith

  target_loop-IsLeast :
      (loads : List ℕ) (i target cur : ℕ)
      → drop i all ≡ loads
      → get_elem? all target ≡ some cur
      → LeastBelow i cur
      → let found = target_loop i target cur loads in IsLeast all found.0 found.1
  target_loop-IsLeast [] i target cur d h least =
      unfold target_loop in
      record { holds = h; least = λ j lt. least j (omega (arith, drop_nil i all d)) }
  target_loop-IsLeast (tmp ∷ loads) i target cur d h least =
      let (at, value, rest, _) = drop_cons i all 0 d in
      let rest' : drop (i + 1) all ≡ loads = let e : i + 1 ≡ suc i = omega arith in rw e rest in
      elim (Bool-cases (ltb tmp cur)) [
        | inr e ↦ rw (target_loop_keep i target cur tmp loads e) (
            target_loop-IsLeast loads (i + 1) target cur rest' h
              (LeastBelow-suc i cur cur least (omega arith) (ground arith)))
        | inl e ↦ elim (Bool-cases (tmp == 0)) [
          | inl z ↦
              rw (target_loop_stop i target cur tmp loads e z)
                (record { holds = at; least = λ j lt. ground arith })
          | inr z ↦ rw (target_loop_move i target cur tmp loads e z) (
              target_loop-IsLeast loads (i + 1) i tmp rest' at
                (LeastBelow-suc i cur tmp least (ground arith) (ground arith)))
        ]
      ]

-- What _next_target promises: a worker of least load, idle or below the capacity, or that none is
-- below the capacity.
abbrev pub IsTarget : ℕ → List ℕ → ℤ → Type 0
IsTarget worker_capacity loads (pos t) =
    (cur : ℕ) × IsLeast loads t cur × ((cur ≡ 0) ⊎ (cur < worker_capacity))
IsTarget worker_capacity loads (negsuc _) =
    (j : ℕ) → j < length loads → worker_capacity ≤ get_or loads j 0

-- On the loads of one worker or more, _next_target returns a worker whose load is least of all, and
-- which is idle or below the capacity. It returns -1 only if every worker is at its capacity or above.
pub next_target-IsTarget :
    (worker_capacity first : ℕ) (loads : List ℕ)
    → IsTarget worker_capacity (first ∷ loads) (next_target worker_capacity first loads)
unfolding next_target
next_target-IsTarget worker_capacity first loads = elim (Bool-cases (first == 0)) [
  | inl z ↦ rw z (first, record { holds = refl; least = λ j lt. ground arith }, inl (ground arith))
  | inr z ↦
      let found = target_loop 1 0 first loads in
      let least = target_loop-IsLeast (first ∷ loads) loads 1 0 first refl refl start in
      elim (Bool-cases (leb worker_capacity found.1)) [
        | inl full ↦ rw (z, full) (λ j lt. omega (arith, leb→le _ _ full, least.least j lt))
        | inr room ↦ rw (z, room) (found.1, least, inr (ground arith))
      ]
]
  where
    start : LeastBelow (first ∷ loads) 1 first
    start zero lt = omega arith
    start (suc j) lt = absurd (omega arith)
