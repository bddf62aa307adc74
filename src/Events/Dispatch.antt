-- ===== src/Events/Dispatch.antt =====
-- Whom the events of a socket are given to: mk_plugin_event_read and its siblings in src/mk_plugin.c.
use monkey.Prelude.{
  ◌≢◌, ◌==◌, ℕ, ◌≡◌, refl, ap, subst, sym, ◌∙◌, ◌⊎◌, inl, inr, true, false, Option, none, some,
  List, [], ◌∷◌, ◌++◌, All, arith, if◌then◌else◌, ℤ, eq_ℤ, Bool-cases, Option-cases,
}
use monkey.Types.{ret_continue}
use monkey.Worker.{proceed}
use monkey.Events.{
  event_get, Plugin, PluginEvent, event_next, event_continue, ask_plugins, owner_hook, dispatch,
  verdict_of,
}

module _ (hook : Plugin → Option (ℕ → ℤ)) (otherwise : ℤ) (socket : ℕ) where
  -- The plugin passes the event on: it has no hook for it, or says so.
  abbrev pub PassesOn : Plugin → Type 0
  PassesOn p = (f : ℕ → ℤ) → hook p ≡ some f → eq_ℤ (f socket) event_next ≡ true

  -- The first plugin that does not pass the event on, and its answer.
  pub record Decides (plugins : List Plugin) (ret : ℤ) : Type 0 where
    pub before : List Plugin
    pub plugin : Plugin
    pub behind : List Plugin
    pub answer : ℕ → ℤ
    pub split : plugins ≡ before ++ (plugin ∷ behind)
    pub has_hook : hook plugin ≡ some answer
    pub returned : ret ≡ answer socket
    pub decided : eq_ℤ (answer socket) event_next ≡ false
    pub passed_on : All PassesOn before

  -- What the plugins say together.
  abbrev pub Asked : List Plugin → ℤ → Type 0
  Asked plugins ret = ((ret ≡ otherwise) × All PassesOn plugins) ⊎ Decides plugins ret

  abbrev pub IsOther : PluginEvent → Type 0
  IsOther e = e.socket ≢ socket

  -- The first registration of the socket.
  pub record Registered (list : List PluginEvent) (e : PluginEvent) : Type 0 where
    pub front : List PluginEvent
    pub back : List PluginEvent
    pub parted : list ≡ front ++ (e ∷ back)
    pub is_for : e.socket ≡ socket
    pub others : All IsOther front

  event_get-cases :
      (list : List PluginEvent)
      → ((event_get socket list ≡ none) × All IsOther list)
        ⊎ ((e : PluginEvent) × (event_get socket list ≡ some e) × Registered list e)
  unfolding event_get
  event_get-cases [] = inl (refl, tt)
  event_get-cases (x ∷ list) = elim (Bool-cases (x.socket == socket)) [
    | inl q ↦ inr (
      x,
      rw q refl,
      record { front = []; back = list; parted = refl; is_for = ground arith; others = tt },
    )
    | inr q ↦ elim (event_get-cases list) [
      | inl (n, h) ↦ inl (rw q n, (λ s. ground arith, h))
      | inr (e, g, r) ↦ inr (
        e,
        rw q g,
        record {
          front = x ∷ r.front;
          back = r.back;
          parted = ap (◌∷◌ x) r.parted;
          is_for = r.is_for;
          others = (λ s. ground arith, r.others);
        },
      )
    ]
  ]

  pass :
      (p : Plugin) (plugins : List Plugin) (ret : ℤ)
      → PassesOn p
      → Asked plugins ret
      → Asked (p ∷ plugins) ret
  pass p plugins ret on (inl (e, h)) = inl (e, (on, h))
  pass p plugins ret on (inr d) = inr (record {
    before = p ∷ d.before;
    plugin = d.plugin;
    behind = d.behind;
    answer = d.answer;
    split = ap (◌∷◌ p) d.split;
    has_hook = d.has_hook;
    returned = d.returned;
    decided = d.decided;
    passed_on = (on, d.passed_on);
  })

  ask_none :
      (p : Plugin) (plugins : List Plugin)
      → hook p ≡ none
      → ask_plugins hook otherwise socket (p ∷ plugins) ≡ ask_plugins hook otherwise socket plugins
  unfolding ask_plugins
  ask_none p plugins n = rw (n, ask_plugins) refl

  ask_some :
      (p : Plugin) (plugins : List Plugin) (f : ℕ → ℤ)
      → hook p ≡ some f
      → ask_plugins hook otherwise socket (p ∷ plugins) ≡ (
          if eq_ℤ (f socket) event_next
          then ask_plugins hook otherwise socket plugins
          else f socket)
  unfolding ask_plugins
  ask_some p plugins f q = rw (q, ask_plugins) refl

  here :
      (p : Plugin) (plugins : List Plugin) (f : ℕ → ℤ)
      → hook p ≡ some f
      → eq_ℤ (f socket) event_next ≡ false
      → Asked (p ∷ plugins) (f socket)
  here p plugins f q e = inr (record {
    before = [];
    plugin = p;
    behind = plugins;
    answer = f;
    split = refl;
    has_hook = q;
    returned = refl;
    decided = e;
    passed_on = tt;
  })

  ask_plugins-Asked :
      (plugins : List Plugin) → Asked plugins (ask_plugins hook otherwise socket plugins)
  unfolding ask_plugins
  ask_plugins-Asked [] = inl (refl, tt)
  ask_plugins-Asked (p ∷ plugins) =
      let rest = ask_plugins-Asked plugins in
      let said = ask_plugins hook otherwise socket plugins in
      elim (Option-cases (hook p)) [
        | inl n ↦
            subst (Asked (p ∷ plugins)) (sym (ask_none p plugins n))
              (pass p plugins said (λ f q. absurd (ground arith)) rest)
        | inr (f, q) ↦ elim (Bool-cases (eq_ℤ (f socket) event_next)) [
          | inl e ↦
              subst (Asked (p ∷ plugins))
                (sym (ask_some p plugins f q ∙ ap (λ b. if b then said else f socket) e))
                (pass p plugins said
                  (λ g r.
                    let same : f ≡ g = ground arith in
                    ap (λ k. eq_ℤ (k socket) event_next) (sym same) ∙ e)
                  rest)
          | inr e ↦
              subst (Asked (p ∷ plugins))
                (sym (ask_some p plugins f q ∙ ap (λ b. if b then said else f socket) e))
                (here p plugins f q e)
        ]
      ]

  -- An event goes to the plugin that has registered the socket, by the first of its registrations, if the
  -- plugin has a hook for the event: its answer is returned, whatever it is. When no plugin has registered
  -- the socket, or the one that has lacks the hook, the plugins are asked in their order, and the answer
  -- of the first that does not pass the event on is returned, or the default when all of them do.
  pub dispatch-Asked :
      (list : List PluginEvent) (plugins : List Plugin)
      → ((e : PluginEvent) × (f : ℕ → ℤ) × Registered list e
          × (hook e.handler ≡ some f)
          × (dispatch hook otherwise socket list plugins ≡ f socket))
        ⊎ ((All IsOther list ⊎ ((e : PluginEvent) × Registered list e × (hook e.handler ≡ none)))
            × Asked plugins (dispatch hook otherwise socket list plugins))
  unfolding dispatch owner_hook
  dispatch-Asked list plugins = elim (event_get-cases list) [
    | inl (n, others) ↦ inr (inl others, rw (n, dispatch, owner_hook) (ask_plugins-Asked plugins))
    | inr (e, g, r) ↦ elim (Option-cases (hook e.handler)) [
      | inl n ↦ inr (inr (e, r, n), rw (g, n, dispatch, owner_hook) (ask_plugins-Asked plugins))
      | inr (f, q) ↦ inl (e, f, r, q, rw (g, q, dispatch, owner_hook) refl)
    ]
  ]

-- The defaults of all five events leave the event to the server.
pub verdict_of_defaults :
    (verdict_of event_continue ≡ proceed) × (verdict_of ret_continue ≡ proceed)
unfolding verdict_of
verdict_of_defaults = (refl, refl)
