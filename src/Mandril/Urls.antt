-- ===== src/Mandril/Urls.antt =====
-- What the plugin of plugins/mandril/mandril.c refuses.
use monkey.Prelude.{
  ℕ, suc, ◌<◌, ◌≡◌, refl, ap, ◌∙◌, ◌⊎◌, inl, inr, true, false, some, List, [], ◌∷◌, arith, ltb, ℤ,
  pos, minus_one, position, ltb_ℤ, Bool-cases, Option-cases,
}
use monkey.Libc.{Bytes, strcasestr}
use monkey.Text.{insensitive, string_search_n}
use monkey.Text.Search.{below, string_search_n-below}
use monkey.Types.{ClientSession, SessionRequest}
use monkey.Request.Header.{bytes_of}
use monkey.Serve.Plugins.{close_conx, keep_on}
use monkey.Serve.Errors.{set_status}
use monkey.Mandril.{Rules, security_check_url, url_turn, stage_20}

-- The text begins in the first `len` bytes of the URL, in whatever case.
abbrev pub Holds : Bytes → ℕ → Bytes → Type 0
Holds url len criteria = (i : ℕ) × (strcasestr url criteria ≡ some i) × (i < len)

abbrev pub Lacks : Bytes → ℕ → Bytes → Type 0
Lacks url len criteria = Holds url len criteria → ⊥

pub data HoldsOne (url : Bytes) (len : ℕ) : List Bytes → Type 0 where
  here :
      (criteria : Bytes) (urls : List Bytes)
      → Holds url len criteria
      → HoldsOne url len (criteria ∷ urls)
  there :
      (criteria : Bytes) (urls : List Bytes)
      → HoldsOne url len urls
      → HoldsOne url len (criteria ∷ urls)

search-Holds :
    (url : Bytes) (n : ℕ) (criteria : Bytes)
    → ((ltb_ℤ (string_search_n url criteria insensitive (pos (suc n))) (pos 0) ≡ false)
        × Holds url (suc n) criteria)
      ⊎ ((ltb_ℤ (string_search_n url criteria insensitive (pos (suc n))) (pos 0) ≡ true)
          × Lacks url (suc n) criteria)
search-Holds url n criteria =
    let found = string_search_n url criteria insensitive (pos (suc n)) in
    let e = (string_search_n-below url criteria insensitive n).0 in
    let sign = λ (z : ℤ). ltb_ℤ z (pos 0) in
    elim (Option-cases (strcasestr url criteria)) [
      | inl s ↦
          let v : found ≡ minus_one = e ∙ ap (λ o. position (below (suc n) o)) s in
          inr (ap sign v ∙ ground arith, λ (i, q, k). absurd (ground (arith, s, q)))
      | inr (i, s) ↦ elim (Bool-cases (ltb i (suc n))) [
        | inl b ↦
            let v : found ≡ pos i = e ∙ ap (λ o. position (below (suc n) o)) s ∙ rw b refl in
            inl (ap sign v ∙ ground arith, (i, s, ground arith))
        | inr b ↦
            let v : found ≡ minus_one = e ∙ ap (λ o. position (below (suc n) o)) s ∙ rw b refl in
            inr (ap sign v ∙ ground arith, λ (j, q, k). absurd (ground (arith, s, q, k, b)))
      ]
    ]

Lacks-All :
    (url : Bytes) (n : ℕ) (criteria : Bytes) (urls : List Bytes)
    → Lacks url (suc n) criteria
    → (HoldsOne url (suc n) urls → ⊥)
    → HoldsOne url (suc n) (criteria ∷ urls)
    → ⊥
Lacks-All url n criteria urls h g (HoldsOne.here _ _ q) = h q
Lacks-All url n criteria urls h g (HoldsOne.there _ _ q) = g q

-- What mk_security_check_url returns.
check_url-cases :
    (url : Bytes) (n : ℕ) (urls : List Bytes)
    → ((security_check_url url (suc n) urls ≡ minus_one) × HoldsOne url (suc n) urls)
      ⊎ ((security_check_url url (suc n) urls ≡ pos 0) × (HoldsOne url (suc n) urls → ⊥))
unfolding security_check_url
check_url-cases url n [] = inr (refl, λ h. elim h [ ])
check_url-cases url n (criteria ∷ urls) = elim (search-Holds url n criteria) [
  | inl (e, h) ↦ inl (rw (e, security_check_url) refl, HoldsOne.here criteria urls h)
  | inr (e, h) ↦ elim (check_url-cases url n urls) [
    | inl (f, g) ↦ inl (rw (e, security_check_url) f, HoldsOne.there criteria urls g)
    | inr (f, g) ↦ inr (rw (e, security_check_url) f, Lacks-All url n criteria urls h g)
  ]
]

-- In stage 20 the plugin closes a request, with the status 403, exactly when one of the denied texts begins
-- within its URI, in whatever case of letters, and changes nothing of any other request. The URI is not empty.
pub stage_20-HoldsOne :
    (rules : Rules) (cs : ClientSession) (sr : SessionRequest) (n : ℕ)
    → sr.uri.len ≡ suc n
    → (HoldsOne (bytes_of sr.uri) (suc n) rules.secure_url
        × (stage_20 rules cs sr
            ≡ record { answer = close_conx; request = set_status sr 403; log = [] }))
      ⊎ ((HoldsOne (bytes_of sr.uri) (suc n) rules.secure_url → ⊥)
          × (stage_20 rules cs sr ≡ record { answer = keep_on; request = sr; log = [] }))
unfolding stage_20
stage_20-HoldsOne rules cs sr n e =
    let whole =
      λ (len : ℕ). url_turn (security_check_url (bytes_of sr.uri) len rules.secure_url) sr in
    elim (check_url-cases (bytes_of sr.uri) n rules.secure_url) [
      | inl (f, h) ↦ inl (h, ap whole e ∙ ap (λ ret. url_turn ret sr) f)
      | inr (f, h) ↦ inr (h, ap whole e ∙ ap (λ ret. url_turn ret sr) f)
    ]
