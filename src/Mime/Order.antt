-- ===== src/Mime/Order.antt =====
-- strcmp(3) is an order on texts without NULs.
use Prim.Native.Nat.{Ordering}
use monkey.Prelude.{◌≡◌, ◌≢◌, refl, ap₂, [], ◌∷◌, All, arith}
use monkey.Libc.{Bytes, strcmp}

-- No byte is 0.
abbrev pub IsText : Bytes → Type 0
IsText = All (λ c. c ≢ 0)

pub strcmp_eq : (a b : Bytes) → IsText a → IsText b → strcmp a b ≡ Ordering.eq → a ≡ b
unfolding strcmp
strcmp_eq [] [] h k e = refl
strcmp_eq [] (y ∷ b) h k e = absurd (ground (arith, k.0))
strcmp_eq (x ∷ a) [] h k e = absurd (ground (arith, h.0))
strcmp_eq (x ∷ a) (y ∷ b) h k e =
    let same : x ≡ y = ground (arith, h.0, k.0) in
    let rest : strcmp a b ≡ Ordering.eq = ground (arith, h.0, k.0) in
    ap₂ (λ c l. c ∷ l) same (strcmp_eq a b h.1 k.1 rest)

pub strcmp_refl : (a : Bytes) → strcmp a a ≡ Ordering.eq
unfolding strcmp
strcmp_refl [] = refl
strcmp_refl (x ∷ a) = ground (arith, strcmp_refl a)

pub strcmp_flip :
    (a b : Bytes) → IsText a → IsText b → strcmp a b ≡ Ordering.gt → strcmp b a ≡ Ordering.lt
unfolding strcmp
strcmp_flip [] [] h k e = absurd (ground arith)
strcmp_flip [] (y ∷ b) h k e = absurd (ground (arith, k.0))
strcmp_flip (x ∷ a) [] h k e = ground (arith, h.0)
strcmp_flip (x ∷ a) (y ∷ b) h k e = ground (arith, h.0, k.0, strcmp_flip a b h.1 k.1)

pub strcmp_trans :
    (a b c : Bytes)
    → IsText a
    → IsText b
    → IsText c
    → strcmp a b ≡ Ordering.lt
    → strcmp b c ≡ Ordering.lt
    → strcmp a c ≡ Ordering.lt
unfolding strcmp
strcmp_trans [] [] c h k l e f = ground arith
strcmp_trans [] (y ∷ b) [] h k l e f = absurd (ground (arith, k.0))
strcmp_trans [] (y ∷ b) (z ∷ c) h k l e f = ground (arith, l.0)
strcmp_trans (x ∷ a) [] c h k l e f = absurd (ground (arith, h.0))
strcmp_trans (x ∷ a) (y ∷ b) [] h k l e f = absurd (ground (arith, k.0))
strcmp_trans (x ∷ a) (y ∷ b) (z ∷ c) h k l e f =
    ground (arith, h.0, k.0, l.0, strcmp_trans a b c h.1 k.1 l.1)
