-- ===== src/Base/Perms.antt =====
-- Lists whose items are pairwise related, in any order.
use mathlib.Core.List.{Permᴰ}
use sshole.Base.Names.{◌≡◌, subst, List, [], ◌∷◌}
use sshole.Base.Lists.{All}

pub All-perm {ℓ κ} :
    {A : Type ℓ} (P : A → Type κ) {xs ys : List A} → Permᴰ xs ys → All P xs → All P ys
All-perm P Permᴰ.nil u = tt
All-perm P (Permᴰ.cons e p) u = (subst P e u.0, All-perm P p u.1)
All-perm P (Permᴰ.swap e e') u = (subst P e' u.1.0, (subst P e u.0, u.1.1))
All-perm P (Permᴰ.trans p q) u = All-perm P q (All-perm P p u)

module _ {ℓ κ} {A : Type ℓ} (R : A → A → Type κ) where
  -- Each item is related to all later ones.
  abbrev pub Pairwise : List A → Type κ
  Pairwise [] = Unit
  Pairwise (x ∷ xs) = All (R x) xs × Pairwise xs

  All-same : (xs : List A) {a b : A} → a ≡ b → All (R a) xs → All (R b) xs
  All-same [] e u = tt
  All-same (x ∷ xs) e u = (subst (λ c. R c x) e u.0, All-same xs e u.1)

  pub Pairwise-perm :
      ((a b : A) → R a b → R b a) → {xs ys : List A} → Permᴰ xs ys → Pairwise xs → Pairwise ys
  Pairwise-perm symmetric Permᴰ.nil d = tt
  Pairwise-perm symmetric (Permᴰ.cons {a = a} {l₂ = l₂} e p) d =
      (All-same l₂ e (All-perm (R a) p d.0), Pairwise-perm symmetric p d.1)
  Pairwise-perm symmetric (Permᴰ.swap {a = a} {b = b} {a' = a'} {l = l} e e') d = (
    (subst (λ c. R a' c) e (subst (λ c. R c a) e' (symmetric a b d.0.0)), All-same l e' d.1.0),
    (All-same l e d.0.1, d.1.1),
  )
  Pairwise-perm symmetric (Permᴰ.trans p q) d =
      Pairwise-perm symmetric q (Pairwise-perm symmetric p d)
