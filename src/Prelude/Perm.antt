-- ===== src/Prelude/Perm.antt =====
-- Permutations and the native length.
use mathlib.Core.Logic.{∥∥₁_elim}
use native.Mathlib.Nat.{ℕ_set}
use mathlib.Core.List.{Perm, Permᴰ}
use lord.Prelude.{◌≡◌, refl, ap, ◌∙◌, suc, List, length}

module _ {ℓ} {A : Type ℓ} where
  length-Permᴰ : {a b : List A} → Permᴰ a b → length a ≡ length b
  length-Permᴰ Permᴰ.nil = refl
  length-Permᴰ (Permᴰ.cons _ p) = ap suc (length-Permᴰ p)
  length-Permᴰ (Permᴰ.swap _ _) = refl
  length-Permᴰ (Permᴰ.trans p q) = length-Permᴰ p ∙ length-Permᴰ q

  pub length-Perm : {a b : List A} → Perm a b → length a ≡ length b
  length-Perm p = ∥∥₁_elim p (ℕ_set _ _) length-Permᴰ
