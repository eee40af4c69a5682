-- ===== src/Base/Update.antt =====
-- Functions from numbers, written at one place.
use Prim.Native.Nat.{ℕ}
use mathlib.Core.Path.{◌≡◌, refl}
use mathlib.Core.Logic.{◌≢◌, inl, inr}
use native.Mathlib.Omega.{arith}
use tps_sistemas_operativos.Base.Tests.{◌==◌, if◌then◌else◌, Bool-cases, ==→eq, eq→==, ne→==}

abbrev pub update {ℓ} : {A : Type ℓ} → (ℕ → A) → ℕ → A → ℕ → A
update f i v j = if i == j then v else f j

module _ {ℓ} {A : Type ℓ} where
  pub update_self : (f : ℕ → A) (i : ℕ) (v : A) → update f i v i ≡ v
  update_self f i v = rw (eq→== i i refl)

  pub update-ne : (f : ℕ → A) (i : ℕ) (v : A) (j : ℕ) → i ≢ j → update f i v j ≡ f j
  update-ne f i v j h = rw (ne→== i j h)

  -- What holds of the new value at its place and of each other value holds of the updated function.
  pub update-elim {κ} :
      (P : ℕ → A → Type κ) (f : ℕ → A) (i : ℕ) (v : A)
      → P i v
      → ((j : ℕ) → i ≢ j → P j (f j))
      → (j : ℕ) → P j (update f i v j)
  update-elim P f i v here there j = elim (Bool-cases (i == j)) [
    | inl same ↦ rw (same, ← ==→eq i j same) here
    | inr other ↦ rw other (there j (ground arith))
  ]
