-- ===== src/Prelude/Maps.antt =====
-- Maps as functions from their keys.
use Prim.Native.Nat.{ℕ}
use Prim.Native.String.{String}
use frp.Prelude.Tests.{◌==◌, if◌then◌else◌}
use frp.Prelude.Text.{str_eq}

abbrev pub update {ℓ} : {A : Type ℓ} → (ℕ → A) → ℕ → A → ℕ → A
update f k v j = if k == j then v else f j

abbrev pub update_name {ℓ} : {A : Type ℓ} → (String → A) → String → A → String → A
update_name f k v j = if str_eq k j then v else f j
