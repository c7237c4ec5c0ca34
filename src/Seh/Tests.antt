-- ===== src/Seh/Tests.antt =====
-- An interrupt that raises no exception.
use speakeasy.Base.{ℕ, ◌≡◌, ◌↔◌, ◌⊎◌, none, [], ◌∷◌, false}
use speakeasy.Seh.Cpu.{from_interrupt, from_interrupt-none}

from_interrupt-none_example : (from_interrupt 0x2D 0x401002 (0xCD ∷ 0x2D ∷ []) 3 false ≡ none) ↔ (
    (◌≡◌ {A = ℕ} 0x2D 0x2D)
    × ((◌≡◌ {A = ℕ} 3 1) ⊎ (◌≡◌ {A = ℕ} 3 3) ⊎ (◌≡◌ {A = ℕ} 3 4) ⊎ (◌≡◌ {A = ℕ} 3 5)))
from_interrupt-none_example = from_interrupt-none 0x2D 0x401002 (0xCD ∷ 0x2D ∷ []) 3 false
