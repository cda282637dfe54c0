-- ===== src/System/Tests/Addresses.antt =====
-- Addresses that spell their seeds, and that do not collide.
use programs.Prelude.{ℕ, suc, zero, ◌+◌, ◌*◌, ◌/◌, ◌^◌, ◌<◌, ◌≡◌, arith, List, [], ◌∷◌}
use programs.Seeds.{Seed, to_le_bytes, key_bytes}
use programs.Vault.{Pubkey}
use programs.System.Balanced.{IsKey, Collisionless}

-- The number that bytes spell, the least one first.
unfoldable pub spelled : Seed → ℕ
spelled [] = 0
spelled (b ∷ bs) = b + 256 * spelled bs

unfoldable pub derived : List Seed → Pubkey
derived [] = 0
derived (tag ∷ []) = 0
derived (tag ∷ a ∷ []) = spelled a
derived (tag ∷ a ∷ b ∷ bump) = spelled a * 2 ^ 256 + spelled b

spelled-to_le_bytes : (w n : ℕ) → n < 256 ^ w → spelled (to_le_bytes w n) ≡ n
unfolding spelled to_le_bytes
spelled-to_le_bytes zero n h = omega arith
spelled-to_le_bytes (suc w) n h = omega (arith, spelled-to_le_bytes w (n / 256) (omega arith))

key_spelled : (k : Pubkey) → IsKey k → spelled (key_bytes k) ≡ k
key_spelled k h = spelled-to_le_bytes 32 k h

pub derived-Collisionless :
    (tag : Seed)
    → Collisionless (λ vault authority. derived (tag ∷ key_bytes vault ∷ key_bytes authority ∷ []))
unfolding derived
derived-Collisionless tag = record {
  same_vault = λ v a v' a' hv ha hv' ha' e.
      omega (arith, key_spelled v hv, key_spelled a ha, key_spelled v' hv', key_spelled a' ha');
}
