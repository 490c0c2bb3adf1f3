-- ===== src/Bcrypt.antt =====
-- bcryptjs, which the program calls and does not contain: a salted hash, and a comparison that accepts
-- the text that was hashed. Codes and passwords are only hashed and compared, so they are numbers.
use duevy_be.Base.{ℕ, ◌≡◌, Bool, true}

pub record Bcrypt : Type 0 where
  pub hash : ℕ → ℕ → ℕ
  pub compare : ℕ → ℕ → Bool
  pub compare_hash : (salt text : ℕ) → compare text (hash salt text) ≡ true
