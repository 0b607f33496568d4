-- ===== src/Float.antt =====
-- The floating-point arithmetic of the progress figures: the types and operations that the source
-- uses, with no laws.
use zao_p2p.Prelude.{ℕ, Bool}

pub record Float : Type 1 where
  pub F64 : Type 0
  pub F32 : Type 0
  pub of_u64 : ℕ → F64
  -- `Duration::as_secs_f64` of a number of nanoseconds
  pub as_secs_f64 : ℕ → F64
  pub to_f32 : F64 → F32
  pub div : F64 → F64 → F64
  pub mul : F64 → F64 → F64
  pub sub : F64 → F64 → F64
  pub le : F64 → F64 → Bool
  pub lt : F64 → F64 → Bool
