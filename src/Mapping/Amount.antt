-- ===== src/Mapping/Amount.antt =====
-- The numbers of the pipeline are IEEE doubles. The model reads only the operations that the code
-- applies to them, so it is stated for any type with these, NaN and rounding included.
use ap_hub.Prelude.{Bool, String, Option}

pub record Amounts (N : Type 0) : Type 0 where
  -- `num`: the number itself, and 0 for one that is not finite.
  pub num : N → N
  pub zero : N
  pub add : N → N → N
  pub sub : N → N → N
  pub abs : N → N
  pub lt : N → N → Bool
  pub le : N → N → Bool
  -- `Number(text)`, where it is finite.
  pub parse : String → Option N
