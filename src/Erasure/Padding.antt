-- ===== src/Erasure/Padding.antt =====
-- How the input is cut and padded: the pieces have one size, and together they are the padded input.
use cyxcloud.Prelude.{ℕ, ◌*◌, ◌≤◌, ◌<◌, ◌≡◌, ap, ◌∙◌, arith, length, take}
use cyxcloud.Prelude.Slices.{
  HasShape, chunks, resize, concat, div_ceil, chunks-HasShape, length-resize, concat-chunks,
  take-resize,
}
use cyxcloud.Erasure.Codec.{Bytes}

-- The `d` pieces are large enough.
pub le-div_ceil : (n d : ℕ) → 0 < d → n ≤ div_ceil n d * d
le-div_ceil n d h = grind arith

pub div_ceil_pos : (n d : ℕ) → 0 < d → 0 < n → 0 < div_ceil n d
div_ceil_pos n d h p = grind arith

module _ (d n : ℕ) (input : Bytes) where
  pub pieces-HasShape : 0 < n → HasShape d n (chunks n (resize (n * d) 0 input))
  pieces-HasShape p =
      chunks-HasShape d n (resize (n * d) 0 input) p (omega (arith, length-resize (n * d) 0 input))

  pub concat-pieces :
      0 < n
      → length input ≤ n * d
      → take (length input) (concat (chunks n (resize (n * d) 0 input))) ≡ input
  concat-pieces p h =
      ap (take (length input)) (concat-chunks n (resize (n * d) 0 input) p)
      ∙ take-resize (n * d) 0 input h
