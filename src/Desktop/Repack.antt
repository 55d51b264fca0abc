-- ===== src/Desktop/Repack.antt =====
-- agent/src/remote_desktop.c, `leo_rd_repack_scale`: the copies that it makes, in order.
use native.Mathlib.Nat.{mul-le-mul_right, div-lt_iff_lt-mul, mul_assoc}
use leo_one.Prelude.{
  ◌==◌, if◌then◌else◌, Bool-cases, All, All-append, ℕ, zero, suc, ◌+◌, ◌*◌, ◌/◌, ◌≤◌, ◌<◌, ◌≡◌, inl,
  inr, ◌&&◌, List, [], ◌∷◌, ◌++◌, arith,
}

-- One memcpy: the offsets into dst and src, and the number of bytes.
pub record Copy : Type 0 where
  pub dst_at : ℕ
  pub src_at : ℕ
  pub count : ℕ

module _ (out_w out_h src_w src_h src_stride : ℕ) where
  -- The rows from y on, for an image that keeps its size.
  row_copies : ℕ → ℕ → List Copy
  row_copies zero y = []
  row_copies (suc todo) y =
      record { dst_at = y * out_w * 4; src_at = y * src_stride; count = out_w * 4 }
      ∷ row_copies todo (y + 1)

  -- The pixels of row y from x on, for an image that is scaled.
  pixel_copies : ℕ → ℕ → ℕ → List Copy
  pixel_copies zero x y = []
  pixel_copies (suc todo) x y =
      record {
        dst_at = y * out_w * 4 + x * 4;
        src_at = y * src_h / out_h * src_stride + x * src_w / out_w * 4;
        count = 4;
      }
      ∷ pixel_copies todo (x + 1) y

  scaled_rows : ℕ → ℕ → List Copy
  unfolding pixel_copies
  scaled_rows zero y = []
  scaled_rows (suc todo) y = pixel_copies out_w 0 y ++ scaled_rows todo (y + 1)

  -- `leo_rd_repack_scale`, for sizes that are not negative.
  pub repack_scale : List Copy
  unfolding row_copies scaled_rows
  repack_scale =
      if out_w == src_w && out_h == src_h then row_copies src_h 0 else scaled_rows out_h 0

  -- Within both buffers: out_w * out_h pixels, and src_h rows of src_stride bytes.
  abbrev pub IsWithin : Copy → Type 0
  IsWithin c =
      (c.dst_at + c.count ≤ out_h * (out_w * 4)) × (c.src_at + c.count ≤ src_h * src_stride)

  -- A span of the row y, of h rows of w bytes each.
  span_within : (y h w at n : ℕ) → y < h → at + n ≤ w → y * w + at + n ≤ h * w
  span_within y h w at n k l =
      let rows : (y + 1) * w ≤ h * w = mul-le-mul_right w (omega (arith, k)) in ground (arith, rows)

  scaled-lt : (x n s : ℕ) → x < n → 0 < s → x * s / n < s
  scaled-lt x n s h k =
      let rows : (x + 1) * s ≤ n * s = mul-le-mul_right s (omega (arith, h)) in
      (div-lt_iff_lt-mul {k = n} {x = x * s} {y = s} (omega (arith, h))).1 (ground (arith, rows, k))

  row_copies-IsWithin :
      (todo y : ℕ)
      → y + todo ≤ src_h
      → out_h ≡ src_h
      → out_w ≡ src_w
      → src_w * 4 ≤ src_stride
      → All IsWithin (row_copies todo y)
  unfolding row_copies
  row_copies-IsWithin zero y h e e' k = tt
  row_copies-IsWithin (suc todo) y h e e' k = (
    (
      omega (
        arith,
        span_within y out_h (out_w * 4) 0 (out_w * 4) (omega arith) (omega arith),
        mul_assoc y out_w 4,
      ),
      omega (arith, span_within y src_h src_stride 0 (out_w * 4) (omega arith) (omega arith)),
    ),
    row_copies-IsWithin todo (y + 1) (omega arith) e e' k,
  )

  pixel_copies-IsWithin :
      (todo x y : ℕ)
      → x + todo ≤ out_w
      → y < out_h
      → 0 < src_w
      → 0 < src_h
      → src_w * 4 ≤ src_stride
      → All IsWithin (pixel_copies todo x y)
  unfolding pixel_copies
  pixel_copies-IsWithin zero x y h k p q l = tt
  pixel_copies-IsWithin (suc todo) x y h k p q l = (
    (
      omega (
        arith,
        span_within y out_h (out_w * 4) (x * 4) 4 (omega arith) (omega arith),
        mul_assoc y out_w 4,
      ),
      (let sx = scaled-lt x out_w src_w (omega arith) p in
          span_within (y * src_h / out_h) src_h src_stride (x * src_w / out_w * 4) 4
            (scaled-lt y out_h src_h k q) (omega (arith, sx, l))),
    ),
    pixel_copies-IsWithin todo (x + 1) y (omega arith) k p q l,
  )

  scaled_rows-IsWithin :
      (todo y : ℕ)
      → y + todo ≤ out_h
      → 0 < src_w
      → 0 < src_h
      → src_w * 4 ≤ src_stride
      → All IsWithin (scaled_rows todo y)
  unfolding scaled_rows
  scaled_rows-IsWithin zero y h p q l = tt
  scaled_rows-IsWithin (suc todo) y h p q l =
      All-append IsWithin (pixel_copies out_w 0 y) (scaled_rows todo (y + 1))
        (pixel_copies-IsWithin out_w 0 y (omega arith) (omega arith) p q l)
        (scaled_rows-IsWithin todo (y + 1) (omega arith) p q l)

  -- For a source that is not empty and whose rows hold its pixels, no copy reads past the source's
  -- rows or writes past the pixels of the output, whether the image keeps its size or is scaled.
  pub repack_scale-IsWithin :
      0 < src_w → 0 < src_h → src_w * 4 ≤ src_stride → All IsWithin repack_scale
  unfolding repack_scale
  repack_scale-IsWithin p q l = elim (Bool-cases (out_w == src_w && out_h == src_h)) [
    | inl same ↦ rw same (row_copies-IsWithin src_h 0 (omega arith) (ground arith) (ground arith) l)
    | inr scaled ↦ rw scaled (scaled_rows-IsWithin out_h 0 (omega arith) p q l)
  ]
