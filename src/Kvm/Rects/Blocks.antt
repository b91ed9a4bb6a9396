-- ===== src/Kvm/Rects/Blocks.antt =====
-- kvm/src/kvm_codec.cpp: the bytes that a rectangle takes, raw or in a block.
use mesh_commander.Wire.{shl}
use mesh_commander.Kvm.Tiles.{
  pixels, refused, out_of_range, overflow, out_of_fuel, pull_pixels, Decoded,
}
use mesh_commander.Kvm.Rects.{
  ok, unsupported_encoding, unsupported_subencoding, malformed, desktop_size, nothing, undefined,
  need_more, Outcome, decoded, failed_with, decode_raw, finish_block, max_block,
}
use mesh_commander.Kvm.Codec.{
  rgb332_to_argb, rgb565_to_argb, PixelFormat, rgb565, rgb332, RectHeader, bytes_per_pixel,
  read32_be,
}
use mesh_commander.Prelude.{
  bit_or, ℕ, zero, suc, ◌+◌, ◌*◌, ◌≤◌, ◌≡◌, refl, inl, inr, true, false, List, [], ◌∷◌, ◌++◌, some,
  ltb, length, Bool-cases, arith, get_or-append_left, length-append,
}

-- The most bytes that a rectangle can take.
abbrev pub longest : RectHeader → PixelFormat → ℕ
longest rect f = 4 + max_block rect f

abbrev pub IsAnswer : Outcome → Type 0
IsAnswer (decoded image consumed) = Unit {0}
IsAnswer desktop_size = Unit {0}
IsAnswer nothing = Unit {0}
IsAnswer undefined = Unit {0}
IsAnswer (failed_with ok) = Unit {0}
IsAnswer (failed_with need_more) = ⊥
IsAnswer (failed_with unsupported_encoding) = Unit {0}
IsAnswer (failed_with unsupported_subencoding) = Unit {0}
IsAnswer (failed_with malformed) = Unit {0}

-- What is in `*consumed` afterwards.
abbrev pub consumed_by : Outcome → ℕ
consumed_by (decoded image consumed) = consumed
consumed_by desktop_size = 0
consumed_by nothing = 0
consumed_by undefined = 0
consumed_by (failed_with status) = 0

-- Two outcomes of which the second saw more bytes: it answers as the first, which took no more than it had.
abbrev pub Agrees {ℓ} : {A : Type ℓ} → ℕ → Outcome × A → Outcome × A → Type ℓ
Agrees n r r' = IsAnswer r.0 → (consumed_by r.0 ≤ n) × (r' ≡ r)

pub finish_block-IsAnswer :
    (rect : RectHeader) (n : ℕ) (d : Decoded) → IsAnswer (finish_block rect n d)
unfolding finish_block
finish_block-IsAnswer rect n (pixels out) = tt
finish_block-IsAnswer rect n refused = tt
finish_block-IsAnswer rect n out_of_range = tt
finish_block-IsAnswer rect n overflow = tt
finish_block-IsAnswer rect n out_of_fuel = tt

pub finish_block-le :
    (rect : RectHeader) (n : ℕ) (d : Decoded) → consumed_by (finish_block rect n d) ≤ n
unfolding finish_block
finish_block-le rect n (pixels out) = omega arith
finish_block-le rect n refused = omega arith
finish_block-le rect n out_of_range = omega arith
finish_block-le rect n overflow = omega arith
finish_block-le rect n out_of_fuel = omega arith

-- Pixels that are there are read the same when more bytes follow.
pub pull_pixels_more :
    (f : PixelFormat) (n : ℕ) (p more : List ℕ)
    → n * bytes_per_pixel f ≤ length p
    → (cs : List ℕ) × (q : List ℕ) × (pull_pixels f n p ≡ some (cs, q))
      × (pull_pixels f n (p ++ more) ≡ some (cs, q ++ more))
unfolding pull_pixels bytes_per_pixel
pull_pixels_more f zero p more h = ([], p, refl, refl)
pull_pixels_more rgb565 (suc n) [] more h = absurd (omega arith)
pull_pixels_more rgb565 (suc n) (a ∷ []) more h = absurd (omega arith)
pull_pixels_more rgb565 (suc n) (a ∷ b ∷ p) more h =
    let ih = pull_pixels_more rgb565 n p more (omega arith) in
    (
      rgb565_to_argb (bit_or a (shl b 8)) ∷ ih.0,
      ih.1,
      rw (ih.2, pull_pixels),
      rw (ih.3, pull_pixels),
    )
pull_pixels_more rgb332 (suc n) [] more h = absurd (omega arith)
pull_pixels_more rgb332 (suc n) (a ∷ p) more h =
    let ih = pull_pixels_more rgb332 n p more (omega arith) in
    (rgb332_to_argb a ∷ ih.0, ih.1, rw (ih.2, pull_pixels), rw (ih.3, pull_pixels))

pub raw_short :
    (payload : List ℕ) (rect : RectHeader) (f : PixelFormat)
    → ltb (length payload) (rect.w * rect.h * bytes_per_pixel f) ≡ true
    → ¬ IsAnswer (decode_raw payload rect f)
unfolding decode_raw
raw_short payload rect f short = rw (short, decode_raw) (λ h. h)

pub raw-Agrees :
    (payload more : List ℕ) (rect : RectHeader) (f : PixelFormat)
    → IsAnswer (decode_raw payload rect f)
    → (consumed_by (decode_raw payload rect f) ≤ length payload)
      × (decode_raw (payload ++ more) rect f ≡ decode_raw payload rect f)
unfolding decode_raw
raw-Agrees payload more rect f h =
    elim (Bool-cases (ltb (length payload) (rect.w * rect.h * bytes_per_pixel f))) [
      | inl short ↦ absurd (raw_short payload rect f short h)
      | inr enough ↦
          let pulled = pull_pixels_more f (rect.w * rect.h) payload more (ground (arith, enough)) in
          let still : ltb (length (payload ++ more)) (rect.w * rect.h * bytes_per_pixel f) ≡ false =
            ground (arith, enough, length-append payload more) in
          (
            rw (enough, pulled.2, decode_raw) (ground (arith, enough)),
            rw (enough, still, pulled.2, pulled.3, decode_raw) refl,
          )
    ]

pub raw-le-max_block :
    (rect : RectHeader) (f : PixelFormat) → rect.w * rect.h * bytes_per_pixel f ≤ max_block rect f
unfolding max_block bytes_per_pixel
raw-le-max_block rect rgb565 = omega arith
raw-le-max_block rect rgb332 = omega arith

pub raw-IsAnswer :
    (payload : List ℕ) (rect : RectHeader) (f : PixelFormat)
    → longest rect f ≤ length payload
    → IsAnswer (decode_raw payload rect f)
unfolding decode_raw
raw-IsAnswer payload rect f h =
    let enough : ltb (length payload) (rect.w * rect.h * bytes_per_pixel f) ≡ false =
      ground (arith, raw-le-max_block rect f) in
    let pulled =
      pull_pixels_more f (rect.w * rect.h) payload [] (omega (arith, raw-le-max_block rect f)) in
    rw (enough, pulled.2, decode_raw) tt

pub read32_be-append :
    (buffer more : List ℕ) → 4 ≤ length buffer → read32_be (buffer ++ more) 0 ≡ read32_be buffer 0
unfolding read32_be
read32_be-append buffer more h = rw (
  get_or-append_left buffer more 0 0 (omega arith),
  get_or-append_left buffer more 1 0 (omega arith),
  get_or-append_left buffer more 2 0 (omega arith),
  get_or-append_left buffer more 3 0 (omega arith),
)
