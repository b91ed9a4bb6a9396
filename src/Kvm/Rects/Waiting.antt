-- ===== src/Kvm/Rects/Waiting.antt =====
-- kvm/src/kvm_codec.cpp: tryDecodeRect on a stream that arrives in pieces.
use mesh_commander.Kvm.Rects.Blocks.{
  longest, IsAnswer, consumed_by, Agrees, finish_block-IsAnswer, finish_block-le, raw-Agrees,
  raw-IsAnswer, read32_be-append,
}
use mesh_commander.Kvm.Tiles.{decode_rle_inner}
use mesh_commander.Kvm.Rects.{
  try_decode_rect, decode_rle, uncompressed_marker, malformed, Outcome, failed_with, finish_block,
  max_block, compressed_block, inflated_block,
}
use mesh_commander.Kvm.Codec.{
  enc_rle, enc_raw, enc_desktop_size, PixelFormat, RectHeader, read32_be,
}
use mesh_commander.Prelude.{
  take, drop, ℕ, ◌+◌, ◌^◌, ◌≤◌, ◌≡◌, refl, sym, ap, ◌∙◌, inl, inr, Bool, true, false, ◌||◌, List,
  [], ◌∷◌, ◌++◌, Option, none, some, ltb, leb, ◌==◌, if◌then◌else◌, length, get_or, Bool-cases,
  arith, slice-append_left, length-append,
}

module _ {Stream : Type 0} (inflate : Stream → List ℕ → Bool × List ℕ × Stream) where
  inflated-IsAnswer :
      (rect : RectHeader) (n : ℕ) (f : PixelFormat) (r : Bool × List ℕ × Stream)
      → IsAnswer (inflated_block inflate rect n f r).0
        × (consumed_by (inflated_block inflate rect n f r).0 ≤ n)
  unfolding inflated_block
  inflated-IsAnswer rect n f (false, out, z) = (tt, omega arith)
  inflated-IsAnswer rect n f (true, [], z) = (tt, omega arith)
  inflated-IsAnswer rect n f (true, sub ∷ inner, z) =
      (finish_block-IsAnswer rect n _, finish_block-le rect n _)

  compressed-IsAnswer :
      (block : List ℕ) (rect : RectHeader) (n : ℕ) (f : PixelFormat) (z : Option Stream)
      → IsAnswer (compressed_block inflate block rect n f z).0
        × (consumed_by (compressed_block inflate block rect n f z).0 ≤ n)
  unfolding compressed_block
  compressed-IsAnswer block rect n f none = (tt, omega arith)
  compressed-IsAnswer block rect n f (some z) = inflated-IsAnswer rect n f (inflate z block)

  -- Behind the length of a block that is all there.
  block_outcome : List ℕ → RectHeader → ℕ → PixelFormat → Option Stream → Outcome × Option Stream
  block_outcome block rect n f z =
      if uncompressed_marker block n
      then (
        finish_block rect (4 + n) (decode_rle_inner (drop 6 block) (get_or block 5 0) rect f),
        z,
      )
      else compressed_block inflate block rect (4 + n) f z

  block-IsAnswer :
      (block : List ℕ) (rect : RectHeader) (n : ℕ) (f : PixelFormat) (z : Option Stream)
      → IsAnswer (block_outcome block rect n f z).0
        × (consumed_by (block_outcome block rect n f z).0 ≤ 4 + n)
  unfolding block_outcome
  block-IsAnswer block rect n f z = elim (Bool-cases (uncompressed_marker block n)) [
    | inl e ↦
        rw (e, block_outcome) (finish_block-IsAnswer rect (4 + n) _, finish_block-le rect (4 + n) _)
    | inr e ↦ rw (e, block_outcome) (compressed-IsAnswer block rect (4 + n) f z)
  ]

  rle_short :
      (payload : List ℕ) (rect : RectHeader) (f : PixelFormat) (z : Option Stream)
      → ltb (length payload) 4 ≡ true
      → ¬ IsAnswer (decode_rle inflate payload rect f z).0
  unfolding decode_rle
  rle_short payload rect f z short = rw (short, decode_rle) (λ h. h)

  rle_missing :
      (payload : List ℕ) (rect : RectHeader) (f : PixelFormat) (z : Option Stream)
      → ltb (length payload) 4 ≡ false
      → (leb (2 ^ 31) (read32_be payload 0) || read32_be payload 0 == 0) ≡ false
      → ltb (max_block rect f) (read32_be payload 0) ≡ false
      → ltb (length payload) (4 + read32_be payload 0) ≡ true
      → ¬ IsAnswer (decode_rle inflate payload rect f z).0
  unfolding decode_rle
  rle_missing payload rect f z e1 e2 e3 e4 = rw (e1, e2, e3, e4, decode_rle) (λ h. h)

  rle_bad :
      (payload : List ℕ) (rect : RectHeader) (f : PixelFormat) (z : Option Stream)
      → ltb (length payload) 4 ≡ false
      → (leb (2 ^ 31) (read32_be payload 0) || read32_be payload 0 == 0) ≡ true
      → decode_rle inflate payload rect f z ≡ (failed_with malformed, z)
  unfolding decode_rle
  rle_bad payload rect f z e1 e2 = rw (e1, e2, decode_rle) refl

  rle_long :
      (payload : List ℕ) (rect : RectHeader) (f : PixelFormat) (z : Option Stream)
      → ltb (length payload) 4 ≡ false
      → (leb (2 ^ 31) (read32_be payload 0) || read32_be payload 0 == 0) ≡ false
      → ltb (max_block rect f) (read32_be payload 0) ≡ true
      → decode_rle inflate payload rect f z ≡ (failed_with malformed, z)
  unfolding decode_rle
  rle_long payload rect f z e1 e2 e3 = rw (e1, e2, e3, decode_rle) refl

  rle_whole :
      (payload : List ℕ) (rect : RectHeader) (f : PixelFormat) (z : Option Stream)
      → ltb (length payload) 4 ≡ false
      → (leb (2 ^ 31) (read32_be payload 0) || read32_be payload 0 == 0) ≡ false
      → ltb (max_block rect f) (read32_be payload 0) ≡ false
      → ltb (length payload) (4 + read32_be payload 0) ≡ false
      → decode_rle inflate payload rect f z
        ≡ block_outcome (take (read32_be payload 0) (drop 4 payload)) rect (read32_be payload 0) f z
  unfolding decode_rle block_outcome
  rle_whole payload rect f z e1 e2 e3 e4 = rw (e1, e2, e3, e4, decode_rle) refl

  rle-Agrees :
      (payload more : List ℕ) (rect : RectHeader) (f : PixelFormat) (z : Option Stream)
      → IsAnswer (decode_rle inflate payload rect f z).0
      → (consumed_by (decode_rle inflate payload rect f z).0 ≤ length payload)
        × (decode_rle inflate (payload ++ more) rect f z ≡ decode_rle inflate payload rect f z)
  rle-Agrees payload more rect f z h = elim (Bool-cases (ltb (length payload) 4)) [
    | inl e1 ↦ absurd (rle_short payload rect f z e1 h)
    | inr e1 ↦
        let all : List ℕ = payload ++ more in
        let n : ℕ = read32_be payload 0 in
        let same : read32_be all 0 ≡ n = read32_be-append payload more (ground (arith, e1)) in
        let l1 : ltb (length all) 4 ≡ false = ground (arith, e1, length-append payload more) in
        elim (Bool-cases (leb (2 ^ 31) n || n == 0)) [
          | inl e2 ↦
              let here = rle_bad payload rect f z e1 e2 in
              (rw here (omega arith), rle_bad all rect f z l1 (rw same e2) ∙ sym here)
          | inr e2 ↦ elim (Bool-cases (ltb (max_block rect f) n)) [
            | inl e3 ↦
                let here = rle_long payload rect f z e1 e2 e3 in
                (
                  rw here (omega arith),
                  rle_long all rect f z l1 (rw same e2) (rw same e3) ∙ sym here,
                )
            | inr e3 ↦ elim (Bool-cases (ltb (length payload) (4 + n))) [
              | inl e4 ↦ absurd (rle_missing payload rect f z e1 e2 e3 e4 h)
              | inr e4 ↦
                  let here = rle_whole payload rect f z e1 e2 e3 e4 in
                  let le : 4 + n ≤ length payload = ground (arith, e4) in
                  let l4 : ltb (length all) (4 + n) ≡ false =
                    ground (arith, e4, length-append payload more) in
                  let there = rle_whole all rect f z l1 (rw same e2) (rw same e3) (rw same l4) in
                  let block : take n (drop 4 all) ≡ take n (drop 4 payload) =
                    slice-append_left 4 n payload more (ground (arith, e4)) in
                  (
                    rw here (
                        omega (arith, le, (block-IsAnswer (take n (drop 4 payload)) rect n f z).1)),
                    there ∙ rw (same, block) (sym here),
                  )
            ]
          ]
        ]
  ]

  rle-IsAnswer :
      (payload : List ℕ) (rect : RectHeader) (f : PixelFormat) (z : Option Stream)
      → longest rect f ≤ length payload
      → IsAnswer (decode_rle inflate payload rect f z).0
  rle-IsAnswer payload rect f z h =
      let n : ℕ = read32_be payload 0 in
      let e1 : ltb (length payload) 4 ≡ false = ground arith in
      elim (Bool-cases (leb (2 ^ 31) n || n == 0)) [
        | inl e2 ↦ rw (rle_bad payload rect f z e1 e2) tt
        | inr e2 ↦ elim (Bool-cases (ltb (max_block rect f) n)) [
          | inl e3 ↦ rw (rle_long payload rect f z e1 e2 e3) tt
          | inr e3 ↦
              let e4 : ltb (length payload) (4 + n) ≡ false = ground (arith, e3) in
              rw (rle_whole payload rect f z e1 e2 e3 e4)
                (block-IsAnswer (take n (drop 4 payload)) rect n f z).0
        ]
      ]

  if-IsAnswer :
      (b : Bool) (r t : Outcome × Option Stream)
      → IsAnswer r.0
      → IsAnswer t.0
      → IsAnswer (if b then r else t).0
  if-IsAnswer true r t h k = h
  if-IsAnswer false r t h k = k

  if-Agrees :
      (n : ℕ) (b : Bool) (r r' t t' : Outcome × Option Stream)
      → Agrees n r r'
      → Agrees n t t'
      → Agrees n (if b then r else t) (if b then r' else t')
  if-Agrees n true r r' t t' h k = h
  if-Agrees n false r r' t t' h k = k

  -- Whatever inflate does, a payload of at least four bytes more than the ceiling for the
  -- rectangle's block is never answered with NeedMore.
  pub try_decode_rect_answers :
      (payload : List ℕ) (rect : RectHeader) (f : PixelFormat) (z : Option Stream)
      → longest rect f ≤ length payload
      → IsAnswer (try_decode_rect inflate payload rect f z).0
  unfolding try_decode_rect
  try_decode_rect_answers payload rect f z h =
      if-IsAnswer (rect.encoding == enc_desktop_size) _ _ tt (
        if-IsAnswer (rect.w == 0 || rect.h == 0) _ _ tt (
          if-IsAnswer (ltb 4096 rect.w || ltb 4096 rect.h) _ _ tt (
            if-IsAnswer (rect.encoding == enc_raw) _ _ (raw-IsAnswer payload rect f h)
              (if-IsAnswer (rect.encoding == enc_rle) _ _ (rle-IsAnswer payload rect f z h) tt))))

  -- Whatever inflate does, an answer of tryDecodeRect other than NeedMore has consumed no more
  -- than the payload, and is the same, with the same stream behind it, when more bytes follow.
  pub try_decode_rect_stream :
      (payload more : List ℕ) (rect : RectHeader) (f : PixelFormat) (z : Option Stream)
      → IsAnswer (try_decode_rect inflate payload rect f z).0
      → (consumed_by (try_decode_rect inflate payload rect f z).0 ≤ length payload)
        × (try_decode_rect inflate (payload ++ more) rect f z
            ≡ try_decode_rect inflate payload rect f z)
  unfolding try_decode_rect
  try_decode_rect_stream payload more rect f z =
      let n : ℕ = length payload in
      if-Agrees n (rect.encoding == enc_desktop_size) _ _ _ _ (λ h. (omega arith, refl))
        (if-Agrees n (rect.w == 0 || rect.h == 0) _ _ _ _ (λ h. (omega arith, refl))
          (if-Agrees n (ltb 4096 rect.w || ltb 4096 rect.h) _ _ _ _ (λ h. (omega arith, refl))
            (if-Agrees n (rect.encoding == enc_raw) _ _ _ _
              (λ h.
                let found = raw-Agrees payload more rect f h in
                (found.0, ap (λ (o : Outcome). (o, z)) found.1))
              (if-Agrees n (rect.encoding == enc_rle) _ _ _ _ (rle-Agrees payload more rect f z)
                (λ h. (omega arith, refl))))))
