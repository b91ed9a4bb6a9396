-- ===== src/Kvm/Rects/Overflow.antt =====
-- kvm/src/kvm_codec.cpp: a run whose length no int holds.
use mesh_commander.Kvm.Rects.Wire.{wire_bytes}
use mesh_commander.Kvm.Codec.{rgb565, rgb332, bytes_per_pixel, PixelFormat}
use mesh_commander.Prelude.{
  length, length-append, length-replicate, ◌/◌, ◌%◌, ◌∷◌, [], ℕ, ◌+◌, ◌^◌, ◌≡◌, List, ◌++◌, arith,
  replicate,
}

-- A pixel and `k` bytes that all say that another follows.
abbrev pub endless_run : PixelFormat → ℕ → ℕ → List ℕ → List ℕ
endless_run f v k rest = wire_bytes f v ++ (replicate k 0xFF ++ rest)

-- A word, the high byte first.
abbrev pub be_bytes : ℕ → List ℕ
be_bytes n = n / 2 ^ 24 ∷ n / 2 ^ 16 % 256 ∷ n / 2 ^ 8 % 256 ∷ n % 256 ∷ []

-- A block that is not compressed: the marker with the length behind it, and a subencoding.
abbrev pub plain_block : ℕ → List ℕ → List ℕ
plain_block sub inner =
    let n : ℕ = 1 + length inner in 0x00 ∷ n % 256 ∷ n / 256 % 256 ∷ 0 ∷ 0 ∷ sub ∷ inner

pub length-endless_run :
    (f : PixelFormat) (v k : ℕ) (rest : List ℕ)
    → length (endless_run f v k rest) ≡ bytes_per_pixel f + k + length rest
unfolding bytes_per_pixel
length-endless_run rgb565 v k rest =
    omega (arith, length-append (replicate k 0xFF) rest, length-replicate {A = ℕ} k 0xFF)
length-endless_run rgb332 v k rest =
    omega (arith, length-append (replicate k 0xFF) rest, length-replicate {A = ℕ} k 0xFF)

-- The block with its length in front.
abbrev pub endless_block : PixelFormat → ℕ → ℕ → List ℕ → List ℕ
endless_block f v k rest =
    let inner : List ℕ = endless_run f v k rest in
    be_bytes (6 + length inner) ++ plain_block 128 inner
