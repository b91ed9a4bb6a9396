-- ===== src/Kvm/Rects/Lengths.antt =====
-- kvm/src/kvm_codec.cpp: how long a run gets, by the bytes that are read for it.
use mesh_commander.Kvm.Tiles.{
  RunLength, run_of, run_missing, run_overflow, pull_pixels, pull_pixel, read_run, index_run,
}
use mesh_commander.Kvm.Codec.{rgb565, rgb332, PixelFormat}
use mesh_commander.Prelude.{
  bit_and, ℕ, zero, suc, ◌+◌, ◌^◌, ◌≤◌, ◌⊎◌, ◌≡◌, refl, inl, inr, List, [], ◌∷◌, some, leb, ◌==◌,
  Bool-cases, Option-cases, arith,
}

-- The bytes, added up.
abbrev pub sum_of : List ℕ → ℕ
sum_of [] = 0
sum_of (v ∷ p) = v + sum_of p

-- The three ways that a run's length is read.
pub RunLength-cases :
    (x : RunLength)
    → (x ≡ run_missing) ⊎ ((x ≡ run_overflow) ⊎ ((n : ℕ) × (q : List ℕ) × (x ≡ run_of n q)))
RunLength-cases run_missing = inl refl
RunLength-cases run_overflow = inr (inl refl)
RunLength-cases (run_of n q) = inr (inr (n, q, refl))

-- A length that is read is made of the start and of bytes that are gone.
pub read_run-le :
    (run : ℕ) (p : List ℕ) (n : ℕ) (q : List ℕ)
    → read_run run p ≡ run_of n q
    → (run ≤ n) × (n + sum_of q ≤ run + sum_of p)
unfolding read_run
read_run-le run [] n q h = absurd (cc)
read_run-le run (delta ∷ p) n q h = elim (Bool-cases (leb (2 ^ 31) (run + delta))) [
  | inl e ↦ absurd (ground (arith, e))
  | inr e ↦ elim (Bool-cases (delta == 0xFF)) [
    | inl e' ↦ ground (arith, e, e', read_run-le (run + delta) p n q)
    | inr e' ↦ ground (arith, e, e')
  ]
]

pub read_run_overflows :
    (run : ℕ) (p : List ℕ) → read_run run p ≡ run_overflow → 2 ^ 31 ≤ run + sum_of p
unfolding read_run
read_run_overflows run [] h = absurd (cc)
read_run_overflows run (delta ∷ p) h = elim (Bool-cases (leb (2 ^ 31) (run + delta))) [
  | inl e ↦ ground (arith, e)
  | inr e ↦ elim (Bool-cases (delta == 0xFF)) [
    | inl e' ↦ ground (arith, e, e', read_run_overflows (run + delta) p)
    | inr e' ↦ absurd (ground (arith, e, e'))
  ]
]

pub index_run-le :
    (index : ℕ) (p : List ℕ) (n : ℕ) (q : List ℕ)
    → index_run index p ≡ run_of n q
    → (1 ≤ n) × (n + sum_of q ≤ 1 + sum_of p)
unfolding index_run
index_run-le index p n q h = elim (Bool-cases (bit_and index 0x80 == 0)) [
  | inl e ↦ ground (arith, e)
  | inr e ↦ ground (arith, e, read_run-le 1 p n q)
]

pub index_run_overflows :
    (index : ℕ) (p : List ℕ) → index_run index p ≡ run_overflow → 2 ^ 31 ≤ 1 + sum_of p
unfolding index_run
index_run_overflows index p h = elim (Bool-cases (bit_and index 0x80 == 0)) [
  | inl e ↦ absurd (ground (arith, e))
  | inr e ↦ ground (arith, e, read_run_overflows 1 p)
]

pub pull_pixel-sum_of :
    (f : PixelFormat) (p : List ℕ) {c : ℕ} {q : List ℕ}
    → pull_pixel f p ≡ some (c, q)
    → sum_of q ≤ sum_of p
unfolding pull_pixel
pull_pixel-sum_of rgb565 [] h = absurd (cc)
pull_pixel-sum_of rgb565 (a ∷ []) h = absurd (cc)
pull_pixel-sum_of rgb565 (a ∷ b ∷ p) h = ground arith
pull_pixel-sum_of rgb332 [] h = absurd (cc)
pull_pixel-sum_of rgb332 (a ∷ p) h = ground arith

pub pull_pixels-sum_of :
    (f : PixelFormat) (n : ℕ) (p : List ℕ) {cs q : List ℕ}
    → pull_pixels f n p ≡ some (cs, q)
    → sum_of q ≤ sum_of p
unfolding pull_pixels
pull_pixels-sum_of f zero p h = ground arith
pull_pixels-sum_of f (suc n) p h = elim (Option-cases (pull_pixel f p)) [
  | inl e ↦ absurd (ground (arith, e))
  | inr ((c, q), e) ↦ elim (Option-cases (pull_pixels f n q)) [
    | inl e' ↦ absurd (ground (arith, e, e'))
    | inr ((cs, r), e') ↦
        ground (arith, e, e', pull_pixel-sum_of f p e, pull_pixels-sum_of f n q e')
  ]
]
