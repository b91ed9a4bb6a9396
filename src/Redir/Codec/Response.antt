-- ===== src/Redir/Codec/Response.antt =====
-- The digest response that redir/src/redir_codec.cpp builds, read field by field.
use mathlib.Core.List.{drop, append_assoc, append-nil}
use mesh_commander.Prelude.{
  ℕ, zero, suc, ◌*◌, ◌%◌, ◌^◌, ◌≤◌, ◌<◌, ◌≡◌, refl, sym, ap, ◌∙◌, List, [], ◌∷◌, ◌++◌, Option, none,
  some, map, length, get_or, arith, length-append,
}
use mesh_commander.Wire.{pack32_le, read32_le, read32_le-pack32_le}
use mesh_commander.Redir.Codec.{
  build_digest_response, build_auth_frame, Qt, read_lp, auth_digest_with_qop,
}
use mesh_commander.Redir.Codec.Auth.{lp_field, read_lp-field}

-- The next `n` fields, and what is left.
pub read_fields : ℕ → List ℕ → Option (List (List ℕ) × List ℕ)
read_fields zero payload = some ([], payload)
read_fields (suc n) payload = elim (read_lp payload) [
  | none ↦ none
  | some (field, rest) ↦ elim (read_fields n rest) [
    | none ↦ none
    | some (fields, left) ↦ some (field ∷ fields, left)
  ]
]

-- Fields one after the other.
abbrev pub lp_fields : List (List ℕ) → List ℕ
lp_fields [] = []
lp_fields (b ∷ fields) = lp_field b ++ lp_fields fields

abbrev pub AllShort : List (List ℕ) → Type 0
AllShort [] = Unit {0}
AllShort (b ∷ fields) = (length b < 256) × AllShort fields

read_fields-lp_fields :
    (fields : List (List ℕ)) (n : ℕ)
    → AllShort fields
    → n ≡ length fields
    → read_fields n (lp_fields fields) ≡ some (fields, [])
unfolding read_fields
read_fields-lp_fields [] zero a e = refl
read_fields-lp_fields [] (suc n) a e = absurd (omega arith)
read_fields-lp_fields (b ∷ fields) zero a e = absurd (omega arith)
read_fields-lp_fields (b ∷ fields) (suc n) a e = ground (
  arith,
  read_lp-field b (lp_fields fields) a.0,
  read_fields-lp_fields fields n a.1 (omega arith),
)

lp_fields-length :
    (fields : List (List ℕ)) → AllShort fields → length (lp_fields fields) ≤ 256 * length fields
lp_fields-length [] a = omega arith
lp_fields-length (b ∷ fields) a =
    omega (arith, length-append b (lp_fields fields), lp_fields-length fields a.1)

-- A frame with a body below 4 GB says how long its body is.
auth_frame_layout :
    (type : ℕ) (payload : List ℕ)
    → length payload < 2 ^ 32
    → let frame = build_auth_frame type payload in
      (get_or frame 4 0 ≡ type) × (read32_le frame 5 ≡ length payload) × (drop 9 frame ≡ payload)
unfolding build_auth_frame read32_le pack32_le
auth_frame_layout type payload h =
    (refl, read32_le-pack32_le (length payload % 2 ^ 32) [] (omega arith) ∙ omega arith, refl)

module _ (qt : Qt) (user realm nonce auth_uri cnonce nc response qop : List ℕ) where
  -- The eight fields of a response, as bytes.
  abbrev pub digest_fields : List (List ℕ)
  digest_fields =
      map qt.to_utf8 (user ∷ realm ∷ nonce ∷ auth_uri ∷ cnonce ∷ nc ∷ response ∷ qop ∷ [])

  digest_payload :
      build_digest_response qt user realm nonce auth_uri cnonce nc response qop
      ≡ build_auth_frame auth_digest_with_qop (lp_fields digest_fields)
  unfolding build_digest_response
  digest_payload = simp (append_assoc, append-nil)

  -- When the eight texts are below 256 bytes each in UTF-8, a digest response is a frame of
  -- type 4 that says how long its body is, and the body reads as those eight fields in order
  -- and nothing more.
  pub build_digest_response_fields :
      AllShort digest_fields
      → let frame = build_digest_response qt user realm nonce auth_uri cnonce nc response qop in
        (get_or frame 4 0 ≡ auth_digest_with_qop)
        × (read32_le frame 5 ≡ length (drop 9 frame))
        × (read_fields 8 (drop 9 frame) ≡ some (digest_fields, []))
  build_digest_response_fields a = (
    ap (λ (f : List ℕ). get_or f 4 0) digest_payload ∙ laid.0,
    ap (λ (f : List ℕ). read32_le f 5) digest_payload ∙ laid.1 ∙ sym (ap length body),
    ap (read_fields 8) body ∙ read_fields-lp_fields digest_fields 8 a refl,
  )
    where
      laid :
          let frame = build_auth_frame auth_digest_with_qop (lp_fields digest_fields) in
          (get_or frame 4 0 ≡ auth_digest_with_qop)
          × (read32_le frame 5 ≡ length (lp_fields digest_fields))
          × (drop 9 frame ≡ lp_fields digest_fields)
      laid =
          auth_frame_layout auth_digest_with_qop (lp_fields digest_fields)
            (omega (arith, lp_fields-length digest_fields a))

      body :
          drop 9 (build_digest_response qt user realm nonce auth_uri cnonce nc response qop)
          ≡ lp_fields digest_fields
      body = ap (drop 9) digest_payload ∙ laid.2
