-- ===== src/Redir/Serial.antt =====
-- redir/src/redir_codec.cpp: the frames of serial over LAN, its own part of the file.
use mesh_commander.Prelude.{
  ℕ, ◌+◌, ◌%◌, ◌^◌, not, List, [], ◌∷◌, ◌++◌, Option, none, some, ltb, ◌==◌, if◌then◌else◌, length,
  get_or, take, drop, replicate,
}
use mesh_commander.Wire.{pack16_le, pack32_le, read16_le}
use mesh_commander.Redir.Codec.{first_byte}

pub record SolOpenParams : Type 0 where
  pub max_tx_buffer : ℕ
  pub tx_timeout_ms : ℕ
  pub tx_overflow_timeout_ms : ℕ
  pub rx_timeout_ms : ℕ
  pub rx_flush_timeout_ms : ℕ
  pub heartbeat_ms : ℕ

unfoldable pub build_sol_open : ℕ → SolOpenParams → List ℕ
unfolding pack16_le pack32_le
build_sol_open sequence params =
    0x20
    ∷ 0x00
    ∷ 0x00
    ∷ 0x00
    ∷ (pack32_le sequence
        ++ (pack16_le params.max_tx_buffer
            ++ (pack16_le params.tx_timeout_ms
                ++ (pack16_le params.tx_overflow_timeout_ms
                    ++ (pack16_le params.rx_timeout_ms
                        ++ (pack16_le params.rx_flush_timeout_ms
                            ++ (pack16_le params.heartbeat_ms ++ pack32_le 0)))))))

-- The reply is its status byte.
unfoldable pub try_parse_sol_open_reply : List ℕ → Option (ℕ × ℕ)
try_parse_sol_open_reply buffer =
    if ltb (length buffer) 1
    then none
    else if not (first_byte buffer == 0x21)
    then none
    else if ltb (length buffer) 23
    then none
    else some (get_or buffer 9 0, 23)

unfoldable pub build_sol_settings : ℕ → List ℕ
unfolding pack32_le
build_sol_settings sequence =
    0x27
    ∷ 0x00
    ∷ 0x00
    ∷ 0x00
    ∷ (pack32_le sequence ++ (0x00 ∷ 0x00 ∷ 0x1B ∷ 0x00 ∷ 0x00 ∷ 0x00 ∷ []))

unfoldable pub build_sol_data_to_host : List ℕ → List ℕ
unfolding pack16_le
build_sol_data_to_host payload =
    0x28 ∷ (replicate 7 0 ++ (pack16_le (length payload % 2 ^ 16) ++ payload))

unfoldable pub try_parse_sol_display_data : List ℕ → Option (List ℕ × ℕ)
try_parse_sol_display_data buffer =
    let n : ℕ = read16_le buffer 8 in
    if ltb (length buffer) 1
    then none
    else if not (first_byte buffer == 0x2A)
    then none
    else if ltb (length buffer) 10
    then none
    else if ltb (length buffer) (10 + n)
    then none
    else some (take n (drop 10 buffer), 10 + n)

unfoldable pub build_sol_keepalive : List ℕ
build_sol_keepalive = 0x2B ∷ replicate 7 0
