-- ===== src/Redir/Link.antt =====
-- What redir/src/sol_session.cpp and ider/src/ider_session.cpp use of class RedirectionClient
-- (redir/src/redir_client.cpp): its state, compared with Authenticated, and writeRaw.
use mesh_commander.Redir.Client.{
  Client, Settings, Written, whole, part, error, authenticated, state_code, write_result, write_raw,
}
use mesh_commander.Redir.Codec.{Qt}
use mesh_commander.Prelude.{ℕ, ◌≡◌, refl, Bool, true, false, List, ◌∷◌, ◌==◌}

-- writeRaw gives the new client, and what it returns.
pub record Link (C : Type 0) : Type 0 where
  pub is_authenticated : C → Bool
  pub write_bytes : List ℕ → C → C × Written

-- More than 0 bytes were taken.
unfoldable pub is_taken : Written → Bool
is_taken whole = true
is_taken part = true
is_taken error = false

-- `sent` are the frames that were written, the latest first.
pub record IsLink {C : Type 0} (link : Link C) (sent : C → List (List ℕ)) : Type 0 where
  pub authenticated-write :
      (frame : List ℕ) (c : C)
      → link.is_authenticated (link.write_bytes frame c).0 ≡ link.is_authenticated c
  pub sent-write :
      (frame : List ℕ) (c : C)
      → is_taken (link.write_bytes frame c).1 ≡ true
      → sent (link.write_bytes frame c).0 ≡ frame ∷ sent c

module _ (qt : Qt) (set : Settings) (socket : ℕ → List ℕ → Written) (nonces : ℕ → List ℕ) where
  abbrev pub client_link : Link Client
  client_link = record {
    is_authenticated = λ c. state_code c.state == state_code authenticated;
    write_bytes = λ frame c.
        (write_raw qt set socket nonces frame c, write_result qt set socket nonces frame c);
  }

  -- The client is a link.
  pub client_link-IsLink : IsLink client_link (λ c. c.raw_sent)
  unfolding write_raw is_taken
  client_link-IsLink = record { authenticated-write = same_state; sent-write = now_sent }
    where
      same_state :
          (frame : List ℕ) (c : Client)
          → (state_code (write_raw qt set socket nonces frame c).state == state_code authenticated)
            ≡ (state_code c.state == state_code authenticated)
      same_state frame c = by_result (write_result qt set socket nonces frame c) refl
        where
          by_result :
              (w : Written)
              → write_result qt set socket nonces frame c ≡ w
              → (state_code (write_raw qt set socket nonces frame c).state
                  == state_code authenticated)
                ≡ (state_code c.state == state_code authenticated)
          by_result whole e = rw (e, write_raw) refl
          by_result part e = rw (e, write_raw) refl
          by_result error e = rw (e, write_raw) refl

      now_sent :
          (frame : List ℕ) (c : Client)
          → is_taken (write_result qt set socket nonces frame c) ≡ true
          → (write_raw qt set socket nonces frame c).raw_sent ≡ frame ∷ c.raw_sent
      now_sent frame c = by_result (write_result qt set socket nonces frame c) refl
        where
          by_result :
              (w : Written)
              → write_result qt set socket nonces frame c ≡ w
              → is_taken (write_result qt set socket nonces frame c) ≡ true
              → (write_raw qt set socket nonces frame c).raw_sent ≡ frame ∷ c.raw_sent
          by_result whole e = λ h. rw (e, write_raw) refl
          by_result part e = λ h. rw (e, write_raw) refl
          by_result error e = rw (e, is_taken) (λ h. absurd (cc))
