-- ===== src/Ider/Session/Keeps.antt =====
-- ider/src/ider_session.cpp: what a write and a failure leave as it is.
use mesh_commander.Redir.Link.{Link, IsLink, is_taken}
use mesh_commander.Ider.State.{
  IderSession, Reason, write_failed, fail, write_frame, write_next, enabled_changed, closed,
}
use mesh_commander.Prelude.{
  ℕ, ◌+◌, ◌%◌, ◌^◌, ◌≡◌, refl, Bool, true, false, ◌||◌, List, ◌∷◌, if◌then◌else◌,
}

-- The bytes received, and the read that is under way.
pub record Keeps {C : Type 0} (s t : IderSession C) : Type 0 where
  pub inbox_eq : t.inbox ≡ s.inbox
  pub flight_eq : t.in_flight ≡ s.in_flight
  pub armed_eq : t.armed ≡ s.armed
  pub remaining_eq : t.remaining ≡ s.remaining
  pub position_eq : t.position ≡ s.position
  pub dev_eq : t.chunk_dev ≡ s.chunk_dev
  pub feature_eq : t.chunk_feature ≡ s.chunk_feature
  pub size_eq : t.chunk_size ≡ s.chunk_size

module _ {C : Type 0} where
  if-Keeps :
      (s : IderSession C) (b : Bool) (t u : IderSession C)
      → Keeps s t
      → Keeps s u
      → Keeps s (if b then t else u)
  if-Keeps s true t u h k = h
  if-Keeps s false t u h k = k

  pub fail-Keeps : (reason : Reason) (s : IderSession C) → Keeps s (fail reason s)
  unfolding fail
  fail-Keeps reason s =
      by_case (s.opened || s.enabled) (record s { is_open = false })
        (record s {
          is_open = false;
          opened = false;
          enabled = false;
          signals = enabled_changed false ∷ s.signals;
        })
        record {
          inbox_eq = refl;
          flight_eq = refl;
          armed_eq = refl;
          remaining_eq = refl;
          position_eq = refl;
          dev_eq = refl;
          feature_eq = refl;
          size_eq = refl;
        }
        record {
          inbox_eq = refl;
          flight_eq = refl;
          armed_eq = refl;
          remaining_eq = refl;
          position_eq = refl;
          dev_eq = refl;
          feature_eq = refl;
          size_eq = refl;
        }
    where
      by_case :
          (b : Bool) (t u : IderSession C)
          → Keeps s t
          → Keeps s u
          → Keeps s (record (if b then u else t) {
            signals = closed reason ∷ (if b then u else t).signals;
          })
      by_case true t u h k = record {
        inbox_eq = k.inbox_eq;
        flight_eq = k.flight_eq;
        armed_eq = k.armed_eq;
        remaining_eq = k.remaining_eq;
        position_eq = k.position_eq;
        dev_eq = k.dev_eq;
        feature_eq = k.feature_eq;
        size_eq = k.size_eq;
      }
      by_case false t u h k = record {
        inbox_eq = h.inbox_eq;
        flight_eq = h.flight_eq;
        armed_eq = h.armed_eq;
        remaining_eq = h.remaining_eq;
        position_eq = h.position_eq;
        dev_eq = h.dev_eq;
        feature_eq = h.feature_eq;
        size_eq = h.size_eq;
      }

  module _ (link : Link C) where
    pub write_next-Keeps :
        (build : ℕ → List ℕ) (s : IderSession C) → Keeps s (write_next link build s)
    unfolding write_next write_frame
    write_next-Keeps build s =
        let w = link.write_bytes (build s.out_sequence) s.client in
        let t : IderSession C = record s {
          client = w.0;
          out_sequence = (s.out_sequence + 1) % 2 ^ 32;
        } in
        let h = fail-Keeps write_failed t in
        if-Keeps s (is_taken w.1) _ (fail write_failed t)
          record {
            inbox_eq = refl;
            flight_eq = refl;
            armed_eq = refl;
            remaining_eq = refl;
            position_eq = refl;
            dev_eq = refl;
            feature_eq = refl;
            size_eq = refl;
          }
          (record {
            inbox_eq = h.inbox_eq;
            flight_eq = h.flight_eq;
            armed_eq = h.armed_eq;
            remaining_eq = h.remaining_eq;
            position_eq = h.position_eq;
            dev_eq = h.dev_eq;
            feature_eq = h.feature_eq;
            size_eq = h.size_eq;
          })

    -- A frame that is taken is what the session has sent.
    pub write_next-taken :
        (sent : C → List (List ℕ)) (laws : IsLink link sent) (build : ℕ → List ℕ)
        (s : IderSession C)
        → is_taken (link.write_bytes (build s.out_sequence) s.client).1 ≡ true
        → ((write_next link build s).is_open ≡ s.is_open)
          × ((write_next link build s).out_sequence ≡ (s.out_sequence + 1) % 2 ^ 32)
          × ((write_next link build s).client
              ≡ (link.write_bytes (build s.out_sequence) s.client).0)
          × (sent (write_next link build s).client ≡ build s.out_sequence ∷ sent s.client)
    unfolding write_next write_frame
    write_next-taken sent laws build s e =
        rw (e, write_next, write_frame)
          (refl, refl, refl, laws.sent-write (build s.out_sequence) s.client e)
