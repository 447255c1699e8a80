-- ===== src/Client/Control/Handshake.antt =====
-- The loops of the START and COMPLETE handshakes in `run_client`, src/client.cpp.
use ee542_lab2_fast_reliable.Common.{
  ℕ, zero, suc, ◌≤◌, ◌≡◌, ◌≢◌, ◌⊎◌, inl, inr, min, refl, Option, none, some, arith, All, length,
  Result, ok, err, Exception,
}
use ee542_lab2_fast_reliable.Net.{Endpoint, Datagram}
use ee542_lab2_fast_reliable.Protocol.Types.{PacketType, PacketView}
use ee542_lab2_fast_reliable.Client.Control.{Attempt, Attempted, again, handshake}

-- What the attempts have sent, and how many they were.
record IsBounded {ℓ} {A : Type ℓ} (datagram : Datagram) (attempts : ℕ) (r : Attempted A)
    : Type ℓ where
  same : All (λ d. d ≡ datagram) r.sent
  fewer : length r.sent ≤ attempts
  some_attempt : min 1 attempts ≤ length r.sent
  all : (length r.sent ≡ attempts) ⊎ (r.result ≢ ok none)

module _ {ℓ} {A : Type ℓ} (server : Endpoint) (type : PacketType) (session_id : ℕ)
    (accept : PacketView → Result Exception (Option A)) (datagram : Datagram) where
  again-IsBounded :
      (attempts : ℕ) (response : Result Exception (Option A)) (later : Attempted A)
      → IsBounded datagram attempts later
      → IsBounded datagram (suc attempts) (again datagram response later)
  unfolding again
  again-IsBounded attempts (ok (some a)) later h = record {
    same = (refl, tt);
    fewer = omega arith;
    some_attempt = omega arith;
    all = inr (λ e. absurd (cc e));
  }
  again-IsBounded attempts (err x) later h = record {
    same = (refl, tt);
    fewer = omega arith;
    some_attempt = omega arith;
    all = inr (λ e. absurd (cc e));
  }
  again-IsBounded attempts (ok none) later h = record {
    same = (refl, h.same);
    fewer = omega (arith, h.fewer);
    some_attempt = omega arith;
    all = elim h.all [ inl e ↦ inl (omega (arith, e)) | inr e ↦ inr e ];
  }

  handshake-IsBounded :
      (attempts : ℕ) (attempt : ℕ → Attempt)
      → IsBounded datagram attempts
          (handshake server type session_id accept datagram attempts attempt)
  unfolding handshake
  handshake-IsBounded zero attempt = record {
    same = tt;
    fewer = omega arith;
    some_attempt = omega arith;
    all = inl refl;
  }
  handshake-IsBounded (suc attempts) attempt =
      again-IsBounded attempts _ _ (handshake-IsBounded attempts attempt)

  -- A handshake with a bound on its attempts sends only copies of its datagram, at least one unless
  -- the bound is 0, and at most as many as the bound; if it sends fewer than that, it does not end
  -- for want of a response.
  pub handshake_attempts :
      (attempts : ℕ) (attempt : ℕ → Attempt)
      → let r = handshake server type session_id accept datagram attempts attempt in
        All (λ d. d ≡ datagram) r.sent
        × (length r.sent ≤ attempts)
        × (min 1 attempts ≤ length r.sent)
        × ((length r.sent ≡ attempts) ⊎ (r.result ≢ ok none))
  handshake_attempts attempts attempt =
      let h = handshake-IsBounded attempts attempt in (h.same, h.fewer, h.some_attempt, h.all)
