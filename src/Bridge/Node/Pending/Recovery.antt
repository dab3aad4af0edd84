-- ===== src/Bridge/Node/Pending/Recovery.antt =====
-- native/p2p_bridge/src/node.rs: a table of pending responses that is full does not stay so.
use nerves_p2p.Prelude.{
  ℕ, ◌+◌, ◌%◌, ◌≤◌, ◌<◌, ◌^◌, ◌≡◌, refl, [], ◌∷◌, List, some, length, All, Bool, append-nil, arith,
}
use nerves_p2p.Prelude.Bytes.{Bytes, Eq_bytes}
use nerves_p2p.Prelude.HashMap.{HashMap, insert, retain, All-insert, All-remove, All-retain}
use nerves_p2p.Bridge.Net.{Libp2p}
use nerves_p2p.Bridge.Swarm.{View}
use nerves_p2p.Bridge.Events.{inbound_request}
use nerves_p2p.Bridge.Node.{
  Node, Input, response_ttl, channel_id, evict, notify, start, step, on_request, proceed, run,
}
use nerves_p2p.Bridge.Node.Pending.Changes.{same, evicted, answered, inserted, Keeps, run-After}

-- A request of the round came by `latest`.
abbrev pub IsBy : (net : Libp2p) → ℕ → Input net → Type 0
IsBy net latest (Input.request now peer rid body channel) = now ≤ latest
IsBy net latest _ = Unit

module _ (net : Libp2p) (latest : ℕ) where
  abbrev AllBy : ℕ → Node net → Type 0
  AllBy n s = All (λ e. e.1.1 ≤ latest) s.pending_responses

  Keeps-AllBy : Keeps net AllBy (IsBy net latest)
  unfolding evict
  Keeps-AllBy n s t i l q h (same e c) = rw e h
  Keeps-AllBy n s t i l q h (evicted now ei e) = rw e (All-retain _ _ s.pending_responses h)
  Keeps-AllBy n s t i l q h (answered id body ei e) = rw e (All-remove _ s.pending_responses id h)
  Keeps-AllBy n s t i l q h (inserted now channel peer rid body ei room c e) =
      rw e (All-insert _ s.pending_responses _ _ (rw ei at q) h)

  evict_all :
      (now : ℕ) (m : HashMap Bytes (net.ResponseChannel × ℕ))
      → latest + response_ttl ≤ now
      → All (λ e. e.1.1 ≤ latest) m
      → evict net now m ≡ []
  unfolding evict retain
  evict_all now [] l h = refl
  evict_all now ((id, entry) ∷ m) l h = ground (arith, evict_all now m l h.1)

  -- Where all requests so far came by `latest`, in fewer than 2 ^ 64 rounds, a tick sixty seconds
  -- later or after that leaves none waiting, and the request after it is let in and announced, however
  -- many were waiting.
  pub tick-request :
      (auto_dial : Bool) (rounds : List (View net × Input net)) (s : Node net) (v w : View net)
      → (now instant : ℕ) (peer : net.PeerId) (rid request : Bytes) (channel : net.ResponseChannel)
      → length rounds < 2 ^ 64
      → All (λ r. IsBy net latest r.1) rounds
      → (run net auto_dial (start net) rounds).0 ≡ some s
      → latest + response_ttl ≤ now
      → let k = (s.channel_counter + 1) % 2 ^ 64 in
        run net auto_dial s
          ((v, Input.tick now) ∷ (w, Input.request instant peer rid request channel) ∷ [])
        ≡ (
          some (record s {
            pending_responses = (channel_id k, (channel, instant)) ∷ [];
            channel_counter = k;
          }),
          notify net s.event_handler
              (inbound_request net w.allocates peer rid (channel_id k) request),
        )
  unfolding run step proceed on_request start insert
  tick-request d rounds s v w now instant peer rid request channel fits qs r l =
      let after =
        run-After net AllBy (IsBy net latest) d Keeps-AllBy rounds 0 (length rounds) (start net)
          (omega arith) fits qs tt in
      rw (evict_all now s.pending_responses l (rw r at after), append-nil) refl
