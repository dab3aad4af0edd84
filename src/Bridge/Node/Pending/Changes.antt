-- ===== src/Bridge/Node/Pending/Changes.antt =====
-- native/p2p_bridge/src/node.rs: how a round of `swarm_loop` changes its variables, and what holds of
-- a run whose every round keeps it.
use nerves_p2p.Prelude.{
  ℕ, ◌+◌, ◌%◌, ◌^◌, ◌<◌, ◌≡◌, refl, Bool, Bool-cases, Option, none, some, List, [], ◌∷◌, inl, inr,
  length, leb, All, arith,
}
use nerves_p2p.Prelude.Bytes.{Bytes, Eq_bytes}
use nerves_p2p.Prelude.HashMap.{insert, remove}
use nerves_p2p.Bridge.Net.{Libp2p}
use nerves_p2p.Bridge.Commands.{Command}
use nerves_p2p.Bridge.Swarm.{View}
use nerves_p2p.Bridge.Node.{
  Node, Turn, Input, max_pending_responses, channel_id, evict, with_pending, respond, respond_on,
  on_command, on_request, on_response, step, proceed, run,
}

-- What holds after a turn, unless the loop has broken.
abbrev pub After {ℓ κ} : {A : Type ℓ} → (A → Type κ) → Option A → Type κ
After P none = Unit
After P (some t) = P t

module _ (net : Libp2p) where
  pub data Change (s : Node net) (i : Input net) (t : Node net) : Type 0 where
    same :
        t.pending_responses ≡ s.pending_responses
        → t.channel_counter ≡ s.channel_counter
        → Change s i t
    evicted :
        (now : ℕ)
        → i ≡ Input.tick now
        → t ≡ with_pending s (evict net now s.pending_responses)
        → Change s i t
    answered :
        (id body : Bytes)
        → i ≡ Input.command (Command.rpc_send_response id body)
        → t ≡ with_pending s (remove s.pending_responses id)
        → Change s i t
    inserted :
        (now : ℕ) (channel : net.ResponseChannel) (peer : net.PeerId) (rid body : Bytes)
        → i ≡ Input.request now peer rid body channel
        → length s.pending_responses < max_pending_responses
        → t.channel_counter ≡ (s.channel_counter + 1) % 2 ^ 64
        → t.pending_responses
          ≡ insert s.pending_responses (channel_id t.channel_counter) (channel, now)
        → Change s i t

  respond_on-Change :
      (s : Node net) (id body : Bytes) (found : Option (net.ResponseChannel × ℕ))
      → After
          (Change s (Input.command (Command.rpc_send_response id body)))
          (respond_on net s id body found).0
  unfolding respond_on
  respond_on-Change s id body none = same refl refl
  respond_on-Change s id body (some entry) = answered id body refl refl

  module _ (v : View net) (s : Node net) where
    on_command-Change :
        (c : Command net) → After (Change s (Input.command c)) (on_command net v s c).0
    unfolding on_command respond
    on_command-Change (Command.register_event_handler pid) = same refl refl
    on_command-Change (Command.rpc_send_response id body) = respond_on-Change s id body _
    on_command-Change Command.shutdown = tt
    on_command-Change (Command.dial addr) = same refl refl
    on_command-Change _ = same refl refl

    on_request-Change :
        (now : ℕ) (peer : net.PeerId) (rid body : Bytes) (channel : net.ResponseChannel)
        → After
            (Change s (Input.request now peer rid body channel))
            (on_request net v s now peer rid body channel).0
    unfolding on_request
    on_request-Change now peer rid body channel =
        elim (Bool-cases (leb max_pending_responses (length s.pending_responses))) [
          | inl full ↦ rw full (same refl refl)
          | inr room ↦ rw room (inserted now channel peer rid body refl (ground arith) refl refl)
        ]

    pub step-Change :
        (auto_dial : Bool) (i : Input net) → After (Change s i) (step net auto_dial v s i).0
    unfolding step on_response
    step-Change d (Input.tick now) = evicted now refl refl
    step-Change d (Input.command c) = on_command-Change c
    step-Change d Input.closed = tt
    step-Change d (Input.request now peer rid body channel) =
        on_request-Change now peer rid body channel
    step-Change d (Input.response peer rid body) = same refl refl
    step-Change d (Input.mdns_discovered pairs) = same refl refl
    step-Change d Input.mdns_expired = same refl refl
    step-Change d (Input.other event) = same refl refl

  After-map {κ μ} :
      (P : Node net → Type κ) (R : Node net → Type μ) (o : Option (Node net))
      → ((t : Node net) → P t → R t)
      → After P o
      → After R o
  After-map P R none f h = tt
  After-map P R (some t) f h = f t h

  proceed-After {κ μ} :
      (P : Node net → Type κ) (R : Node net → Type μ) (d : Bool) (o : Turn net)
      → (next : Node net → Turn net) → After P o.0
      → ((t : Node net) → P t → After R (next t).0)
      → After R (proceed net d o next).0
  unfolding proceed
  proceed-After P R d (none, effects) next h f = tt
  proceed-After P R d (some t, effects) next h f = f t h

  -- A predicate that counts the rounds, and that every change keeps, holds after a run of fewer than
  -- 2 ^ 64 rounds.
  module _ {κ μ} (P : ℕ → Node net → Type κ) (Q : Input net → Type μ) where
    abbrev pub Keeps : Type (κ ⊔ μ)
    Keeps =
        (n : ℕ) (s t : Node net) (i : Input net)
        → n + 1 < 2 ^ 64
        → Q i
        → P n s
        → Change s i t
        → P (n + 1) t

    pub run-After :
        (d : Bool)
        → Keeps
        → (rounds : List (View net × Input net)) (n m : ℕ) (s : Node net) → n + length rounds ≡ m
        → m < 2 ^ 64
        → All (λ r. Q r.1) rounds
        → P n s
        → After (P m) (run net d s rounds).0
    unfolding run
    run-After d keeps [] n m s e l qs p = let e' : n ≡ m = omega arith in rw (← e') p
    run-After d keeps ((v, i) ∷ rounds) n m s e l qs p =
        proceed-After (P (n + 1)) (P m) d (step net d v s i) (λ t. run net d t rounds)
          (After-map (Change s i) (P (n + 1)) _ (λ t. keeps n s t i (omega arith) qs.0 p)
            (step-Change v s d i))
          (λ t pt. run-After d keeps rounds (n + 1) m t (omega arith) l qs.1 pt)
