-- ===== src/Bridge/Node/Pending/Answers.antt =====
-- native/p2p_bridge/src/node.rs: a request that was let in waits until it is answered or sixty seconds
-- are over, and is answered once.
use nerves_p2p.Prelude.{
  ℕ, ◌+◌, ◌-◌, ◌%◌, ◌≤◌, ◌<◌, ◌^◌, ◌≡◌, ◌≢◌, refl, sym, ap, false, [], ◌∷◌, List, Option, none,
  some, Option-cases, length, All, All_of, Bool, Bool-cases, inl, inr, leb, ◌==◌, arith,
}
use nerves_p2p.Prelude.Bytes.{Bytes, Eq_bytes, bytes_eq_iff, bytes_eq_refl}
use nerves_p2p.Prelude.Decimal.{decimal_injective}
use nerves_p2p.Prelude.HashMap.{
  HashMap, get, insert, remove, get-insert, get-remove, get-retain-none, get-retain-some, All-get,
}
use nerves_p2p.Bridge.Net.{Libp2p}
use nerves_p2p.Bridge.Commands.{Command}
use nerves_p2p.Bridge.Swarm.{View, Effect, send_response}
use nerves_p2p.Bridge.Node.{
  Node, Input, max_pending_responses, response_ttl, with_pending, channel_id, evict, run, step,
  on_command, respond, respond_on, on_request,
}
use nerves_p2p.Bridge.Node.Pending.Changes.{same, evicted, answered, inserted, Keeps, run-After}
use nerves_p2p.Bridge.Node.Pending.Table.{IsPending}

pub channel_id_injective : (j k : ℕ) → channel_id j ≡ channel_id k → j ≡ k
unfolding channel_id
channel_id_injective j k e = decimal_injective j k (cc e)

-- The round neither answers the id nor is a tick when the entry of the instant `created` is over.
abbrev pub Spares : (net : Libp2p) → Bytes → ℕ → Input net → Type 0
Spares net id created (Input.tick now) = now - created < response_ttl
Spares net id created (Input.command (Command.rpc_send_response other body)) = other ≢ id
Spares net id created _ = Unit

module _ (net : Libp2p) (k : ℕ) where
  -- What waits under the id of request `k`, which was let in.
  pub record Finds (o : Option (net.ResponseChannel × ℕ)) (n : ℕ) (s : Node net) : Type 0 where
    pub found : get s.pending_responses (channel_id k) ≡ o
    pub let_in : k ≤ s.channel_counter
    pub counted : s.channel_counter ≤ n

  -- Nothing has to be spared where nothing waits.
  abbrev pub Allows : Option (net.ResponseChannel × ℕ) → Input net → Type 0
  Allows none i = Unit
  Allows (some entry) i = Spares net (channel_id k) entry.1 i

  -- A later request gets another id.
  other_id : (c : ℕ) → k < c → (channel_id c == channel_id k) ≡ false
  other_id c l = elim (Bool-cases (channel_id c == channel_id k)) [
    | inl e ↦ absurd (omega (arith, channel_id_injective c k ((bytes_eq_iff _ _).0 e)))
    | inr e ↦ e
  ]

  get-evict :
      (o : Option (net.ResponseChannel × ℕ)) (m : HashMap Bytes (net.ResponseChannel × ℕ)) (now : ℕ)
      → Allows o (Input.tick now)
      → get m (channel_id k) ≡ o
      → get (evict net now m) (channel_id k) ≡ o
  unfolding evict
  get-evict none m now a f = get-retain-none _ m _ f
  get-evict (some entry) m now a f = get-retain-some _ m _ entry f (ground arith)

  get-answered :
      (o : Option (net.ResponseChannel × ℕ)) (m : HashMap Bytes (net.ResponseChannel × ℕ))
      → (id body : Bytes) → Allows o (Input.command (Command.rpc_send_response id body))
      → get m (channel_id k) ≡ o
      → get (remove m id) (channel_id k) ≡ o
  get-answered none m id body a f = ground (arith, get-remove m id (channel_id k))
  get-answered (some entry) m id body a f =
      ground (arith, get-remove m id (channel_id k), (bytes_eq_iff id (channel_id k)).0)

  Keeps-Finds : (o : Option (net.ResponseChannel × ℕ)) → Keeps net (Finds o) (Allows o)
  Keeps-Finds o n s t i l q f (same e c) = record {
    found = rw e f.found;
    let_in = rw c f.let_in;
    counted = rw c (omega (arith, f.counted));
  }
  Keeps-Finds o n s t i l q f (evicted now ei e) = rw e record {
    found = get-evict o s.pending_responses now (rw ei at q) f.found;
    let_in = f.let_in;
    counted = omega (arith, f.counted);
  }
  Keeps-Finds o n s t i l q f (answered id body ei e) = rw e record {
    found = get-answered o s.pending_responses id body (rw ei at q) f.found;
    let_in = f.let_in;
    counted = omega (arith, f.counted);
  }
  Keeps-Finds o n s t i l q f (inserted now channel peer rid body ei room c e) =
      let later : k < t.channel_counter = omega (arith, f.let_in, f.counted) in
      record {
        found = rw e (
            rw
              (
                get-insert s.pending_responses (channel_id t.channel_counter) (channel, now)
                    (channel_id k),
                other_id t.channel_counter later,
              )
              f.found);
        let_in = omega (arith, f.let_in);
        counted = omega (arith, f.counted);
      }

module _ (net : Libp2p) (auto_dial : Bool) where
  let_in_lem :
      (v : View net) (s t : Node net) (n now : ℕ) (peer : net.PeerId) (rid request : Bytes)
      → (channel : net.ResponseChannel) → s.channel_counter ≤ n
      → n + 1 < 2 ^ 64
      → length s.pending_responses < max_pending_responses
      → (step net auto_dial v s (Input.request now peer rid request channel)).0 ≡ some t
      → Finds net t.channel_counter (some (channel, now)) (n + 1) t
  unfolding step on_request
  let_in_lem v s t n now peer rid request channel c l room e =
      let slot : leb max_pending_responses (length s.pending_responses) ≡ false = ground arith in
      let t' : t ≡ record s {
        pending_responses =
            insert s.pending_responses (channel_id ((s.channel_counter + 1) % 2 ^ 64))
              (channel, now);
        channel_counter = (s.channel_counter + 1) % 2 ^ 64;
      } =
        cc (rw slot at e) in
      rw t' record {
        found = ground (
          arith,
          get-insert s.pending_responses (channel_id ((s.channel_counter + 1) % 2 ^ 64))
              (channel, now) (channel_id ((s.channel_counter + 1) % 2 ^ 64)),
          bytes_eq_refl (channel_id ((s.channel_counter + 1) % 2 ^ 64)),
        );
        let_in = omega arith;
        counted = omega arith;
      }

  respond_found :
      (w : View net) (u : Node net) (id body : Bytes) (channel : net.ResponseChannel) (created : ℕ)
      → get u.pending_responses id ≡ some (channel, created)
      → (step net auto_dial w u (Input.command (Command.rpc_send_response id body))).1
        ≡ send_response channel body ∷ []
  unfolding step on_command respond respond_on
  respond_found w u id body channel created f = rw f refl

  -- A request that is let in after `n` rounds waits through all rounds that follow, if none of them
  -- answers its id, none is a tick sixty seconds after it or later, and fewer than 2 ^ 64 rounds have
  -- passed: the answer then goes to its very channel.
  pub request-respond :
      (v : View net) (s t u : Node net) (n now : ℕ)
      → (peer : net.PeerId) (rid request body : Bytes) (channel : net.ResponseChannel)
      → (rounds : List (View net × Input net)) (w : View net) → IsPending net n s
      → (n + 1) + length rounds < 2 ^ 64
      → length s.pending_responses < max_pending_responses
      → (step net auto_dial v s (Input.request now peer rid request channel)).0 ≡ some t
      → All (λ r. Spares net (channel_id t.channel_counter) now r.1) rounds
      → (run net auto_dial t rounds).0 ≡ some u
      → (step net auto_dial w u
          (Input.command (Command.rpc_send_response (channel_id t.channel_counter) body))).1
        ≡ send_response channel body ∷ []
  request-respond v s t u n now peer rid request body channel rounds w p fits room e qs r =
      let f = let_in_lem v s t n now peer rid request channel p.counted (omega arith) room e in
      let k = t.channel_counter in
      let o = some (channel, now) in
      let after =
        run-After net (Finds net k o) (Allows net k o) auto_dial (Keeps-Finds net k o) rounds
          (n + 1) (n + 1 + length rounds) t refl fits qs f in
      let g : Finds net k o (n + 1 + length rounds) u = rw r at after in
      respond_found w u _ body channel now g.found

  let_go :
      (v : View net) (s t : Node net) (id body : Bytes) (calls : List (Effect net))
      → step net auto_dial v s (Input.command (Command.rpc_send_response id body)) ≡ (some t, calls)
      → calls ≢ []
      → (entry : net.ResponseChannel × ℕ) × ((get s.pending_responses id ≡ some entry)
          × (t ≡ with_pending s (remove s.pending_responses id)))
  unfolding step on_command respond respond_on
  let_go v s t id body calls e some_call = elim (Option-cases (get s.pending_responses id)) [
    | inl nothing ↦ absurd (some_call (sym (ap (λ r. r.1) (rw nothing at e))))
    | inr (entry, found) ↦ (entry, (found, cc (ap (λ r. r.0) (rw found at e))))
  ]

  respond_none :
      (w : View net) (u : Node net) (id body : Bytes)
      → get u.pending_responses id ≡ none
      → step net auto_dial w u (Input.command (Command.rpc_send_response id body)) ≡ (some u, [])
  unfolding step on_command respond respond_on
  respond_none w u id body f = rw f refl

  -- Once an answer under an id has gone out after `n` rounds, no later answer under that id has any
  -- effect, whatever the rounds between, while fewer than 2 ^ 64 have passed.
  pub respond_once :
      (v w : View net) (s t u : Node net) (n : ℕ) (id body later : Bytes)
      → (calls : List (Effect net)) (rounds : List (View net × Input net)) → IsPending net n s
      → n + length rounds < 2 ^ 64
      → step net auto_dial v s (Input.command (Command.rpc_send_response id body)) ≡ (some t, calls)
      → calls ≢ []
      → (run net auto_dial t rounds).0 ≡ some u
      → step net auto_dial w u (Input.command (Command.rpc_send_response id later)) ≡ (some u, [])
  respond_once v w s t u n id body later calls rounds p fits e some_call r =
      let (entry, (found, t')) = let_go v s t id body calls e some_call in
      let (k, (is_k, (_, below))) = All-get _ s.pending_responses id p.ids found in
      let f : Finds net k none n t = rw t' record {
        found = rw (is_k) (
            ground (
              arith,
              get-remove s.pending_responses (channel_id k) (channel_id k),
              bytes_eq_refl (channel_id k),
            ));
        let_in = below;
        counted = p.counted;
      } in
      let after =
        run-After net (Finds net k none) (Allows net k none) auto_dial (Keeps-Finds net k none)
          rounds n (n + length rounds) t refl fits (All_of _ rounds (λ q. tt)) f in
      let g : Finds net k none (n + length rounds) u = rw r at after in
      respond_none w u id later (rw is_k g.found)
