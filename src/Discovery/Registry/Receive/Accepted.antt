-- ===== src/Discovery/Registry/Receive/Accepted.antt =====
-- native/iroh_discovery/src/lib.rs: the messages that `receive` accepts.
use nerves_p2p.Prelude.{
  ℕ, ◌≤◌, ◌<◌, ◌≡◌, ◌≢◌, sym, ap, ◌∙◌, true, ◌++◌, length, some, is_some, ok, arith,
}
use nerves_p2p.Prelude.Bytes.{Bytes, Eq_bytes, bytes_eq_iff}
use nerves_p2p.Discovery.Types.{
  EndpointId, Keys, Message, message_endpoint_id, message_fleet_id, max_message_size,
}
use nerves_p2p.Discovery.Decode.{decode_envelope, decode_message}
use nerves_p2p.Discovery.Authorization
use nerves_p2p.Discovery.Store.{SequenceStore, StoreLaws}
use nerves_p2p.Discovery.Registry.{
  Registry, domain, when, check_rate, enrolled_name, receive_message, receive,
}
use nerves_p2p.Discovery.Registry.Receive.Gives.{
  Gives, bind-Gives, lift-Gives, asks-Gives, refuse-Gives,
}
use nerves_p2p.Discovery.Registry.Receive.Steps.{
  sequence_of, applied, ValidMessage, enrolled_name-Gives, accept-Gives, when-Gives,
}

module _ (k : Keys) {S : Type 0} (ops : SequenceStore S) where
  -- What is so of an accepted message, and of the registry after it.
  pub record IsReceived (body signature : Bytes) (message : Message) (now : ℕ) (r t : Registry S)
      : Type 0 where
    pub name : Bytes
    pub previous : ℕ
    pub fleet : message_fleet_id message ≡ r.fleet_id
    pub signed : k.verify (message_endpoint_id message) (domain ++ body) signature ≡ true
    pub enrolled : Authorization.node_name t.authorization (message_endpoint_id message) ≡ some name
    pub valid : ValidMessage message name
    pub before : ops.load r.store (message_endpoint_id message) ≡ ok previous
    pub above : previous < sequence_of message
    pub stored : ops.load t.store (message_endpoint_id message) ≡ ok (sequence_of message)
    pub others :
        (i : EndpointId) → message_endpoint_id message ≢ i → ops.load t.store i ≡ ops.load r.store i
    pub recorded : t.records ≡ applied message now r.records

  -- The envelope of such a message.
  pub record IsAccepted (envelope : Bytes) (now : ℕ) (r t : Registry S) : Type 0 where
    pub body : Bytes
    pub signature : Bytes
    pub message : Message
    pub small : length envelope ≤ max_message_size
    pub opened : decode_envelope k envelope ≡ ok (body, signature)
    pub decoded : decode_message k body ≡ ok message
    pub received : IsReceived body signature message now r t

  receive_message-IsReceived :
      StoreLaws ops
      → (body signature : Bytes) (m : Message) (now : ℕ) (r t : Registry S)
      → Gives (receive_message k ops body signature m now) r tt t
      → IsReceived body signature m now r t
  unfolding receive_message
  receive_message-IsReceived laws body signature m now r t h =
      let e = message_endpoint_id m in
      let o = Authorization.node_name r.authorization e in
      let (fleet, h1) = refuse-Gives _ _ _ r tt t (asks-Gives _ _ r tt t h) in
      let (allowed, h2) =
        refuse-Gives _ _ _ r tt t (asks-Gives _ _ r tt t (asks-Gives _ _ r tt t h1)) in
      let (u, limited, h3) = bind-Gives _ _ r tt t h2 in
      let s = (when (is_some o) (check_rate e now) r).1 in
      let (first, table) = when-Gives k ops (is_some o) e now r in
      let (signed, h4) = refuse-Gives _ _ _ s tt t h3 in
      let (name, named, h5) = bind-Gives _ _ s tt t h4 in
      let q = (enrolled_name k ops o m r.enrollment e now s).1 in
      let (second, enrolled) =
        enrolled_name-Gives k ops o m r.enrollment now s q name
          (ap (λ x. Authorization.node_name x e) table) (ap (λ x. (x, q)) named) in
      let (previous, valid, before, above, stored, recorded, kept, others) =
        accept-Gives k ops laws m name now q t h5 in
      let held : q.store ≡ r.store = second.store ∙ first.store in
      record {
        name = name;
        previous = previous;
        fleet = (bytes_eq_iff (message_fleet_id m) r.fleet_id).0 (ground (arith, fleet));
        signed = ground (arith, signed);
        enrolled = ap (λ x. Authorization.node_name x e) kept ∙ enrolled;
        valid = valid;
        before = ap (λ x. ops.load x e) (sym held) ∙ before;
        above = above;
        stored = stored;
        others = λ i ne. others i ne ∙ ap (λ x. ops.load x i) held;
        recorded = recorded ∙ ap (applied m now) (second.records ∙ first.records);
      }

  -- Over any lawful store, a message that `receive` accepts came in a well-formed envelope of an
  -- allowed size, is of the registry's fleet, is signed by its endpoint, which is then enrolled, for
  -- an announcement under the name that it gives, and is valid; its sequence exceeds the one stored
  -- for the endpoint and is stored, and no other endpoint's is changed; and of the records only that
  -- endpoint's has changed, as the message says.
  pub receive-IsAccepted :
      StoreLaws ops
      → (envelope : Bytes) (now : ℕ) (r : Registry S) → (receive k ops envelope now r).0 ≡ ok tt
      → IsAccepted envelope now r (receive k ops envelope now r).1
  unfolding receive
  receive-IsAccepted laws envelope now r h =
      let t = (receive k ops envelope now r).1 in
      let (small, h1) = refuse-Gives _ _ _ r tt t (ap (λ x. (x, t)) h) in
      let (p, opened, h2) = lift-Gives _ _ r tt t h1 in
      let (m, decoded, h3) = lift-Gives _ _ r tt t h2 in
      record {
        body = p.0;
        signature = p.1;
        message = m;
        small = ground (arith, small);
        opened = opened;
        decoded = decoded;
        received = receive_message-IsReceived laws p.0 p.1 m now r t h3;
      }

  -- The decoders leave no choice of the message.
  pub message-IsAccepted :
      (envelope : Bytes) (now : ℕ) (r t : Registry S) (body signature : Bytes) (m : Message)
      → (p : IsAccepted envelope now r t) → decode_envelope k envelope ≡ ok (body, signature)
      → decode_message k body ≡ ok m
      → p.message ≡ m
  message-IsAccepted envelope now r t body signature m p opened decoded =
      let bodies : p.body ≡ body = ground (arith, sym p.opened ∙ opened) in
      ground (arith, sym p.decoded ∙ ap (decode_message k) bodies ∙ decoded)
