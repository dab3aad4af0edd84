-- ===== src/Discovery/Registry/Receive/Replay.antt =====
-- native/iroh_discovery/src/lib.rs: the registry over time. The steps are its public methods that
-- change it, in any order and with any arguments.
use nerves_p2p.Prelude.{ℕ, ◌<◌, ◌≡◌, ◌≢◌, refl, sym, ap, ◌∙◌, ok, arith}
use nerves_p2p.Prelude.Bytes.{Bytes}
use nerves_p2p.Discovery.Types.{EndpointId, Keys, Message, message_endpoint_id}
use nerves_p2p.Discovery.Decode.{decode_envelope, decode_message}
use nerves_p2p.Discovery.Store.{SequenceStore, StoreLaws}
use nerves_p2p.Discovery.Registry.{
  Registry, EnrollmentPolicy, with_enrollment_policy, authorize, revoke, receive,
}
use nerves_p2p.Discovery.Registry.Query.{expire}
use nerves_p2p.Discovery.Registry.Receive.Growth.{receive-Grows}
use nerves_p2p.Discovery.Store.Growth.{Grows, Grows-same, Grows-trans}
use nerves_p2p.Discovery.Registry.Receive.Steps.{sequence_of}
use nerves_p2p.Discovery.Registry.Receive.Accepted.{
  IsAccepted, receive-IsAccepted, message-IsAccepted,
}

module _ (k : Keys) {S : Type 0} (ops : SequenceStore S) where
  -- Each query starts with `expire`, and changes nothing else.
  pub data Step (r : Registry S) : Registry S → Type 0 where
    received : (envelope : Bytes) (now : ℕ) → Step r (receive k ops envelope now r).1
    authorized : (e : EndpointId) (name : Bytes) → Step r (authorize r e name).1
    revoked : (e : EndpointId) → Step r (revoke r e)
    expired : (now : ℕ) → Step r (expire r now)
    enrolling : (p : EnrollmentPolicy) → Step r (with_enrollment_policy r p)

  pub data Reaches (r : Registry S) : Registry S → Type 0 where
    start : Reaches r r
    step : {s t : Registry S} → Reaches r s → Step s t → Reaches r t

  Step-Grows : StoreLaws ops → (r t : Registry S) → Step r t → Grows ops r.store t.store
  unfolding authorize revoke expire with_enrollment_policy
  Step-Grows laws r t (received envelope now) = receive-Grows k ops laws envelope now r
  Step-Grows laws r t (authorized e name) = Grows-same ops r.store r.store refl
  Step-Grows laws r t (revoked e) = Grows-same ops r.store r.store refl
  Step-Grows laws r t (expired now) = Grows-same ops r.store r.store refl
  Step-Grows laws r t (enrolling p) = Grows-same ops r.store r.store refl

  -- No sequence of steps, of whatever methods, lowers the sequence stored for an endpoint.
  pub Reaches-Grows : StoreLaws ops → (r t : Registry S) → Reaches r t → Grows ops r.store t.store
  Reaches-Grows laws r t start = Grows-same ops r.store r.store refl
  Reaches-Grows laws r t (step {s = s} path last) =
      Grows-trans ops r.store s.store t.store (Reaches-Grows laws r s path)
        (Step-Grows laws s t last)

  accepted_above :
      StoreLaws ops
      → (envelope later : Bytes) (now then : ℕ) (r s t u : Registry S)
      → (p : IsAccepted k ops envelope now r s) → Reaches s t
      → (q : IsAccepted k ops later then t u)
      → message_endpoint_id p.message ≡ message_endpoint_id q.message
      → sequence_of p.message < sequence_of q.message
  accepted_above laws envelope later now then r s t u p path q same =
      let (b, held, grown) =
        Reaches-Grows laws s t path (message_endpoint_id p.message) (sequence_of p.message)
          p.received.stored in
      let found : b ≡ q.received.previous =
        ground (arith, sym held ∙ ap (ops.load t.store) same ∙ q.received.before) in
      omega (arith, grown, found, q.received.above)

  -- Over any lawful store, of two envelopes that `receive` accepts, with messages of one endpoint, the
  -- later has the larger sequence, whatever steps lie between.
  pub accepted-increases :
      StoreLaws ops
      → (envelope later body body' signature signature' : Bytes) (m m' : Message) (now then : ℕ)
        (r t : Registry S)
      → decode_envelope k envelope ≡ ok (body, signature)
      → decode_message k body ≡ ok m
      → decode_envelope k later ≡ ok (body', signature')
      → decode_message k body' ≡ ok m'
      → message_endpoint_id m ≡ message_endpoint_id m'
      → (receive k ops envelope now r).0 ≡ ok tt
      → Reaches (receive k ops envelope now r).1 t
      → (receive k ops later then t).0 ≡ ok tt
      → sequence_of m < sequence_of m'
  accepted-increases laws envelope later body body' signature signature' m m' now then r t opened
        decoded opened' decoded' same first path second =
      let s = (receive k ops envelope now r).1 in
      let u = (receive k ops later then t).1 in
      let p = receive-IsAccepted k ops laws envelope now r first in
      let q = receive-IsAccepted k ops laws later then t second in
      let one = message-IsAccepted k ops envelope now r s body signature m p opened decoded in
      let two = message-IsAccepted k ops later then t u body' signature' m' q opened' decoded' in
      let increases =
        accepted_above laws envelope later now then r s t u p path q
          (ap message_endpoint_id one ∙ same ∙ sym (ap message_endpoint_id two)) in
      omega (arith, increases, ap sequence_of one, ap sequence_of two)

  -- An envelope that was accepted is refused ever after, whatever happens in between and whenever
  -- it comes again.
  pub receive-replayed :
      StoreLaws ops
      → (envelope : Bytes) (now then : ℕ) (r t : Registry S)
      → (receive k ops envelope now r).0 ≡ ok tt
      → Reaches (receive k ops envelope now r).1 t
      → (receive k ops envelope then t).0 ≢ ok tt
  receive-replayed laws envelope now then r t first path again =
      let p = receive-IsAccepted k ops laws envelope now r first in
      let increases =
        accepted-increases laws envelope envelope p.body p.body p.signature p.signature p.message
          p.message now then r t p.opened p.decoded p.opened p.decoded refl first path again in
      omega (arith, increases)
