-- ===== src/Discovery/Registry/Receive/Stored.antt =====
-- native/iroh_discovery/src/lib.rs: what the sequence store holds after `receive`.
use nerves_p2p.Prelude.{
  ℕ, ◌≡◌, sym, ap, ◌∙◌, Bool, true, false, ◌&&◌, ◌==◌, if◌then◌else◌, inl, inr, Result, ok, err,
  arith, Result-cases, Bool-cases,
}
use nerves_p2p.Prelude.Bytes.{Bytes, bytes_eq, bytes_eq_iff, Eq_bytes}
use nerves_p2p.Discovery.Types.{Error, EndpointId, Keys, Message, message_endpoint_id}
use nerves_p2p.Discovery.Decode.{decode_envelope, decode_message}
use nerves_p2p.Discovery.Store.{SequenceStore, StoreLaws}
use nerves_p2p.Discovery.Registry.{Registry, receive}
use nerves_p2p.Discovery.Registry.Receive.Steps.{sequence_of}
use nerves_p2p.Discovery.Registry.Receive.Accepted.{receive-IsAccepted, message-IsAccepted}
use nerves_p2p.Discovery.Registry.Receive.Refusal.{receive-refused}

abbrev pub is_ok : Result (Unit {0}) Error → Bool
is_ok (ok u) = true
is_ok (err x) = false

module _ (k : Keys) {S : Type 0} (ops : SequenceStore S) where
  -- Over any lawful store, whatever the envelope of a message and the answer: after `receive` the store
  -- holds for an endpoint the sequence of the message, where the message is of that endpoint and is
  -- accepted, and else what it held before.
  pub load-receive :
      StoreLaws ops
      → (envelope body signature : Bytes) (m : Message) (now : ℕ) (r : Registry S) (i : EndpointId)
      → decode_envelope k envelope ≡ ok (body, signature)
      → decode_message k body ≡ ok m
      → let (answer, t) = receive k ops envelope now r in
        ops.load t.store i ≡ (
          if is_ok answer && message_endpoint_id m == i
          then ok (sequence_of m)
          else ops.load r.store i)
  load-receive laws envelope body signature m now r i opened decoded =
      let t = (receive k ops envelope now r).1 in
      elim (Result-cases (receive k ops envelope now r).0) [
        | inr (x, refused) ↦ rw refused ((receive-refused k ops laws envelope now r x refused).1 i)
        | inl (u, accepted) ↦
            let p = receive-IsAccepted k ops laws envelope now r accepted in
            let one = message-IsAccepted k ops envelope now r t body signature m p opened decoded in
            elim (Bool-cases (bytes_eq (message_endpoint_id m) i)) [
              | inl own ↦
                  let same = (bytes_eq_iff (message_endpoint_id m) i).0 own in
                  rw (accepted, own)
                    (ap (ops.load t.store) (sym same ∙ sym (ap message_endpoint_id one))
                      ∙ p.received.stored
                      ∙ ap (λ x. ok (sequence_of x)) one)
              | inr other ↦
                  rw (accepted, other)
                    (p.received.others i (λ e. ground (
                      arith,
                      other,
                      (bytes_eq_iff (message_endpoint_id m) i).1
                          (sym (ap message_endpoint_id one) ∙ e),
                    )))
            ]
      ]
