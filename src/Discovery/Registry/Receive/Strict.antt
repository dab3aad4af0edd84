-- ===== src/Discovery/Registry/Receive/Strict.antt =====
-- native/iroh_discovery/src/lib.rs: `receive` under the strict enrollment policy.
use nerves_p2p.Prelude.{ℕ, ◌≡◌, refl, ◌∙◌, Option, none, some, arith}
use nerves_p2p.Prelude.Bytes.{Bytes}
use nerves_p2p.Discovery.Types.{
  EndpointId, Keys, Message, message_endpoint_id, announcement, withdrawal,
}
use nerves_p2p.Discovery.Store.{SequenceStore}
use nerves_p2p.Discovery.Registry.{
  Registry, EnrollmentPolicy, strict, signed_fleet, Method, ◌>>=◌, after, asks, check_rate,
  accept_sequence, enrolled_name, accept, receive_message, receive,
}
use nerves_p2p.Discovery.Registry.Receive.{
  Moves, Preorder, pure-Moves, bind-Moves, lift-Moves, refuse-Moves, when-Moves, asks-Moves,
}

module _ (k : Keys) {S : Type 0} (ops : SequenceStore S) where
  -- A strict registry stays strict, with the table that it has.
  abbrev Locked : Registry S → Registry S → Type 0
  Locked r t = r.enrollment ≡ strict → (t.enrollment ≡ strict) × (t.authorization ≡ r.authorization)

  locked : Preorder Locked
  locked = record {
    stay = λ r h. (h, refl);
    go = λ r s t f g h. let (a, b) = f h in let (c, d) = g a in (c, d ∙ b);
  }

  check_rate-Locked : (e : EndpointId) (now : ℕ) → Moves Locked (check_rate e now)
  unfolding check_rate
  check_rate-Locked e now = record { moves = λ r h. (ground (arith, h), ground arith) }

  accept_sequence-Locked : (e : EndpointId) (n : ℕ) → Moves Locked (accept_sequence k ops e n)
  unfolding accept_sequence
  accept_sequence-Locked e n =
      bind-Moves locked _ _ (record { moves = locked.stay })
        (λ last. refuse-Moves locked _ _ _ (λ _. record { moves = λ r h. (h, refl) }))

  enrolled_name-Locked :
      (o : Option Bytes) (m : Message) (p : EnrollmentPolicy) (e : EndpointId) (now : ℕ)
      → p ≡ strict
      → Moves Locked (enrolled_name k ops o m p e now)
  unfolding enrolled_name
  enrolled_name-Locked (some name) m p e now h = record { moves = locked.stay }
  enrolled_name-Locked none (announcement a) signed_fleet e now h = ground arith
  enrolled_name-Locked none (announcement a) strict e now h = pure-Moves locked _
  enrolled_name-Locked none (withdrawal w) p e now h = pure-Moves locked _

  accept-Locked :
      (m : Message) (e : EndpointId) (name : Bytes) (now : ℕ)
      → Moves Locked (accept k ops m e name now)
  unfolding accept
  accept-Locked (announcement a) e name now = lift-Moves locked _ _ (λ u _.
      refuse-Moves locked _ _ _ (λ _.
        bind-Moves locked _ _ (accept_sequence-Locked e a.sequence)
          (λ u. record { moves = λ r h. (h, refl) })))
  accept-Locked (withdrawal w) e name now = lift-Moves locked _ _ (λ u _.
      bind-Moves locked _ _ (accept_sequence-Locked e w.sequence)
        (λ u. record { moves = λ r h. (h, refl) }))

  -- The policy that a method asks for is the strict one.
  asks-Locked {ℓ} :
      {B : Type ℓ} (f : EnrollmentPolicy → Method S B)
      → ((p : EnrollmentPolicy) → p ≡ strict → Moves Locked (f p))
      → Moves Locked (asks (λ r. r.enrollment) >>= f)
  unfolding ◌>>=◌ after asks
  asks-Locked f h = record { moves = λ r is_strict. (h r.enrollment is_strict).moves r is_strict }

  receive_message-Locked :
      (body signature : Bytes) (m : Message) (now : ℕ)
      → Moves Locked (receive_message k ops body signature m now)
  unfolding receive_message
  receive_message-Locked body signature m now =
      let e = message_endpoint_id m in
      asks-Moves locked _ _ (λ fleet. refuse-Moves locked _ _ _ (λ _. asks-Moves locked _ _ (λ o.
        asks-Locked _ (λ policy is_strict. refuse-Moves locked _ _ _ (λ _.
          bind-Moves locked _ _ (when-Moves locked _ _ (check_rate-Locked e now)) (λ u.
            refuse-Moves locked _ _ _ (λ _.
              bind-Moves locked _ _ (enrolled_name-Locked o m policy e now is_strict)
                (λ name. accept-Locked m e name now))))))))

  receive-Locked : (envelope : Bytes) (now : ℕ) → Moves Locked (receive k ops envelope now)
  unfolding receive
  receive-Locked envelope now = refuse-Moves locked _ _ _ (λ _.
      lift-Moves locked _ _
        (λ p _. lift-Moves locked _ _ (λ m _. receive_message-Locked p.0 p.1 m now)))

  -- A strict registry takes no one in: `receive` leaves its authorization table as it is, whatever
  -- the envelope and the answer.
  pub receive_strict :
      (envelope : Bytes) (now : ℕ) (r : Registry S)
      → r.enrollment ≡ strict
      → (receive k ops envelope now r).1.authorization ≡ r.authorization
  receive_strict envelope now r h = ((receive-Locked envelope now).moves r h).1
