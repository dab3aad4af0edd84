-- ===== src/Discovery/Registry/Receive/Growth.antt =====
-- native/iroh_discovery/src/lib.rs: what `receive` does to the sequence store and to the
-- authorization table. What a store holds for an endpoint is never lowered.
use nerves_p2p.Prelude.{ℕ, ◌≡◌, refl, sym, ◌∙◌, subst, Option, none, some, is_some, true, arith}
use nerves_p2p.Prelude.Bytes.{Bytes}
use nerves_p2p.Discovery.Types.{
  EndpointId, Keys, Message, message_endpoint_id, announcement, withdrawal,
}
use nerves_p2p.Prelude.BTreeMap
use nerves_p2p.Discovery.Authorization
use nerves_p2p.Discovery.Authorization.{AuthorizationTable, IsTable}
use nerves_p2p.Discovery.Store.{SequenceStore, StoreLaws}
use nerves_p2p.Discovery.Store.Growth.{Grows, Grows-same, Grows-trans, advance-Grows}
use nerves_p2p.Discovery.Registry.{
  Registry, EnrollmentPolicy, strict, signed_fleet, check_rate, authorize, enroll, accept_sequence,
  enrolled_name, accept, receive_message, receive,
}
use nerves_p2p.Discovery.Registry.Receive.{
  Moves, Preorder, pure-Moves, bind-Moves, lift-Moves, refuse-Moves, when-Moves, asks-Moves,
}

module _ (k : Keys) {S : Type 0} (ops : SequenceStore S) where
  -- Nobody's enrolment ends.
  abbrev pub Enrolls : AuthorizationTable → AuthorizationTable → Type 0
  Enrolls t u =
      (i : EndpointId)
      → is_some (Authorization.node_name t i) ≡ true
      → is_some (Authorization.node_name u i) ≡ true

  abbrev pub GrowsIn : Registry S → Registry S → Type 0
  GrowsIn r s =
      Grows ops r.store s.store
      × Enrolls r.authorization s.authorization
      × (IsTable r.authorization → IsTable s.authorization)
      × (s.fleet_id ≡ r.fleet_id)

  growth : Preorder GrowsIn
  growth = record {
    stay = λ r. (Grows-same ops r.store r.store refl, (λ i h. h), (λ t. t), refl);
    go = λ r s t (f, f1, f2, f3) (g, g1, g2, g3). (
      Grows-trans ops r.store s.store t.store f g,
      (λ i h. g1 i (f1 i h)),
      (λ v. g2 (f2 v)),
      g3 ∙ f3,
    );
  }

  pub authorize-Enrolls :
      (t : AuthorizationTable) (e : EndpointId) (name : Bytes)
      → Enrolls t (Authorization.authorize t e name).1
  unfolding Authorization.authorize Authorization.node_name
  authorize-Enrolls t e name i h = ground (arith, BTreeMap.get-insert t e name i)

  authorize-Grows : (e : EndpointId) (name : Bytes) → Moves GrowsIn (enroll k ops e name)
  unfolding authorize enroll
  authorize-Grows e name = record {
    moves = λ r. (
      Grows-same ops r.store r.store refl,
      authorize-Enrolls r.authorization e name,
      Authorization.authorize-IsTable r.authorization e name,
      refl,
    );
  }

  check_rate-Grows : (e : EndpointId) (now : ℕ) → Moves GrowsIn (check_rate e now)
  unfolding check_rate
  check_rate-Grows e now = record {
    moves = λ r.
        let table : (check_rate e now r).1.authorization ≡ r.authorization = ground arith in
        (
          Grows-same ops r.store (check_rate e now r).1.store (sym (ground arith)),
          subst (Enrolls r.authorization) (sym table) (λ i h. h),
          subst IsTable (sym table),
          ground arith,
        );
  }

  accept_sequence-Grows :
      StoreLaws ops → (e : EndpointId) (n : ℕ) → Moves GrowsIn (accept_sequence k ops e n)
  unfolding accept_sequence
  accept_sequence-Grows laws e n =
      bind-Moves growth _ _ (record { moves = growth.stay })
        (λ last. refuse-Moves growth _ _ _ (λ _. record {
          moves = λ r. (advance-Grows ops laws r.store e n, (λ i h. h), (λ t. t), refl);
        }))

  enrolled_name-Grows :
      (o : Option Bytes) (m : Message) (p : EnrollmentPolicy) (e : EndpointId) (now : ℕ)
      → Moves GrowsIn (enrolled_name k ops o m p e now)
  unfolding enrolled_name
  enrolled_name-Grows (some name) m p e now = record { moves = growth.stay }
  enrolled_name-Grows none (announcement a) signed_fleet e now = lift-Moves growth _ _ (λ u _.
      bind-Moves growth _ _ (authorize-Grows e a.node_name)
        (λ u. bind-Moves growth _ _ (check_rate-Grows e now) (λ u. record { moves = growth.stay })))
  enrolled_name-Grows none (announcement a) strict e now = pure-Moves growth _
  enrolled_name-Grows none (withdrawal w) p e now = pure-Moves growth _

  accept-Grows :
      StoreLaws ops
      → (m : Message) (e : EndpointId) (name : Bytes) (now : ℕ)
      → Moves GrowsIn (accept k ops m e name now)
  unfolding accept
  accept-Grows laws (announcement a) e name now = lift-Moves growth _ _ (λ u _.
      refuse-Moves growth _ _ _ (λ _.
        bind-Moves growth _ _ (accept_sequence-Grows laws e a.sequence)
          (λ u. record { moves = growth.stay })))
  accept-Grows laws (withdrawal w) e name now = lift-Moves growth _ _ (λ u _.
      bind-Moves growth _ _ (accept_sequence-Grows laws e w.sequence)
        (λ u. record { moves = growth.stay }))

  receive_message-Grows :
      StoreLaws ops
      → (body signature : Bytes) (m : Message) (now : ℕ)
      → Moves GrowsIn (receive_message k ops body signature m now)
  unfolding receive_message
  receive_message-Grows laws body signature m now =
      let e = message_endpoint_id m in
      asks-Moves growth _ _ (λ fleet. refuse-Moves growth _ _ _ (λ _. asks-Moves growth _ _ (λ o.
        asks-Moves growth _ _ (λ policy. refuse-Moves growth _ _ _ (λ _.
          bind-Moves growth _ _ (when-Moves growth _ _ (check_rate-Grows e now)) (λ u.
            refuse-Moves growth _ _ _ (λ _.
              bind-Moves growth _ _ (enrolled_name-Grows o m policy e now)
                (λ name. accept-Grows laws m e name now))))))))

  pub receive-GrowsIn :
      StoreLaws ops
      → (envelope : Bytes) (now : ℕ) (r : Registry S) → GrowsIn r (receive k ops envelope now r).1
  unfolding receive
  receive-GrowsIn laws envelope now =
      (refuse-Moves growth _ _ _ (λ _.
        lift-Moves growth _ _
          (λ p _. lift-Moves growth _ _ (λ m _. receive_message-Grows laws p.0 p.1 m now)))).moves

  -- Over any lawful store, `receive` lowers no stored sequence of any endpoint and leaves each
  -- readable, whatever the envelope, the time and the answer.
  pub receive-Grows :
      StoreLaws ops
      → (envelope : Bytes) (now : ℕ) (r : Registry S)
      → Grows ops r.store (receive k ops envelope now r).1.store
  receive-Grows laws envelope now r = (receive-GrowsIn laws envelope now r).0
