-- ===== src/Discovery/Registry/Receive/Refusal.antt =====
-- native/iroh_discovery/src/lib.rs: what `receive` refuses leaves the records and the
-- stored sequences as they are.
use nerves_p2p.Prelude.{
  ℕ, ◌≡◌, refl, ap, ◌∙◌, ◌≢◌, Bool, true, false, Option, none, some, Result, ok, err, arith,
}
use nerves_p2p.Prelude.Bytes.{Bytes}
use nerves_p2p.Discovery.Types.{
  Error, EndpointId, Keys, Message, message_endpoint_id, announcement, withdrawal,
}
use nerves_p2p.Discovery.Store.{SequenceStore, StoreLaws}
use nerves_p2p.Discovery.Store.Growth.{advance-refused}
use nerves_p2p.Discovery.Registry.{
  Registry, Method, EnrollmentPolicy, strict, signed_fleet, after, ◌>>=◌, refuse, asks, check_rate,
  authorize, enroll, accept_sequence, enrolled_name, accept, receive_message, receive,
}
use nerves_p2p.Discovery.Registry.Receive.{
  Moves, Preorder, pure-Moves, bind-Moves, lift-Moves, when-Moves,
}

module _ (k : Keys) {S : Type 0} (ops : SequenceStore S) where
  abbrev Keeps : Registry S → Registry S → Type 0
  Keeps r s = (s.records ≡ r.records) × ((i : EndpointId) → ops.load s.store i ≡ ops.load r.store i)

  keeping : Preorder Keeps
  keeping = record {
    stay = λ r. (refl, (λ i. refl));
    go = λ r s t (f, f1) (g, g1). (g ∙ f, (λ i. g1 i ∙ f1 i));
  }

  -- The method leaves the records and the stored sequences where it answers an error.
  record Refuses {A : Type 0} (m : Method S A) : Type 0 where
    refuses : (r : Registry S) (x : Error) → (m r).0 ≡ err x → Keeps r (m r).1

  after-Refuses :
      {A B : Type 0} (r : Registry S) (m : Result A Error × Registry S) (f : A → Method S B)
      (x : Error)
      → Keeps r m.1
      → ((a : A) → Refuses (f a))
      → (after m f).0 ≡ err x
      → Keeps r (after m f).1
  unfolding after
  after-Refuses r (ok a, s) f x h next e = keeping.go r s (f a s).1 h ((next a).refuses s x e)
  after-Refuses r (err y, s) f x h next e = h

  bind-Refuses :
      {A B : Type 0} (m : Method S A) (f : A → Method S B)
      → Moves Keeps m
      → ((a : A) → Refuses (f a))
      → Refuses (m >>= f)
  unfolding ◌>>=◌
  bind-Refuses m f h next = record {
    refuses = λ r x e. after-Refuses r (m r) f x (h.moves r) next e;
  }

  after_last :
      {A B : Type 0} (r : Registry S) (m : Result A Error × Registry S) (f : A → Method S B)
      (x : Error)
      → ((y : Error) → m.0 ≡ err y → Keeps r m.1)
      → ((a : A) (s : Registry S) (y : Error) → (f a s).0 ≢ err y)
      → (after m f).0 ≡ err x
      → Keeps r (after m f).1
  unfolding after
  after_last r (ok a, s) f x h fine e = absurd (fine a s x e)
  after_last r (err y, s) f x h fine e = h y refl

  -- What follows does not fail.
  last-Refuses :
      {A B : Type 0} (m : Method S A) (f : A → Method S B)
      → Refuses m
      → ((a : A) (s : Registry S) (y : Error) → (f a s).0 ≢ err y)
      → Refuses (m >>= f)
  unfolding ◌>>=◌
  last-Refuses m f h fine = record {
    refuses = λ r x e. after_last r (m r) f x (h.refuses r) fine e;
  }

  refuse-Keeps : (b : Bool) (e : Error) → Moves Keeps (refuse b e)
  unfolding refuse
  refuse-Keeps true e = record { moves = keeping.stay }
  refuse-Keeps false e = record { moves = keeping.stay }

  asks-Keeps : {A : Type 0} (g : Registry S → A) → Moves Keeps (asks g)
  unfolding asks
  asks-Keeps g = record { moves = keeping.stay }

  check_rate-Keeps : (e : EndpointId) (now : ℕ) → Moves Keeps (check_rate e now)
  unfolding check_rate
  check_rate-Keeps e now = record {
    moves = λ r.
        let store : (check_rate e now r).1.store ≡ r.store = ground arith in
        (ground arith, (λ i. ap (λ t. ops.load t i) store));
  }

  enroll-Keeps : (e : EndpointId) (name : Bytes) → Moves Keeps (enroll k ops e name)
  unfolding authorize enroll
  enroll-Keeps e name = record { moves = keeping.stay }

  accept_sequence-Refuses :
      StoreLaws ops → (e : EndpointId) (n : ℕ) → Refuses (accept_sequence k ops e n)
  unfolding accept_sequence
  accept_sequence-Refuses laws e n =
      bind-Refuses _ _ (record { moves = keeping.stay })
        (λ last.
          bind-Refuses _ _ (refuse-Keeps _ _)
            (λ _. record { refuses = λ r x f. (refl, advance-refused ops laws r.store e n x f) }))

  enrolled_name-Keeps :
      (o : Option Bytes) (m : Message) (p : EnrollmentPolicy) (e : EndpointId) (now : ℕ)
      → Moves Keeps (enrolled_name k ops o m p e now)
  unfolding enrolled_name
  enrolled_name-Keeps (some name) m p e now = record { moves = keeping.stay }
  enrolled_name-Keeps none (announcement a) signed_fleet e now = lift-Moves keeping _ _ (λ u _.
      bind-Moves keeping _ _ (enroll-Keeps e a.node_name) (λ u.
        bind-Moves keeping _ _ (check_rate-Keeps e now) (λ u. record { moves = keeping.stay })))
  enrolled_name-Keeps none (announcement a) strict e now = pure-Moves keeping _
  enrolled_name-Keeps none (withdrawal w) p e now = pure-Moves keeping _

  -- Only what follows the sequence changes the records, and it does not fail.
  accept-Refuses :
      StoreLaws ops
      → (m : Message) (e : EndpointId) (name : Bytes) (now : ℕ)
      → Refuses (accept k ops m e name now)
  unfolding accept
  accept-Refuses laws (announcement a) e name now = bind-Refuses _ _ (pure-Moves keeping _) (λ _.
      bind-Refuses _ _ (refuse-Keeps _ _) (λ _.
        last-Refuses _ _ (accept_sequence-Refuses laws e a.sequence)
          (λ u r x f. ground (arith, f))))
  accept-Refuses laws (withdrawal w) e name now = bind-Refuses _ _ (pure-Moves keeping _) (λ _.
      last-Refuses _ _ (accept_sequence-Refuses laws e w.sequence) (λ u r x f. ground (arith, f)))

  receive_message-Refuses :
      StoreLaws ops
      → (body signature : Bytes) (m : Message) (now : ℕ)
      → Refuses (receive_message k ops body signature m now)
  unfolding receive_message
  receive_message-Refuses laws body signature m now =
      let e = message_endpoint_id m in
      bind-Refuses _ _ (asks-Keeps _) (λ fleet. bind-Refuses _ _ (refuse-Keeps _ _) (λ _.
        bind-Refuses _ _ (asks-Keeps _) (λ o. bind-Refuses _ _ (asks-Keeps _) (λ policy.
          bind-Refuses _ _ (refuse-Keeps _ _) (λ _.
            bind-Refuses _ _ (when-Moves keeping _ _ (check_rate-Keeps e now)) (λ _.
              bind-Refuses _ _ (refuse-Keeps _ _) (λ _.
                bind-Refuses _ _ (enrolled_name-Keeps o m policy e now)
                  (λ name. accept-Refuses laws m e name now))))))))

  -- Over any lawful store, a refused envelope changes no record and no stored sequence, whatever it
  -- was refused for.
  pub receive-refused :
      StoreLaws ops
      → (envelope : Bytes) (now : ℕ) (r : Registry S) (x : Error)
      → (receive k ops envelope now r).0 ≡ err x
      → ((receive k ops envelope now r).1.records ≡ r.records)
        × ((i : EndpointId)
            → ops.load (receive k ops envelope now r).1.store i ≡ ops.load r.store i)
  unfolding receive
  receive-refused laws envelope now =
      (bind-Refuses _ _ (refuse-Keeps _ _) (λ _. bind-Refuses _ _ (pure-Moves keeping _) (λ p.
        bind-Refuses _ _ (pure-Moves keeping _)
          (λ m. receive_message-Refuses laws p.0 p.1 m now)))).refuses
