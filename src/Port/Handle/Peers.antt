-- ===== src/Port/Handle/Peers.antt =====
-- native/iroh_discovery/src/bin/iroh_discovery_port.rs: whom `dist_connect` dials.
use nerves_p2p.Prelude.{
  ℕ, ◌≡◌, refl, ap, sym, ◌∙◌, ◌+◌, Bool, true, false, not, Option, none, some, List, [], ◌∷◌, map,
  ◌⊎◌, inl, inr, ◌==◌, if◌then◌else◌, Bool-cases, Option-cases, Any, Result, ok, err, arith,
}
use nerves_p2p.Prelude.Bytes.{Bytes, Eq_bytes, bytes_eq_iff}
use nerves_p2p.Prelude.HashMap
use nerves_p2p.Prelude.HashMap.{HashMap, get-insert}
use nerves_p2p.Discovery.Types.{EndpointId, Keys}
use nerves_p2p.Discovery.Sign.{SecretKey}
use nerves_p2p.Discovery.Store.{SequenceStore}
use nerves_p2p.Discovery.Registry.{ActiveRecord}
use nerves_p2p.Discovery.Registry.Query.{is_live, retain_live, values, binding_of, expire, bindings}
use nerves_p2p.Dist.Streams.{
  Shared, Binding, Error, live_endpoint, connect_target, collect_bindings, replace_bindings,
}
use nerves_p2p.Port.Json.{Texts}
use nerves_p2p.Port.State.{
  Network, State, World, pure, lift, with_network, dist_answer, on_dist, sync_dist_bindings,
  receive_announcements,
}
use nerves_p2p.Port.Handle.{connect_stream, connect, dist_connected}
use nerves_p2p.Port.Handle.Runs.{>>=-eq-ok, refuse-eq-ok, pure-eq-ok}

-- A record that is live, of the endpoint and under the name.
abbrev pub Announces : ℕ → EndpointId → Bytes → EndpointId × ActiveRecord → Type 0
Announces now endpoint name e =
    (is_live now e.1 ≡ true)
    × ((e.1.announcement.endpoint_id ≡ endpoint) × (e.1.announcement.node_name ≡ name))

abbrev Binds : Bytes → EndpointId → EndpointId × Bytes × ℕ → Type 0
Binds name endpoint b = (b.0 ≡ endpoint) × (b.1 ≡ name)

-- A binding that is found was in the map or is one of the list.
collect_bindings-Any :
    (now : ℕ) (m : HashMap Bytes Binding) (bs : List (EndpointId × Bytes × ℕ)) (name : Bytes)
    → (b : Binding) → HashMap.get (collect_bindings now m bs) name ≡ some b
    → (HashMap.get m name ≡ some b) ⊎ Any (Binds name b.endpoint) bs
unfolding collect_bindings
collect_bindings-Any now m [] name b h = inl h
collect_bindings-Any now m ((endpoint, node, ttl) ∷ bs) name b h =
    elim (collect_bindings-Any now
      (HashMap.insert m node (record { endpoint = endpoint; expires = now + ttl })) bs name b h) [
        | inr later ↦ inr (inr later)
        | inl found ↦ first (node == name) refl (sym (get-insert m node bound name) ∙ found)
      ]
  where
    bound : Binding
    bound = record { endpoint = endpoint; expires = now + ttl }

    first :
        (same : Bool)
        → (node == name) ≡ same
        → (if node == name then some bound else HashMap.get m name) ≡ some b
        → (HashMap.get m name ≡ some b) ⊎ Any (Binds name b.endpoint) ((endpoint, node, ttl) ∷ bs)
    first true e g = inr (inl (ground (arith, g, e), (bytes_eq_iff node name).0 e))
    first false e g = inl (ground (arith, g, e))

-- What `bindings` answers is of the records that it leaves, which are live.
bindings-Any :
    (now : ℕ) (m : HashMap EndpointId ActiveRecord) (name : Bytes) (endpoint : EndpointId)
    → Any (Binds name endpoint) (map (binding_of now) (values (retain_live now m)))
    → Any (Announces now endpoint name) (retain_live now m)
unfolding retain_live values binding_of
bindings-Any now [] name endpoint h = h
bindings-Any now ((e, r) ∷ m) name endpoint h = elim (Bool-cases (is_live now r)) [
  | inl live ↦ rw live (elim (rw live at h) [
    | inl here ↦ inl (live, (here.0, here.1))
    | inr later ↦ inr (bindings-Any now m name endpoint later)
  ])
  | inr over ↦ rw over (bindings-Any now m name endpoint (rw over at h))
]

live_endpoint-ok :
    (now : ℕ) (o : Option Binding) (e : EndpointId)
    → live_endpoint now o ≡ ok e
    → (b : Binding) × ((o ≡ some b) × (b.endpoint ≡ e))
unfolding live_endpoint
live_endpoint-ok now none e h = cc
live_endpoint-ok now (some b) e h = (b, (refl, ground (arith, h)))

connect_target-ok :
    (now : ℕ) (shared : Shared) (from_node target_node : Bytes) (e : EndpointId)
    → connect_target now shared from_node target_node ≡ ok e
    → (b : Binding) × ((HashMap.get shared.bindings target_node ≡ some b) × (b.endpoint ≡ e))
unfolding connect_target
connect_target-ok now shared from_node target_node e h =
    live_endpoint-ok now (HashMap.get shared.bindings target_node) e (ground (arith, h))

module _ {S : Type 0} where
  dist_answer_registry {ℓ} :
      {A : Type ℓ} (s : State S) (n : Network) (r : Result A Error × Shared)
      → (dist_answer s n r).1.registry ≡ s.registry
  unfolding dist_answer
  dist_answer_registry s n (ok a, shared) = refl
  dist_answer_registry s n (err e, shared) = refl

  connect_stream_registry :
      (w : World) (target_node : Bytes) (s : State S)
      → (connect_stream w target_node s).1.registry ≡ s.registry
  unfolding connect_stream with_network lift
  connect_stream_registry w target_node s = elim (Option-cases s.network) [
    | inl alone ↦ rw alone refl
    | inr (n, joined) ↦ elim (Bool-cases w.dialled) [
      | inl dialled ↦ rw (joined, dialled) (dist_answer_registry _ n _)
      | inr lost ↦ rw (joined, lost) (dist_answer_registry _ n _)
    ]
  ]

  dist_answer-ok {ℓ} :
      {A : Type ℓ} (s t : State S) (n : Network) (r : Result A Error × Shared) (a : A)
      → dist_answer s n r ≡ (ok a, t)
      → (r.0 ≡ ok a) × (t.registry ≡ s.registry)
  unfolding dist_answer
  dist_answer-ok s t n (ok b, shared) a h = (cc (ap (λ x. x.0) h), sym (ap (λ x. x.1.registry) h))
  dist_answer-ok s t n (err e, shared) a h = cc (ap (λ x. x.0) h)

  -- Where a method of the distribution has succeeded there is a network, whose answer it is.
  on_dist-ok {ℓ} :
      {A : Type ℓ} (m : Shared → Result A Error × Shared) (s t : State S) (a : A)
      → on_dist m s ≡ (ok a, t)
      → (n : Network) × ((s.network ≡ some n) × (((m n.dist).0 ≡ ok a) × (t.registry ≡ s.registry)))
  unfolding on_dist with_network lift
  on_dist-ok m s t a h = elim (Option-cases s.network) [
    | inl alone ↦ cc (ap (λ x. x.0) (rw alone at h))
    | inr (n, joined) ↦ (n, (joined, dist_answer-ok s t n (m n.dist) a (rw joined at h)))
  ]

  sync-Any :
      (w : World) (s t : State S) (n : Network) (name : Bytes) (b : Binding)
      → sync_dist_bindings w s ≡ (ok tt, t)
      → t.network ≡ some n
      → HashMap.get n.dist.bindings name ≡ some b
      → Any (Announces w.now b.endpoint name) t.registry.records
  unfolding sync_dist_bindings with_network pure bindings expire replace_bindings HashMap.get
  sync-Any w s t n name b h joined found = elim (Option-cases s.network) [
    | inl alone ↦
        let both : none ≡ some n = ap (λ x. x.1.network) (rw alone at h) ∙ joined in cc both
    | inr (n0, was) ↦
        let left = ap (λ x. x.1) (rw was at h) in
        let kept : some _ ≡ some n = ap (λ x. x.network) left ∙ joined in
        let bound : collect_bindings w.instant []
              (map (binding_of w.now) (values (retain_live w.now s.registry.records)))
            ≡ n.dist.bindings =
          ap (λ (o : Option Network). bindings_of o) kept in
        rw (← ap (λ x. x.registry.records) left)
          (elim (collect_bindings-Any w.instant [] _ name b (rw (← bound) at found)) [
            | inl nothing ↦ cc
            | inr bs ↦ bindings-Any w.now s.registry.records name b.endpoint bs
          ])
  ]
    where
      bindings_of : Option Network → HashMap Bytes Binding
      bindings_of none = []
      bindings_of (some m) = m.dist.bindings

  connect-ok :
      (w : World) (from_node target_node : Bytes) (s t : State S) (endpoint : EndpointId) (id : ℕ)
      → connect w from_node target_node s ≡ (ok (endpoint, id), t)
      → (n : Network) × (b : Binding) × (s.network ≡ some n)
        × (HashMap.get n.dist.bindings target_node ≡ some b)
        × (b.endpoint ≡ endpoint)
        × (t.registry ≡ s.registry)
  unfolding connect pure
  connect-ok w from_node target_node s t endpoint id h =
      let (e, s1, dialled, later) = >>=-eq-ok _ _ s h in
      let (n, (joined, (target, same))) = on_dist-ok _ s s1 e dialled in
      let (b, (found, at)) = connect_target-ok w.instant n.dist from_node target_node e target in
      let (i, s2, installed, done) = >>=-eq-ok (connect_stream w target_node) _ s1 later in
      let kept : s2.registry ≡ s1.registry =
        sym (ap (λ x. x.1.registry) installed) ∙ connect_stream_registry w target_node s1 in
      let (given, last) = pure-eq-ok (e, i) (endpoint, id) s2 t done in
      (
        n,
        b,
        joined,
        found,
        at ∙ ap (λ x. x.0) given,
        sym (ap (λ x. x.registry) last) ∙ (kept ∙ same),
      )

module _ (k : Keys) {S : Type 0} (ops : SequenceStore S) (texts : Texts) (secret : SecretKey) where
  -- A `dist_connect` that answers a stream comes from the port's own node, and has dialled the endpoint
  -- of a record that is live then, in the registry that it leaves, under the target's name.
  pub dist_connected-Any :
      (node_name : Bytes) (w : World) (from_node target_node : Bytes) (s t : State S)
      → (endpoint : EndpointId) (id : ℕ)
      → dist_connected k ops texts secret node_name w from_node target_node s
        ≡ (ok (endpoint, id), t)
      → (from_node ≡ node_name) × Any (Announces w.now endpoint target_node) t.registry.records
  unfolding dist_connected
  dist_connected-Any node_name w from_node target_node s t endpoint id h =
      let (_, s1, own, after_guard) = >>=-eq-ok _ _ s h in
      let (is_own, _) = refuse-eq-ok (not (from_node == node_name)) _ s own in
      let (_, s2, _, after_receive) = >>=-eq-ok (receive_announcements k ops w) _ s1 after_guard in
      let (_, s3, synced, last) = >>=-eq-ok (sync_dist_bindings w) _ s2 after_receive in
      let (n, b, joined, found, at, same) =
        connect-ok w from_node target_node s3 t endpoint id last in
      (
        (bytes_eq_iff from_node node_name).0 (ground (arith, is_own)),
        rw (same, ← at) (sync-Any w s2 s3 n target_node b synced joined found),
      )
