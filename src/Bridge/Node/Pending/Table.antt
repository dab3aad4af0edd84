-- ===== src/Bridge/Node/Pending/Table.antt =====
-- native/p2p_bridge/src/node.rs: the invariant of the table of the requests that wait for an answer.
use nerves_p2p.Prelude.{
  ℕ, ◌+◌, ◌≤◌, ◌<◌, ◌^◌, ◌≡◌, refl, List, length, All, All_of, All_map, Bool, arith,
}
use nerves_p2p.Prelude.Bytes.{Bytes, Eq_bytes}
use nerves_p2p.Prelude.HashMap.{
  HashMap, Distinct, length-insert, length-remove, length-retain, All-insert, All-remove,
  All-retain, insert-Distinct, remove-Distinct, retain-Distinct,
}
use native.Mathlib.Nat.{le_trans}
use nerves_p2p.Bridge.Net.{Libp2p}
use nerves_p2p.Bridge.Swarm.{View}
use nerves_p2p.Bridge.Node.{Node, Input, max_pending_responses, channel_id, evict, start, run}
use nerves_p2p.Bridge.Node.Pending.Changes.{
  After, same, evicted, answered, inserted, Keeps, run-After,
}

-- The id of one of the first `c` requests that were let in.
abbrev pub IsIdBelow : ℕ → Bytes → Type 0
IsIdBelow c id = (j : ℕ) × ((id ≡ channel_id j) × ((1 ≤ j) × (j ≤ c)))

pub record IsPending (net : Libp2p) (rounds : ℕ) (s : Node net) : Type 0 where
  pub few : length s.pending_responses ≤ max_pending_responses
  pub ids : All (λ p. IsIdBelow s.channel_counter p.0) s.pending_responses
  pub distinct : Distinct s.pending_responses
  pub counted : s.channel_counter ≤ rounds

module _ (net : Libp2p) where
  All-later :
      (c d : ℕ) (m : HashMap Bytes (net.ResponseChannel × ℕ))
      → c ≤ d
      → All (λ p. IsIdBelow c p.0) m
      → All (λ p. IsIdBelow d p.0) m
  All-later c d m l h = All_map _ _ m (λ p q. (q.0, (q.1.0, (q.1.1.0, le_trans q.1.1.1 l)))) h

  pub Keeps-IsPending : Keeps net (IsPending net) (λ i. Unit {0})
  unfolding evict
  Keeps-IsPending n s t i l q p (same e c) = record {
    few = rw e p.few;
    ids = rw (e, c) p.ids;
    distinct = rw e p.distinct;
    counted = rw c (omega (arith, p.counted));
  }
  Keeps-IsPending n s t i l q p (evicted now ei e) = rw e record {
    few = omega (arith, p.few, length-retain _ s.pending_responses);
    ids = All-retain _ _ s.pending_responses p.ids;
    distinct = retain-Distinct _ s.pending_responses p.distinct;
    counted = omega (arith, p.counted);
  }
  Keeps-IsPending n s t i l q p (answered id body ei e) = rw e record {
    few = omega (arith, p.few, length-remove s.pending_responses id);
    ids = All-remove _ s.pending_responses id p.ids;
    distinct = remove-Distinct s.pending_responses id p.distinct;
    counted = omega (arith, p.counted);
  }
  Keeps-IsPending n s t i l q p (inserted now channel peer rid body ei room c e) =
      let c' : t.channel_counter ≡ s.channel_counter + 1 = omega (arith, p.counted) in
      record {
        few = rw e (
            omega (
              arith,
              length-insert s.pending_responses (channel_id t.channel_counter) (channel, now),
            ));
        ids = rw e (
            All-insert _ s.pending_responses _ _
              (t.channel_counter, (refl, (omega arith, omega arith)))
              (All-later s.channel_counter t.channel_counter s.pending_responses (omega arith)
                p.ids));
        distinct = rw e (insert-Distinct s.pending_responses _ _ p.distinct);
        counted = omega (arith, p.counted);
      }

  start-IsPending : IsPending net 0 (start net)
  unfolding start
  start-IsPending = record { few = omega arith; ids = tt; distinct = tt; counted = omega arith }

  -- After fewer than 2 ^ 64 rounds of the loop, whatever they are, at most 1,024 requests wait for an
  -- answer, under different ids, each that of a request that was counted; the counter does not exceed
  -- the rounds.
  pub run-IsPending :
      (auto_dial : Bool) (rounds : List (View net × Input net))
      → length rounds < 2 ^ 64
      → After (IsPending net (length rounds)) (run net auto_dial (start net) rounds).0
  run-IsPending d rounds l =
      run-After net (IsPending net) (λ i. Unit {0}) d Keeps-IsPending rounds 0 (length rounds)
        (start net) (omega arith) l (All_of _ rounds (λ r. tt)) start-IsPending
