-- ===== src/Discovery/Registry/Rate.antt =====
-- native/iroh_discovery/src/lib.rs: `check_rate` as a limit on a sliding window.
use nerves_p2p.Prelude.{
  ℕ, suc, ◌≤◌, ◌≡◌, ◌≢◌, refl, sym, ap, subst, Bool, true, false, List, [], ◌∷◌, ◌++◌, length,
  length-append, ltb, leb, nat_eq, inl, inr, Bool-cases, if◌then◌else◌, unwrap_or, ok, err, arith,
}
use nerves_p2p.Prelude.Bytes.{Eq_bytes, bytes_eq_iff, bytes_eq_refl}
use nerves_p2p.Prelude.HashMap
use nerves_p2p.Discovery.Types.{Error, EndpointId, rate_limit, rate_window_ms, saturating_add}
use nerves_p2p.Discovery.Registry.{Registry, drop_old, rate_of, check_rate}

-- The time lies in the window that ends now.
abbrev pub within : ℕ → ℕ → Bool
within now time = ltb now (saturating_add time rate_window_ms)

abbrev pub recent : ℕ → List ℕ → ℕ
recent now [] = 0
recent now (t ∷ ts) = if within now t then suc (recent now ts) else recent now ts

-- The times climb, from the lower bound up to now.
abbrev pub Climbs : ℕ → List ℕ → ℕ → Type 0
Climbs low [] now = low ≤ now
Climbs low (t ∷ ts) now = (low ≤ t) × Climbs t ts now

Climbs-low : (a b : ℕ) (ts : List ℕ) (now : ℕ) → a ≤ b → Climbs b ts now → Climbs a ts now
Climbs-low a b [] now h c = omega (arith, h, c)
Climbs-low a b (t ∷ ts) now h c = (omega (arith, h, c.0), c.1)

Climbs-snoc : (a : ℕ) (ts : List ℕ) (now : ℕ) → Climbs a ts now → Climbs a (ts ++ (now ∷ [])) now
Climbs-snoc a [] now c = (c, omega arith)
Climbs-snoc a (t ∷ ts) now c = (c.0, Climbs-snoc t ts now c.1)

drop_old-Climbs : (a : ℕ) (ts : List ℕ) (now : ℕ) → Climbs a ts now → Climbs a (drop_old now ts) now
unfolding drop_old
drop_old-Climbs a [] now c = c
drop_old-Climbs a (t ∷ ts) now c = elim (Bool-cases (leb (saturating_add t rate_window_ms) now)) [
  | inl over ↦ rw over (Climbs-low a t (drop_old now ts) now c.0 (drop_old-Climbs t ts now c.1))
  | inr fresh ↦ rw fresh c
]

-- From a time in the window on, all times are in it.
recent-Climbs :
    (a : ℕ) (ts : List ℕ) (now : ℕ)
    → Climbs a ts now
    → within now a ≡ true
    → recent now ts ≡ length ts
unfolding saturating_add
recent-Climbs a [] now c h = refl
recent-Climbs a (t ∷ ts) now c h =
    let later : within now t ≡ true = ground (arith, c.0, h) in
    rw later (ap suc (recent-Climbs t ts now c.1 later))

length-drop_old :
    (a : ℕ) (ts : List ℕ) (now : ℕ) → Climbs a ts now → length (drop_old now ts) ≡ recent now ts
unfolding drop_old
length-drop_old a [] now c = refl
length-drop_old a (t ∷ ts) now c = elim (Bool-cases (leb (saturating_add t rate_window_ms) now)) [
  | inl over ↦
      (let outside : within now t ≡ false = ground (arith, over) in
        rw (over, outside) (length-drop_old t ts now c.1))
  | inr fresh ↦
      (let inside : within now t ≡ true = ground (arith, fresh) in
        rw (fresh, inside) (ap suc (sym (recent-Climbs t ts now c.1 inside))))
]

length-drop_old_le : (now : ℕ) (ts : List ℕ) → length (drop_old now ts) ≤ length ts
unfolding drop_old
length-drop_old_le now [] = omega arith
length-drop_old_le now (t ∷ ts) = ground (arith, length-drop_old_le now ts)

-- The times of one endpoint: few, and climbing up to now.
pub record IsWindow (now : ℕ) (ts : List ℕ) : Type 0 where
  pub few : length ts ≤ rate_limit
  pub climbs : Climbs 0 ts now

after-IsWindow :
    (now : ℕ) (ts : List ℕ)
    → IsWindow now ts
    → IsWindow now (
        if nat_eq (length (drop_old now ts)) rate_limit
        then drop_old now ts
        else drop_old now ts ++ (now ∷ []))
after-IsWindow now ts v = elim (Bool-cases (nat_eq (length (drop_old now ts)) rate_limit)) [
  | inl full ↦ rw full (record {
    few = omega (arith, length-drop_old_le now ts, v.few);
    climbs = drop_old-Climbs 0 ts now v.climbs;
  })
  | inr room ↦ rw room (record {
    few =
        ground
          (arith, length-drop_old_le now ts, v.few, length-append (drop_old now ts) (now ∷ []));
    climbs = Climbs-snoc 0 (drop_old now ts) now (drop_old-Climbs 0 ts now v.climbs);
  })
]

module _ {S : Type 0} where
  rate_of-check_rate :
      (e : EndpointId) (now : ℕ) (r : Registry S)
      → let times = drop_old now (rate_of r e) in
        rate_of (check_rate e now r).1 e
        ≡ (if nat_eq (length times) rate_limit then times else times ++ (now ∷ []))
  unfolding check_rate rate_of
  rate_of-check_rate e now r =
      let times = drop_old now (unwrap_or (HashMap.get r.rate e) []) in
      ground (
        arith,
        HashMap.get-insert r.rate e times e,
        HashMap.get-insert r.rate e (times ++ (now ∷ [])) e,
        bytes_eq_refl e,
      )

  -- Where the times of an endpoint are at most ten and climb up to now, `check_rate` refuses just
  -- when ten of them lie in the window of a second that ends now, and leaves such times.
  pub check_rate-IsWindow :
      (e : EndpointId) (now : ℕ) (r : Registry S)
      → IsWindow now (rate_of r e)
      → ((check_rate e now r).0 ≡ (
          if nat_eq (recent now (rate_of r e)) rate_limit then err Error.rate_limited else ok tt))
        × IsWindow now (rate_of (check_rate e now r).1 e)
  check_rate-IsWindow e now r v = (
    decides,
    subst (IsWindow now) (sym (rate_of-check_rate e now r)) (after-IsWindow now (rate_of r e) v),
  )
    where
      decides :
          (check_rate e now r).0
          ≡ (if nat_eq (recent now (rate_of r e)) rate_limit then err Error.rate_limited else ok tt)
      decides = unfold check_rate in ground (arith, length-drop_old 0 (rate_of r e) now v.climbs)

  -- The times of another endpoint stay as they are.
  pub check_rate_others :
      (e i : EndpointId) (now : ℕ) (r : Registry S)
      → e ≢ i
      → rate_of (check_rate e now r).1 i ≡ rate_of r i
  unfolding check_rate rate_of
  check_rate_others e i now r other =
      let times = drop_old now (unwrap_or (HashMap.get r.rate e) []) in
      ground (
        arith,
        HashMap.get-insert r.rate e times i,
        HashMap.get-insert r.rate e (times ++ (now ∷ [])) i,
        bytes_eq_iff e i,
      )
