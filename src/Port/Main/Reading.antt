-- ===== src/Port/Main/Reading.antt =====
-- native/iroh_discovery/src/bin/iroh_discovery_port.rs: the loop of the reading thread ends.
use nerves_p2p.Prelude.{
  ℕ, zero, suc, ◌<◌, List, [], ◌∷◌, length, drop, length-drop, ltb, take, if◌then◌else◌, Bool-cases,
  inl, inr, Result, ok, err, arith,
}
use nerves_p2p.Prelude.Bytes.{Bytes, from_be}
use nerves_p2p.Port.Frames.{Frame, eof, oversized, payload, IoError, max_frame_size, read_frame}
use nerves_p2p.Port.Main.{read_on, read_all}

-- What stops the thread.
abbrev pub Stops : Result Frame IoError → Type 0
Stops (err e) = Unit
Stops (ok eof) = Unit
Stops (ok oversized) = ⊥
Stops (ok (payload bytes)) = ⊥

-- The last frame stops the thread, and none before it.
abbrev pub Ends : List (Result Frame IoError) → Type 0
Ends [] = ⊥
Ends (f ∷ []) = Stops f
Ends (f ∷ g ∷ fs) = ¬ Stops f × Ends (g ∷ fs)

-- What a frame leaves is shorter, unless the input is at its end.
abbrev Shrinks : Bytes → Result (Frame × Bytes) IoError → Type 0
Shrinks input (err e) = Unit
Shrinks input (ok (eof, rest)) = Unit
Shrinks input (ok (oversized, rest)) = length rest < length input
Shrinks input (ok (payload bytes, rest)) = length rest < length input

read_frame-Shrinks : (input : Bytes) → Shrinks input (read_frame input)
unfolding read_frame
read_frame-Shrinks input = elim (Bool-cases (ltb (length input) 4)) [
  | inl over ↦ rw over tt
  | inr begun ↦
      rw begun
        (sized (from_be (take 4 input)) (drop 4 input) (ground (arith, begun, length-drop 4 input)))
]
  where
    sized :
        (n : ℕ) (rest : Bytes)
        → length rest < length input
        → Shrinks input (
            if ltb max_frame_size n
            then ok (oversized, drop n rest)
            else if ltb (length rest) n
            then err IoError.unexpected_eof
            else ok (payload (take n rest), drop n rest))
    sized n rest less = elim (Bool-cases (ltb max_frame_size n)) [
      | inl large ↦ rw large (omega (arith, less, length-drop n rest))
      | inr fits ↦ elim (Bool-cases (ltb (length rest) n)) [
        | inl cut ↦ rw (fits, cut) tt
        | inr whole ↦ rw (fits, whole) (omega (arith, less, length-drop n rest))
      ]
    ]

cons-Ends :
    (f : Result Frame IoError) (fs : List (Result Frame IoError))
    → ¬ Stops f
    → Ends fs
    → Ends (f ∷ fs)
cons-Ends f [] goes e = absurd e
cons-Ends f (g ∷ fs) goes e = (goes, e)

read_on-Ends :
    (input : Bytes) (r : Result (Frame × Bytes) IoError)
    (more : Bytes → List (Result Frame IoError))
    → Shrinks input r
    → ((rest : Bytes) → length rest < length input → Ends (more rest))
    → Ends (read_on r more)
unfolding read_on
read_on-Ends input (err e) more h ends = tt
read_on-Ends input (ok (eof, rest)) more h ends = tt
read_on-Ends input (ok (oversized, rest)) more h ends =
    cons-Ends (ok oversized) (more rest) (λ s. s) (ends rest h)
read_on-Ends input (ok (payload bytes, rest)) more h ends =
    cons-Ends (ok (payload bytes)) (more rest) (λ s. s) (ends rest h)

-- Whatever the input, the thread stops within one turn more than the input has bytes: the last thing
-- that it passes on is an end or an error, and nothing before that is.
pub read_all-Ends : (fuel : ℕ) (input : Bytes) → length input < fuel → Ends (read_all fuel input)
unfolding read_all
read_all-Ends zero input h = elim h [ ]
read_all-Ends (suc fuel) input h =
    read_on-Ends input (read_frame input) (λ rest. read_all fuel rest) (read_frame-Shrinks input)
      (λ rest less. read_all-Ends fuel rest (omega arith))
