-- ===== src/Discovery/Codec/Reads.antt =====
-- A step of the reader that takes exactly `written` off the input and returns a value, wherever
-- it stands and whatever follows.
use nerves_p2p.Prelude.{
  Bool, false, ◌+◌, ◌≤◌, ◌≡◌, ap, sym, subst, ◌∙◌, [], ◌++◌, append_assoc, append-nil, length,
  length-append, take-append, drop-append, arith, ok, if◌then◌else◌, false,
}
use nerves_p2p.Prelude.Results
use nerves_p2p.Prelude.Bytes.{Bytes}
use nerves_p2p.Discovery.Types.{u64_max}
use nerves_p2p.Discovery.Reader.{Reader, Parse, new, pure, ◌>>=◌, ◌>>◌, take_bytes, finish}

-- The reader that has passed `pre` and has `rest` before it.
abbrev pub at : Bytes → Bytes → Reader
at pre rest = record { bytes = pre ++ rest; offset = length pre }

abbrev pub Reads {ℓ} : {A : Type ℓ} → Parse A → Bytes → A → Type ℓ
Reads p written a =
    (pre rest : Bytes)
    → length pre + (length written + length rest) ≤ u64_max
    → p (at pre (written ++ rest)) ≡ ok (a, at (pre ++ written) rest)

at_assoc : (pre x y rest : Bytes) → at ((pre ++ x) ++ y) rest ≡ at (pre ++ (x ++ y)) rest
at_assoc pre x y rest = ap (λ q. at q rest) (append_assoc pre x y)

module _ {ℓ κ} {A : Type ℓ} {B : Type κ} where
  pub Reads-bind :
      (p : Parse A) (f : A → Parse B) (x y : Bytes) (a : A) (b : B)
      → Reads p x a
      → Reads (f a) y b
      → Reads (p >>= f) (x ++ y) b
  Reads-bind p f x y a b hp hf pre rest fits =
      ap (λ w. (p >>= f) (at pre w)) (append_assoc x y rest)
      ∙ ap (λ m. Results.◌>>=◌ m λ (c, r). f c r)
          (hp pre (y ++ rest) (omega (arith, length-append x y, length-append y rest)))
      ∙ hf (pre ++ x) rest (omega (arith, length-append x y, length-append pre x))
      ∙ ap (λ r. ok (b, r)) (at_assoc pre x y rest)

  -- The last part reads nothing.
  pub Reads-then :
      (p : Parse A) (f : A → Parse B) (x : Bytes) (a : A) (b : B)
      → Reads p x a
      → ((r : Reader) → f a r ≡ ok (b, r))
      → Reads (p >>= f) x b
  Reads-then p f x a b hp hf pre rest fits =
      ap (λ m. Results.◌>>=◌ m λ (c, r). f c r) (hp pre rest fits) ∙ hf (at (pre ++ x) rest)

module _ {ℓ} {A : Type ℓ} where
  -- A test that does not refuse.
  pub Reads-unless :
      (c : Bool) (q p : Parse A) (x : Bytes) (a : A)
      → c ≡ false
      → Reads p x a
      → Reads (if c then q else p) x a
  Reads-unless c q p x a e h pre rest fits = rw e (h pre rest fits)

pub Reads-take : (x : Bytes) → Reads (take_bytes (length x)) x x
unfolding take_bytes
Reads-take x pre rest fits = ground (
  arith,
  length-append pre (x ++ rest),
  length-append x rest,
  length-append pre x,
  drop-append pre (x ++ rest),
  take-append x rest,
  append_assoc pre x rest,
)

-- `finish` accepts the end of the input only.
pub finish-at_end : (pre : Bytes) → finish (at pre []) ≡ ok (tt, at pre [])
unfolding finish
finish-at_end pre = rw append-nil (ground arith)

-- A step that reads all that is left of the input.
abbrev pub Ends {ℓ} : {A : Type ℓ} → Parse A → Bytes → A → Type ℓ
Ends p written a =
    (pre : Bytes)
    → length pre + length written ≤ u64_max
    → p (at pre written) ≡ ok (a, at (pre ++ written) [])

module _ {ℓ κ} {A : Type ℓ} {B : Type κ} where
  pub Ends-bind :
      (p : Parse A) (f : A → Parse B) (x y : Bytes) (a : A) (b : B)
      → Reads p x a
      → Ends (f a) y b
      → Ends (p >>= f) (x ++ y) b
  Ends-bind p f x y a b hp hf pre fits =
      ap (λ m. Results.◌>>=◌ m λ (c, r). f c r) (hp pre y (omega (arith, length-append x y)))
      ∙ hf (pre ++ x) (omega (arith, length-append x y, length-append pre x))
      ∙ ap (λ r. ok (b, r)) (at_assoc pre x y [])

  -- The value is returned once `finish` has seen the end.
  pub Ends-finish :
      (p : Parse A) (g : A → B) (x : Bytes) (a : A)
      → Reads p x a
      → Ends (p >>= λ d. finish >> pure (g d)) x (g a)
  Ends-finish p g x a h pre fits =
      ap (λ w. (p >>= λ d. finish >> pure (g d)) (at pre w)) (sym (append-nil x))
      ∙ ap (λ m. Results.◌>>=◌ m λ (d, r). (finish >> pure (g d)) r) (h pre [] (omega arith))
      ∙ ap (λ m. Results.◌>>=◌ m λ (_, r). pure (g a) r) (finish-at_end (pre ++ x))

module _ {ℓ} {A : Type ℓ} where
  pub Ends-unless :
      (c : Bool) (q p : Parse A) (x : Bytes) (a : A)
      → c ≡ false
      → Ends p x a
      → Ends (if c then q else p) x a
  Ends-unless c q p x a e h pre fits = rw e (h pre fits)

  -- A decoder runs its steps on a new reader, over exactly the bytes that were written.
  pub Ends-new :
      (p : Parse A) (x w : Bytes) (a : A)
      → Ends p x a
      → w ≡ x
      → length w ≤ u64_max
      → p (new w) ≡ ok (a, at w [])
  unfolding new
  Ends-new p x w a h e fits =
      subst (λ v. p (at [] v) ≡ ok (a, at v [])) (sym e) (h [] (omega (arith, ap length e)))
