-- ===== src/Bridge/DhtState/Gives.antt =====
-- native/p2p_bridge/src/dht_state.rs: what a parser that has succeeded says of the bytes it read.
use nerves_p2p.Prelude.{
  Bool, true, false, ℕ, ◌+◌, ◌*◌, ◌%◌, ◌/◌, ◌≤◌, ◌<◌, ◌≡◌, refl, sym, subst, ap, ◌∙◌, [], ◌∷◌, ◌++◌,
  append_assoc, append-nil, length, length-append, take, drop, drop-append, take-append-drop,
  length-take, All, All-append_inv, ok, err, Result, arith,
}
use nerves_p2p.Prelude.Bytes.{Bytes, IsByte, Eq_bytes, be_bytes, from_be, from_be_onto}
use nerves_p2p.Bridge.DhtState.{
  DhtStateError, Cursor, Parse, encode_u16, encode_u32, after, ◌>>=◌, pure, refuse, read_vec,
  read_uint,
}

abbrev pub at : Bytes → Bytes → Cursor
at pre post = record { buf = pre ++ post; offset = length pre }

-- The parser has read `text` between `pre` and `rest`, as a value that `T` relates to it.
pub record Parsed {A : Type 0} (T : A → Bytes → Type 0) (pre post : Bytes) (a : A) (c : Cursor)
    : Type 0 where
  pub text : Bytes
  pub rest : Bytes
  pub split : post ≡ text ++ rest
  pub cursor : c ≡ at (pre ++ text) rest
  pub holds : T a text

pub record Gives {A : Type 0} (p : Parse A) (T : A → Bytes → Type 0) : Type 0 where
  pub gives :
      (pre post : Bytes) (a : A) (c : Cursor)
      → All IsByte post
      → p (at pre post) ≡ ok (a, c)
      → Parsed T pre post a c

pub pure-Gives : {A : Type 0} {T : A → Bytes → Type 0} (a : A) → T a [] → Gives (pure a) T
unfolding pure
pure-Gives {A = A} {T = T} a t = record {
  gives = λ pre post b c _ h.
      let same : a ≡ b = ground arith in
      let stays : at pre post ≡ c = ground arith in
      record {
        text = [];
        rest = post;
        split = refl;
        cursor = sym stays ∙ ap (λ x. at x post) (sym (append-nil pre));
        holds = subst (λ b. T b []) same t;
      };
}

after-ok :
    {A B : Type 0} (r : Result (A × Cursor) DhtStateError) (f : A → Parse B) (b : B) (c : Cursor)
    → after r f ≡ ok (b, c)
    → (a : A) × (c' : Cursor) × (r ≡ ok (a, c')) × (f a c' ≡ ok (b, c))
unfolding after
after-ok (err e) f b c h = ground arith
after-ok (ok (a, c')) f b c h = (a, c', refl, h)

pub bind-Gives :
    {A B : Type 0} {R : A → Bytes → Type 0} {T : B → Bytes → Type 0} (p : Parse A) (f : A → Parse B)
    → Gives p R
    → ((a : A) (x : Bytes) → R a x → Gives (f a) (λ b y. T b (x ++ y)))
    → Gives (p >>= f) T
unfolding ◌>>=◌
bind-Gives p f hp hf = record {
  gives = λ pre post b c bytes h.
      let (a, c', first, second) = after-ok (p (at pre post)) f b c h in
      let u = hp.gives pre post a c' bytes first in
      let there = (All-append_inv IsByte u.text u.rest (subst (All IsByte) u.split bytes)).1 in
      let v =
        (hf a u.text u.holds).gives (pre ++ u.text) u.rest b c there
          (ap (f a) (sym u.cursor) ∙ second) in
      record {
        text = u.text ++ v.text;
        rest = v.rest;
        split = u.split ∙ ap (◌++◌ u.text) v.split ∙ sym (append_assoc u.text v.text v.rest);
        cursor = v.cursor ∙ ap (λ x. at x v.rest) (append_assoc pre u.text v.text);
        holds = v.holds;
      };
}

pub refuse-Gives :
    {B : Type 0} {T : B → Bytes → Type 0} (b : Bool) (e : DhtStateError) (f : Unit {0} → Parse B)
    → (b ≡ false → Gives (f tt) T)
    → Gives (refuse b e >>= f) T
unfolding ◌>>=◌ after refuse
refuse-Gives true e f h = record { gives = λ pre post b c bytes w. ground arith }
refuse-Gives false e f h = h refl

cursor_eq :
    {b b' : Bytes} {i j : ℕ}
    → b ≡ b'
    → i ≡ j
    → ◌≡◌ {A = Cursor} (record { buf = b; offset = i }) (record { buf = b'; offset = j })
cursor_eq e h = cc

read_vec-ok :
    (n : ℕ) (c : Cursor) (x : Bytes) (c' : Cursor)
    → read_vec n c ≡ ok (x, c')
    → (c.offset + n ≤ length c.buf)
      × (take n (drop c.offset c.buf) ≡ x)
      × (record c { offset = c.offset + n } ≡ c')
unfolding read_vec
read_vec-ok n c x c' h = (ground arith, ground arith, ground arith)

pub read_vec-Gives : (n : ℕ) → Gives (read_vec n) (λ x y. (x ≡ y) × (length y ≡ n) × All IsByte y)
read_vec-Gives n = record {
  gives = λ pre post x c bytes h.
      let (fits, read, moved) = read_vec-ok n (at pre post) x c h in
      let sized : length (take n post) ≡ n =
        omega (arith, fits, length-take n post, length-append pre post) in
      let whole = take-append-drop n post in
      record {
        text = take n post;
        rest = drop n post;
        split = sym whole;
        cursor =
            sym moved
            ∙ cursor_eq (ap (◌++◌ pre) (sym whole) ∙ sym (append_assoc pre _ _))
                (omega (arith, sized, length-append pre (take n post)));
        holds = (
          sym read ∙ ap (take n) (drop-append pre post),
          sized,
          (All-append_inv IsByte (take n post) (drop n post)
              (subst (All IsByte) (sym whole) bytes)).0,
        );
      };
}

pub map-Gives :
    {A : Type 0} {R T : A → Bytes → Type 0} (p : Parse A)
    → ((a : A) (x : Bytes) → R a x → T a x)
    → Gives p R
    → Gives p T
map-Gives p f h = record {
  gives = λ pre post a c bytes e.
      let u = h.gives pre post a c bytes e in
      record {
        text = u.text;
        rest = u.rest;
        split = u.split;
        cursor = u.cursor;
        holds = f a u.text u.holds;
      };
}

-- The last step only makes the result.
pub last-Gives :
    {A B : Type 0} {R : A → Bytes → Type 0} {T : B → Bytes → Type 0} (p : Parse A) (f : A → B)
    → Gives p R
    → ((a : A) (x : Bytes) → R a x → T (f a) x)
    → Gives (p >>= λ a. pure (f a)) T
last-Gives {T = T} p f hp h =
    bind-Gives p (λ a. pure (f a)) hp
      λ a x r. pure-Gives (f a) (subst (T (f a)) (sym (append-nil x)) (h a x r))

-- The bytes of a number.
pub record IsWord (w n : ℕ) (y : Bytes) : Type 0 where
  pub value : n ≡ from_be y
  pub size : length y ≡ w
  pub bytes : All IsByte y

pub uint-Gives : (w : ℕ) → Gives (read_uint w) (IsWord w)
unfolding read_uint
uint-Gives w =
    last-Gives (read_vec w) from_be (read_vec-Gives w)
      λ x y (same, sized, bytes). record { value = ap from_be same; size = sized; bytes = bytes }

pub u8_text : (n : ℕ) (y : Bytes) → IsWord 1 n y → y ≡ n ∷ []
unfolding from_be from_be_onto
u8_text n [] w = absurd (omega (arith, w.size))
u8_text n (a ∷ []) w = let same : a ≡ n = omega (arith, w.value) in rw same refl
u8_text n (a ∷ b ∷ y) w = absurd (omega (arith, w.size))

pub u16_text : (n : ℕ) (y : Bytes) → IsWord 2 n y → (y ≡ encode_u16 n) × (n < 65536)
unfolding from_be from_be_onto encode_u16 be_bytes
u16_text n [] w = absurd (omega (arith, w.size))
u16_text n (a ∷ []) w = absurd (omega (arith, w.size))
u16_text n (a ∷ b ∷ []) w =
    let first : a ≡ n % 65536 / 256 % 256 = omega (arith, w.value, w.bytes) in
    let second : b ≡ n % 65536 % 256 = omega (arith, w.value, w.bytes) in
    (cc, omega (arith, w.value, w.bytes))
u16_text n (a ∷ b ∷ c ∷ y) w = absurd (omega (arith, w.size))

pub u32_text : (n : ℕ) (y : Bytes) → IsWord 4 n y → (y ≡ encode_u32 n) × (n < 4294967296)
unfolding from_be from_be_onto encode_u32 be_bytes
u32_text n [] w = absurd (omega (arith, w.size))
u32_text n (a ∷ []) w = absurd (omega (arith, w.size))
u32_text n (a ∷ b ∷ []) w = absurd (omega (arith, w.size))
u32_text n (a ∷ b ∷ c ∷ []) w = absurd (omega (arith, w.size))
u32_text n (a ∷ b ∷ c ∷ d ∷ []) w =
    let low : n < 4294967296 = omega (arith, w.value, w.bytes) in
    let whole : n % 4294967296 ≡ n = omega (arith, low) in
    let h1 : n / 256 ≡ (a * 256 + b) * 256 + c = omega (arith, w.value, w.bytes) in
    let h2 : n / 256 / 256 ≡ a * 256 + b = omega (arith, h1, w.bytes) in
    let first : a ≡ n / 256 / 256 / 256 % 256 = omega (arith, h2, w.bytes) in
    let second : b ≡ n / 256 / 256 % 256 = omega (arith, h2, w.bytes) in
    let third : c ≡ n / 256 % 256 = omega (arith, h1, w.bytes) in
    let fourth : d ≡ n % 256 = omega (arith, w.value, w.bytes) in (rw whole cc, low)
u32_text n (a ∷ b ∷ c ∷ d ∷ e ∷ y) w = absurd (omega (arith, w.size))
