-- ===== src/Text/Laws.antt =====
-- What the conversions read of what was printed.
use native.Mathlib.Nat.{pow-suc}
use stream_sight.Base.{
  ℕ, zero, suc, ◌+◌, ◌-◌, ◌*◌, ◌/◌, ◌%◌, ◌^◌, ◌≤◌, ◌<◌, ◌≡◌, ◌≢◌, refl, ap, ◌∙◌, sym, Bool, true,
  false, not, [], ◌∷◌, ◌++◌, if◌then◌else◌, ◌==◌, length, All, arith,
}
use stream_sight.Text.{Text, span, c_str}
use stream_sight.Text.Scan.{
  is_digit, is_space, number, to_width, magnitude, signed, unsigned, matched, skip_space,
}
use stream_sight.Text.Print.{digits, decimal}

abbrev pub Passes : (ℕ → Bool) → Text → Type 0
Passes test = All (λ c. test c ≡ true)

-- A run of bytes that pass, up to one that does not.
pub span-append :
    (test : ℕ → Bool) (xs : Text) (c : ℕ) (rest : Text)
    → Passes test xs
    → test c ≡ false
    → span test (xs ++ c ∷ rest) ≡ (xs, c ∷ rest)
unfolding span
span-append test [] c rest h stop = rw stop refl
span-append test (x ∷ xs) c rest (hx, h) stop = rw (hx, span-append test xs c rest h stop) refl

pub span-all : (test : ℕ → Bool) (xs : Text) → Passes test xs → span test xs ≡ (xs, [])
unfolding span
span-all test [] h = refl
span-all test (x ∷ xs) (hx, h) = rw (hx, span-all test xs h) refl

pub c_str-all : (s : Text) → Passes (λ c. not (c == 0)) s → c_str s ≡ s
unfolding c_str
c_str-all s h = ap (λ p. p.0) (span-all (λ c. not (c == 0)) s h)

pub Passes-append :
    (test : ℕ → Bool) (xs ys : Text) → Passes test xs → Passes test ys → Passes test (xs ++ ys)
Passes-append test [] ys h k = k
Passes-append test (x ∷ xs) ys (hx, h) k = (hx, Passes-append test xs ys h k)

pub Passes-mono :
    (test weaker : ℕ → Bool) (xs : Text)
    → ((c : ℕ) → test c ≡ true → weaker c ≡ true)
    → Passes test xs
    → Passes weaker xs
Passes-mono test weaker [] m h = tt
Passes-mono test weaker (x ∷ xs) m (hx, h) = (m x hx, Passes-mono test weaker xs m h)

number-digits : (k n : ℕ) (out : Text) → n < 10 ^ k → number 0 (digits k n out) ≡ number n out
unfolding number digits
number-digits zero n out h = let z : n ≡ 0 = omega arith in rw z refl
number-digits (suc k) n out h =
    let h' : n < 10 ^ k * 10 = rw (pow-suc 10 k) at h in
    let ih = number-digits k (n / 10) ((b'0' + n % 10) ∷ out) (omega arith) in ground arith

digits-Passes : (k n : ℕ) (out : Text) → Passes is_digit out → Passes is_digit (digits k n out)
unfolding digits
digits-Passes zero n out h = h
digits-Passes (suc k) n out h =
    let d : is_digit (b'0' + n % 10) ≡ true = ground arith in
    let ih = digits-Passes k (n / 10) ((b'0' + n % 10) ∷ out) (d, h) in ground arith

pub decimal-Passes : (n : ℕ) → Passes is_digit (decimal n)
unfolding decimal
decimal-Passes n = digits-Passes 10 n [] tt

digit_bounds : (c : ℕ) → is_digit c ≡ true → (48 ≤ c) × (c ≤ 57)
digit_bounds c h = ground arith

pub digit-not_space : (c : ℕ) → is_digit c ≡ true → is_space c ≡ false
digit-not_space c h = ground arith

pub skip_space-front : (c : ℕ) (s : Text) → is_space c ≡ false → skip_space (c ∷ s) ≡ c ∷ s
unfolding skip_space
skip_space-front c s h = rw (h, skip_space) refl

number-Passes :
    (n : ℕ) (out : Text) (c : ℕ) (rest : Text)
    → Passes is_digit out
    → is_digit c ≡ false
    → (m : ℕ) × (number n (out ++ c ∷ rest) ≡ (m, c ∷ rest)) × (number n out ≡ (m, []))
unfolding number
number-Passes n [] c rest h stop = (n, rw stop refl, refl)
number-Passes n (x ∷ xs) c rest (hx, h) stop =
    let (m, e, f) = number-Passes (n * 10 + (x - b'0')) xs c rest h stop in
    (m, rw (hx, e) refl, rw (hx, f) refl)

number-decimal :
    (n c : ℕ) (rest : Text)
    → n < 2 ^ 32
    → is_digit c ≡ false
    → number 0 (decimal n ++ c ∷ rest) ≡ (n, c ∷ rest)
number-decimal n c rest h stop =
    let (m, e, f) = number-Passes 0 (decimal n) c rest (decimal-Passes n) stop in
    let g : number 0 (decimal n) ≡ (n, []) =
      unfold decimal in number-digits 10 n [] (omega arith) ∙ (unfold number in refl) in
    let same : m ≡ n = ap (λ p. p.0) (sym f ∙ g) in e ∙ rw same refl

module _ (bits n : ℕ) (rest : Text) where
  magnitude-digits :
      (x : ℕ) (xs : Text)
      → n < 2 ^ 64
      → is_digit x ≡ true
      → number 0 (x ∷ xs) ≡ (n, rest)
      → magnitude false bits (x ∷ xs) ≡ matched (n % 2 ^ bits, rest)
  unfolding magnitude to_width
  magnitude-digits x xs lt hx e = rw (hx, e) (ground arith)

  unsigned-digits :
      (xs : Text)
      → n < 2 ^ 64
      → Passes is_digit xs
      → xs ≢ []
      → (ys : Text) → number 0 (xs ++ ys) ≡ (n, rest)
      → unsigned bits (xs ++ ys) ≡ matched (n % 2 ^ bits, rest)
  unfolding unsigned signed
  unsigned-digits [] lt h ne ys e = absurd (ne refl)
  unsigned-digits (x ∷ xs) lt (hx, h) ne ys e =
      let (lo, hi) = digit_bounds x hx in
      let plain : (x == b'-') ≡ false = ground arith in
      let plain' : (x == b'+') ≡ false = ground arith in
      rw (skip_space-front x (xs ++ ys) (digit-not_space x hx), plain, plain')
        (magnitude-digits x (xs ++ ys) lt hx e)

digits-ne-nil : (k n : ℕ) (out : Text) → out ≢ [] → digits k n out ≢ []
unfolding digits
digits-ne-nil zero n out h = h
digits-ne-nil (suc k) n out h =
    let ne : (b'0' + n % 10) ∷ out ≢ [] = λ e. cc in
    let ih = digits-ne-nil k (n / 10) ((b'0' + n % 10) ∷ out) ne in ground arith

decimal-ne-nil : (n : ℕ) → decimal n ≢ []
unfolding decimal digits
decimal-ne-nil n =
    let ne : (b'0' + n % 10) ∷ [] ≢ [] = λ e. cc in
    let ih = digits-ne-nil 9 (n / 10) ((b'0' + n % 10) ∷ []) ne in ground arith

-- `%u` and `%hu` read what `%u` printed, up to a byte that is no digit.
pub unsigned-decimal :
    (bits n c : ℕ) (rest : Text)
    → n < 2 ^ 32
    → is_digit c ≡ false
    → unsigned bits (decimal n ++ c ∷ rest) ≡ matched (n % 2 ^ bits, c ∷ rest)
unsigned-decimal bits n c rest h stop =
    unsigned-digits bits n (c ∷ rest) (decimal n) (omega arith) (decimal-Passes n)
      (decimal-ne-nil n) (c ∷ rest) (number-decimal n c rest h stop)

front-skip_space :
    (xs : Text) → xs ≢ [] → Passes is_digit xs → (s : Text) → skip_space (xs ++ s) ≡ xs ++ s
front-skip_space [] ne h s = absurd (ne refl)
front-skip_space (x ∷ xs) ne (hx, h) s = skip_space-front x (xs ++ s) (digit-not_space x hx)

pub decimal-skip_space : (n : ℕ) (s : Text) → skip_space (decimal n ++ s) ≡ decimal n ++ s
decimal-skip_space n = front-skip_space (decimal n) (decimal-ne-nil n) (decimal-Passes n)

-- A text without variables passes by evaluation.
abbrev pub all_pass : (ℕ → Bool) → Text → Bool
all_pass test [] = true
all_pass test (c ∷ s) = if test c then all_pass test s else false

pub all_pass-Passes : (test : ℕ → Bool) (s : Text) → all_pass test s ≡ true → Passes test s
all_pass-Passes test [] h = tt
all_pass-Passes test (c ∷ s) h = ground (arith, all_pass-Passes test s)

length-digits : (k n : ℕ) (out : Text) → length (digits k n out) ≤ k + length out
unfolding digits
length-digits zero n out = omega arith
length-digits (suc k) n out =
    let ih = length-digits k (n / 10) ((b'0' + n % 10) ∷ out) in ground arith

pub length-decimal : (n : ℕ) → length (decimal n) ≤ 10
unfolding decimal
length-decimal n = length-digits 10 n []
