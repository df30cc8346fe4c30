-- ===== src/Text/Print.antt =====
-- `snprintf`: the conversions `%u` and `%d`, and the cut at the end of the array.
use stream_sight.Base.{
  ℕ, zero, suc, ◌+◌, ◌-◌, ◌/◌, ◌%◌, ◌^◌, [], ◌∷◌, ◌++◌, if◌then◌else◌, ltb, ◌==◌, length, take,
}
use stream_sight.Text.{Text}

-- At most `k` digits of a number, in front of a text.
unfoldable pub digits : ℕ → ℕ → Text → Text
digits zero n out = out
digits (suc k) n out =
    let out' = (b'0' + n % 10) ∷ out in
    let later = digits k (n / 10) out' in if n / 10 == 0 then out' else later

-- `%u` of a `uint32_t`, that has ten digits at most.
unfoldable pub decimal : ℕ → Text
unfolding digits
decimal n = digits 10 n []

-- `%d`, that reads the 32 bits as an `int`.
unfoldable pub decimal_int : ℕ → Text
unfolding decimal
decimal_int n = if ltb n (2 ^ 31) then decimal n else b'-' ∷ decimal (2 ^ 32 - n)

-- `snprintf(buf + strlen(buf), size - strlen(buf), …)`: what the array then holds up to its NUL.
unfoldable pub print_behind : ℕ → Text → Text → Text
print_behind size buf text = buf ++ take (size - length buf - 1) text

-- `snprintf(buf, size, …)` into an array of zeros.
unfoldable pub snprintf : ℕ → Text → Text
snprintf size text = take (size - 1) text
