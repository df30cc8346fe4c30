-- ===== src/Net/BufferWriter/Laws.antt =====
-- What the send queue does with the bytes that it was given.
use stream_sight.Base.{
  inl, inr, ◌⊎◌, ℕ, ◌+◌, ◌-◌, ◌^◌, ◌≤◌, ◌<◌, ◌≡◌, refl, sym, ap, ◌∙◌, Bool, true, false, false≢true,
  Bool-cases, List, [], ◌∷◌, ◌++◌, append_assoc, ltb, ◌==◌, ==→eq, ==_false→ne, length, take, drop,
  All, add32, length-take, length-drop, take-append-drop, take-all, drop-take, drop-drop, arith,
}
use stream_sight.Net.BufferWriter.{
  Packet, Answer, taken, again, broken, SendResult, drained, offered, send_loop,
}

-- A packet with bytes to go, all of which its data holds.
abbrev pub IsPending : Packet → Type 0
IsPending p = (p.write_index < p.size) × (p.size ≤ length p.bytes) × (p.size < 2 ^ 32)

-- The bytes that wait, in order.
unfoldable pub waiting : List Packet → List ℕ
waiting [] = []
waiting (p ∷ ps) = offered p ++ waiting ps

length-offered : (p : Packet) → IsPending p → length (offered p) ≡ p.size - p.write_index
length-offered p h =
    length-take (p.size - p.write_index) (drop p.write_index p.bytes)
    ∙ omega (arith, length-drop p.write_index p.bytes)

-- `send` takes no more than it is offered.
abbrev pub IsHonest : (ℕ → List ℕ → Answer) → Type 0
IsHonest os = (round : ℕ) (bytes : List ℕ) (n : ℕ) → os round bytes ≡ taken n → n ≤ length bytes

-- A packet after `n` of its bytes: the bytes taken, and the bytes that it offers next.
offered-taken :
    (p : Packet) (n : ℕ)
    → IsPending p
    → n ≤ length (offered p)
    → let p' = record p { write_index = add32 p.write_index n } in
      (p'.write_index ≡ p.write_index + n) × (take n (offered p) ++ offered p' ≡ offered p)
offered-taken p n h le =
    let l = length-offered p h in
    let e : add32 p.write_index n ≡ p.write_index + n = omega arith in
    let d : offered (record p { write_index = p.write_index + n }) ≡ drop n (offered p) = sym (
      drop-take n (p.size - p.write_index) (p.size - (p.write_index + n))
        (drop p.write_index p.bytes) (omega arith)
      ∙ ap (take (p.size - (p.write_index + n)))
          (drop-drop p.write_index n (p.write_index + n) p.bytes refl)) in
    (e, rw e (rw d (take-append-drop n (offered p))))

abbrev pub is_drained : SendResult → Bool
is_drained drained = true
is_drained r = false

pub Answer-cases : (a : Answer) → ((n : ℕ) × (a ≡ taken n)) ⊎ ((a ≡ again) ⊎ (a ≡ broken))
Answer-cases (taken n) = inl (n, refl)
Answer-cases again = inr (inl refl)
Answer-cases broken = inr (inr refl)

module _ (os : ℕ → List ℕ → Answer) (honest : IsHonest os) where
  -- The loop neither loses nor repeats nor reorders a byte.
  pub send_loop-waiting :
      (round : ℕ) (ps : List Packet) (wire : List ℕ)
      → All IsPending ps
      → let (left, wire', result) = send_loop os round ps wire in
        (wire' ++ waiting left ≡ wire ++ waiting ps)
        × All IsPending left
        × (is_drained result ≡ true → left ≡ [])
        × (length left ≤ length ps)
  unfolding send_loop waiting
  send_loop-waiting round [] wire h = (refl, tt, λ e. refl, omega arith)
  send_loop-waiting round (p ∷ ps) wire h = elim (Answer-cases (os round (offered p))) [
    | inl (n, e) ↦ elim (Bool-cases (ltb 0 n)) [
      | inl some_bytes ↦
          let le : n ≤ length (offered p) = honest round (offered p) n e in
          let p' = record p { write_index = add32 p.write_index n } in
          let wire' = wire ++ take n (offered p) in
          let t = offered-taken p n h.0 le in
          let l = length-offered p h.0 in
          elim (Bool-cases (p.size == add32 p.write_index n)) [
            | inl whole ↦
                let eq = ==→eq p.size (add32 p.write_index n) whole in
                let all = take-all n (offered p) (omega arith) in
                let ih = send_loop-waiting (round + 1) ps wire' h.1 in
                rw (e, some_bytes, whole, send_loop)
                  (
                    ih.0
                        ∙ append_assoc wire (take n (offered p)) (waiting ps)
                        ∙ ap (λ b. wire ++ (b ++ waiting ps)) all,
                    ih.1,
                    ih.2,
                    omega (arith, ih.3),
                  )
            | inr part ↦
                let ne = ==_false→ne p.size (add32 p.write_index n) part in
                rw (e, some_bytes, part, send_loop)
                  (
                    append_assoc wire (take n (offered p)) (offered p' ++ waiting ps)
                        ∙ ap (λ b. wire ++ b)
                            (sym (append_assoc (take n (offered p)) (offered p') (waiting ps))
                              ∙ ap (λ b. b ++ waiting ps) t.1),
                    ((omega (arith, t.0), h.0.1, h.0.2), h.1),
                    λ w. absurd (false≢true w),
                    omega arith,
                  )
          ]
      | inr no_bytes ↦
          rw (e, no_bytes, send_loop) (refl, h, λ w. absurd (false≢true w), omega arith)
    ]
    | inr (inl e) ↦ rw (e, send_loop) (refl, h, λ w. absurd (false≢true w), omega arith)
    | inr (inr e) ↦ rw (e, send_loop) (refl, h, λ w. absurd (false≢true w), omega arith)
  ]
