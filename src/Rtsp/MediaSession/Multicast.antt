-- ===== src/Rtsp/MediaSession/Multicast.antt =====
-- MulticastAddr of src/rtsp/MediaSession.h, and StartMulticast of MediaSession.cpp. An address is a
-- number, whose text form is one to one; `draws` is what `rd()` answers at each draw.
use stream_sight.Base.{
  inl, inr, ◌⊎◌, subst, ==→eq, ==_false→ne, ℕ, zero, suc, ◌+◌, ◌-◌, ◌%◌, ◌≤◌, ◌<◌, ◌≡◌, refl, Bool,
  true, false, Bool-cases, Option, none, some, List, [], ◌∷◌, if◌then◌else◌, ◌==◌, ==_refl, arith,
}

-- `addrs_.find(addr_str) != addrs_.end()`
unfoldable pub in_use : ℕ → List ℕ → Bool
in_use a [] = false
in_use a (x ∷ xs) = if x == a then true else in_use a xs

abbrev pub first_addr : ℕ
first_addr = 0xE8000100

abbrev pub addr_range : ℕ
addr_range = 0xE8FFFFFF - 0xE8000100

-- The loop of GetAddr draws eleven times at most.
abbrev pub max_addr_draws : ℕ
max_addr_draws = 11

module _ (draws : ℕ → ℕ) where
  unfoldable pub draw_addr : ℕ → ℕ → List ℕ → List ℕ × Option ℕ
  draw_addr zero n addrs = (addrs, none)
  draw_addr (suc left) n addrs =
      let addr = first_addr + draws n % addr_range in
      let next = draw_addr left (suc n) addrs in
      if in_use addr addrs then next else (addr ∷ addrs, some addr)

  unfoldable pub get_addr : List ℕ → List ℕ × Option ℕ
  get_addr addrs = draw_addr max_addr_draws 0 addrs

-- `addrs_.erase(addr)`
unfoldable pub release : ℕ → List ℕ → List ℕ
release a [] = []
release a (x ∷ xs) = if x == a then xs else x ∷ release a xs

-- GetAddr hands out an address that no session uses and that is from then on in use, in the range
-- that begins at 232.0.1.0; Release makes it free again and leaves the others. Or each of the
-- draws was in use, and nothing changes. GetAddr makes eleven draws at most.
pub draw_addr_lem :
    (draws : ℕ → ℕ) (left n : ℕ) (addrs : List ℕ)
    → let (addrs', answer) = draw_addr draws left n addrs in
      ((a : ℕ) × (answer ≡ some a)
        × (in_use a addrs ≡ false)
        × (first_addr ≤ a)
        × (a < 0xE8FFFFFF)
        × (in_use a addrs' ≡ true)
        × (release a addrs' ≡ addrs))
      ⊎ ((answer ≡ none)
          × (addrs' ≡ addrs)
          × ((j : ℕ)
              → n ≤ j
              → j < n + left
              → in_use (first_addr + draws j % addr_range) addrs ≡ true))
unfolding draw_addr in_use release
draw_addr_lem draws zero n addrs = inr (refl, refl, λ j le lt. absurd (omega arith))
draw_addr_lem draws (suc left) n addrs =
    let addr = first_addr + draws n % addr_range in
    elim (Bool-cases (in_use addr addrs)) [
      | inl taken ↦ elim (draw_addr_lem draws left (suc n) addrs) [
        | inl found ↦ rw (taken, draw_addr) (inl found)
        | inr (e, same, all) ↦
            rw (taken, draw_addr)
              (inr (
                e,
                same,
                λ j le lt. elim (Bool-cases (n == j)) [
                  | inl here ↦
                      subst (λ i. in_use (first_addr + draws i % addr_range) addrs ≡ true)
                        (==→eq n j here) taken
                  | inr other ↦ let ne = ==_false→ne n j other in all j (omega arith) (omega arith)
                ],
              ))
      ]
      | inr new ↦
          rw (new, draw_addr)
            (inl (
              addr,
              refl,
              new,
              omega arith,
              omega arith,
              rw (==_refl addr) refl,
              rw (==_refl addr) refl,
            ))
    ]
