-- ===== src/Rtsp/MediaSession/Clients.antt =====
-- The clients of src/rtsp/MediaSession.cpp over any sequence of calls, and the callbacks that tell of them.
use stream_sight.Base.{
  inl, inr, ℕ, suc, ◌+◌, ◌≡◌, refl, sym, ap, ◌∙◌, Bool, true, false, Option, none, some,
  Option-cases, List, [], ◌∷◌, ◌++◌, if◌then◌else◌, if-true, subst, ==_refl, length, arith,
}
use stream_sight.Rtsp.Packet.{RtpPacket}
use stream_sight.Rtsp.MediaSession.{
  MediaSession, find_client, emplace_client, erase_client, add_client, remove_client, live_clients,
  receivers, send_each, on_packet,
}

-- Which connections are alive may change from call to call.
pub data Call : Type 0 where
  adds : ℕ → ℕ → Call
  removes : (ℕ → Bool) → ℕ → Call
  packets : (ℕ → Bool) → (ℕ → Option ℕ) → (ℕ → Bool) → ℕ → RtpPacket → Call

unfoldable pub step : MediaSession → Call → MediaSession
step m (adds fd conn) = (add_client fd conn m).0
step m (removes alive fd) = remove_client alive fd m
step m (packets alive get_id accepts channel pkt) = (on_packet alive get_id accepts m channel pkt).0

-- The clients of a list whose connection is gone.
unfoldable pub gone : (ℕ → Bool) → List (ℕ × ℕ) → ℕ
gone alive [] = 0
gone alive ((k, c) ∷ cs) = if alive c then gone alive cs else suc (gone alive cs)

abbrev one_if_gone : (ℕ → Bool) → Option ℕ → ℕ
one_if_gone alive none = 0
one_if_gone alive (some c) = if alive c then 0 else 1

-- The clients that a call drops without a word: those whose connection is gone.
unfoldable pub dropped : MediaSession → Call → ℕ
dropped m (adds fd conn) = 0
dropped m (removes alive fd) = one_if_gone alive (find_client fd m.clients)
dropped m (packets alive get_id accepts channel pkt) = gone alive m.clients

unfoldable pub run : MediaSession → List Call → MediaSession × ℕ
run m [] = (m, 0)
run m (c ∷ cs) = let (m', n) = run (step m c) cs in (m', dropped m c + n)

length-emplace_client :
    (fd conn : ℕ) (cs : List (ℕ × ℕ)) → length (emplace_client fd conn cs) ≡ suc (length cs)
unfolding emplace_client
length-emplace_client fd conn [] = refl
length-emplace_client fd conn ((k, c) ∷ cs) = ground (arith, length-emplace_client fd conn cs)

length-erase_client :
    (fd c : ℕ) (cs : List (ℕ × ℕ))
    → find_client fd cs ≡ some c
    → suc (length (erase_client fd cs)) ≡ length cs
unfolding find_client erase_client
length-erase_client fd c [] h = ground (arith, h)
length-erase_client fd c ((k, d) ∷ cs) h = ground (arith, length-erase_client fd c cs)

length-live_clients :
    (alive : ℕ → Bool) (cs : List (ℕ × ℕ))
    → length (live_clients alive cs) + gone alive cs ≡ length cs
unfolding live_clients gone
length-live_clients alive [] = omega arith
length-live_clients alive ((k, c) ∷ cs) = ground (arith, length-live_clients alive cs)

module _ (alive : ℕ → Bool) (get_id : ℕ → Option ℕ) (accepts : ℕ → Bool) (channel : ℕ)
    (pkt : RtpPacket) where
  -- Sending changes only what was sent.
  send_each-keeps :
      (cs : List ℕ) (m : MediaSession)
      → let m' = send_each alive get_id accepts channel pkt cs m in
        (m'.clients ≡ m.clients) × (m'.connected ≡ m.connected) × (m'.disconnected ≡ m.disconnected)
  unfolding send_each
  send_each-keeps [] m = (refl, refl, refl)
  send_each-keeps (c ∷ cs) m =
      ground (arith, send_each-keeps cs (record m { sent = m.sent ++ ((c, channel, pkt) ∷ []) }))

-- The callbacks account for the clients.
abbrev pub IsBalanced : ℕ → MediaSession → Type 0
IsBalanced n m = m.connected ≡ m.disconnected + length m.clients + n

add_client-new :
    (fd conn : ℕ) (m : MediaSession)
    → find_client fd m.clients ≡ none
    → add_client fd conn m ≡ (
      record m {
        clients = emplace_client fd conn m.clients;
        connected = m.connected + 1;
        has_new_client = true;
      },
      true,
    )
unfolding add_client
add_client-new fd conn m h = rw (h, add_client) refl

add_client-old :
    (fd conn c : ℕ) (m : MediaSession)
    → find_client fd m.clients ≡ some c
    → add_client fd conn m ≡ (m, false)
unfolding add_client
add_client-old fd conn c m h = rw (h, add_client) refl

remove_client-missing :
    (alive : ℕ → Bool) (fd : ℕ) (m : MediaSession)
    → find_client fd m.clients ≡ none
    → remove_client alive fd m ≡ m
unfolding remove_client
remove_client-missing alive fd m h = rw (h, remove_client) refl

remove_client-found :
    (alive : ℕ → Bool) (fd c : ℕ) (m : MediaSession)
    → find_client fd m.clients ≡ some c
    → remove_client alive fd m ≡ record m {
      clients = erase_client fd m.clients;
      disconnected = if alive c then m.disconnected + 1 else m.disconnected;
    }
unfolding remove_client
remove_client-found alive fd c m h = rw (h, remove_client) refl

add_client-IsBalanced :
    (n fd conn : ℕ) (m : MediaSession) → IsBalanced n m → IsBalanced n (add_client fd conn m).0
add_client-IsBalanced n fd conn m h = elim (Option-cases (find_client fd m.clients)) [
  | inl new ↦
      subst (λ w. IsBalanced n w.0) (sym (add_client-new fd conn m new))
        (omega (arith, length-emplace_client fd conn m.clients))
  | inr (c, old) ↦ subst (λ w. IsBalanced n w.0) (sym (add_client-old fd conn c m old)) h
]

remove_client-IsBalanced :
    (n : ℕ) (alive : ℕ → Bool) (fd : ℕ) (m : MediaSession)
    → IsBalanced n m
    → IsBalanced (n + one_if_gone alive (find_client fd m.clients)) (remove_client alive fd m)
remove_client-IsBalanced n alive fd m h = elim (Option-cases (find_client fd m.clients)) [
  | inl new ↦
      subst (λ w. IsBalanced (n + one_if_gone alive (find_client fd m.clients)) w)
        (sym (remove_client-missing alive fd m new)) (rw new (omega arith))
  | inr (c, old) ↦
      let l = length-erase_client fd c m.clients old in
      subst (λ w. IsBalanced (n + one_if_gone alive (find_client fd m.clients)) w)
        (sym (remove_client-found alive fd c m old)) (rw old (ground arith))
]

step-IsBalanced :
    (n : ℕ) (c : Call) (m : MediaSession) → IsBalanced n m → IsBalanced (n + dropped m c) (step m c)
unfolding step dropped on_packet
step-IsBalanced n (adds fd conn) m h = let b = add_client-IsBalanced n fd conn m h in omega arith
step-IsBalanced n (removes alive fd) m h = remove_client-IsBalanced n alive fd m h
step-IsBalanced n (packets alive get_id accepts channel pkt) m h =
    let k =
      send_each-keeps alive get_id accepts channel pkt (receivers alive get_id accepts m.clients [])
        (record m { clients = live_clients alive m.clients }) in
    let l = length-live_clients alive m.clients in k.1 ∙ omega (arith, k.2, ap length k.0)

-- Over any calls of AddClient and RemoveClient and any packets sent, as often as the connected callbacks
-- were called more than the disconnected ones, so many clients there are, and beside them those
-- that were dropped when their connection was gone. So the balance, by which a stream session counts
-- its clients, is too high from the first client on that is dropped in this way.
pub run-IsBalanced :
    (calls : List Call) (n : ℕ) (m : MediaSession)
    → IsBalanced n m
    → let (m', lost) = run m calls in IsBalanced (n + lost) m'
unfolding run
run-IsBalanced [] n m h = omega arith
run-IsBalanced (c ∷ cs) n m h =
    omega (arith, run-IsBalanced cs (n + dropped m c) (step m c) (step-IsBalanced n c m h))

erase-emplace_client :
    (fd conn : ℕ) (cs : List (ℕ × ℕ))
    → find_client fd cs ≡ none
    → (erase_client fd (emplace_client fd conn cs) ≡ cs)
      × (find_client fd (emplace_client fd conn cs) ≡ some conn)
unfolding find_client emplace_client erase_client
erase-emplace_client fd conn [] h = rw (==_refl fd) (refl, refl)
erase-emplace_client fd conn ((k, c) ∷ cs) h = ground (arith, erase-emplace_client fd conn cs)

-- RemoveClient, for a client whose connection is alive, undoes AddClient under a socket that is new:
-- the clients are as before and each list of callbacks was called once.
pub remove_client-add_client :
    (alive : ℕ → Bool) (fd conn : ℕ) (m : MediaSession)
    → find_client fd m.clients ≡ none
    → alive conn ≡ true
    → let (m', added) = add_client fd conn m in
      let m'' = remove_client alive fd m' in
      (added ≡ true)
      × (m''.clients ≡ m.clients)
      × (m''.connected ≡ m.connected + 1)
      × (m''.disconnected ≡ m.disconnected + 1)
remove_client-add_client alive fd conn m new here =
    let e = erase-emplace_client fd conn m.clients new in
    let a = add_client-new fd conn m new in
    let added : MediaSession = record m {
      clients = emplace_client fd conn m.clients;
      connected = m.connected + 1;
      has_new_client = true;
    } in
    let r = ap (λ w. remove_client alive fd w.0) a ∙ remove_client-found alive fd conn added e.1 in
    (
      ap (λ w. w.1) a,
      ap (λ w. w.clients) r ∙ e.0,
      ap (λ w. w.connected) r,
      ap (λ w. w.disconnected) r ∙ if-true (alive conn) (m.disconnected + 1) m.disconnected here,
    )
