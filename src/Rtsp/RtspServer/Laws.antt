-- ===== src/Rtsp/RtspServer/Laws.antt =====
-- The two tables of src/rtsp/RtspServer.cpp agree.
use stream_sight.Base.{
  inl, inr, ℕ, ◌≡◌, ◌≢◌, refl, sym, ap, ◌∙◌, subst, true, Bool-cases, Option, none, some,
  Option-cases, List, [], ◌∷◌, if◌then◌else◌, if-true, if-false, ◌==◌, ==_refl, ==→eq, ==_false→ne,
  ne→==_false, arith,
}
use stream_sight.Rtsp.RtspServer.{
  RtspServer, find, erase, add_session, remove_session, look_suffix, look_known, look_id,
}

pub find-erase_self : (k : ℕ) (m : List (ℕ × ℕ)) → find k (erase k m) ≡ none
unfolding find erase
find-erase_self k [] = refl
find-erase_self k ((j, v) ∷ m) = elim (Bool-cases (j == k)) [
  | inl same ↦ rw (same, erase) (find-erase_self k m)
  | inr other ↦ rw (other, erase, find, other) (find-erase_self k m)
]

pub find-erase_ne : (k l : ℕ) (m : List (ℕ × ℕ)) → k ≢ l → find l (erase k m) ≡ find l m
unfolding find erase
find-erase_ne k l [] h = refl
find-erase_ne k l ((j, v) ∷ m) h = elim (Bool-cases (j == k)) [
  | inl same ↦
      let e = ==→eq j k same in
      rw (same, erase)
        (find-erase_ne k l m h
          ∙ sym (if-false (j == l) (some v) (find l m) (ne→==_false j l (λ f. h (sym e ∙ f)))))
  | inr other ↦ rw (other, erase) (ap (λ o. if j == l then some v else o) (find-erase_ne k l m h))
]

-- Each session stands in both tables.
abbrev pub IsConsistent : RtspServer → Type 0
IsConsistent s =
    ((suffix id : ℕ)
      → find suffix s.rtsp_suffix_map ≡ some id
      → find id s.media_sessions ≡ some suffix)
    × ((suffix id : ℕ)
        → find id s.media_sessions ≡ some suffix
        → find suffix s.rtsp_suffix_map ≡ some id)

add_session-new :
    (suffix id : ℕ) (s : RtspServer)
    → find suffix s.rtsp_suffix_map ≡ none
    → add_session suffix id s ≡ (
      record {
        rtsp_suffix_map = (suffix, id) ∷ s.rtsp_suffix_map;
        media_sessions = (id, suffix) ∷ s.media_sessions;
      },
      id,
    )
unfolding add_session
add_session-new suffix id s h = rw (h, add_session) refl

add_session-known :
    (suffix id old : ℕ) (s : RtspServer)
    → find suffix s.rtsp_suffix_map ≡ some old
    → add_session suffix id s ≡ (s, 0)
unfolding add_session
add_session-known suffix id old s h = rw (h, add_session) refl

find-first : (k v : ℕ) (m : List (ℕ × ℕ)) → find k ((k, v) ∷ m) ≡ some v
unfolding find
find-first k v m = if-true (k == k) (some v) (find k m) (==_refl k)

-- Two tables that are inverse to each other stay so when a pair of new keys is put into both.
looked :
    (suffix id : ℕ) (s : RtspServer)
    → find suffix s.rtsp_suffix_map ≡ some id
    → find id s.media_sessions ≡ some suffix
    → look_suffix suffix s ≡ some id
unfolding look_suffix look_known
looked suffix id s known there = rw (known, look_suffix) (rw (there, look_known) refl)

inverse-cons :
    (a b : ℕ) (m n : List (ℕ × ℕ))
    → ((x y : ℕ) → find x m ≡ some y → find y n ≡ some x)
    → find b n ≡ none
    → (x y : ℕ) → find x ((a, b) ∷ m) ≡ some y
    → find y ((b, a) ∷ n) ≡ some x
unfolding find
inverse-cons a b m n inv fresh x y h = elim (Bool-cases (a == x)) [
  | inl same ↦
      let e = ==→eq a x same in
      let f : some b ≡ some y = sym (if-true (a == x) (some b) (find x m) same) ∙ h in
      let g : b ≡ y = ground (arith, f) in
      if-true (b == y) (some a) (find y n) (subst (λ k. (b == k) ≡ true) g (==_refl b)) ∙ ap some e
  | inr other ↦
      let f : find x m ≡ some y = sym (if-false (a == x) (some b) (find x m) other) ∙ h in
      let g = inv x y f in
      elim (Bool-cases (b == y)) [
        | inl same ↦
            let bad : none ≡ some x = sym (ap (λ k. find k n) (sym (==→eq b y same)) ∙ fresh) ∙ g in
            absurd (ground (arith, bad))
        | inr apart ↦ if-false (b == y) (some a) (find y n) apart ∙ g
      ]
]

-- The end of AddSession, by the id that the suffix has before, if any.
abbrev pub Added : ℕ → ℕ → RtspServer → Option ℕ → RtspServer × ℕ → Type 0
Added suffix id s (some old) (s', answer) =
    (answer ≡ 0) × (s' ≡ s) × (look_suffix suffix s' ≡ some old)
Added suffix id s none (s', answer) =
    (answer ≡ id) × (look_suffix suffix s' ≡ some id) × (look_id id s' ≡ some suffix)

-- AddSession of a session whose id is new keeps the tables consistent. A suffix that is known answers 0 and
-- changes nothing, and leads to the old session as before; for any other the session's id is the
-- answer and LookMediaSession finds the session by suffix and by id.
pub add_session-IsConsistent :
    (suffix id : ℕ) (s : RtspServer)
    → IsConsistent s
    → find id s.media_sessions ≡ none
    → let w = add_session suffix id s in
      IsConsistent w.0 × Added suffix id s (find suffix s.rtsp_suffix_map) w
unfolding look_id
add_session-IsConsistent suffix id s c fresh = elim (Option-cases (find suffix s.rtsp_suffix_map)) [
  | inr (old, known) ↦
      let at : Added suffix id s (some old) (s, 0) =
        (refl, refl, looked suffix old s known (c.0 suffix old known)) in
      subst (λ w. IsConsistent w.0 × Added suffix id s (find suffix s.rtsp_suffix_map) w)
        (sym (add_session-known suffix id old s known))
        (c, subst (λ o. Added suffix id s o (s, 0)) (sym known) at)
  | inl new ↦
      let s' : RtspServer = record {
        rtsp_suffix_map = (suffix, id) ∷ s.rtsp_suffix_map;
        media_sessions = (id, suffix) ∷ s.media_sessions;
      } in
      let known = find-first suffix id s.rtsp_suffix_map in
      let there = find-first id suffix s.media_sessions in
      let both : IsConsistent s' = (
        inverse-cons suffix id s.rtsp_suffix_map s.media_sessions c.0 fresh,
        λ x i. inverse-cons id suffix s.media_sessions s.rtsp_suffix_map (λ y z. c.1 z y) new i x,
      ) in
      let at : Added suffix id s none (s', id) = (refl, looked suffix id s' known there, there) in
      subst (λ w. IsConsistent w.0 × Added suffix id s (find suffix s.rtsp_suffix_map) w)
        (sym (add_session-new suffix id s new))
        (both, subst (λ o. Added suffix id s o (s', id)) (sym new) at)
]

remove_session-found :
    (id suffix : ℕ) (s : RtspServer)
    → find id s.media_sessions ≡ some suffix
    → remove_session id s ≡ record {
      rtsp_suffix_map = erase suffix s.rtsp_suffix_map;
      media_sessions = erase id s.media_sessions;
    }
unfolding remove_session
remove_session-found id suffix s h = rw (h, remove_session) refl

-- Erasing a new key that was put in front.
find-erase_cons :
    (k v : ℕ) (m : List (ℕ × ℕ))
    → find k m ≡ none
    → (l : ℕ) → find l (erase k ((k, v) ∷ m)) ≡ find l m
unfolding erase
find-erase_cons k v m h l =
    ap (find l) (if-true (k == k) (erase k m) ((k, v) ∷ erase k m) (==_refl k))
    ∙ elim (Bool-cases (k == l)) [
      | inl same ↦
          subst (λ i. find i (erase k m) ≡ find i m) (==→eq k l same) (find-erase_self k m ∙ sym h)
      | inr other ↦ find-erase_ne k l m (==_false→ne k l other)
    ]

look_known-same :
    (id : ℕ) (s t : RtspServer)
    → find id s.media_sessions ≡ find id t.media_sessions
    → look_known id s ≡ look_known id t
unfolding look_known
look_known-same id s t g =
    ap (λ o. elim o as (λ x. Option ℕ) [ none ↦ none | some session ↦ some id ]) g

-- LookMediaSession depends on what the two tables find.
look_suffix-same :
    (k : ℕ) (s t : RtspServer)
    → ((l : ℕ) → find l s.rtsp_suffix_map ≡ find l t.rtsp_suffix_map)
    → ((l : ℕ) → find l s.media_sessions ≡ find l t.media_sessions)
    → look_suffix k s ≡ look_suffix k t
unfolding look_suffix
look_suffix-same k s t f g = elim (Option-cases (find k t.rtsp_suffix_map)) [
  | inl none' ↦ rw (f k, none', look_suffix) refl
  | inr (id, some') ↦ rw (f k, some', look_suffix) (look_known-same id s t (g id))
]

-- RemoveSession after AddSession, for a new suffix and a new id, leaves every look-up as it was.
pub remove_session-add_session :
    (suffix id : ℕ) (s : RtspServer)
    → find suffix s.rtsp_suffix_map ≡ none
    → find id s.media_sessions ≡ none
    → let s' = remove_session id (add_session suffix id s).0 in
      ((k : ℕ) → look_suffix k s' ≡ look_suffix k s) × ((k : ℕ) → look_id k s' ≡ look_id k s)
unfolding look_id
remove_session-add_session suffix id s new fresh =
    let s1 : RtspServer = record {
      rtsp_suffix_map = (suffix, id) ∷ s.rtsp_suffix_map;
      media_sessions = (id, suffix) ∷ s.media_sessions;
    } in
    let r =
      ap (λ w. remove_session id w.0) (add_session-new suffix id s new)
      ∙ remove_session-found id suffix s1 (find-first id suffix s.media_sessions) in
    let f = find-erase_cons suffix id s.rtsp_suffix_map new in
    let g = find-erase_cons id suffix s.media_sessions fresh in
    (λ k. ap (look_suffix k) r ∙ look_suffix-same k _ s f g, λ k. ap (look_id k) r ∙ g k)
