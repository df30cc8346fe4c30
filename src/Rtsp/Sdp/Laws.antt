-- ===== src/Rtsp/Sdp/Laws.antt =====
-- The session description fits its array and is kept, and the AAC configuration is printed right up to
-- three channels.
use stream_sight.Base.{
  ℕ, zero, suc, ◌+◌, ◌-◌, ◌*◌, ◌/◌, ◌%◌, ◌<◌, ◌≡◌, ◌≢◌, refl, sym, ◌∙◌, Bool, true, false,
  Bool-cases, inl, inr, Option, none, some, [], ◌∷◌, if◌then◌else◌, if-elim, length, take,
  length-append, length-take, table, table_sound, arith, subst,
}
use stream_sight.Rtsp.Sdp.{
  Described, Description, aac_config, printed_config, sdp_size, describe_channel, describe_source,
  describe_channels, describe_session, get_sdp_message,
}
use stream_sight.Text.Print.{print_behind, snprintf, decimal, digits}
use stream_sight.Text.Scan.{number}
use stream_sight.Text.{Text, text_eq}

pub length-print_behind :
    (size : ℕ) (buf text : Text) → length buf < size → length (print_behind size buf text) < size
unfolding print_behind
length-print_behind size buf text h = omega (
  arith,
  length-append buf (take (size - length buf - 1) text),
  length-take (size - length buf - 1) text,
)

pub length-snprintf : (size : ℕ) (text : Text) → 0 < size → length (snprintf size text) < size
unfolding snprintf
length-snprintf size text h = omega (arith, length-take (size - 1) text)

abbrev Fits : Text → Type 0
Fits buf = length buf < sdp_size

describe_source-Fits :
    (d : Description) (chn : ℕ) (s : Described) (buf : Text)
    → Fits buf
    → Fits (describe_source d chn s buf)
unfolding describe_source
describe_source-Fits d chn s buf h = length-print_behind sdp_size _ _ (
    length-print_behind sdp_size _ _ (
      if-elim Fits d.is_multicast _ _
        (λ _. length-print_behind sdp_size _ _ (length-print_behind sdp_size buf _ h))
        (λ _. length-print_behind sdp_size buf _ h)))

describe_channels-Fits :
    (d : Description) (n : ℕ) (buf : Text) → Fits buf → Fits (describe_channels d n buf)
unfolding describe_channels
describe_channels-Fits d zero buf h = h
describe_channels-Fits d (suc n) buf h =
    channel (d.media_sources n) (describe_channels d n buf) (describe_channels-Fits d n buf h)
  where
    channel : (o : Option Described) (b : Text) → Fits b → Fits (describe_channel d n o b)
    channel none b k = k
    channel (some s) b k = describe_source-Fits d n s b k

-- A conditional line.
abbrev print_if : Bool → Text → Text → Text
print_if c buf text = if c then print_behind sdp_size buf text else buf

print_if-Fits : (c : Bool) (buf text : Text) → Fits buf → Fits (print_if c buf text)
print_if-Fits true buf text h = length-print_behind sdp_size buf text h
print_if-Fits false buf text h = h

name_if-Fits :
    (c : Bool) (buf text : Text)
    → Fits buf
    → Fits (if c then buf else print_behind sdp_size buf text)
name_if-Fits true buf text h = h
name_if-Fits false buf text h = length-print_behind sdp_size buf text h

describe_session-Fits :
    (now : ℕ) (ip name : Text) (d : Description) → Fits (describe_session now ip name d)
unfolding describe_session
describe_session-Fits now ip name d = describe_channels-Fits d 2 _ (
    print_if-Fits d.is_multicast _ _
      (name_if-Fits (text_eq name []) _ _ (length-snprintf sdp_size _ (omega arith))))

get_sdp_message-fresh :
    (now : ℕ) (ip name : Text) (d : Description)
    → text_eq d.sdp [] ≡ true
    → get_sdp_message now ip name d
      ≡ (record d { sdp = describe_session now ip name d }, describe_session now ip name d)
unfolding get_sdp_message
get_sdp_message-fresh now ip name d h = rw (h, get_sdp_message) refl

get_sdp_message-kept :
    (now : ℕ) (ip name : Text) (d : Description)
    → text_eq d.sdp [] ≡ false
    → get_sdp_message now ip name d ≡ (d, d.sdp)
unfolding get_sdp_message
get_sdp_message-kept now ip name d h = rw (h, get_sdp_message) refl

non_empty : (s : Text) → s ≢ [] → text_eq s [] ≡ false
unfolding text_eq
non_empty [] h = absurd (h refl)
non_empty (c ∷ s) h = refl

abbrev Keeps : ℕ → Text → Text → Description × Text → Type 0
Keeps now ip name (d, text) =
    Fits text × (d.sdp ≡ text) × (text ≢ [] → get_sdp_message now ip name d ≡ (d, text))

Keeps-stored :
    (now : ℕ) (ip name text : Text) (d : Description)
    → Fits text
    → d.sdp ≡ text
    → Keeps now ip name (d, text)
Keeps-stored now ip name text d h e =
    (h, e, λ ne. get_sdp_message-kept now ip name d (rw e (non_empty text ne)) ∙ rw e refl)

-- GetSdpMessage stays within its array of 2048 bytes, whatever the sources, names and addresses are, and
-- keeps what it made: a text that is not empty is the answer of every later call, for whatever address
-- and name that call comes. The kept text is taken to fit, as the empty one does at first.
pub get_sdp_message_lem :
    (now later : ℕ) (ip ip' name name' : Text) (d : Description)
    → length d.sdp < sdp_size
    → let (d', text) = get_sdp_message now ip name d in
      (length text < sdp_size)
      × (d'.sdp ≡ text)
      × (text ≢ [] → get_sdp_message later ip' name' d' ≡ (d', text))
get_sdp_message_lem now later ip ip' name name' d h = elim (Bool-cases (text_eq d.sdp [])) [
  | inl empty ↦
      let text = describe_session now ip name d in
      subst (Keeps later ip' name') (sym (get_sdp_message-fresh now ip name d empty)) (
        Keeps-stored later ip' name' text (record d { sdp = text })
          (describe_session-Fits now ip name d) refl)
  | inr kept ↦
      subst (Keeps later ip' name') (sym (get_sdp_message-kept now ip name d kept))
        (Keeps-stored later ip' name' d.sdp d h refl)
]

abbrev config_right : ℕ → Bool
config_right n = text_eq (printed_config (n / 4) (n % 4)) (aac_config (n / 4) (n % 4))

config_table : table config_right 52 ≡ true
unfolding table printed_config aac_config text_eq number decimal digits
config_table = refl

text_eq_sound : (a b : Text) → text_eq a b ≡ true → a ≡ b
unfolding text_eq
text_eq_sound [] [] h = refl
text_eq_sound [] (y ∷ b) h = cc
text_eq_sound (x ∷ a) [] h = cc
text_eq_sound (x ∷ a) (y ∷ b) h = ground (arith, text_eq_sound a b)

-- The `config` of the AAC attribute, that goes through `atoi` and `%04u`, is the hexadecimal text of the
-- two configuration bytes, for each of the thirteen rates and up to three channels.
pub printed_config-right :
    (index channels : ℕ)
    → index < 13
    → channels < 4
    → printed_config index channels ≡ aac_config index channels
printed_config-right index channels lt few =
    let n = index * 4 + channels in
    let q : n / 4 ≡ index = omega arith in
    let r : n % 4 ≡ channels = omega arith in
    text_eq_sound (printed_config index channels) (aac_config index channels)
      (rw (q, r) at (table_sound config_right 52 n config_table (omega arith)))
