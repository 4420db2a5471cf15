-- ===== src/Framing/LinkArq/Matcher.antt =====
-- Acknowledgments in a byte stream.
use lightnet_firmware.Common.{
  ℕ, ◌+◌, ◌/◌, ◌%◌, ◌<◌, ◌≡◌, ◌≢◌, refl, sym, ◌∙◌, false, List, [], ◌∷◌, ◌++◌, none, some, length,
  arith, set, take, drop, length-set, take-set_end, length-take, ap, All,
}
use mathlib.Core.List.{append_assoc}
use lightnet_firmware.Protocol.Types.{packet_link_ack}
use lightnet_firmware.Protocol.Meta.{validate_packet, make_meta}
use lightnet_firmware.Protocol.Validation.{validate_packet-make_meta}
use lightnet_firmware.Protocol.Discovery.{link_ack_of, link_ack_bytes}
use lightnet_firmware.Framing.LinkArq.{LinkAckMatcher, push_byte}

-- The acknowledgments that a window's bytes bring.
unfoldable pub acks : LinkAckMatcher → List ℕ → List ℕ
acks m [] = []
acks m (b ∷ bs) =
    let n = push_byte m b in let rest = acks n.0 bs in elim n.1 [ some c ↦ c ∷ rest | none ↦ rest ]

-- The acknowledgment that the receiver of a frame with this CRC sends.
abbrev pub ack_frame : ℕ → List ℕ
ack_frame crc = link_ack_bytes (record { meta = make_meta packet_link_ack 0; frame_crc = crc })

pub record IsValid (m : LinkAckMatcher) : Type 0 where
  pub storage : length m.buffer ≡ 9
  pub filled_lt : m.filled < 9

-- Every byte is written inside the buffer.
pub push_byte-IsValid : (m : LinkAckMatcher) (v : ℕ) → IsValid m → IsValid (push_byte m v).0
unfolding push_byte
push_byte-IsValid m v h = ground (arith, length-set m.buffer m.filled v)

-- An acknowledgment is reported only from nine bytes that start with its type and whose header
-- passes the check; the matcher is then empty.
pub push_byte_sound :
    (m : LinkAckMatcher) (v c : ℕ)
    → IsValid m
    → (push_byte m v).1 ≡ some c
    → (m.filled ≡ 8)
      × ((push_byte m v).0.filled ≡ 0)
      × (validate_packet (link_ack_of (push_byte m v).0.buffer).meta 9 false ≡ 0)
      × ((link_ack_of (push_byte m v).0.buffer).frame_crc ≡ c)
unfolding push_byte
push_byte_sound m v c h e = ground arith

take-all : (xs : List ℕ) → take (length xs) xs ≡ xs
take-all [] = refl
take-all (x ∷ xs) = ap (◌∷◌ x) (take-all xs)

-- The bytes of the acknowledgment in progress after one more.
extended :
    (m : LinkAckMatcher) (v : ℕ)
    → m.filled < length m.buffer
    → take (m.filled + 1) (set m.buffer m.filled v) ≡ take m.filled m.buffer ++ v ∷ []
extended m v h = ground (arith, take-set_end m.buffer m.filled v)

push_more :
    (m : LinkAckMatcher) (v : ℕ)
    → IsValid m
    → 0 < m.filled
    → m.filled < 8
    → let (n, out) = push_byte m v in
      (out ≡ none)
      × (n.filled ≡ m.filled + 1)
      × (take n.filled n.buffer ≡ take m.filled m.buffer ++ v ∷ [])
unfolding push_byte
push_more m v h a b = ground (arith, extended m v)

push_first :
    (m : LinkAckMatcher)
    → IsValid m
    → m.filled ≡ 0
    → let (n, out) = push_byte m 25 in
      (out ≡ none) × (n.filled ≡ 1) × (take n.filled n.buffer ≡ 25 ∷ [])
unfolding push_byte
push_first m h a = ground (arith, extended m 25, length-take m.filled m.buffer)

ack_frame-reads :
    (crc : ℕ)
    → crc < 65536
    → (validate_packet (link_ack_of (ack_frame crc)).meta 9 false ≡ 0)
      × ((link_ack_of (ack_frame crc)).frame_crc ≡ crc)
ack_frame-reads crc h = (
  validate_packet-make_meta packet_link_ack 0 9 ((crc % 256) ∷ (crc / 256 % 256) ∷ []) false
      (omega arith) (omega arith) (omega arith),
  omega arith,
)

push_last :
    (m : LinkAckMatcher) (v crc : ℕ)
    → IsValid m
    → m.filled ≡ 8
    → crc < 65536
    → take m.filled m.buffer ++ v ∷ [] ≡ ack_frame crc
    → let (n, out) = push_byte m v in (out ≡ some crc) × (n.filled ≡ 0)
unfolding push_byte
push_last m v crc h a l e =
    let b = set m.buffer m.filled v in
    let n : length b ≡ m.filled + 1 = omega (arith, h.storage, length-set m.buffer m.filled v) in
    let whole : b ≡ ack_frame crc =
      sym (take-all b) ∙ rw n (extended m v (omega (arith, h.storage)) ∙ e) in
    let reads = ack_frame-reads crc l in
    let checked : validate_packet (link_ack_of b).meta 9 false ≡ 0 =
      ap (λ (c : List ℕ). validate_packet (link_ack_of c).meta 9 false) whole ∙ reads.0 in
    let echoed : (link_ack_of b).frame_crc ≡ crc =
      ap (λ (c : List ℕ). (link_ack_of c).frame_crc) whole ∙ reads.1 in
    ground (arith, checked, echoed)

acks_rest :
    (m : LinkAckMatcher) (xs ys : List ℕ) (crc : ℕ)
    → IsValid m
    → 0 < m.filled
    → 0 < length xs
    → crc < 65536
    → m.filled + length xs ≡ 9
    → take m.filled m.buffer ++ xs ≡ ack_frame crc
    → (n : LinkAckMatcher) × IsValid n × (n.filled ≡ 0) × (acks m (xs ++ ys) ≡ crc ∷ acks n ys)
unfolding acks
acks_rest m [] ys crc h f l c k e = absurd (omega arith)
acks_rest m (v ∷ []) ys crc h f l c k e =
    let (out, z) = push_last m v crc h (omega arith) c e in
    ((push_byte m v).0, push_byte-IsValid m v h, z, rw (out, acks))
acks_rest m (v ∷ w ∷ xs) ys crc h f l c k e =
    let (out, more, kept) = push_more m v h f (omega arith) in
    let (n, j, z, q) =
      acks_rest (push_byte m v).0 (w ∷ xs) ys crc (push_byte-IsValid m v h) (omega arith)
        (omega arith) c (omega arith)
        (rw kept (append_assoc (take m.filled m.buffer) (v ∷ []) (w ∷ xs) ∙ e)) in
    (n, j, z, rw (out, acks) q)

acks_frame :
    (m : LinkAckMatcher) (ys : List ℕ) (crc : ℕ)
    → IsValid m
    → m.filled ≡ 0
    → crc < 65536
    → (n : LinkAckMatcher) × IsValid n
      × (n.filled ≡ 0)
      × (acks m (ack_frame crc ++ ys) ≡ crc ∷ acks n ys)
unfolding acks make_meta
acks_frame m ys crc h z c =
    let (out, one, kept) = push_first m h z in
    let (n, j, e, q) =
      acks_rest (push_byte m 25).0 (drop 1 (ack_frame crc)) ys crc (push_byte-IsValid m 25 h)
        (omega arith) (omega arith) c (omega arith) (rw kept refl) in
    (n, j, e, rw (out, acks) q)

-- Bytes that are not the type of an acknowledgment.
abbrev pub IsNoise : List ℕ → Type 0
IsNoise = All λ b. b ≢ packet_link_ack

acks_noise :
    (m : LinkAckMatcher) (ns ys : List ℕ)
    → m.filled ≡ 0
    → IsNoise ns
    → acks m (ns ++ ys) ≡ acks m ys
unfolding acks push_byte
acks_noise m [] ys z h = refl
acks_noise m (v ∷ ns) ys z h = ground (arith, acks_noise m ns ys z h.1, h.0)

-- A well-formed matcher that is empty finds an acknowledgment behind bytes that are not its type,
-- reads the CRC that it echoes, and is then well formed and empty again for the bytes behind it.
pub acks_finds :
    (m : LinkAckMatcher) (ns ys : List ℕ) (crc : ℕ)
    → IsValid m
    → m.filled ≡ 0
    → crc < 65536
    → IsNoise ns
    → (n : LinkAckMatcher) × IsValid n
      × (n.filled ≡ 0)
      × (acks m (ns ++ (ack_frame crc ++ ys)) ≡ crc ∷ acks n ys)
acks_finds m ns ys crc h z c k =
    let (n, j, e, q) = acks_frame m ys crc h z c in
    (n, j, e, acks_noise m ns (ack_frame crc ++ ys) z k ∙ q)
