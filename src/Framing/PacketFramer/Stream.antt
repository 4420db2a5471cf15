-- ===== src/Framing/PacketFramer/Stream.antt =====
-- Whole byte streams: which frames a caller reads when it feeds a stream through a framer.
use mathlib.Core.List.{append_assoc}
use lightnet_firmware.Common.{
  ℕ, ◌+◌, ◌<◌, ◌≡◌, refl, ap, ◌∙◌, ◌⊎◌, inl, inr, Bool, true, false, List, [], ◌∷◌, ◌++◌, length,
  get_or, All, map, arith, length-append, if◌then◌else◌,
}
use lightnet_firmware.Protocol.Meta.{validate_packet, packet_size_for_type, meta_of}
use lightnet_firmware.Framing.PacketFramer.{
  PacketFramer, push_byte, push_fresh, accumulate, reset, frame,
}
use lightnet_firmware.Framing.PacketFramer.Invariant.{
  IsValid, push_byte-IsValid, packet_size_bounds,
}
use lightnet_firmware.Framing.PacketFramer.Spec.{take_byte, settle, is_whole}
use lightnet_firmware.Framing.PacketFramer.Refinement.{push_byte_refines}

-- `if (framer.pushByte(b)) handle(framer.frame(), framer.frameSize())` for each byte.
unfoldable pub receive : PacketFramer → List ℕ → List (List ℕ)
receive f [] = []
receive f (b ∷ bs) =
    let (g, done) = push_byte f b in
    let rest = receive g bs in if done then frame g ∷ rest else rest

-- The same over the framer's specification.
pub take_bytes : Bool → List ℕ → List ℕ → List (List ℕ)
take_bytes c p [] = []
take_bytes c p (b ∷ bs) =
    let (q, done) = take_byte c p b in
    let rest = take_bytes c q bs in if done then q ∷ rest else rest

validate-push_byte :
    (f : PacketFramer) (v : ℕ)
    → (push_byte f v).0.validate_protocol_version ≡ f.validate_protocol_version
unfolding push_byte push_fresh accumulate reset
validate-push_byte f v = ground arith

-- A framer reads from any stream the frames that its specification does.
pub receive-eq-take_bytes :
    (bs : List ℕ) (f : PacketFramer)
    → IsValid f
    → receive f bs ≡ take_bytes f.validate_protocol_version (frame f) bs
unfolding receive take_bytes
receive-eq-take_bytes [] f h = refl
receive-eq-take_bytes (b ∷ bs) f h = ground (
  arith,
  receive-eq-take_bytes bs (push_byte f b).0 (push_byte-IsValid f b h),
  push_byte_refines f b h,
  validate-push_byte f b,
)

-- A frame as a sender puts it on the wire: of its type's size, with a header that passes the check.
pub record IsFrame (c : Bool) (bs : List ℕ) : Type 0 where
  pub nonempty : 0 < length bs
  pub sized : length bs ≡ packet_size_for_type (get_or bs 0 0)
  pub checked : validate_packet (meta_of bs) (length bs) c ≡ 0

-- Nothing is in progress.
abbrev pub IsIdle : List ℕ → Type 0
IsIdle p = (p ≡ []) ⊎ (is_whole p ≡ true)

take_byte_idle : (c : Bool) (p : List ℕ) (v : ℕ) → IsIdle p → take_byte c p v ≡ settle c (v ∷ [])
unfolding take_byte
take_byte_idle c p v (inl e) = rw e
take_byte_idle c p v (inr e) = rw e

-- A byte that leaves the frame short of its size is kept.
take_byte_more :
    (c : Bool) (x : ℕ) (p : List ℕ) (v : ℕ)
    → length p + 2 < packet_size_for_type x
    → take_byte c (x ∷ p) v ≡ (x ∷ p ++ v ∷ [], false)
unfolding take_byte
take_byte_more c x p v l = ground (arith, length-append p (v ∷ []))

take_byte_last :
    (c : Bool) (x : ℕ) (p : List ℕ) (v : ℕ)
    → IsFrame c (x ∷ p ++ v ∷ [])
    → take_byte c (x ∷ p) v ≡ (x ∷ p ++ v ∷ [], true)
unfolding take_byte
take_byte_last c x p v h = ground (arith, length-append p (v ∷ []))

take_bytes_rest :
    (c : Bool) (x : ℕ) (p xs ys : List ℕ)
    → 0 < length xs
    → IsFrame c (x ∷ p ++ xs)
    → take_bytes c (x ∷ p) (xs ++ ys) ≡ (x ∷ p ++ xs) ∷ take_bytes c (x ∷ p ++ xs) ys
unfolding take_bytes
take_bytes_rest c x p [] ys l h = absurd (omega arith)
take_bytes_rest c x p (v ∷ []) ys l h = rw (take_byte_last c x p v h)
take_bytes_rest c x p (v ∷ w ∷ xs) ys l h =
    let e = append_assoc p (v ∷ []) (w ∷ xs) in
    ground (
      arith,
      take_byte_more c x p v,
      length-append p (v ∷ w ∷ xs),
      h.sized,
      ap (λ (q : List ℕ). x ∷ q) e,
      take_bytes_rest c x (p ++ v ∷ []) (w ∷ xs) ys (omega arith) (rw e h),
    )

-- From an idle framer, exactly the bytes of a frame give that frame.
take_bytes_frame :
    (c : Bool) (p fs ys : List ℕ)
    → IsIdle p
    → IsFrame c fs
    → take_bytes c p (fs ++ ys) ≡ fs ∷ take_bytes c fs ys
unfolding take_bytes
take_bytes_frame c p [] ys i h = absurd (omega (arith, h.nonempty))
take_bytes_frame c p (x ∷ []) ys i h = absurd (omega (arith, h.sized, packet_size_bounds x))
take_bytes_frame c p (x ∷ y ∷ xs) ys i h =
    ground
      (arith, take_byte_idle c p x i, h.sized, take_bytes_rest c x [] (y ∷ xs) ys (omega arith) h)

-- Bytes that are no packet type leave an idle framer idle, and give no frame.
abbrev pub IsNoise : List ℕ → Type 0
IsNoise = All λ b. packet_size_for_type b ≡ 0

take_bytes_noise :
    (c : Bool) (p ns ys : List ℕ)
    → IsIdle p
    → IsNoise ns
    → (q : List ℕ) × IsIdle q × (take_bytes c p (ns ++ ys) ≡ take_bytes c q ys)
unfolding take_bytes
take_bytes_noise c p [] ys i h = (p, i, refl)
take_bytes_noise c p (n ∷ ns) ys i h =
    let (q, j, e) = take_bytes_noise c [] ns ys (inl refl) h.1 in
    (q, j, ground (arith, e, h.0, take_byte_idle c p n i))

IsFrame-IsIdle : (c : Bool) (fs : List ℕ) → IsFrame c fs → IsIdle fs
IsFrame-IsIdle c fs h = inr (ground (arith, h.sized, h.nonempty))

-- A transmission: noise (preamble bytes, line glitches), then a frame.
abbrev pub wire : List (List ℕ × List ℕ) → List ℕ
wire [] = []
wire ((ns, fs) ∷ r) = ns ++ (fs ++ wire r)

abbrev pub AreTransmissions : Bool → List (List ℕ × List ℕ) → Type 0
AreTransmissions c = All λ t. IsNoise t.0 × IsFrame c t.1

take_bytes-wire :
    (c : Bool) (p : List ℕ) (ts : List (List ℕ × List ℕ))
    → IsIdle p
    → AreTransmissions c ts
    → take_bytes c p (wire ts) ≡ map (λ t. t.1) ts
take_bytes-wire c p [] i h = unfold take_bytes in refl
take_bytes-wire c p ((ns, fs) ∷ ts) i h =
    let (q, j, e) = take_bytes_noise c p ns (fs ++ wire ts) i h.0.0 in
    e
    ∙ take_bytes_frame c q fs (wire ts) j h.0.1
    ∙ ap (◌∷◌ fs) (take_bytes-wire c fs ts (IsFrame-IsIdle c fs h.0.1) h.1)

-- From frames sent one after another, with any number of bytes before each that are no packet
-- type, a well-formed framer that is not partway through a frame reads exactly those frames, in
-- order and unaltered.
pub receive-wire :
    (f : PacketFramer) (ts : List (List ℕ × List ℕ))
    → IsValid f
    → IsIdle (frame f)
    → AreTransmissions f.validate_protocol_version ts
    → receive f (wire ts) ≡ map (λ t. t.1) ts
receive-wire f ts v i h =
    receive-eq-take_bytes (wire ts) f v
    ∙ take_bytes-wire f.validate_protocol_version (frame f) ts i h
