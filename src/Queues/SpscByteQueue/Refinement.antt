-- ===== src/Queues/SpscByteQueue/Refinement.antt =====
-- A `SpscByteQueue` is a queue of records.
use mathlib.Core.List.{append_assoc, append-nil}
use lightnet_firmware.Common.{
  ℕ, zero, suc, ◌+◌, ◌-◌, ◌%◌, ◌/◌, ◌<◌, ◌≡◌, refl, ap, ◌∙◌, sym, Bool, Bool-cases, inl, inr, false,
  List, [], ◌∷◌, ◌++◌, ◌==◌, leb, if◌then◌else◌, get_or, set, take, length, arith, length-set,
  length-append, All, All-append, u16, bytes16, read16, read16-bytes16,
}
use lightnet_firmware.Queues.Positions.{
  next, distance, read, advance, read-add, length-read, distance-advance,
}
use lightnet_firmware.Queues.ByteRing.Refinement.{read-push}
use lightnet_firmware.Queues.SpscByteQueue.{
  SpscByteQueue, new, to_index, put_all, get_all, push, pop,
}

-- Records as they lie in the ring.
unfoldable pub encode : List (List ℕ) → List ℕ
encode [] = []
encode (d ∷ ds) = bytes16 (length d) ++ (d ++ encode ds)

abbrev pub IsRecord : List ℕ → Type 0
IsRecord d = (0 < length d) × (length d < 65536)

-- The ring holds exactly these records, the oldest first.
pub record Holds (capacity : ℕ) (q : SpscByteQueue) (ds : List (List ℕ)) : Type 0 where
  pub fits : capacity < 65536
  pub storage : length q.buf ≡ capacity
  pub w_lt : q.w < capacity
  pub r_lt : q.r < capacity
  pub bytes : read capacity q.buf q.r (distance capacity q.r q.w) ≡ encode ds
  pub records : All IsRecord ds

record Put (capacity r p : ℕ) (b vs : List ℕ) (out : List ℕ × ℕ) : Type 0 where
  storage : length out.0 ≡ capacity
  in_range : out.1 < capacity
  appended :
      read capacity out.0 r (distance capacity r out.1)
      ≡ read capacity b r (distance capacity r p) ++ vs

put_all-Put :
    (capacity r p : ℕ) (b vs : List ℕ)
    → capacity < 65536
    → r < capacity
    → p < capacity
    → length b ≡ capacity
    → distance capacity r p + length vs < capacity
    → Put capacity r p b vs (put_all capacity b p vs)
unfolding put_all
put_all-Put capacity r p b [] c h k l f = record {
  storage = l;
  in_range = k;
  appended = rw append-nil refl;
}
put_all-Put capacity r p b (v ∷ vs) c h k l f =
    let small : u16 (next capacity p) ≡ next capacity p = ground arith in
    let further : distance capacity r (next capacity p) ≡ distance capacity r p + 1 =
      ground arith in
    let i =
      put_all-Put capacity r (next capacity p) (set b p v) vs c h (ground arith)
        (omega (arith, length-set b p v)) (omega (arith, further)) in
    rw small (record {
      storage = i.storage;
      in_range = i.in_range;
      appended =
          i.appended
          ∙ rw (read-push capacity b r p v h k l (ground arith)) refl
          ∙ append_assoc (read capacity b r (distance capacity r p)) (v ∷ []) vs;
    })

get_all-eq :
    (capacity : ℕ) (b : List ℕ) (n p : ℕ)
    → capacity < 65536
    → p < capacity
    → get_all capacity b p n ≡ (read capacity b p n, advance capacity p n)
unfolding get_all read advance
get_all-eq capacity b zero p c h = refl
get_all-eq capacity b (suc n) p c h =
    let small : u16 (next capacity p) ≡ next capacity p = ground arith in
    rw (small, get_all-eq capacity b n (next capacity p) c (ground arith)) refl

encode-append :
    (ds : List (List ℕ)) (d : List ℕ)
    → encode (ds ++ d ∷ []) ≡ encode ds ++ (bytes16 (length d) ++ d)
unfolding encode
encode-append [] d = rw append-nil refl
encode-append (e ∷ ds) d =
    let rest = bytes16 (length d) ++ d in
    ap (λ (x : List ℕ). bytes16 (length e) ++ x)
      (ap (λ (x : List ℕ). e ++ x) (encode-append ds d) ∙ sym (append_assoc e (encode ds) rest))

to_index-lt : (capacity p : ℕ) → capacity < 65536 → p < capacity → to_index capacity p ≡ p
unfolding to_index
to_index-lt capacity p h l = ground arith

pub new-Holds :
    (capacity : ℕ) (memory : List ℕ)
    → 0 < capacity
    → capacity < 65536
    → length memory ≡ capacity
    → Holds capacity (new memory) []
unfolding new encode read
new-Holds capacity memory p h e = record {
  fits = h;
  storage = e;
  w_lt = p;
  r_lt = p;
  bytes = refl;
  records = tt;
}

-- The test of `push` for room.
abbrev pub has_room : ℕ → List (List ℕ) → List ℕ → Bool
has_room capacity ds d = leb (length (encode ds) + 2 + length d) (capacity - 1)

used-length :
    (capacity : ℕ) (q : SpscByteQueue) (ds : List (List ℕ))
    → Holds capacity q ds
    → distance capacity q.r q.w ≡ length (encode ds)
used-length capacity q ds h =
    sym (length-read capacity q.buf q.r (distance capacity q.r q.w))
    ∙ ap (λ (x : List ℕ). length x) h.bytes

pushed-Holds :
    (capacity : ℕ) (q : SpscByteQueue) (ds : List (List ℕ)) (d : List ℕ)
    → Holds capacity q ds
    → IsRecord d
    → length (encode ds) + 2 + length d < capacity
    → let (b, p) = put_all capacity q.buf q.w (bytes16 (length d) ++ d) in
      Holds capacity (record { buf = b; w = to_index capacity p; r = q.r }) (ds ++ d ∷ [])
pushed-Holds capacity q ds d h i l =
    let x =
      put_all-Put capacity q.r q.w q.buf (bytes16 (length d) ++ d) h.fits h.r_lt h.w_lt h.storage
        (omega (arith, used-length capacity q ds h)) in
    rw (to_index-lt capacity _ h.fits x.in_range) (record {
      fits = h.fits;
      storage = x.storage;
      w_lt = x.in_range;
      r_lt = h.r_lt;
      bytes = x.appended ∙ rw (h.bytes, encode-append ds d) refl;
      records = All-append IsRecord ds (d ∷ []) h.records (i, tt);
    })

-- A push of a record of 1 to 65533 bytes onto a ring that holds a list of records reports success
-- exactly if its bytes and the two of its length fit beside those queued with one byte left over;
-- it then appends the record, and otherwise leaves the records as they were.
pub push_appends :
    (capacity : ℕ) (q : SpscByteQueue) (ds : List (List ℕ)) (d : List ℕ)
    → Holds capacity q ds
    → 0 < length d
    → length d < 65534
    → ((push capacity q d).1 ≡ has_room capacity ds d)
      × Holds capacity (push capacity q d).0 (if has_room capacity ds d then ds ++ d ∷ [] else ds)
unfolding push
push_appends capacity q ds d h p l = elim (Bool-cases (has_room capacity ds d)) [
  | inl e ↦
      ground (arith, used-length capacity q ds h, pushed-Holds capacity q ds d h (p, omega arith))
  | inr e ↦ ground (arith, used-length capacity q ds h)
]

append-injective :
    (xs us ys vs : List ℕ) → length xs ≡ length us → xs ++ ys ≡ us ++ vs → (xs ≡ us) × (ys ≡ vs)
append-injective [] [] ys vs l e = (refl, e)
append-injective [] (u ∷ us) ys vs l e = absurd (omega (arith, l))
append-injective (x ∷ xs) [] ys vs l e = absurd (omega (arith, l))
append-injective (x ∷ xs) (u ∷ us) ys vs l e =
    let tails : xs ++ ys ≡ us ++ vs = cc in
    let heads : x ≡ u = cc in
    let (a, b) = append-injective xs us ys vs (omega (arith, l)) tails in (rw (heads, a) refl, b)

-- Where the bytes from `p` up to `q` are `xs ++ ys`, those of `xs` are read first, and `ys` is left.
record Fetched (capacity : ℕ) (b : List ℕ) (p q : ℕ) (xs ys : List ℕ) : Type 0 where
  in_range : advance capacity p (length xs) < capacity
  front : read capacity b p (length xs) ≡ xs
  left :
      read capacity b
        (advance capacity p (length xs))
        (distance capacity (advance capacity p (length xs)) q)
      ≡ ys

fetch-Fetched :
    (capacity : ℕ) (b : List ℕ) (p q : ℕ) (xs ys : List ℕ)
    → p < capacity
    → q < capacity
    → read capacity b p (distance capacity p q) ≡ xs ++ ys
    → Fetched capacity b p q xs ys
fetch-Fetched capacity b p q xs ys h k e =
    let n = length xs in
    let total : distance capacity p q ≡ n + length ys =
      sym (length-read capacity b p (distance capacity p q))
      ∙ ap (λ (l : List ℕ). length l) e
      ∙ length-append xs ys in
    let (r, d) = distance-advance n capacity p q h k (omega (arith, total)) in
    let rest : distance capacity (advance capacity p n) q ≡ length ys = omega (arith, d, total) in
    let both : read capacity b p n ++ read capacity b (advance capacity p n) (length ys)
        ≡ xs ++ ys =
      sym (read-add capacity b p n (length ys)) ∙ ap (read capacity b p) (sym total) ∙ e in
    let (f, l) =
      append-injective (read capacity b p n) xs (read capacity b (advance capacity p n) (length ys))
        ys (length-read capacity b p n) both in
    record { in_range = r; front = f; left = rw rest l }

-- A pop of a ring that holds a list of records returns the first, cut to the room of the caller,
-- with its full length, and leaves the ring with exactly the others.
pub pop_takes_first :
    (capacity : ℕ) (q : SpscByteQueue) (d : List ℕ) (ds : List (List ℕ)) (out_cap : ℕ)
    → Holds capacity q (d ∷ ds)
    → ((pop capacity q out_cap).1 ≡ take out_cap d)
      × ((pop capacity q out_cap).2 ≡ length d)
      × Holds capacity (pop capacity q out_cap).0 ds
unfolding pop advance
pop_takes_first capacity q d ds out_cap h =
    let e : read capacity q.buf q.r (distance capacity q.r q.w)
        ≡ bytes16 (length d) ++ (d ++ encode ds) =
      unfold encode in h.bytes in
    let head =
      fetch-Fetched capacity q.buf q.r q.w (bytes16 (length d)) (d ++ encode ds) h.r_lt h.w_lt e in
    let p = advance capacity q.r 2 in
    let body = fetch-Fetched capacity q.buf p q.w d (encode ds) head.in_range h.w_lt head.left in
    let full : (q.w == q.r) ≡ false =
      unfold encode in ground (arith, used-length capacity q (d ∷ ds) h) in
    let one : u16 (next capacity q.r) ≡ next capacity q.r = ground (arith, h.r_lt, h.fits) in
    let two : u16 (next capacity (next capacity q.r)) ≡ next capacity (next capacity q.r) =
      ground (arith, h.r_lt, h.fits) in
    let lo : get_or q.buf q.r 0 ≡ length d % 256 =
      unfold read in ap (λ (l : List ℕ). get_or l 0 0) head.front in
    let hi : get_or q.buf (next capacity q.r) 0 ≡ length d / 256 % 256 =
      unfold read in ap (λ (l : List ℕ). get_or l 1 0) head.front in
    let size : read16 (length d % 256) (length d / 256 % 256) ≡ length d =
      read16-bytes16 (length d) h.records.0.1 in
    let fetched = get_all-eq capacity q.buf (length d) p h.fits head.in_range in
    let back = to_index-lt capacity (advance capacity p (length d)) h.fits body.in_range in
    rw (full, one, two, lo, hi, size, fetched, body.front, back)
      (
        refl,
        refl,
        record {
          fits = h.fits;
          storage = h.storage;
          w_lt = h.w_lt;
          r_lt = body.in_range;
          bytes = body.left;
          records = h.records.1;
        },
      )
