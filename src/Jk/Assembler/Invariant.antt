-- ===== src/Jk/Assembler/Invariant.antt =====
-- What the assembler keeps, whatever is pushed.
use bms_bridge.Base.{
  ℕ, zero, suc, ◌-◌, ◌<◌, ◌≡◌, ◌⊎◌, inl, inr, refl, sym, ◌∙◌, subst, [], ◌∷◌, ◌++◌, true, false,
  not, leb, ◌==◌, ◌&&◌, if◌then◌else◌, Bool-cases, ==_iff, some_inj, length, take, Option, none,
  some, Bytes, arith,
}
use bms_bridge.Jk.Wire.{response_size, response_magic, byte_at, jk_crc8}
use bms_bridge.Jk.Assembler.{
  JkFrameAssembler, empty, complete, after_push, push_byte, push_chunk, take_complete_frame, reset,
}
use bms_bridge.Jk.Assembler.Delivery.{IsResponse, byte_at-last, last-place}

-- The buffer is shorter than a response and agrees with the magic as far as it goes; what is ready
-- is a response.
pub record Assembling (a : JkFrameAssembler) : Type 0 where
  pub short : length a.buf < response_size
  pub prefix : (i : ℕ) → i < 4 → i < length a.buf → byte_at a.buf i ≡ byte_at response_magic i
  pub whole : (a.ready ≡ []) ⊎ IsResponse a.ready

byte_at-before : (p : Bytes) (b i : ℕ) → i < length p → byte_at (p ++ b ∷ []) i ≡ byte_at p i
byte_at-before [] b i h = absurd (omega arith)
byte_at-before (x ∷ p) b zero h = refl
byte_at-before (x ∷ p) b (suc i) h = byte_at-before p b i (omega arith)

cleared : (r : Bytes) → (r ≡ []) ⊎ IsResponse r → Assembling (record { buf = []; ready = r })
cleared r w = record {
  short = omega arith;
  prefix = λ i lt in_buf. absurd (omega arith);
  whole = w;
}

lt-or-last : (i n : ℕ) → i < suc n → (i < n) ⊎ (i ≡ n)
lt-or-last i n h = ground arith

-- The buffer with one more byte, which passed the test of the magic.
grown-prefix :
    (p : Bytes) (b : ℕ)
    → ((i : ℕ) → i < 4 → i < length p → byte_at p i ≡ byte_at response_magic i)
    → (length p < 4 → b ≡ byte_at response_magic (length p))
    → (i : ℕ) → i < 4
    → i < suc (length p)
    → byte_at (p ++ b ∷ []) i ≡ byte_at response_magic i
grown-prefix p b before here i lt in_buf = elim (lt-or-last i (length p) in_buf) [
  | inl l ↦ byte_at-before p b i l ∙ before i lt l
  | inr e ↦
      subst (λ j. byte_at (p ++ b ∷ []) j ≡ byte_at response_magic j) (sym e)
        (byte_at-last p b [] ∙ here (subst (λ j. j < 4) e lt))
]

complete-Assembling :
    (buf r : Bytes)
    → length buf ≡ 300
    → ((i : ℕ) → i < 4 → byte_at buf i ≡ byte_at response_magic i)
    → (r ≡ []) ⊎ IsResponse r
    → Assembling (complete buf r)
unfolding complete
complete-Assembling buf r size magic w =
    cleared _ (go (Bool-cases (jk_crc8 (take 299 buf) == byte_at buf 299)))
  where
    go :
        ((jk_crc8 (take 299 buf) == byte_at buf 299) ≡ true)
          ⊎ ((jk_crc8 (take 299 buf) == byte_at buf 299) ≡ false)
        → ((if jk_crc8 (take 299 buf) == byte_at buf 299 then buf else r) ≡ [])
          ⊎ IsResponse (if jk_crc8 (take 299 buf) == byte_at buf 299 then buf else r)
    go (inl e) = rw e (inr (record { size = size; magic = magic; checksum = (==_iff _ _).0 e }))
    go (inr e) = rw e w

magic-passed : (n b m : ℕ) → (leb (suc n) 4 && not (b == m)) ≡ false → n < 4 → b ≡ m
magic-passed n b m e lt = ground arith

not-full : (n : ℕ) → (suc n == 300) ≡ false → n < 300 → suc n < 300
not-full n e lt = ground arith

after_push-Assembling :
    (p : Bytes) (b : ℕ) (r : Bytes)
    → Assembling (record { buf = p; ready = r })
    → Assembling (after_push (p ++ b ∷ []) r)
unfolding after_push
after_push-Assembling p b r v =
    let pos_eq : length (p ++ b ∷ []) - 1 ≡ length p = omega (arith, last-place p b) in
    rw (pos_eq, byte_at-last p b [], last-place p b)
      (elim (Bool-cases (leb (suc (length p)) 4 && not (b == byte_at response_magic (length p)))) [
        | inl e ↦ rw e (cleared r v.whole)
        | inr e ↦ rw e (
            passed (grown-prefix p b v.prefix (magic-passed _ _ _ e))
              (Bool-cases (suc (length p) == 300)))
      ])
  where
    passed :
        ((i : ℕ) → i < 4 → i < suc (length p) → byte_at (p ++ b ∷ []) i ≡ byte_at response_magic i)
        → ((suc (length p) == 300) ≡ true) ⊎ ((suc (length p) == 300) ≡ false)
        → Assembling (
            if suc (length p) == response_size
            then complete (p ++ b ∷ []) r
            else record { buf = p ++ b ∷ []; ready = r })
    passed magic (inl e) =
        let full : suc (length p) ≡ 300 = (==_iff _ _).0 e in
        rw e (
          complete-Assembling (p ++ b ∷ []) r (last-place p b ∙ full)
            (λ i lt. magic i lt (omega arith)) v.whole)
    passed magic (inr e) = rw e (record {
      short = omega (arith, last-place p b, not-full (length p) e v.short);
      prefix = λ i lt in_buf. magic i lt (omega (arith, last-place p b));
      whole = v.whole;
    })

-- Every byte keeps the invariant.
push_byte-Assembling : (b : ℕ) (a : JkFrameAssembler) → Assembling a → Assembling (push_byte b a)
unfolding push_byte
push_byte-Assembling b a v =
    elim (empty a.buf && not (b == 0x55))
      as (λ t. Assembling (if t then a else after_push (a.buf ++ b ∷ []) a.ready)) [
        | true ↦ v
        | false ↦ after_push-Assembling a.buf b a.ready v
      ]

-- Whatever bytes arrive, in whatever chunks: the buffer stays shorter than a response and is the
-- start of one, and a frame that is ready is 300 bytes with the magic and a right checksum.
pub push_chunk-Assembling :
    (bytes : Bytes) (a : JkFrameAssembler) → Assembling a → Assembling (push_chunk bytes a)
unfolding push_chunk
push_chunk-Assembling [] a v = v
push_chunk-Assembling (b ∷ bs) a v =
    push_chunk-Assembling bs (push_byte b a) (push_byte-Assembling b a v)

pub reset-Assembling : (a : JkFrameAssembler) → Assembling (reset a)
unfolding reset
reset-Assembling a = cleared [] (inl refl)

-- So what take_complete_frame hands over is a response.
pub take-IsResponse :
    (a : JkFrameAssembler) (f : Bytes)
    → Assembling a
    → (take_complete_frame a).0 ≡ some f
    → IsResponse f
unfolding take_complete_frame
take-IsResponse a f v e = taken a.ready v.whole e
  where
    taken :
        (ready : Bytes)
        → (ready ≡ []) ⊎ IsResponse ready
        → (if◌then◌else◌ {A = Option Bytes × JkFrameAssembler}
            (empty ready)
            (none, a)
            (some ready, record a { ready = [] })).0
          ≡ some f
        → IsResponse f
    taken [] w e = cc
    taken (x ∷ xs) (inl n) e = cc
    taken (x ∷ xs) (inr w) e = subst IsResponse (some_inj e) w
