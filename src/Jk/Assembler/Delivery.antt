-- ===== src/Jk/Assembler/Delivery.antt =====
-- Which frames the assembler hands over.
use bms_bridge.Base.{
  ℕ, suc, ◌-◌, ◌<◌, ◌≢◌, ◌≡◌, refl, sym, ◌∙◌, ap, subst, List, [], ◌∷◌, ◌++◌, append_assoc, false,
  not, leb, ◌==◌, ◌&&◌, ==_refl, length, length-append, take, All, Bytes, arith,
}
use bms_bridge.Jk.Wire.{response_size, response_magic, byte_at, jk_crc8}
use bms_bridge.Jk.Assembler.{JkFrameAssembler, complete, after_push, push_byte, push_chunk}

-- A response as the BMS sends it: 300 bytes, the magic in front and the checksum at the end.
pub record IsResponse (f : Bytes) : Type 0 where
  pub size : length f ≡ response_size
  pub magic : (i : ℕ) → i < 4 → byte_at f i ≡ byte_at response_magic i
  pub checksum : jk_crc8 (take (response_size - 1) f) ≡ byte_at f (response_size - 1)

pub byte_at-last : (p : Bytes) (b : ℕ) (q : Bytes) → byte_at (p ++ b ∷ q) (length p) ≡ b
byte_at-last [] b q = refl
byte_at-last (x ∷ p) b q = byte_at-last p b q

pub last-place : (p : Bytes) (b : ℕ) → length (p ++ b ∷ []) ≡ suc (length p)
last-place p b = omega (arith, length-append p (b ∷ []))

not_start : (b : ℕ) → b ≢ 0x55 → (b == 0x55) ≡ false
not_start b h = ground arith

in_magic : (n b m : ℕ) → (n < 4 → b ≡ m) → (leb (suc n) 4 && not (b == m)) ≡ false
in_magic n b m ok = ground arith

not_full : (n : ℕ) → suc n < 300 → (suc n == 300) ≡ false
not_full n small = ground arith

-- The magic is checked at each of the first four bytes.
after_push-grow :
    (p : Bytes) (b : ℕ) (r : Bytes)
    → (length p < 4 → b ≡ byte_at response_magic (length p))
    → suc (length p) < 300
    → after_push (p ++ b ∷ []) r ≡ record { buf = p ++ b ∷ []; ready = r }
unfolding after_push
after_push-grow p b r ok small =
    let pos_eq : length (p ++ b ∷ []) - 1 ≡ length p = omega (arith, last-place p b) in
    rw (pos_eq, byte_at-last p b [], last-place p b)
      (rw (in_magic (length p) b (byte_at response_magic (length p)) ok, not_full (length p) small)
        refl)

after_push_complete :
    (p : Bytes) (b : ℕ) (r : Bytes)
    → suc (length p) ≡ 300
    → jk_crc8 (take (response_size - 1) (p ++ b ∷ [])) ≡ byte_at (p ++ b ∷ []) (response_size - 1)
    → after_push (p ++ b ∷ []) r ≡ record { buf = []; ready = p ++ b ∷ [] }
unfolding after_push complete
after_push_complete p b r full crc =
    let size : length (p ++ b ∷ []) ≡ 300 = last-place p b ∙ full in
    rw (size, crc, ==_refl (byte_at (p ++ b ∷ []) 299)) refl

-- A buffered byte, or the first byte of the magic, is pushed.
push_byte-pushes :
    (p : Bytes) (b : ℕ) (r : Bytes)
    → (length p < 4 → b ≡ byte_at response_magic (length p))
    → push_byte b (record { buf = p; ready = r }) ≡ after_push (p ++ b ∷ []) r
unfolding push_byte
push_byte-pushes [] b r ok = rw (ok (omega arith)) refl
push_byte-pushes (x ∷ p) b r ok = refl

next-magic :
    (p : Bytes) (b : ℕ) (q : Bytes)
    → IsResponse (p ++ b ∷ q)
    → length p < 4
    → b ≡ byte_at response_magic (length p)
next-magic p b q v lt = sym (byte_at-last p b q) ∙ v.magic (length p) lt

-- Behind a prefix of a frame, the rest of it completes it.
push_chunk-rest :
    (p : Bytes) (b : ℕ) (q r : Bytes)
    → IsResponse (p ++ b ∷ q)
    → push_chunk (b ∷ q) (record { buf = p; ready = r }) ≡ record { buf = []; ready = p ++ b ∷ q }
unfolding push_chunk
push_chunk-rest p b [] r v =
    push_byte-pushes p b r (next-magic p b [] v)
    ∙ after_push_complete p b r (omega (arith, length-append p (b ∷ []), v.size)) v.checksum
push_chunk-rest p b (c ∷ q) r v =
    let magic = next-magic p b (c ∷ q) v in
    let small : suc (length p) < 300 = omega (arith, length-append p (b ∷ c ∷ q), v.size) in
    let whole = append_assoc p (b ∷ []) (c ∷ q) in
    ap (push_chunk (c ∷ q)) (push_byte-pushes p b r magic ∙ after_push-grow p b r magic small)
    ∙ push_chunk-rest (p ++ b ∷ []) c q r (subst IsResponse (sym whole) v)
    ∙ ap (λ f. record { buf = []; ready = f }) whole

pub whole-response :
    (f r : Bytes)
    → IsResponse f
    → push_chunk f (record { buf = []; ready = r }) ≡ record { buf = []; ready = f }
whole-response [] r v = absurd (omega (arith, v.size))
whole-response (b ∷ q) r v = push_chunk-rest [] b q r v

push_byte-skips :
    (b : ℕ) (r : Bytes)
    → b ≢ 0x55
    → push_byte b (record { buf = []; ready = r }) ≡ record { buf = []; ready = r }
unfolding push_byte
push_byte-skips b r h = rw (not_start b h) refl

-- Bytes with no 0x55 in them are skipped between frames.
pub push_chunk-noise :
    (noise r : Bytes)
    → All (λ b. b ≢ 0x55) noise
    → push_chunk noise (record { buf = []; ready = r }) ≡ record { buf = []; ready = r }
unfolding push_chunk
push_chunk-noise [] r h = refl
push_chunk-noise (b ∷ noise) r h =
    ap (push_chunk noise) (push_byte-skips b r h.0) ∙ push_chunk-noise noise r h.1

-- Chunks may be cut anywhere.
pub push_chunk-append :
    (xs ys : Bytes) (a : JkFrameAssembler)
    → push_chunk (xs ++ ys) a ≡ push_chunk ys (push_chunk xs a)
unfolding push_chunk
push_chunk-append [] ys a = refl
push_chunk-append (x ∷ xs) ys a = push_chunk-append xs ys (push_byte x a)

abbrev pub push_all : List Bytes → JkFrameAssembler → JkFrameAssembler
push_all [] a = a
push_all (chunk ∷ chunks) a = push_all chunks (push_chunk chunk a)

abbrev pub concat : List Bytes → Bytes
concat [] = []
concat (chunk ∷ chunks) = chunk ++ concat chunks

push_all-concat :
    (chunks : List Bytes) (a : JkFrameAssembler) → push_all chunks a ≡ push_chunk (concat chunks) a
unfolding push_chunk
push_all-concat [] a = refl
push_all-concat (chunk ∷ chunks) a =
    push_all-concat chunks (push_chunk chunk a) ∙ sym (push_chunk-append chunk (concat chunks) a)

-- Between frames, any bytes without 0x55 and then a response make the assembler ready with exactly
-- that response, into whatever chunks the bytes are cut.
pub push_all-response :
    (noise f r : Bytes) (chunks : List Bytes)
    → All (λ b. b ≢ 0x55) noise
    → IsResponse f
    → concat chunks ≡ noise ++ f
    → push_all chunks (record { buf = []; ready = r }) ≡ record { buf = []; ready = f }
push_all-response noise f r chunks h v e =
    push_all-concat chunks _
    ∙ ap (λ xs. push_chunk xs (record { buf = []; ready = r })) e
    ∙ push_chunk-append noise f _
    ∙ ap (push_chunk f) (push_chunk-noise noise r h)
    ∙ whole-response f r v

-- While nothing of a frame is buffered, a stray 0x55 right before a response hides it, with no 0x55
-- behind its first byte: nothing of it is kept.
pub push_chunk-hidden :
    (body r : Bytes)
    → All (λ b. b ≢ 0x55) body
    → IsResponse (0x55 ∷ body)
    → push_chunk (0x55 ∷ 0x55 ∷ body) (record { buf = []; ready = r })
      ≡ record { buf = []; ready = r }
unfolding push_chunk push_byte after_push
push_chunk-hidden body r h v = push_chunk-noise body r h
