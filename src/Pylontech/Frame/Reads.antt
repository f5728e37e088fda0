-- ===== src/Pylontech/Frame/Reads.antt =====
-- The pairs of digits that a successful decode has read, in a row.
use bms_bridge.Base.{
  ℕ, zero, suc, ◌+◌, ◌-◌, ◌*◌, ◌/◌, ◌≡◌, refl, subst, sym, ap, ◌∙◌, Option, none, some, [], ◌∷◌,
  ◌++◌, append_assoc, arith, inl, inr, Option-cases, bind-eq-some, some_inj, length, take, drop,
  Bytes, u16, ◌>>=◌,
}
use bms_bridge.Pylontech.Hex.{hex_val, chksum_over}
use bms_bridge.Pylontech.Frame.{PylontechFrame, decode_byte, decode_info, decode_body}

-- The bytes of a text of digit pairs.
unfoldable pub unhex : Bytes → Option Bytes
unhex [] = some []
unhex (h ∷ []) = none
unhex (h ∷ l ∷ rest) = do
  hi ← hex_val h
  lo ← hex_val l
  bs ← unhex rest
  some ((hi * 16 + lo) ∷ bs)

-- Two more digits in front move every pair by one.
decode_byte-shift :
    (x h l : ℕ) (rest : Bytes) (i : ℕ)
    → decode_byte (x ∷ h ∷ l ∷ rest) (suc i) ≡ decode_byte (l ∷ rest) i
unfolding decode_byte
decode_byte-shift x h l rest i =
    let first : 1 + suc i * 2 ≡ suc (suc (1 + i * 2)) = omega arith in
    let second : 1 + suc i * 2 + 1 ≡ suc (suc (1 + i * 2 + 1)) = omega arith in rw (second, first)

decode_info-shift :
    (x h l : ℕ) (rest : Bytes) (n i j : ℕ)
    → j ≡ suc i
    → decode_info (x ∷ h ∷ l ∷ rest) j n ≡ decode_info (l ∷ rest) i n
unfolding decode_info
decode_info-shift x h l rest zero i j e = refl
decode_info-shift x h l rest (suc n) i j e = rw (
  e,
  decode_byte-shift x h l rest i,
  decode_info-shift x h l rest n (i + 1) (suc i + 1) (omega arith),
)

-- Decoding pair after pair is `unhex`.
pub decode_info-unhex :
    (n x : ℕ) (body tl : Bytes)
    → length body ≡ n * 2
    → decode_info (x ∷ (body ++ tl)) 0 n ≡ unhex body
unfolding decode_info unhex
decode_info-unhex zero x [] tl e = refl
decode_info-unhex zero x (h ∷ body) tl e = absurd (omega arith)
decode_info-unhex (suc n) x [] tl e = absurd (omega arith)
decode_info-unhex (suc n) x (h ∷ []) tl e = absurd (omega arith)
decode_info-unhex (suc n) x (h ∷ l ∷ body) tl e =
    rw
      (
        decode_info-shift x h l (body ++ tl) n 0 (0 + 1) (omega arith),
        decode_info-unhex n l body tl (omega arith),
      )
      (unfold decode_byte in ground arith)

decode_info-suc :
    (buf : Bytes) (i n : ℕ)
    → decode_info buf i (suc n)
      ≡ (decode_byte buf i >>= λ b. decode_info buf (i + 1) n >>= λ bs. some (b ∷ bs))
unfolding decode_info
decode_info-suc buf i n = refl

decode_info-step :
    (buf : Bytes) (n i : ℕ) (bs : Bytes) (b : ℕ)
    → decode_info buf i (suc n) ≡ some bs
    → ((cs : Bytes)
        → decode_info buf (i + 1) n ≡ some cs
        → decode_info buf (i + 1) (suc n) ≡ some (cs ++ b ∷ []))
    → decode_info buf i (suc (suc n)) ≡ some (bs ++ b ∷ [])
decode_info-step buf n i bs b e later =
    let (a, e0, k) = bind-eq-some (decode_byte buf i) _ (sym (decode_info-suc buf i n) ∙ e) in
    let (cs, e1, k1) = bind-eq-some (decode_info buf (i + 1) n) _ k in
    rw (decode_info-suc buf i (suc n), e0, later cs e1)
      (ap (λ xs. some (xs ++ b ∷ [])) (some_inj k1))

decode_info-concat :
    (buf : Bytes) (n i : ℕ) (bs : Bytes) (b : ℕ)
    → decode_info buf i n ≡ some bs
    → decode_byte buf (i + n) ≡ some b
    → decode_info buf i (suc n) ≡ some (bs ++ b ∷ [])
unfolding decode_info
decode_info-concat buf zero i bs b e h =
    let here : decode_byte buf i ≡ some b =
      subst (λ k. decode_byte buf k ≡ some b) (omega arith) h in
    rw here (ground arith)
decode_info-concat buf (suc n) i bs b e h = decode_info-step buf n i bs b e (λ cs r.
    decode_info-concat buf n (i + 1) cs b r
      (subst (λ k. decode_byte buf k ≡ some b) (omega arith) h))

-- The parts that a successful `decode_body` has read.
pub record Reads (buf : Bytes) (n : ℕ) (f : PylontechFrame) : Type 0 where
  pub len_hi : ℕ
  pub len_lo : ℕ
  pub checksum : ℕ
  pub checksum_lo : ℕ
  pub at_0 : decode_byte buf 0 ≡ some f.ver
  pub at_1 : decode_byte buf 1 ≡ some f.adr
  pub at_2 : decode_byte buf 2 ≡ some f.cid1
  pub at_3 : decode_byte buf 3 ≡ some f.cid2
  pub at_4 : decode_byte buf 4 ≡ some len_hi
  pub at_5 : decode_byte buf 5 ≡ some len_lo
  pub info : decode_info buf 6 ((n - 16) / 2) ≡ some f.info
  pub at_checksum : decode_byte buf (6 + (n - 16) / 2) ≡ some checksum
  pub at_checksum_lo : decode_byte buf (6 + (n - 16) / 2 + 1) ≡ some checksum_lo
  pub summed : chksum_over (take (n - 4) (drop 1 buf)) ≡ u16 (checksum * 256 + checksum_lo)

pub decode_body-Reads :
    (buf : Bytes) (n : ℕ) (f : PylontechFrame) → decode_body buf n ≡ some f → Reads buf n f
unfolding decode_body
decode_body-Reads buf n f e = elim (Option-cases (decode_byte buf 4)) [
  | inl x ↦ absurd (ground arith)
  | inr (lh, e4) ↦ elim (Option-cases (decode_byte buf 5)) [
    | inl x ↦ absurd (ground arith)
    | inr (ll, e5) ↦ elim (Option-cases (decode_byte buf (6 + (n - 16) / 2))) [
      | inl x ↦ absurd (ground arith)
      | inr (ch, e6) ↦ elim (Option-cases (decode_byte buf (6 + (n - 16) / 2 + 1))) [
        | inl x ↦ absurd (ground arith)
        | inr (cl, e7) ↦ record {
          len_hi = lh;
          len_lo = ll;
          checksum = ch;
          checksum_lo = cl;
          at_0 = ground arith;
          at_1 = ground arith;
          at_2 = ground arith;
          at_3 = ground arith;
          at_4 = e4;
          at_5 = e5;
          info = ground arith;
          at_checksum = e6;
          at_checksum_lo = e7;
          summed = ground arith;
        }
      ]
    ]
  ]
]

-- The first six pairs and INFO.
Reads-front :
    (buf : Bytes) (n k : ℕ) (f : PylontechFrame) (r : Reads buf n f)
    → (n - 16) / 2 ≡ k
    → decode_info buf 0 (suc (suc (suc (suc (suc (suc k))))))
      ≡ some (f.ver ∷ f.adr ∷ f.cid1 ∷ f.cid2 ∷ r.len_hi ∷ r.len_lo ∷ f.info)
unfolding decode_info
Reads-front buf n k f r e =
    let inner : decode_info buf 6 k ≡ some f.info =
      subst (λ j. decode_info buf 6 j ≡ some f.info) e r.info in
    rw (r.at_0, r.at_1, r.at_2, r.at_3, r.at_4, r.at_5, inner)

-- With the checksum behind them.
pub Reads-all :
    (buf : Bytes) (n k : ℕ) (f : PylontechFrame) (r : Reads buf n f)
    → (n - 16) / 2 ≡ k
    → decode_info buf 0 (suc (suc (suc (suc (suc (suc (suc (suc k))))))))
      ≡ some (
          f.ver
          ∷ f.adr
          ∷ f.cid1
          ∷ f.cid2
          ∷ r.len_hi
          ∷ r.len_lo
          ∷ (f.info ++ r.checksum ∷ r.checksum_lo ∷ []))
Reads-all buf n k f r e =
    let front = Reads-front buf n k f r e in
    let at = λ (i j : ℕ) (b : ℕ) (same : i ≡ j) (h : decode_byte buf i ≡ some b).
      subst (λ m. decode_byte buf m ≡ some b) same h in
    let one =
      decode_info-concat buf _ 0 _ r.checksum front (at _ _ _ (omega arith) r.at_checksum) in
    let two =
      decode_info-concat buf _ 0 _ r.checksum_lo one (at _ _ _ (omega arith) r.at_checksum_lo) in
    two
    ∙ ap (λ bs. some (f.ver ∷ f.adr ∷ f.cid1 ∷ f.cid2 ∷ r.len_hi ∷ r.len_lo ∷ bs))
        (append_assoc f.info (r.checksum ∷ []) (r.checksum_lo ∷ []))
