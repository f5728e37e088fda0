-- ===== src/Pylontech/Cursor.antt =====
-- BeWriter and BeReader of src/pylontech.cpp.
--
-- The reader is its unread bytes, p[i] up to p[n - 1], and the flag. A read that does not fit
-- returns 0, clears the flag and leaves the position alone, so a later, shorter read may succeed.
use bms_bridge.Base.{
  ℕ, zero, suc, ◌+◌, ◌*◌, ◌/◌, ◌%◌, ◌≡◌, refl, Bool, true, false, ◌&&◌, List, [], ◌∷◌, ◌++◌, arith,
  ◌∙◌, leb, length, append_assoc, append-nil, Bytes, AreWords, AreBytes, IsByte, All-append, u8, ℤ,
  i16_of, u16_of, IsI16, IsWord, i16_of-u16_of, u16_of-lt,
}

-- w.u8(v)
abbrev pub put_u8 : Bytes → ℕ → Bytes
put_u8 out v = out ++ v ∷ []

-- w.u16(v): the high byte first.
abbrev pub put_u16 : Bytes → ℕ → Bytes
put_u16 out v = put_u8 (put_u8 out (u8 (v / 256))) (u8 (v % 256))

-- w.i16(v)
abbrev pub put_i16 : Bytes → ℤ → Bytes
put_i16 out v = put_u16 out (u16_of v)

-- for (auto v : vs) w.u8(v)
unfoldable pub put_u8s : Bytes → List ℕ → Bytes
put_u8s out [] = out
put_u8s out (v ∷ vs) = put_u8s (put_u8 out v) vs

-- for (auto v : vs) w.u16(v)
unfoldable pub put_u16s : Bytes → List ℕ → Bytes
put_u16s out [] = out
put_u16s out (v ∷ vs) = put_u16s (put_u16 out v) vs

pub record BeReader : Type 0 where
  pub unread : Bytes
  pub ok : Bool

abbrev pub Read : Type 0 → Type 0
Read A = BeReader → A × BeReader

infixl 5 ◌>>=◌
abbrev pub ◌>>=◌ : {A B : Type 0} → Read A → (A → Read B) → Read B
◌>>=◌ m f r = f (m r).0 (m r).1

abbrev pub pure : {A : Type 0} → A → Read A
pure a r = (a, r)

-- The outcome of a read of one or two bytes from those that are left.
unfoldable pub read_u8 : Bytes → Bool → ℕ × BeReader
read_u8 [] ok = (0, record { unread = []; ok = false })
read_u8 (b ∷ bs) ok = (b, record { unread = bs; ok = ok })

unfoldable pub read_u16 : Bytes → Bool → ℕ × BeReader
read_u16 (hi ∷ lo ∷ bs) ok = (hi * 256 + lo, record { unread = bs; ok = ok })
read_u16 bs ok = (0, record { unread = bs; ok = false })

unfoldable pub get_u8 : Read ℕ
get_u8 r = read_u8 r.unread r.ok

unfoldable pub get_u16 : Read ℕ
get_u16 r = read_u16 r.unread r.ok

unfoldable pub get_i16 : Read ℤ
get_i16 = do v ← get_u16; pure (i16_of v)

-- for (uint8_t k = 0; k < n; ++k) v.push_back(r.u16()), as `n` is at most 255.
unfoldable pub get_u16s : ℕ → Read (List ℕ)
get_u16s zero = pure []
get_u16s (suc n) = do v ← get_u16; vs ← get_u16s n; pure (v ∷ vs)

abbrev pub reader : Bytes → BeReader
reader bs = record { unread = bs; ok = true }

-- What a writer appends, as a list of its own.
abbrev pub u16_bytes : ℕ → Bytes
u16_bytes v = u8 (v / 256) ∷ u8 (v % 256) ∷ []

abbrev pub u16s_bytes : List ℕ → Bytes
u16s_bytes [] = []
u16s_bytes (v ∷ vs) = u8 (v / 256) ∷ u8 (v % 256) ∷ u16s_bytes vs

pub put_u16s-eq : (out : Bytes) (vs : List ℕ) → put_u16s out vs ≡ out ++ u16s_bytes vs
unfolding put_u16s
put_u16s-eq out [] = rw append-nil
put_u16s-eq out (v ∷ vs) = put_u16s-eq (put_u16 out v) vs ∙ simp append_assoc

pub put_u8s-eq : (out vs : Bytes) → put_u8s out vs ≡ out ++ vs
unfolding put_u8s
put_u8s-eq out [] = rw append-nil
put_u8s-eq out (v ∷ vs) = rw (put_u8s-eq (put_u8 out v) vs, append_assoc)

pub length-u16s_bytes : (vs : List ℕ) → length (u16s_bytes vs) ≡ length vs * 2
length-u16s_bytes [] = refl
length-u16s_bytes (v ∷ vs) = omega (arith, length-u16s_bytes vs)

-- Output that holds bytes only, as every write leaves it.
pub record IsOutput (out : Bytes) : Type 0 where
  pub bytes : AreBytes out

pub empty-IsOutput : IsOutput []
empty-IsOutput = record { bytes = tt }

pub put_u8-IsOutput : {out : Bytes} (v : ℕ) → IsOutput out → IsByte v → IsOutput (put_u8 out v)
put_u8-IsOutput {out} v h b = record { bytes = All-append IsByte out (v ∷ []) h.bytes (b, tt) }

pub put_u16-IsOutput : {out : Bytes} (v : ℕ) → IsOutput out → IsOutput (put_u16 out v)
put_u16-IsOutput v h =
    put_u8-IsOutput (u8 (v % 256)) (put_u8-IsOutput (u8 (v / 256)) h (omega arith)) (omega arith)

pub put_u16s-IsOutput : (vs : List ℕ) {out : Bytes} → IsOutput out → IsOutput (put_u16s out vs)
unfolding put_u16s
put_u16s-IsOutput [] h = h
put_u16s-IsOutput (v ∷ vs) {out} h =
    put_u16s-IsOutput vs {out = put_u16 out v} (put_u16-IsOutput v h)

pub put_u8s-IsOutput :
    {out : Bytes} (vs : Bytes) → IsOutput out → AreBytes vs → IsOutput (put_u8s out vs)
put_u8s-IsOutput {out} vs h k = record {
  bytes = rw (put_u8s-eq out vs) (All-append IsByte out vs h.bytes k);
}

-- Reading back what was written.
module _ (tl : Bytes) (ok : Bool) where
  pub get_u8-cons :
      (v : ℕ) → get_u8 (record { unread = v ∷ tl; ok = ok }) ≡ (v, record { unread = tl; ok = ok })
  unfolding get_u8 read_u8
  get_u8-cons v = refl

  pub get_u16-put :
      (v : ℕ)
      → IsWord v
      → get_u16 (record { unread = u8 (v / 256) ∷ u8 (v % 256) ∷ tl; ok = ok })
        ≡ (v, record { unread = tl; ok = ok })
  unfolding get_u16 read_u16
  get_u16-put v h = ground arith

  pub get_i16-put :
      (z : ℤ)
      → IsI16 z
      → get_i16 (record { unread = u8 (u16_of z / 256) ∷ u8 (u16_of z % 256) ∷ tl; ok = ok })
        ≡ (z, record { unread = tl; ok = ok })
  unfolding get_i16
  get_i16-put z h = rw (get_u16-put (u16_of z) (u16_of-lt z), i16_of-u16_of z h)

pub get_u16s-put :
    (vs : List ℕ) (tl : Bytes) (ok : Bool)
    → AreWords vs
    → get_u16s (length vs) (record { unread = u16s_bytes vs ++ tl; ok = ok })
      ≡ (vs, record { unread = tl; ok = ok })
unfolding get_u16s
get_u16s-put [] tl ok h = refl
get_u16s-put (v ∷ vs) tl ok h =
    rw (get_u16-put (u16s_bytes vs ++ tl) ok v h.0, get_u16s-put vs tl ok h.1)

-- A reader that can still take `k` bytes and has not failed.
unfoldable pub can_take : ℕ → BeReader → Bool
can_take k r = r.ok && leb k (length r.unread)

can_take-read_u8 :
    (k : ℕ) (bs : Bytes) (ok : Bool)
    → can_take k (read_u8 bs ok).1 ≡ (ok && leb (k + 1) (length bs))
unfolding read_u8 can_take
can_take-read_u8 k [] ok = ground arith
can_take-read_u8 k (b ∷ bs) ok = ground arith

can_take-read_u16 :
    (k : ℕ) (bs : Bytes) (ok : Bool)
    → can_take k (read_u16 bs ok).1 ≡ (ok && leb (k + 2) (length bs))
unfolding read_u16 can_take
can_take-read_u16 k [] ok = ground arith
can_take-read_u16 k (a ∷ []) ok = ground arith
can_take-read_u16 k (a ∷ b ∷ bs) ok = ground arith

-- Each read needs its own bytes on top of what is read later.
pub can_take-get_u8 : (k : ℕ) (r : BeReader) → can_take k (get_u8 r).1 ≡ can_take (k + 1) r
unfolding get_u8 can_take
can_take-get_u8 k r = can_take-read_u8 k r.unread r.ok

pub can_take-get_u16 : (k : ℕ) (r : BeReader) → can_take k (get_u16 r).1 ≡ can_take (k + 2) r
unfolding get_u16 can_take
can_take-get_u16 k r = can_take-read_u16 k r.unread r.ok

pub can_take-get_i16 : (k : ℕ) (r : BeReader) → can_take k (get_i16 r).1 ≡ can_take (k + 2) r
unfolding get_i16
can_take-get_i16 k r = can_take-get_u16 k r

pub can_take-zero : (r : BeReader) → can_take 0 r ≡ r.ok
unfolding can_take
can_take-zero r = ground arith
