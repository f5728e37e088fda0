-- ===== src/Http/Uuid.antt =====
-- gen_uuid4 of src/http_server.cpp. The random numbers that it draws are its arguments.
use bms_bridge.Base.{
  ℕ, ◌+◌, ◌-◌, ◌/◌, ◌%◌, ◌≤◌, ◌≡◌, ◌⊎◌, inl, inr, ap, refl, [], ◌∷◌, ◌++◌, some, ltb, if◌then◌else◌,
  Bytes, length, get_elem?, All, All-append, arith,
}

-- A digit of %x.
abbrev pub hex_digit : ℕ → ℕ
hex_digit v = if ltb v 10 then b'0' + v else b'a' + (v - 10)

-- %04x and %08x of a value that the field can hold.
unfoldable pub hex4 : ℕ → Bytes
hex4 w =
    hex_digit (w / 4096 % 16)
    ∷ hex_digit (w / 256 % 16)
    ∷ hex_digit (w / 16 % 16)
    ∷ hex_digit (w % 16)
    ∷ []

unfoldable pub hex8 : ℕ → Bytes
unfolding hex4
hex8 w = hex4 (w / 65536 % 65536) ++ hex4 (w % 65536)

unfoldable pub gen_uuid4 : (a b c16 d16 e1 e2 : ℕ) → Bytes
unfolding hex8 hex4
gen_uuid4 a b c16 d16 e1 e2 =
    let c = c16 % 4096 + 0x4000 in
    let d = d16 % 16384 + 0x8000 in
    hex8 a
    ++ (b'-' ∷ (hex4 b ++ (b'-' ∷ (hex4 c ++ (b'-' ∷ (hex4 d ++ (b'-' ∷ (hex8 e1 ++ hex4 e2))))))))

abbrev pub IsUuidChar : ℕ → Type 0
IsUuidChar c = ((b'0' ≤ c) × (c ≤ b'9')) ⊎ ((b'a' ≤ c) × (c ≤ b'f')) ⊎ (c ≡ b'-')

digit-IsUuidChar : (v : ℕ) → IsUuidChar (hex_digit (v % 16))
digit-IsUuidChar v = ground arith

version_digit : (c : ℕ) → hex_digit ((c % 4096 + 16384) / 4096 % 16) ≡ b'4'
version_digit c = ground arith

variant_digit :
    (d : ℕ)
    → let v = hex_digit ((d % 16384 + 32768) / 4096 % 16) in
      (v ≡ b'8') ⊎ (v ≡ b'9') ⊎ (v ≡ b'a') ⊎ (v ≡ b'b')
variant_digit d = ground arith

hex4-UuidChars : (w : ℕ) → All IsUuidChar (hex4 w)
unfolding hex4
hex4-UuidChars w = (
  digit-IsUuidChar (w / 4096),
  (digit-IsUuidChar (w / 256), (digit-IsUuidChar (w / 16), (digit-IsUuidChar w, tt))),
)

hex8-UuidChars : (w : ℕ) → All IsUuidChar (hex8 w)
unfolding hex8
hex8-UuidChars w =
    All-append IsUuidChar (hex4 (w / 65536 % 65536)) (hex4 (w % 65536))
      (hex4-UuidChars (w / 65536 % 65536)) (hex4-UuidChars (w % 65536))

-- A group behind its hyphen.
group : (xs ys : Bytes) → All IsUuidChar xs → All IsUuidChar ys → All IsUuidChar (xs ++ b'-' ∷ ys)
group xs ys h k = All-append IsUuidChar xs (b'-' ∷ ys) h (inr (inr refl), k)

-- Whatever numbers are drawn, the request id is a version 4 UUID: 36 characters, all of them
-- lower-case hexadecimal digits or hyphens, with hyphens at places 8, 13, 18 and 23, the version 4
-- at place 14, and one of 8, 9, a and b at place 19.
pub gen_uuid4-IsVersion4 :
    (a b c16 d16 e1 e2 : ℕ)
    → let id = gen_uuid4 a b c16 d16 e1 e2 in
      (length id ≡ 36)
      × All IsUuidChar id
      × (get_elem? id 8 ≡ some b'-')
      × (get_elem? id 13 ≡ some b'-')
      × (get_elem? id 18 ≡ some b'-')
      × (get_elem? id 23 ≡ some b'-')
      × (get_elem? id 14 ≡ some b'4')
      × ((get_elem? id 19 ≡ some b'8')
          ⊎ (get_elem? id 19 ≡ some b'9')
          ⊎ (get_elem? id 19 ≡ some b'a')
          ⊎ (get_elem? id 19 ≡ some b'b'))
unfolding gen_uuid4 hex8 hex4
gen_uuid4-IsVersion4 a b c16 d16 e1 e2 =
    let c = c16 % 4096 + 16384 in
    let d = d16 % 16384 + 32768 in
    let node = hex8 e1 ++ hex4 e2 in
    let variant = hex4 d ++ b'-' ∷ node in
    let version = hex4 c ++ b'-' ∷ variant in
    (
      refl,
      group (hex8 a) (hex4 b ++ b'-' ∷ version) (hex8-UuidChars a) (
          group (hex4 b) version (hex4-UuidChars b) (
            group (hex4 c) variant (hex4-UuidChars c) (
              group (hex4 d) node (hex4-UuidChars d) (
                All-append IsUuidChar (hex8 e1) (hex4 e2) (hex8-UuidChars e1)
                  (hex4-UuidChars e2))))),
      refl,
      refl,
      refl,
      refl,
      ap some (version_digit c16),
      elim (variant_digit d16) [
        | inl e ↦ inl (ap some e)
        | inr (inl e) ↦ inr (inl (ap some e))
        | inr (inr (inl e)) ↦ inr (inr (inl (ap some e)))
        | inr (inr (inr e)) ↦ inr (inr (inr (ap some e)))
      ],
    )
