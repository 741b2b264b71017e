-- ===== src/Magnet/Normal.antt =====
-- The normal form of a BTIH.
use tuntu.Prelude.{
  ℕ, suc, ◌*◌, ◌/◌, ◌%◌, ◌<◌, ◌≡◌, refl, ap, Bool, true, ◌&&◌, ◌||◌, List, [], ◌∷◌, ◌++◌, map,
  length, Text, All, all, ◌==◌, nat_eq, arith, subst, Bool-cases, inl, inr,
}
use tuntu.Errors.{ok}
use tuntu.Magnet.{
  between, is_hex, lower, upper, rstrip, strip, b32decode, to_bytes, push, hex_digit, hex,
  decode_base32, normalize, normalize_btih,
}

abbrev pub is_lower_hex : ℕ → Bool
is_lower_hex c = between b'0' b'9' c || between b'a' b'f' c

-- Forty lower-case hexadecimal digits.
pub record IsBtih (b : Text) : Type 0 where
  pub forty : length b ≡ 40
  pub digits : All (λ c. is_lower_hex c ≡ true) b

length-map : (f : ℕ → ℕ) (s : Text) → length (map f s) ≡ length s
length-map f [] = refl
length-map f (c ∷ s) = ap suc (length-map f s)

map-lower-hex : (s : Text) → all is_hex s ≡ true → All (λ c. is_lower_hex c ≡ true) (map lower s)
map-lower-hex [] h = tt
map-lower-hex (c ∷ s) h = (ground arith, map-lower-hex s (ground arith))

hex_digit-hex : (n : ℕ) → n < 16 → is_lower_hex (hex_digit n) ≡ true
hex_digit-hex n h = ground arith

abbrev AreBytes : List ℕ → Type 0
AreBytes = All (λ b. b < 256)

hex-digits : (bs : List ℕ) → AreBytes bs → All (λ c. is_lower_hex c ≡ true) (hex bs)
unfolding hex
hex-digits [] h = tt
hex-digits (b ∷ bs) h = (
  hex_digit-hex (b / 16) (omega arith),
  (hex_digit-hex (b % 16) (omega arith), hex-digits bs h.1),
)

length-hex : (bs : List ℕ) → length (hex bs) ≡ 2 * length bs
unfolding hex
length-hex [] = refl
length-hex (b ∷ bs) = omega (arith, length-hex bs)

to_bytes-AreBytes : (n : ℕ) (rest : List ℕ) → AreBytes rest → AreBytes (to_bytes n ++ rest)
to_bytes-AreBytes n rest h = (
  mod-lt' (n / 4294967296),
  (mod-lt' (n / 16777216), (mod-lt' (n / 65536), (mod-lt' (n / 256), (mod-lt' n, h)))),
)
  where
    mod-lt' : (k : ℕ) → k % 256 < 256
    mod-lt' k = omega arith

b32decode-AreBytes : (s : Text) → AreBytes (b32decode s)
unfolding b32decode
b32decode-AreBytes (a ∷ b ∷ c ∷ d ∷ e ∷ f ∷ g ∷ h ∷ rest) =
    to_bytes-AreBytes (push (push (push (push (push (push (push (push 0 a) b) c) d) e) f) g) h)
      (b32decode rest) (b32decode-AreBytes rest)
b32decode-AreBytes _ = tt

decode-IsBtih : (s : Text) {b : Text} → decode_base32 s ≡ ok b → IsBtih b
unfolding decode_base32
decode-IsBtih s {b = b} h =
    let decoded = b32decode (map upper s) in
    let text : hex decoded ≡ b = ground (arith, h) in
    record {
      forty = ground (arith, h, length-hex decoded);
      digits =
          subst (All (λ c. is_lower_hex c ≡ true)) text
            (hex-digits decoded (b32decode-AreBytes (map upper s)));
    }

normalize-IsBtih : (s : Text) {b : Text} → normalize s ≡ ok b → IsBtih b
unfolding normalize
normalize-IsBtih s {b = b} h = elim (Bool-cases (length s == 40 && all is_hex s)) [
  | inl e ↦ subst IsBtih (ground (arith, e, h)) (record {
    forty = ground (arith, e, length-map lower s);
    digits = map-lower-hex s (ground (arith, e));
  })
  | inr e ↦ decode-IsBtih s (ground (arith, e, h))
]

-- Hexadecimal digits are not spaces.
rstrip_hex : (s : Text) → All (λ c. is_lower_hex c ≡ true) s → rstrip s ≡ s
unfolding rstrip
rstrip_hex [] h = refl
rstrip_hex (c ∷ s) h = ground (arith, rstrip_hex s h.1)

strip_hex : (s : Text) → All (λ c. is_lower_hex c ≡ true) s → strip s ≡ s
unfolding strip
strip_hex [] h = refl
strip_hex (c ∷ s) h = ground (arith, rstrip_hex (c ∷ s) h)

map-lower_hex : (s : Text) → All (λ c. is_lower_hex c ≡ true) s → map lower s ≡ s
map-lower_hex [] h = refl
map-lower_hex (c ∷ s) h = ground (arith, map-lower_hex s h.1)

all_hex : (s : Text) → All (λ c. is_lower_hex c ≡ true) s → all is_hex s ≡ true
all_hex [] h = refl
all_hex (c ∷ s) h = ground (arith, all_hex s h.1)

-- A normal form is its own normal form.
pub normalize_btih_of_IsBtih : (b : Text) → IsBtih b → normalize_btih b ≡ ok b
unfolding normalize_btih
normalize_btih_of_IsBtih b v =
    ground (arith, strip_hex b v.digits, map-lower_hex b v.digits, all_hex b v.digits, v.forty)

-- What normalizes does so to forty lower-case hexadecimal digits, and these normalize to themselves.
pub normalize_btih-IsBtih :
    (value b : Text) → normalize_btih value ≡ ok b → IsBtih b × (normalize_btih b ≡ ok b)
unfolding normalize_btih
normalize_btih-IsBtih value b h =
    let v = normalize-IsBtih (strip value) h in (v, normalize_btih_of_IsBtih b v)
