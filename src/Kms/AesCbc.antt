-- ===== src/Kms/AesCbc.antt =====
-- Encrypt and Decrypt of pkg/kms/encryption/aescbc/aescbc.go, over lists of bytes. The cipher and
-- the source of random bytes are parameters; an index or a slice out of range panics.
use mathlib.Core.Path.{subst}
use cloud_provider_openstack.Prelude.{
  Option, arith, [], ◌≡◌, zero, not, suc, ◌≤◌, ◌<◌, ◌∷◌, some, List, ap, ◌-◌, true, ◌%◌, Bool, ℕ,
  ◌++◌, none, refl, ◌+◌, ltb, eqb, if◌then◌else◌, get_elem?, drop, length-append, length, take,
  false, sym, take_all, drop_all, inr, inl, ◌∙◌, Bool-cases,
}

abbrev pub block_size : ℕ
block_size = 16

-- What the source asks of Go's crypto packages, with the key tested by `aes.NewCipher`.
pub record Cipher : Type 0 where
  pub key_fits : List ℕ → Bool
  pub encrypt_blocks : List ℕ → List ℕ → List ℕ → List ℕ
  pub decrypt_blocks : List ℕ → List ℕ → List ℕ → List ℕ

pub data Crypt : Type 0 where
  bytes : List ℕ → Crypt
  bad_key no_random not_multiple panics : Crypt

-- `bytes.Repeat([]byte{byte(n)}, n)`
unfoldable pub repeat : ℕ → ℕ → List ℕ
repeat zero b = []
repeat (suc n) b = b ∷ repeat n b

-- the padding is there even where the data fills its blocks
unfoldable pub padding_size : List ℕ → ℕ
padding_size plain = block_size - length plain % block_size

unfoldable pub pad : List ℕ → List ℕ
unfolding padding_size repeat
pad plain = plain ++ repeat (padding_size plain) (padding_size plain % 256)

-- `iv` is what `io.ReadFull(rand.Reader, iv)` read, `none` an error of it.
unfoldable pub encrypt : Cipher → Option (List ℕ) → List ℕ → List ℕ → Crypt
unfolding pad
encrypt c random plain key = if not (c.key_fits key) then bad_key else elim random [
  | none ↦ no_random
  | some iv ↦ bytes (iv ++ c.encrypt_blocks key iv (pad plain))
]

-- the last byte, and the bytes before the padding that it tells
unfoldable pub unpad : List ℕ → Crypt
unpad text = elim (get_elem? text (length text - 1)) [
  | none ↦ panics
  | some padding_length ↦
      if ltb (length text) padding_length
      then panics
      else bytes (take (length text - padding_length) text)
]

unfoldable pub decrypt : Cipher → List ℕ → List ℕ → Crypt
unfolding unpad
decrypt c sealed key =
    if not (c.key_fits key)
    then bad_key
    else if ltb (length sealed) block_size
    then panics
    else let iv = take block_size sealed in
      let text = drop block_size sealed in
      if not (eqb (length text % block_size) 0)
      then not_multiple
      else unpad (c.decrypt_blocks key iv text)

length-repeat : (n b : ℕ) → length (repeat n b) ≡ n
unfolding repeat
length-repeat zero b = refl
length-repeat (suc n) b = ap suc (length-repeat n b)

get_elem?-repeat : (n b i : ℕ) → i < n → get_elem? (repeat n b) i ≡ some b
unfolding repeat
get_elem?-repeat zero b i h = absurd (omega arith)
get_elem?-repeat (suc n) b zero h = refl
get_elem?-repeat (suc n) b (suc i) h = get_elem?-repeat n b i (omega arith)

last-repeat :
    (xs : List ℕ) (n b i : ℕ) → i ≡ length xs + n → get_elem? (xs ++ repeat (suc n) b) i ≡ some b
last-repeat [] n b i h = get_elem?-repeat (suc n) b i (omega arith)
last-repeat (x ∷ xs) n b zero h = absurd (omega arith)
last-repeat (x ∷ xs) n b (suc i) h = last-repeat xs n b i (omega arith)

padding_size_range : (plain : List ℕ) → (1 ≤ padding_size plain) × (padding_size plain ≤ 16)
unfolding padding_size
padding_size_range plain = (omega arith, omega arith)

-- The padded text fills whole blocks, at least one of them.
pub length-pad :
    (plain : List ℕ) → (length (pad plain) % 16 ≡ 0) × (length plain < length (pad plain))
unfolding pad padding_size
length-pad plain =
    let n = 16 - length plain % 16 in
    let total = length-append plain (repeat n (n % 256)) in
    let filled = length-repeat n (n % 256) in (omega arith, omega arith)

unpad-repeat : (plain : List ℕ) (k : ℕ) → unpad (plain ++ repeat (suc k) (suc k)) ≡ bytes plain
unfolding unpad
unpad-repeat plain k =
    let tail = repeat (suc k) (suc k) in
    let n : length (plain ++ tail) ≡ length plain + suc k =
      omega (arith, length-append plain tail, length-repeat (suc k) (suc k)) in
    let last = last-repeat plain k (suc k) (length (plain ++ tail) - 1) (omega arith) in
    let enough : ltb (length (plain ++ tail)) (suc k) ≡ false = ground (arith, n) in
    let cut : length plain ≡ length (plain ++ tail) - suc k = omega arith in
    rw (last, unpad)
      (rw enough (ap bytes (take_all (length (plain ++ tail) - suc k) plain tail cut)))

unpad-pad : (plain : List ℕ) → unpad (pad plain) ≡ bytes plain
unfolding pad
unpad-pad plain =
    let range = padding_size_range plain in
    let size : padding_size plain ≡ suc (padding_size plain - 1) = omega arith in
    let byte : padding_size plain % 256 ≡ suc (padding_size plain - 1) = omega arith in
    subst (λ (b : ℕ). unpad (plain ++ repeat (padding_size plain) b) ≡ bytes plain) (sym byte)
      (subst (λ (n : ℕ). unpad (plain ++ repeat n (suc (padding_size plain - 1))) ≡ bytes plain)
        (sym size) (unpad-repeat plain (padding_size plain - 1)))

-- What is relied on of CBC: decryption with the same key and vector inverts encryption, and both
-- keep the length of a text.
pub record Lawful (c : Cipher) : Type 0 where
  pub inverts :
      (key iv text : List ℕ) → c.decrypt_blocks key iv (c.encrypt_blocks key iv text) ≡ text
  pub keeps_length_back :
      (key iv text : List ℕ) → length (c.decrypt_blocks key iv text) ≡ length text
  pub keeps_length : (key iv text : List ℕ) → length (c.encrypt_blocks key iv text) ≡ length text

-- What was encrypted with a key that fits and a full vector is decrypted to the same bytes, of
-- every length, without an error or a panic.
pub decrypt-encrypt :
    {c : Cipher} (l : Lawful c) (plain key iv sealed : List ℕ)
    → c.key_fits key ≡ true
    → length iv ≡ 16
    → encrypt c (some iv) plain key ≡ bytes sealed
    → decrypt c sealed key ≡ bytes plain
unfolding encrypt decrypt
decrypt-encrypt {c = c} l plain key iv sealed fits full h =
    let text = c.encrypt_blocks key iv (pad plain) in
    let whole : iv ++ text ≡ sealed = ground (arith, fits, h) in
    let n = l.keeps_length key iv (pad plain) in
    let long : ltb (length (iv ++ text)) 16 ≡ false = ground (arith, length-append iv text, full) in
    let blocks : eqb (length text % 16) 0 ≡ true = ground (arith, length-pad plain, n) in
    rw (← whole) (
      rw fits (
        rw long (
          rw (take_all 16 iv text full, drop_all 16 iv text full)
            (rw blocks (rw (l.inverts key iv (pad plain)) (unpad-pad plain))))))

length_zero : (xs : List ℕ) → length xs ≡ 0 → xs ≡ []
length_zero [] h = refl
length_zero (x ∷ xs) h = absurd (omega arith)

length-drop : (n : ℕ) (xs : List ℕ) → length (drop n xs) ≡ length xs - n
length-drop zero xs = omega arith
length-drop (suc n) [] = omega arith
length-drop (suc n) (x ∷ xs) = omega (arith, length-drop n xs)

-- With a key that fits, sealed data of a single vector or less, which `Encrypt` never makes, panics
-- in `Decrypt`; it is not answered with an error.
pub decrypt-short_panics :
    {c : Cipher} (l : Lawful c) (sealed key : List ℕ)
    → c.key_fits key ≡ true
    → length sealed ≤ 16
    → decrypt c sealed key ≡ panics
unfolding decrypt
decrypt-short_panics {c = c} l sealed key fits short = elim (Bool-cases (ltb (length sealed) 16)) [
  | inl less ↦ rw fits (rw less refl)
  | inr exact ↦
      let iv = take 16 sealed in
      let text = drop 16 sealed in
      let none_left : length text ≡ 0 = ground (arith, length-drop 16 sealed, short, exact) in
      let whole : eqb (length text % 16) 0 ≡ true = ground (arith, none_left) in
      let nothing =
        length_zero (c.decrypt_blocks key iv text) (l.keeps_length_back key iv text ∙ none_left) in
      rw fits (rw exact (rw whole (rw nothing refl)))
]
