-- ===== src/Kms/Tests.antt =====
-- Runs with a cipher that leaves the blocks as they are, and one that turns bytes round.
use cloud_provider_openstack.Prelude.{
  refl, ◌≡◌, ◌++◌, ◌%◌, ◌<◌, arith, ℕ, List, [], ◌∷◌, eqb, length,
}
use cloud_provider_openstack.Kms.AesCbc.{
  Lawful, length-pad, encrypt, pad, bytes, decrypt-short_panics, Cipher, decrypt-encrypt, decrypt,
  panics,
}

abbrev plain_cipher : Cipher
plain_cipher = record {
  key_fits = λ key. eqb (length key) 32;
  encrypt_blocks = λ key iv text. text;
  decrypt_blocks = λ key iv text. text;
}

plain_lawful : Lawful plain_cipher
plain_lawful = record {
  inverts = λ key iv text. refl;
  keeps_length_back = λ key iv text. refl;
  keeps_length = λ key iv text. refl;
}

abbrev key32 : List ℕ
key32 =
    1 ∷ 2 ∷ 3 ∷ 4 ∷ 5 ∷ 6 ∷ 7 ∷ 8 ∷ 9 ∷ 10 ∷ 11 ∷ 12 ∷ 13 ∷ 14 ∷ 15 ∷ 16 ∷ 17 ∷ 18 ∷ 19 ∷ 20 ∷ 21
    ∷ 22 ∷ 23 ∷ 24 ∷ 25 ∷ 26 ∷ 27 ∷ 28 ∷ 29 ∷ 30 ∷ 31 ∷ 32 ∷ []

abbrev iv16 : List ℕ
iv16 = 9 ∷ 9 ∷ 9 ∷ 9 ∷ 9 ∷ 9 ∷ 9 ∷ 9 ∷ 8 ∷ 8 ∷ 8 ∷ 8 ∷ 8 ∷ 8 ∷ 8 ∷ 8 ∷ []

abbrev sealed_ab : List ℕ
sealed_ab =
    iv16 ++ (97 ∷ 98 ∷ 14 ∷ 14 ∷ 14 ∷ 14 ∷ 14 ∷ 14 ∷ 14 ∷ 14 ∷ 14 ∷ 14 ∷ 14 ∷ 14 ∷ 14 ∷ 14 ∷ [])

decrypt-encrypt_example : decrypt plain_cipher sealed_ab key32 ≡ bytes (97 ∷ 98 ∷ [])
unfolding encrypt
decrypt-encrypt_example =
    decrypt-encrypt plain_lawful (97 ∷ 98 ∷ []) key32 iv16 sealed_ab refl refl refl

length-pad_example : (length (pad key32) % 16 ≡ 0) × (32 < length (pad key32))
length-pad_example = length-pad key32

decrypt-short_panics_example : decrypt plain_cipher iv16 key32 ≡ panics
decrypt-short_panics_example = decrypt-short_panics plain_lawful iv16 key32 refl (omega arith)
