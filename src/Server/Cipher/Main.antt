-- ===== src/Server/Cipher/Main.antt =====
-- main of server/cipher.c, which enciphers its first argument with its second and tries the way back.
pub mod Laws
use da_bao.Base.{
  ℕ, suc, ◌==◌, leb, ltb, List, [], ◌∷◌, ◌++◌, length, drop, replicate, Option, some, none,
  if◌then◌else◌,
}
use da_bao.Server.Cipher.{size, strlen, encipher, decipher}
use da_bao.Server.Database.{same_text}

-- `BUFSIZE`
abbrev pub buf_size : ℕ
buf_size = 9

-- How the program ends: with the hint, with an argument copied past its array, at an assertion, or
-- well, with the two strings that it printed.
pub data Ending : Type 0 where
  usage overflowed asserts : Ending
  finished : List ℕ → List ℕ → Ending

-- `strcpy` of an argument and its terminator into an array; `none` is a write past its end.
unfoldable pub strcpy : List ℕ → List ℕ → Option (List ℕ)
strcpy dest source =
    if ltb (length source) (length dest)
    then some (source ++ (0 ∷ drop (suc (length source)) dest))
    else none

-- The string that an array holds, as `%s` prints it and `strcmp` reads it.
unfoldable pub c_str : List ℕ → List ℕ
c_str [] = []
c_str (x ∷ s) = if x == 0 then [] else x ∷ c_str s

-- `main` from the call of `encipher` on
unfoldable pub round_trip : List ℕ → List ℕ → List ℕ → List ℕ → Ending
round_trip plaintext key ciphertext solution = elim (encipher plaintext key ciphertext) [
  | none ↦ asserts
  | some written ↦ elim (decipher solution key written) [
    | none ↦ asserts
    | some back ↦
        (if same_text (c_str plaintext) (c_str back)
          then finished (c_str plaintext) (c_str back)
          else asserts)
  ]
]

-- `main` on its arguments behind the program's name. What the arrays `ciphertext` and `solution`
-- hold at first is an argument, since nothing sets it.
unfoldable pub main : List (List ℕ) → List ℕ → List ℕ → Ending
main (plain_text ∷ key_text ∷ []) ciphertext solution =
    elim (strcpy (replicate buf_size 0) plain_text) [
      | none ↦ overflowed
      | some plaintext ↦
          (if leb (strlen plaintext) size
            then elim (strcpy (replicate buf_size 0) key_text) [
              | none ↦ overflowed
              | some key ↦
                  (if leb (strlen key) size
                    then round_trip plaintext key ciphertext solution
                    else asserts)
            ]
            else asserts)
    ]
main _ ciphertext solution = usage
