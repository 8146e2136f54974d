-- ===== src/Cluster/Text.antt =====
-- The C strings that server/redis/connect.c cuts up: what a string holds before its terminator, and
-- the functions of string.h and stdlib.h that the file calls.
pub mod Laws
use Prim.Native.Char.{code}
use Prim.Native.String.{String}
use da_bao.Base.{
  ℕ, ◌+◌, ◌-◌, ◌*◌, ◌%◌, ◌^◌, Bool, true, false, ◌&&◌, ◌||◌, ◌==◌, leb, List, [], ◌∷◌, Option, some,
  none, if◌then◌else◌, length, take,
}
use da_bao.Base.Int.{ℤ, pos, signed32}

-- The codes of a literal.
abbrev pub codes : String → List ℕ
codes String.[] = []
codes (String.◌∷◌ c s) = code c ∷ codes s

-- The rest of the string from the first `c` on; `none` is a null pointer.
unfoldable pub strchr : List ℕ → ℕ → Option (List ℕ)
strchr [] c = none
strchr (x ∷ s) c = if x == c then some (x ∷ s) else strchr s c

-- Whether the second string is a prefix of the first.
unfoldable pub starts_with : List ℕ → List ℕ → Bool
starts_with s [] = true
starts_with [] (w ∷ word) = false
starts_with (x ∷ s) (w ∷ word) = (x == w) && starts_with s word

-- The rest of the string from the first copy of `word` on.
unfoldable pub strstr : List ℕ → List ℕ → Option (List ℕ)
unfolding starts_with
strstr [] word = if starts_with [] word then some [] else none
strstr (x ∷ s) word = if starts_with (x ∷ s) word then some (x ∷ s) else strstr s word

-- `strncpy` of the `end - start` characters between two pointers into one string, terminated.
abbrev pub between : List ℕ → List ℕ → List ℕ
between start end = take (length start - length end) start

abbrev pub is_digit : ℕ → Bool
is_digit c = leb b'0' c && leb c b'9'

abbrev pub is_space : ℕ → Bool
is_space c = (c == 32) || (leb 9 c && leb c 13)

-- The number that digits spell behind `n`; the first other character ends it.
unfoldable pub scan : ℕ → List ℕ → ℕ
scan n [] = n
scan n (c ∷ s) = if is_digit c then scan (n * 10 + (c - b'0')) s else n

-- `atoi`: spaces, a sign, digits. A number that is too large is reduced to 32 bits.
unfoldable pub atoi : List ℕ → ℤ
unfolding scan
atoi [] = pos 0
atoi (c ∷ s) =
    if is_space c
    then atoi s
    else (if c == b'-'
        then signed32 (scan_negative (scan 0 s))
        else (if c == b'+'
            then signed32 (scan 0 s % 2 ^ 32)
            else signed32 (scan 0 (c ∷ s) % 2 ^ 32)))
  where
    scan_negative : ℕ → ℕ
    scan_negative n = (2 ^ 32 - n % 2 ^ 32) % 2 ^ 32
