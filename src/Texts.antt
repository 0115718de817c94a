-- ===== src/Texts.antt =====
-- Python's `str` as the commands use it: a text is the list of its code points.
use Prim.Native.String.{String}
use Prim.Native.Char.{code}
use openframetap.Prelude.{
  ℕ, List, [], ◌∷◌, Bool, true, false, ◌&&◌, ◌||◌, ◌==◌, leb, if◌then◌else◌, ◌+◌,
}
use openframetap.Bytes.{same_bytes}

abbrev pub text : String → List ℕ
text String.[] = []
text (String.◌∷◌ c rest) = code c ∷ text rest

-- value.startswith(prefix)
abbrev pub starts_with : List ℕ → List ℕ → Bool
starts_with value [] = true
starts_with [] (p ∷ ps) = false
starts_with (c ∷ cs) (p ∷ ps) = c == p && starts_with cs ps

-- the characters that `strip` removes
abbrev pub is_space : ℕ → Bool
is_space c =
    (leb 9 c && leb c 13)
    || (leb 28 c && leb c 32)
    || c == 0x85
    || c == 0xA0
    || c == 0x1680
    || (leb 0x2000 c && leb c 0x200A)
    || c == 0x2028
    || c == 0x2029
    || c == 0x202F
    || c == 0x205F
    || c == 0x3000

-- not value.strip()
abbrev pub is_blank : List ℕ → Bool
is_blank [] = true
is_blank (c ∷ cs) = is_space c && is_blank cs

-- A character that `lower` changes into another of ASCII's; no other character becomes one.
abbrev pub lower_letter : ℕ → ℕ
lower_letter c = if leb 65 c && leb c 90 then c + 32 else c

abbrev pub is_hexadecimal : ℕ → Bool
is_hexadecimal c = (leb 48 c && leb c 57) || (leb 97 c && leb c 102)

-- name in names
abbrev pub is_in : List ℕ → List (List ℕ) → Bool
is_in name [] = false
is_in name (n ∷ ns) = same_bytes name n || is_in name ns

-- value.split(separator)
abbrev pub onto_first : ℕ → List (List ℕ) → List (List ℕ)
onto_first c [] = (c ∷ []) ∷ []
onto_first c (part ∷ parts) = (c ∷ part) ∷ parts

abbrev pub split_at : ℕ → List ℕ → List (List ℕ)
split_at separator [] = [] ∷ []
split_at separator (c ∷ cs) =
    let parts = split_at separator cs in if c == separator then [] ∷ parts else onto_first c parts

-- the last part, as of `rsplit(separator, 1)[-1]`
abbrev pub last_part : List (List ℕ) → List ℕ
last_part [] = []
last_part (part ∷ []) = part
last_part (part ∷ other ∷ parts) = last_part (other ∷ parts)

abbrev pub all_of : (ℕ → Bool) → List ℕ → Bool
all_of test [] = true
all_of test (c ∷ cs) = test c && all_of test cs
