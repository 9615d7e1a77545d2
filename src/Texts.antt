-- ===== src/Texts.antt =====
-- The methods of Python's `str` that the authentication code calls.
pub mod Words
use Prim.Native.Char.{code}
use Prim.Native.String.{◌++◌, find, slice, len}
use python_agent_with_idp.Prelude.{
  ℕ, ◌+◌, ◌-◌, String, ◌≡◌, refl, Bool, true, false, ◌||◌, ◌&&◌, ◌==◌, leb, if◌then◌else◌, List, [],
  ◌∷◌, map,
}

-- The code points of a text.
abbrev pub codes : String → List ℕ
codes String.[] = []
codes (String.◌∷◌ c s) = code c ∷ codes s

-- Not s, of a text.
abbrev pub is_empty : String → Bool
is_empty String.[] = true
is_empty (String.◌∷◌ c s) = false

-- t in s
unfoldable pub contains_text : String → String → Bool
contains_text s t = leb (find s t) (len s)

-- s[-n:], of an ASCII text that is long enough
unfoldable pub last_characters : ℕ → String → String
last_characters n s = slice s (len s - n) (len s)

-- c.isspace(), as `split` tests it
unfoldable pub is_space : ℕ → Bool
is_space c =
    (leb 9 c && leb c 13)
    || (leb 28 c && leb c 32)
    || c == 0x85
    || c == 0xa0
    || c == 0x1680
    || (leb 0x2000 c && leb c 0x200a)
    || c == 0x2028
    || c == 0x2029
    || c == 0x202f
    || c == 0x205f
    || c == 0x3000

-- The word read so far, if it has a character, in front of the others.
unfoldable pub end_word : String → List String → List String
end_word word words = if is_empty word then words else word ∷ words

-- The loop of `split`, with the word read so far.
unfoldable pub split_from : String → String → List String
unfolding end_word is_space
split_from word String.[] = end_word word []
split_from word (String.◌∷◌ c s) =
    let rest = split_from "" s in
    let longer = split_from (word ++ String.◌∷◌ c String.[]) s in
    if is_space (code c) then end_word word rest else longer

-- s.split()
unfoldable pub split : String → List String
unfolding split_from
split s = split_from "" s

to_lower : ℕ → ℕ
to_lower c = if leb b'A' c && leb c b'Z' then c + 32 else c

same_codes : List ℕ → List ℕ → Bool
same_codes [] [] = true
same_codes [] (d ∷ ds) = false
same_codes (c ∷ cs) [] = false
same_codes (c ∷ cs) (d ∷ ds) = let rest = same_codes cs ds in if c == d then rest else false

-- s.lower() == t, for a `t` of the letters "bearer" alone: no letter outside ASCII has one of
-- these as its lower case.
unfoldable pub lower_is : String → String → Bool
unfolding to_lower same_codes
lower_is s t = same_codes (map to_lower (codes s)) (codes t)

split_example : split " read  write:runs " ≡ "read" ∷ "write:runs" ∷ []
unfolding split
split_example = refl

lower_is_example : lower_is "BeArer" "bearer" ≡ true
unfolding lower_is
lower_is_example = refl

contains_text_example : contains_text "key_kid" "kid" ≡ true
unfolding contains_text
contains_text_example = refl

last_characters_example : last_characters 6 "426614174000" ≡ "174000"
unfolding last_characters
last_characters_example = refl
