-- ===== src/Texts/Words.antt =====
-- Words joined by spaces, and split again.
use Prim.Native.Char.{Char, char, code}
use Prim.Native.String.{◌++◌}
use text.Mathlib.TextLemmas.{append_assoc, append-nil, nil-append, cons-append}
use python_agent_with_idp.Prelude.{
  String, ◌≡◌, refl, sym, ap, ◌∙◌, Bool, Bool-cases, inl, inr, true, false, if◌then◌else◌, List, [],
  ◌∷◌, All,
}
use python_agent_with_idp.Texts.{is_empty, is_space, end_word, split_from, split}

-- No character of the text is white space.
abbrev pub has_no_space : String → Bool
has_no_space String.[] = true
has_no_space (String.◌∷◌ c s) = if is_space (code c) then false else has_no_space s

-- A text that `split` keeps whole: not empty and without white space.
abbrev pub IsWord : String → Type 0
IsWord s = (is_empty s ≡ false) × (has_no_space s ≡ true)

-- " ".join(words)
unfoldable pub join : List String → String
join [] = ""
join (w ∷ []) = w
join (w ∷ v ∷ ws) = w ++ (" " ++ join (v ∷ ws))

split_from_letter :
    (word : String) (c : Char) (s : String)
    → is_space (code c) ≡ false
    → split_from word (String.◌∷◌ c s) ≡ split_from (word ++ String.◌∷◌ c String.[]) s
unfolding split_from
split_from_letter word c s letter = rw letter refl

split_nil : split "" ≡ []
unfolding split
split_nil = refl

-- A word is read up to the text that follows it.
split_from_word :
    (word w rest : String)
    → has_no_space w ≡ true
    → split_from word (w ++ rest) ≡ split_from (word ++ w) rest
split_from_word word String.[] rest h = rw (nil-append rest, append-nil word) refl
split_from_word word (String.◌∷◌ c w) rest h = elim (Bool-cases (is_space (code c))) [
  | inl space ↦ cc (rw space at h)
  | inr letter ↦
      rw
        (
          cons-append c w rest,
          split_from_letter word c (w ++ rest) letter,
          split_from_word (word ++ String.◌∷◌ c String.[]) w rest (rw letter at h),
          append_assoc word (String.◌∷◌ c String.[]) w,
          cons-append c String.[] w,
          nil-append w,
        )
        refl
]

end_word_lem :
    (w : String) (words : List String) → is_empty w ≡ false → end_word w words ≡ w ∷ words
unfolding end_word
end_word_lem w words h = rw h refl

split_from_end : (w : String) → split_from w "" ≡ end_word w []
unfolding split_from
split_from_end w = refl

split_from_space : (w rest : String) → split_from w (" " ++ rest) ≡ end_word w (split_from "" rest)
unfolding split_from
split_from_space w rest =
    ap (split_from w)
      (cons-append (char 32 tt) "" rest ∙ ap (λ x. String.◌∷◌ (char 32 tt) x) (nil-append rest))

split_word : (w : String) → IsWord w → split w ≡ w ∷ []
unfolding split
split_word w h =
    ap (split_from "") (sym (append-nil w))
    ∙ split_from_word "" w "" h.1
    ∙ ap (λ x. split_from x "") (nil-append w)
    ∙ split_from_end w
    ∙ end_word_lem w [] h.0

split_word_space : (w rest : String) → IsWord w → split (w ++ (" " ++ rest)) ≡ w ∷ split rest
unfolding split
split_word_space w rest h =
    split_from_word "" w (" " ++ rest) h.1
    ∙ ap (λ x. split_from x (" " ++ rest)) (nil-append w)
    ∙ split_from_space w rest
    ∙ end_word_lem w (split_from "" rest) h.0

-- Words that are joined by spaces are split into the same words.
pub split-join : (words : List String) → All IsWord words → split (join words) ≡ words
unfolding join
split-join [] h = split_nil
split-join (w ∷ []) h = split_word w h.0
split-join (w ∷ v ∷ ws) h =
    split_word_space w (join (v ∷ ws)) h.0 ∙ ap (λ l. w ∷ l) (split-join (v ∷ ws) h.1)
